-- ===== src/Supervisor/Decisions.antt =====
-- The supervisor's endpoints on one request: backend/api/supervisor.py.
use supportops_ai.Common.{◌≡◌, refl, false, Option, none, some, List, [], ◌∷◌, Text, codes, text_eq}
use supportops_ai.Python.{Uuid, Time, Exn, http_error, ok, raised, Exec, pure, ◌>>=◌, ◌>>◌}
use supportops_ai.Python.Returns.{Returns}
use supportops_ai.Enums.{ApprovalStatus}
use supportops_ai.Models.{User, ApprovalRequest}
use supportops_ai.Services.{Services}
use supportops_ai.Json.{Json}
use supportops_ai.Audit.{log_audit_event, log_audit_event-Returns}
use supportops_ai.Approvals.{get_by_ticket_id, decide, update_draft}
use supportops_ai.Supervisor.{
  SupervisorQueueItem, to_queue_item, get_or_404, get_queue_item, decide_ticket, approve_ticket,
  edit_draft, reject_ticket,
}

module _ {W : Type 0} (s : Services W) where
  -- the calls of `get_by_ticket_id`
  abbrev pub lookup : Uuid → Exec W (List ApprovalRequest)
  lookup ticket_id = s.select_approvals (λ r. text_eq r.ticket_id ticket_id) false

  abbrev pub absent : Exn
  absent = http_error 404 (codes "Ticket not found in supervisor queue")

  -- The session opens and closes, and finds no request for approval of the ticket: each of the
  -- four endpoints on one ticket raises 404, in the world that these three calls left, so nothing
  -- is written, no audit event either.
  pub absent_404 :
      (user : User) (ticket_id : Uuid) (comments : Option Text) (draft : Text) (w w1 w2 w3 : W)
      → s.open_session w ≡ (ok tt, w1)
      → lookup ticket_id w1 ≡ (ok [], w2)
      → s.close_session w2 ≡ (ok tt, w3)
      → (get_queue_item s user ticket_id w ≡ (raised absent, w3))
        × (approve_ticket s user ticket_id comments w ≡ (raised absent, w3))
        × (edit_draft s user ticket_id draft w ≡ (raised absent, w3))
        × (reject_ticket s user ticket_id comments w ≡ (raised absent, w3))
  unfolding get_queue_item approve_ticket edit_draft reject_ticket decide_ticket get_or_404
      get_by_ticket_id
  absent_404 user ticket_id comments draft w w1 w2 w3 opened looked closed = (
    rw opened (rw looked (rw closed)),
    rw opened (rw looked (rw closed)),
    rw opened (rw looked (rw closed)),
    rw opened (rw looked (rw closed)),
  )

  -- a decided request, next to the one that it was
  pub record Decided (r : ApprovalRequest) (decision : ApprovalStatus) (user : User)
      (remark : Option Text) (now : Time) (item : SupervisorQueueItem) : Type 0 where
    pub ticket : item.ticket_id ≡ r.ticket_id
    pub status : item.status ≡ decision
    pub reviewer : item.reviewer_id ≡ some user.id
    pub comments : item.comments ≡ remark
    pub reviewed_at : item.reviewed_at ≡ some now
    pub draft : item.draft_response ≡ r.draft_response

  -- the request as `decide` leaves it
  abbrev decided_row :
      ApprovalRequest → ApprovalStatus → User → Option Text → Time → ApprovalRequest
  decided_row r status user comments now = record r {
    status = status;
    approved_by = some user.id;
    comments = comments;
    decided_at = some now;
  }

  decide_ticket-ok :
      (user : User) (ticket_id : Uuid) (status : ApprovalStatus) (comments : Option Text)
      (r : ApprovalRequest) (rest : List ApprovalRequest) (now : Time) (w w1 w2 w3 w4 w5 w6 : W)
      → s.open_session w ≡ (ok tt, w1)
      → lookup ticket_id w1 ≡ (ok (r ∷ rest), w2)
      → s.now w2 ≡ (ok now, w3)
      → s.flush_approval (decided_row r status user comments now) w3 ≡ (ok tt, w4)
      → s.commit w4 ≡ (ok tt, w5)
      → s.close_session w5 ≡ (ok tt, w6)
      → decide_ticket s user ticket_id status comments w
        ≡ (ok (to_queue_item (decided_row r status user comments now)), w6)
  unfolding decide_ticket get_or_404 get_by_ticket_id decide
  decide_ticket-ok user ticket_id status comments r rest now w w1 w2 w3 w4 w5 w6 opened looked timed
        flushed saved closed =
      rw opened (rw looked (rw timed (rw flushed (rw saved (rw closed)))))

  to_queue_item-Decided :
      (r : ApprovalRequest) (status : ApprovalStatus) (user : User) (comments : Option Text)
      (now : Time)
      → Decided r status user comments now (to_queue_item (decided_row r status user comments now))
  unfolding to_queue_item
  to_queue_item-Decided r status user comments now = record {
    ticket = refl;
    status = refl;
    reviewer = refl;
    comments = refl;
    reviewed_at = refl;
    draft = refl;
  }

  -- The request for approval is found, the clock answers, and flush, commit and the end of the
  -- session return. Approval and rejection then return the request with their status, APPROVED and
  -- REJECTED, with the user as its reviewer, the comments and the time, and with its ticket and
  -- draft as they were, whether or not the audit event can be written.
  pub decision-Decided :
      (user : User) (ticket_id : Uuid) (comments : Option Text) (r : ApprovalRequest)
      (rest : List ApprovalRequest) (now : Time) (w w1 w2 w3 : W)
      → s.open_session w ≡ (ok tt, w1)
      → lookup ticket_id w1 ≡ (ok (r ∷ rest), w2)
      → s.now w2 ≡ (ok now, w3)
      → ((row : ApprovalRequest) → Returns (s.flush_approval row))
      → Returns s.commit
      → Returns s.close_session
      → ((item : SupervisorQueueItem) × (w' : W) × (approve_ticket s user ticket_id comments w
            ≡ (ok item, w'))
          × Decided r ApprovalStatus.approved user comments now item)
        × ((item : SupervisorQueueItem) × (w' : W) × (reject_ticket s user ticket_id comments w
              ≡ (ok item, w'))
            × Decided r ApprovalStatus.rejected user comments now item)
  unfolding approve_ticket reject_ticket
  decision-Decided user ticket_id comments r rest now w w1 w2 w3 opened looked timed flush commit
        close =
      (finish ApprovalStatus.approved _ _ _, finish ApprovalStatus.rejected _ _ _)
    where
      finish :
          (status : ApprovalStatus) (event description : Text) (metadata : Option Json)
          → (item : SupervisorQueueItem) × (w' : W) × ((decide_ticket s user ticket_id status
                    comments
                  >>= λ item.
                      log_audit_event s ticket_id event description (some user.id) metadata
                      >> pure item)
                w
              ≡ (ok item, w'))
            × Decided r status user comments now item
      finish status event description metadata =
          let row = decided_row r status user comments now in
          let (_, w4, flushed) = (flush row).at w3 in
          let (_, w5, saved) = commit.at w4 in
          let (_, w6, closed) = close.at w5 in
          let (_, w7, logged) =
            (log_audit_event-Returns s ticket_id event description (some user.id) metadata).at w6 in
          (
            to_queue_item row,
            w7,
            rw
                (decide_ticket-ok user ticket_id status comments r rest now w w1 w2 w3 w4 w5 w6
                  opened looked timed flushed saved closed)
                (rw logged),
            to_queue_item-Decided r status user comments now,
          )

  -- The request for approval is found, and flush, commit and the end of the session return: an
  -- edit returns the request with the new draft, and with its status, its reviewer and the time of
  -- its review as they were, whatever the status is.
  pub edit_draft-keeps :
      (user : User) (ticket_id : Uuid) (draft : Text) (r : ApprovalRequest)
      (rest : List ApprovalRequest) (w w1 w2 : W)
      → s.open_session w ≡ (ok tt, w1)
      → lookup ticket_id w1 ≡ (ok (r ∷ rest), w2)
      → ((row : ApprovalRequest) → Returns (s.flush_approval row))
      → Returns s.commit
      → Returns s.close_session
      → (item : SupervisorQueueItem) × (w' : W) × (edit_draft s user ticket_id draft w
          ≡ (ok item, w'))
        × (item.draft_response ≡ draft)
        × (item.status ≡ r.status)
        × (item.reviewer_id ≡ r.approved_by)
        × (item.reviewed_at ≡ r.decided_at)
  unfolding edit_draft get_or_404 get_by_ticket_id update_draft to_queue_item
  edit_draft-keeps user ticket_id draft r rest w w1 w2 opened looked flush commit close =
      let row = record r { draft_response = draft } in
      let (_, w3, flushed) = (flush row).at w2 in
      let (_, w4, saved) = commit.at w3 in
      let (_, w5, closed) = close.at w4 in
      let (_, w6, logged) =
        (log_audit_event-Returns s ticket_id (codes "supervisor_edited")
            (codes "Supervisor edited the AI draft response.") (some user.id) none).at
          w5 in
      (
        to_queue_item row,
        w6,
        rw opened (rw looked (rw flushed (rw saved (rw closed (rw logged))))),
        refl,
        refl,
        refl,
        refl,
      )
