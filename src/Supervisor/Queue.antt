-- ===== src/Supervisor/Queue.antt =====
-- The supervisor's list of requests: backend/api/supervisor.py.
use supportops_ai.Common.{◌≡◌, refl, ap, ◌∙◌, inl, inr, Bool, true, List, [], ◌∷◌, In, length}
use supportops_ai.Python.{ok, Exec, pure, ◌>>=◌, finally}
use supportops_ai.Python.Inversion.{bind_ok, finally_ok}
use supportops_ai.Enums.{ApprovalStatus}
use supportops_ai.Models.{ApprovalRequest}
use supportops_ai.Services.{Services, with_session}
use supportops_ai.Approvals.{is_pending_status, is_pending, list_pending}
use supportops_ai.Supervisor.{
  SupervisorQueueItem, SupervisorQueueResponse, to_queue_item, to_queue_items, list_queue,
}

-- What a select answers: rows that satisfy its condition.
pub record SelectLaws {W : Type 0} (s : Services W) : Type 0 where
  pub selected :
      (test : ApprovalRequest → Bool) (ascending : Bool) (w w' : W) (rows : List ApprovalRequest)
      → s.select_approvals test ascending w ≡ (ok rows, w')
      → (r : ApprovalRequest) → In r rows
      → test r ≡ true

module _ {W : Type 0} (s : Services W) where
  pub In-to_queue_items :
      (item : SupervisorQueueItem) (rows : List ApprovalRequest)
      → In item (to_queue_items rows)
      → (r : ApprovalRequest) × In r rows × (item ≡ to_queue_item r)
  unfolding to_queue_items
  In-to_queue_items item [] h = absurd h
  In-to_queue_items item (r ∷ rs) (inl e) = (r, inl refl, e)
  In-to_queue_items item (r ∷ rs) (inr h) =
      let (q, m, e) = In-to_queue_items item rs h in (q, inr m, e)

  is_pending_status→≡ :
      (x : ApprovalStatus) → is_pending_status x ≡ true → x ≡ ApprovalStatus.pending
  unfolding is_pending_status
  is_pending_status→≡ ApprovalStatus.pending h = refl
  is_pending_status→≡ ApprovalStatus.approved h = absurd (cc)
  is_pending_status→≡ ApprovalStatus.rejected h = absurd (cc)

  shows_pending :
      SelectLaws s
      → (rows : List ApprovalRequest) (items : List SupervisorQueueItem)
        (answer : SupervisorQueueResponse) (w w1 w2 w3 w4 : W)
      → list_pending s w ≡ (ok rows, w1)
      → pure (to_queue_items rows) w1 ≡ (ok items, w2)
      → pure (record { items = items; total = length items }) w3 ≡ (ok answer, w4)
      → (answer.total ≡ length answer.items)
        × ((item : SupervisorQueueItem)
            → In item answer.items
            → item.status ≡ ApprovalStatus.pending)
  unfolding list_pending to_queue_item
  shows_pending laws rows items answer w w1 w2 w3 w4 selected made responded =
      let same : record { items = items; total = length items } ≡ answer = cc responded in
      let total : answer.total ≡ length answer.items = rw (← same) in
      let shown : to_queue_items rows ≡ answer.items = cc made ∙ ap (λ a. a.items) same in
      (
        total,
        λ item m.
            let (r, found, e) = In-to_queue_items item rows (rw shown m) in
            let pending =
              is_pending_status→≡ r.status
                (laws.selected is_pending true w w1 rows selected r found) in
            rw e pending,
      )

  -- Where a select answers only rows that satisfy its condition, the list that the queue returns
  -- has pending requests only, and is returned with its length.
  pub list_queue-pending :
      (answer : SupervisorQueueResponse) (w w' : W)
      → SelectLaws s
      → list_queue s w ≡ (ok answer, w')
      → (answer.total ≡ length answer.items)
        × ((item : SupervisorQueueItem)
            → In item answer.items
            → item.status ≡ ApprovalStatus.pending)
  unfolding list_queue
  list_queue-pending answer w w' laws h =
      let body = list_pending s >>= λ pending. pure (to_queue_items pending) in
      let respond : List SupervisorQueueItem → Exec W SupervisorQueueResponse =
        λ items. pure (record { items = items; total = length items }) in
      let (items, w1, listed, responded) = bind_ok (with_session s body) respond w w' answer h in
      let (u, w2, opened, inside) =
        bind_ok s.open_session (λ _. finally body s.close_session) w w1 items listed in
      let (w3, ran) = finally_ok body s.close_session w2 w1 items inside in
      let (rows, w4, selected, made) =
        bind_ok (list_pending s) (λ pending. pure (to_queue_items pending)) w2 w3 items ran in
      shows_pending laws rows items answer w2 w4 w3 w1 w' selected made responded
