-- ===== src/Supervisor/Removal.antt =====
-- What a decision leaves in the queue: backend/api/supervisor.py.
use supportops_ai.Common.{
  ◌≡◌, ◌≢◌, ◌↔◌, refl, ◌∙◌, sym, ap, ◌⊎◌, inl, inr, true, false, Option, List, [], ◌∷◌, Text, In,
}
use supportops_ai.Python.{Uuid, Exec, ok, pure, ◌>>=◌, ◌>>◌, finally}
use supportops_ai.Python.Inversion.{bind_ok, finally_ok}
use supportops_ai.Python.Keeps.{finally_ok_view, Keeps, Keeps-at}
use supportops_ai.Enums.{ApprovalStatus}
use supportops_ai.Models.{User, ApprovalRequest}
use supportops_ai.Services.{Services, with_session}
use supportops_ai.Approvals.{is_pending_status, is_pending, decide, list_pending}
use supportops_ai.Supervisor.{
  SupervisorQueueItem, SupervisorQueueResponse, to_queue_item, to_queue_items, get_or_404,
  decide_ticket, approve_ticket, reject_ticket, list_queue,
}
use supportops_ai.Supervisor.Queue.{In-to_queue_items}
use supportops_ai.Supervisor.Rows.{
  written, QueueLaws, written-In, In-written, log-Keeps, get_or_404_ok, decide_writes,
}

pub In-to_queue_items_of :
    (r : ApprovalRequest) (l : List ApprovalRequest)
    → In r l
    → In (to_queue_item r) (to_queue_items l)
unfolding to_queue_items
In-to_queue_items_of r [] m = absurd m
In-to_queue_items_of r (x ∷ l) (inl e) = inl (ap to_queue_item e)
In-to_queue_items_of r (x ∷ l) (inr m) = inr (In-to_queue_items_of r l m)

module _ {W : Type 0} (s : Services W) (stored visible : W → List ApprovalRequest)
    (L : QueueLaws s stored visible) where
  -- A pending request is pending after the decision exactly when it is another one.
  abbrev pub IsRemoved : ApprovalRequest → W → W → Type 0
  IsRemoved r w w' =
      (x : ApprovalRequest)
      → (In x (stored w') × (is_pending x ≡ true))
        ↔ (In x (stored w) × (is_pending x ≡ true) × (x.id ≢ r.id))

  written-IsRemoved :
      (d r : ApprovalRequest) (w w' : W)
      → stored w' ≡ written d (stored w)
      → d.id ≡ r.id
      → is_pending d ≡ false
      → IsRemoved r w w'
  written-IsRemoved d r w w' after id settled x = (
    λ h.
        let (m, p) = h in
        let (at, differs) = written-In d x (stored w) settled (rw after at m) p in
        (at, p, λ e. differs (e ∙ sym id)),
    λ h.
        let (at, p, differs) = h in
        let there = In-written d x (stored w) at (λ e. differs (e ∙ id)) in (rw after there, p),
  )

  decide_ticket-IsRemoved :
      (user : User) (t : Uuid) (status : ApprovalStatus) (c : Option Text)
      (item : SupervisorQueueItem) (w w' : W)
      → is_pending_status status ≡ false
      → decide_ticket s user t status c w ≡ (ok item, w')
      → (r : ApprovalRequest) × In r (stored w) × (r.ticket_id ≡ t) × IsRemoved r w w'
  unfolding decide_ticket
  decide_ticket-IsRemoved user t status c item w w' settled h =
      let save : ApprovalRequest → Exec W SupervisorQueueItem =
        λ d. s.commit >> pure (to_queue_item d) in
      let body : Exec W SupervisorQueueItem =
        get_or_404 s t >>= λ r. decide s r status user.id c >>= save in
      let (_, w1, opened, h1) =
        bind_ok s.open_session (λ _. finally body s.close_session) w w' item h in
      let (w5, ran, closed) = finally_ok_view body s.close_session w1 w' item L.close_keeps h1 in
      let (r, w2, found, h2) = bind_ok (get_or_404 s t) _ w1 w5 item ran in
      let (d, w3, decided, h3) = bind_ok (decide s r status user.id c) save w2 w5 item h2 in
      let (_, w4, saved, h4) = bind_ok s.commit (λ _. pure (to_queue_item d)) w3 w5 item h3 in
      let (there, is_of, kept) = get_or_404_ok s stored visible L t w1 w2 r found in
      let (id, now, changed) =
        decide_writes s stored visible L r d status user.id c w2 w3 decided in
      let before : stored w1 ≡ stored w = Keeps-at s.open_session w w1 _ L.open_keeps opened in
      let fresh : visible w1 ≡ stored w = L.open_sees w w1 opened ∙ before in
      let last : w4 ≡ w5 = cc h4 in
      let committed : stored w5 ≡ visible w3 = rw last at (L.commit_stores w3 w4 saved) in
      let after = closed ∙ (committed ∙ (changed ∙ ap (written d) (kept ∙ fresh))) in
      let over : is_pending d ≡ false = rw now settled in
      (r, rw fresh at there, is_of, written-IsRemoved d r w w' after id over)

  -- the endpoints of a decision, and the audit event after it
  then_logged :
      (m : Exec W SupervisorQueueItem) (log : Exec W (Unit {0})) (item : SupervisorQueueItem)
      (w w' : W)
      → Keeps stored log
      → (m >>= λ i. log >> pure i) w ≡ (ok item, w')
      → (v : W) × (m w ≡ (ok item, v)) × (stored w' ≡ stored v)
  then_logged m log item w w' keeps h =
      let (i, v, ran, h1) = bind_ok m (λ i. log >> pure i) w w' item h in
      let (_, v', logged, h2) = bind_ok log (λ _. pure i) v w' item h1 in
      let same : i ≡ item = cc h2 in
      let last : v' ≡ w' = cc h2 in
      (v, rw same at ran, rw last at (Keeps-at log v v' _ keeps logged))

  decision-IsRemoved :
      (user : User) (t : Uuid) (c : Option Text) (item : SupervisorQueueItem) (w w' : W)
      → (approve_ticket s user t c w ≡ (ok item, w')) ⊎ (reject_ticket s user t c w ≡ (ok item, w'))
      → (r : ApprovalRequest) × In r (stored w) × (r.ticket_id ≡ t) × IsRemoved r w w'
  unfolding approve_ticket reject_ticket is_pending_status
  decision-IsRemoved user t c item w w' (inl h) =
      let (v, ran, same) =
        then_logged (decide_ticket s user t ApprovalStatus.approved c) _ item w w'
          (log-Keeps s stored visible L t _ _ _ _) h in
      let (r, there, is_of, removed) =
        decide_ticket-IsRemoved user t ApprovalStatus.approved c item w v refl ran in
      (r, there, is_of, rw (← same) at removed)
  decision-IsRemoved user t c item w w' (inr h) =
      let (v, ran, same) =
        then_logged (decide_ticket s user t ApprovalStatus.rejected c) _ item w w'
          (log-Keeps s stored visible L t _ _ _ _) h in
      let (r, there, is_of, removed) =
        decide_ticket-IsRemoved user t ApprovalStatus.rejected c item w v refl ran in
      (r, there, is_of, rw (← same) at removed)

  -- what the queue lists
  pub list_queue-shows :
      (answer : SupervisorQueueResponse) (w w' : W)
      → list_queue s w ≡ (ok answer, w')
      → (l : List ApprovalRequest) × (answer.items ≡ to_queue_items l)
        × ((x : ApprovalRequest) → In x l ↔ (In x (stored w) × (is_pending x ≡ true)))
  unfolding list_queue list_pending
  list_queue-shows answer w w' h =
      let select_pending = s.select_approvals is_pending true in
      let body : Exec W (List SupervisorQueueItem) =
        select_pending >>= λ pending. pure (to_queue_items pending) in
      let (items, w1, listed, h1) = bind_ok (with_session s body) _ w w' answer h in
      let (_, w2, opened, h2) =
        bind_ok s.open_session (λ _. finally body s.close_session) w w1 items listed in
      let (w3, ran) = finally_ok body s.close_session w2 w1 items h2 in
      let (l, w4, selected, h3) =
        bind_ok select_pending (λ pending. pure (to_queue_items pending)) w2 w3 items ran in
      let fresh : visible w2 ≡ stored w =
        L.open_sees w w2 opened ∙ Keeps-at s.open_session w w2 _ L.open_keeps opened in
      let made : to_queue_items l ≡ items = cc h3 in
      let shown : items ≡ answer.items = cc h1 in
      (l, sym (made ∙ shown), rw fresh at (L.selects is_pending true w2 w4 l selected))

  -- An approval or a rejection that returned has decided one request of the ticket. What the queue
  -- lists next is exactly the requests that were pending before it, but the decided one: every item
  -- is one of them, and each of them is listed. The calls come one after the other, on a database
  -- that stores what a session has flushed when it commits, and not before.
  pub decision-list_queue :
      (user : User) (t : Uuid) (c : Option Text) (item : SupervisorQueueItem)
      (answer : SupervisorQueueResponse) (w w1 w2 : W)
      → (approve_ticket s user t c w ≡ (ok item, w1)) ⊎ (reject_ticket s user t c w ≡ (ok item, w1))
      → list_queue s w1 ≡ (ok answer, w2)
      → (r : ApprovalRequest) × In r (stored w)
        × (r.ticket_id ≡ t)
        × ((i : SupervisorQueueItem)
            → In i answer.items
            → (x : ApprovalRequest) × In x (stored w)
              × (is_pending x ≡ true)
              × (x.id ≢ r.id)
              × (i ≡ to_queue_item x))
        × ((x : ApprovalRequest)
            → In x (stored w)
            → is_pending x ≡ true
            → x.id ≢ r.id
            → In (to_queue_item x) answer.items)
  decision-list_queue user t c item answer w w1 w2 decided listed =
      let (r, there, is_of, removed) = decision-IsRemoved user t c item w w1 decided in
      let (l, items, shown) = list_queue-shows answer w1 w2 listed in
      (
        r,
        there,
        is_of,
        λ i m.
            let (x, at, e) = In-to_queue_items s i l (rw items at m) in
            let (kept, pending) = (shown x).0 at in
            let (before, still, differs) = (removed x).0 (kept, pending) in
            (x, before, still, differs, e),
        λ x m pending differs.
            let after = (removed x).1 (m, pending, differs) in
            rw items (In-to_queue_items_of x l ((shown x).1 after)),
      )
