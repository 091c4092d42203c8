-- ===== src/Tests/Queue.antt =====
-- An approval, and the queue after it.
use supportops_ai.Audit.{log_audit_event}
use supportops_ai.Common.{◌≡◌, ◌≢◌, refl, inl, true, none, some, [], ◌∷◌, codes, text_eq, In}
use supportops_ai.Python.{ok}
use supportops_ai.Enums.{ApprovalStatus}
use supportops_ai.Models.{ApprovalRequest}
use supportops_ai.Approvals.{is_pending, is_pending_status, decide, get_by_ticket_id, list_pending}
use supportops_ai.Supervisor.{
  SupervisorQueueItem, SupervisorQueueResponse, to_queue_item, to_queue_items, approve_ticket,
  list_queue, get_or_404, decide_ticket,
}
use supportops_ai.Supervisor.Removal.{decision-list_queue}
use supportops_ai.Sample.Services.{agent_user, request}
use supportops_ai.Sample.Queue.{
  Requests, stored, visible, other_request, queue_services, queue_services-QueueLaws,
}

abbrev before : Requests
before = (request ∷ other_request ∷ [], [])

abbrev after : Requests
after = (approve_ticket queue_services agent_user (codes "t1") none before).1

abbrev item : SupervisorQueueItem
item = to_queue_item (record request {
  status = ApprovalStatus.approved;
  approved_by = some agent_user.id;
  decided_at = some 1000;
})

abbrev answer : SupervisorQueueResponse
answer = record { items = to_queue_item other_request ∷ []; total = 1 }

approved : approve_ticket queue_services agent_user (codes "t1") none before ≡ (ok item, after)
unfolding approve_ticket decide_ticket queue_services get_or_404 get_by_ticket_id text_eq decide
    log_audit_event
approved = refl

listed : list_queue queue_services after ≡ (ok answer, after)
unfolding list_queue queue_services list_pending to_queue_items approve_ticket decide_ticket
    get_or_404 get_by_ticket_id text_eq decide log_audit_event is_pending_status
listed = refl

decision-list_queue_example :
    (r : ApprovalRequest) × In r (stored before)
    × (r.ticket_id ≡ codes "t1")
    × ((i : SupervisorQueueItem)
        → In i answer.items
        → (x : ApprovalRequest) × In x (stored before)
          × (is_pending x ≡ true)
          × (x.id ≢ r.id)
          × (i ≡ to_queue_item x))
    × ((x : ApprovalRequest)
        → In x (stored before)
        → is_pending x ≡ true
        → x.id ≢ r.id
        → In (to_queue_item x) answer.items)
decision-list_queue_example =
    decision-list_queue queue_services stored visible queue_services-QueueLaws agent_user
      (codes "t1") none item answer before after after (inl approved) listed
