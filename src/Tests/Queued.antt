-- ===== src/Tests/Queued.antt =====
-- A ticket that needs a review, and the queue after it.
use supportops_ai.Str.{contains, lower}
use supportops_ai.Common.{Bool, ◌∙◌, ◌≡◌, refl, true, false, [], codes, some}
use supportops_ai.Python.{Outcome, ok, raised}
use supportops_ai.Python.Returns.{Returns-pure}
use supportops_ai.Enums.{TicketPriority, TicketStatus}
use supportops_ai.Models.{Ticket}
use supportops_ai.Supervisor.{SupervisorQueueResponse, list_queue}
use supportops_ai.Tickets.{
  TicketCreateRequest, initial_state, store_ticket, insert_row, row_for, create_row,
}
use supportops_ai.Tickets.Execution.{Created, stored-Created}
use supportops_ai.Graph.Nodes.{placeholder_confidence_score}
use supportops_ai.Policy.{evaluate_policy, matched_keyword_rules, matched_policy_rules}
use supportops_ai.Approvals.{list_pending}
use supportops_ai.Tickets.Queued.{Shows, required-queued}
use supportops_ai.Sample.Response.{model}
use supportops_ai.Sample.Services.{runner, runner-LangGraphLaws}
use supportops_ai.Sample.Queue.{Requests, stored, visible}
use supportops_ai.Sample.Desk.{
  desk_services, desk_services-QueueLaws, desk_services-ReviewLaws, desk_services-Constructs,
}

abbrev order : TicketCreateRequest
order = record {
  customer_id = codes "c1";
  subject = codes "Refund";
  description = codes "I want my money";
  priority = TicketPriority.low;
}

abbrev ticket : Ticket
ticket = record {
  id = codes "t1";
  customer_id = codes "c1";
  subject = codes "Refund";
  description = codes "I want my money";
  priority = TicketPriority.low;
  status = TicketStatus.new;
  created_at = some 7;
}

abbrev shown : Outcome SupervisorQueueResponse → SupervisorQueueResponse
shown (ok answer) = answer
shown (raised e) = record { items = []; total = 0 }

abbrev none_yet : Requests
none_yet = ([], [])

added : store_ticket runner desk_services model order none_yet ≡ (ok ticket, none_yet)
unfolding desk_services store_ticket row_for insert_row create_row
added = refl

abbrev made : Created runner desk_services model order ticket none_yet none_yet
unfolding desk_services
made =
    stored-Created runner desk_services model order ticket none_yet none_yet runner-LangGraphLaws
      desk_services-Constructs (Returns-pure 1000) added

abbrev answer : SupervisorQueueResponse
answer = shown (list_queue desk_services made.last).0

-- whatever the agent says, the ticket asks for a refund
refund :
    (unresolved : Bool)
    → (evaluate_policy
        (initial_state (codes "t1") order).ticket_text
        placeholder_confidence_score
        unresolved).requires_human_review
      ≡ true
unfolding initial_state evaluate_policy matched_policy_rules matched_keyword_rules contains lower
refund true = refl
refund false = refl

abbrev last : Requests
last = (list_queue desk_services made.last).1

listed : list_queue desk_services made.last ≡ (ok answer, last)
unfolding desk_services list_queue list_pending
listed = refl

required-queued_example :
    Shows runner desk_services model stored visible desk_services-QueueLaws desk_services-ReviewLaws
      made.response answer
unfolding desk_services
required-queued_example =
    required-queued runner desk_services model stored visible desk_services-QueueLaws
      desk_services-ReviewLaws order ticket made.response answer none_yet none_yet made.last last
      runner-LangGraphLaws desk_services-Constructs (Returns-pure 1000) added made.answer
      (made.review ∙ refund made.run.result.unresolved) listed
