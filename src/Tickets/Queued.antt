-- ===== src/Tickets/Queued.antt =====
-- From the creation of a ticket to the supervisor's queue: backend/api/routes/tickets.py,
-- backend/graph/nodes.py and backend/api/supervisor.py.
use supportops_ai.Common.{◌≡◌, refl, ◌∙◌, ap, true, false, Option, none, some, List, In}
use supportops_ai.Python.{Time, ok}
use supportops_ai.Python.Returns.{Returns}
use supportops_ai.Python.Keeps.{Keeps, Keeps-at, Keeps-pure}
use supportops_ai.Models.{Ticket, ApprovalRequest}
use supportops_ai.Services.{Services}
use supportops_ai.Approvals.{is_pending, is_pending_status}
use supportops_ai.Graph.State.{WorkflowState, get_or}
use supportops_ai.Graph.Nodes.Review.{ReviewLaws, IsStored, persist_results_node-IsStored}
use supportops_ai.Graph.Workflow.{LangGraph, LangGraphLaws, invoke_workflow}
use supportops_ai.Graph.Workflow.Outcomes.{
  Constructs, Completed, completed_state, reviewed_state, workflow-Completed,
}
use supportops_ai.Supervisor.{
  SupervisorQueueItem, SupervisorQueueResponse, to_queue_item, list_queue,
}
use supportops_ai.Supervisor.Rows.{QueueLaws}
use supportops_ai.Supervisor.Removal.{In-to_queue_items_of, list_queue-shows}
use supportops_ai.Tickets.{
  TicketCreateRequest, TicketCreateResponse, ResponseModel, initial_state, response_of,
  store_ticket, time_or_now, create_ticket_endpoint,
}
use supportops_ai.Tickets.Execution.{execute-stored, time_or_now-Returns}

module _ {W : Type 0} (l : LangGraph W) (s : Services W) (model : ResponseModel)
    (stored visible : W → List ApprovalRequest) (L : QueueLaws s stored visible)
    (R : ReviewLaws s stored visible) where
  time_or_now-Keeps : (o : Option Time) → Keeps stored (time_or_now l s model o)
  time_or_now-Keeps none = L.now_keeps
  time_or_now-Keeps (some t) = Keeps-pure t

  -- a run whose state asks for a review has stored its request
  run-IsStored :
      (state : WorkflowState) (w : W) (run : Completed s state (invoke_workflow l s state w))
      → get_or (completed_state state run.category run.result).requires_human_review false ≡ true
      → IsStored s stored visible L R
          (completed_state state run.category run.result)
          run.final_world
  unfolding completed_state reviewed_state
  run-IsStored state w run review =
      persist_results_node-IsStored s stored visible L R
        (reviewed_state state run.category run.result) _ run.before_results run.final_world review
        run.persisted

  -- what the queue shows of a response
  abbrev pub Shows : TicketCreateResponse → SupervisorQueueResponse → Type 0
  Shows response answer =
      (i : SupervisorQueueItem) × In i answer.items
      × (i.ticket_id ≡ response.ticket_id)
      × (i.draft_response ≡ response.draft_response)
      × (i.selected_agent ≡ response.selected_agent)
      × (i.matched_policy_rules ≡ response.matched_policy_rules)

  -- A request without a key whose ticket is stored and whose response says that a review is
  -- required: the queue that a supervisor lists next shows an item with the ticket of the response,
  -- its draft, its agent and the policy's rules. The run's conditions are those of a completed run; the clock and the
  -- database calls behind the request for approval return, an insert adds a row of what it is given
  -- to what its session sees, and what a session sees is stored when it commits and not before.
  pub required-queued :
      (p : TicketCreateRequest) (t : Ticket) (response : TicketCreateResponse)
      (answer : SupervisorQueueResponse) (w w1 w2 w3 : W)
      → LangGraphLaws l
      → Constructs s
      → Returns s.now
      → store_ticket l s model p w ≡ (ok t, w1)
      → create_ticket_endpoint l s model p none w ≡ (ok (201, response), w2)
      → response.requires_human_review ≡ true
      → list_queue s w2 ≡ (ok answer, w3)
      → Shows response answer
  unfolding response_of completed_state to_queue_item is_pending_status initial_state
  required-queued p t response answer w w1 w2 w3 laws c clock added created review listed =
      let state = initial_state t.id p in
      let run = workflow-Completed l s state w1 laws c in
      let f = completed_state state run.category run.result in
      let (at, v, timed) = (time_or_now-Returns l s model t.created_at clock).at run.final_world in
      let answered =
        execute-stored l s model p t f at w w1 run.final_world v added run.final timed in
      let same : response_of t.id p f at ≡ response = cc (answered, created) in
      let last : v ≡ w2 = cc (answered, created) in
      let asked : get_or f.requires_human_review false ≡ true = rw (← same) at review in
      let (r, there, is_of) = run-IsStored state w1 run asked in
      let (id, pending, draft, _, agent, rules) = is_of in
      let kept : stored w2 ≡ stored run.final_world =
        rw last at (Keeps-at _ run.final_world v _ (time_or_now-Keeps t.created_at) timed) in
      let (shown, items, listed_iff) = list_queue-shows s stored visible L answer w2 w3 listed in
      let waits : is_pending r ≡ true = rw pending refl in
      let in_queue = (listed_iff r).1 (rw kept there, waits) in
      (
        to_queue_item r,
        rw items (In-to_queue_items_of r shown in_queue),
        id ∙ ap (λ x. x.ticket_id) same,
        draft ∙ ap (λ x. x.draft_response) same,
        agent ∙ ap (λ x. x.selected_agent) same,
        rules ∙ ap (λ x. x.matched_policy_rules) same,
      )
