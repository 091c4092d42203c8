-- ===== src/Tickets/Execution.antt =====
-- Requests without an idempotency key: backend/services/ticket.py and
-- backend/api/routes/tickets.py.
use supportops_ai.Common.{◌≡◌, refl, Option, none, some, Text, codes, ◌++◌}
use supportops_ai.Python.{Time, Exn, customer_not_found, integrity_error, http_error, ok, raised}
use supportops_ai.Python.Returns.{Returns}
use supportops_ai.Enums.{ticket_category_value, support_agent_type_value}
use supportops_ai.Models.{Customer, Ticket}
use supportops_ai.Services.{Services}
use supportops_ai.Policy.{evaluate_policy}
use supportops_ai.Graph.{WorkflowState}
use supportops_ai.Graph.Nodes.{placeholder_confidence_score, agent_by_category}
use supportops_ai.Graph.Workflow.{LangGraph, LangGraphLaws, invoke_workflow}
use supportops_ai.Graph.Workflow.Outcomes.{
  Constructs, Completed, completed_state, workflow-Completed,
}
use supportops_ai.Tickets.{
  TicketCreateRequest, TicketCreateResponse, ResponseModel, initial_state, response_of, http_of,
  create_row, insert_row, row_for, store_ticket, execute, time_or_now, create_ticket,
  create_ticket_endpoint,
}

module _ {W : Type 0} (l : LangGraph W) (s : Services W) (model : ResponseModel) where
  abbrev not_found : TicketCreateRequest → Exn
  not_found p = http_of (customer_not_found p.customer_id)

  -- The session opens and closes, and finds no customer with the id of the request: a request
  -- without a key is answered 404, in the world that these three calls left.
  pub missing_customer :
      (p : TicketCreateRequest) (w w1 w2 w3 : W)
      → s.open_session w ≡ (ok tt, w1)
      → s.get_customer p.customer_id w1 ≡ (ok none, w2)
      → s.close_session w2 ≡ (ok tt, w3)
      → create_ticket_endpoint l s model p none w ≡ (
        raised (
            http_error 404 (
              codes "Customer "
              ++ (p.customer_id
                  ++ codes " not found. See GET /customers for valid customer_id values."))),
        w3,
      )
  unfolding create_ticket_endpoint create_ticket execute store_ticket row_for http_of
  missing_customer p w w1 w2 w3 opened looked closed = rw opened (rw looked (rw closed))

  -- The customer is found, the insert then raises an `IntegrityError`, the transaction is rolled
  -- back and the session closes: a request without a key is answered 404, in the world that these
  -- calls left, so no workflow is run.
  pub customer_gone :
      (p : TicketCreateRequest) (c : Customer) (w w1 w2 w3 w4 w5 : W) (m : Text)
      → s.open_session w ≡ (ok tt, w1)
      → s.get_customer p.customer_id w1 ≡ (ok (some c), w2)
      → create_row l s model p w2 ≡ (raised (integrity_error m), w3)
      → s.rollback w3 ≡ (ok tt, w4)
      → s.close_session w4 ≡ (ok tt, w5)
      → create_ticket_endpoint l s model p none w ≡ (raised (not_found p), w5)
  unfolding create_ticket_endpoint create_ticket execute store_ticket row_for insert_row http_of
  customer_gone p c w w1 w2 w3 w4 w5 m opened looked refused back closed =
      rw opened (rw looked (rw refused (rw back (rw closed))))

  -- the answer to a request whose ticket is stored, by what the workflow's run gave
  pub record Created (p : TicketCreateRequest) (t : Ticket) (w w1 : W) : Type 0 where
    pub run : Completed s (initial_state t.id p) (invoke_workflow l s (initial_state t.id p) w1)
    pub response : TicketCreateResponse
    pub last : W
    pub answer : create_ticket_endpoint l s model p none w ≡ (ok (201, response), last)
    pub ticket : response.ticket_id ≡ t.id
    pub category : response.category ≡ ticket_category_value run.category
    pub agent : response.selected_agent ≡ support_agent_type_value (agent_by_category run.category)
    pub draft : response.draft_response ≡ run.result.response
    pub review :
        response.requires_human_review
        ≡ (evaluate_policy
            (initial_state t.id p).ticket_text
            placeholder_confidence_score
            run.result.unresolved).requires_human_review

  pub execute-stored :
      (p : TicketCreateRequest) (t : Ticket) (f : WorkflowState) (c : Time) (w w1 w2 w3 : W)
      → store_ticket l s model p w ≡ (ok t, w1)
      → invoke_workflow l s (initial_state t.id p) w1 ≡ (ok f, w2)
      → time_or_now l s model t.created_at w2 ≡ (ok c, w3)
      → create_ticket_endpoint l s model p none w ≡ (ok (201, response_of t.id p f c), w3)
  unfolding create_ticket_endpoint create_ticket execute response_of
  execute-stored p t f c w w1 w2 w3 stored ran timed = rw stored (rw ran (rw timed))

  pub time_or_now-Returns : (o : Option Time) → Returns s.now → Returns (time_or_now l s model o)
  time_or_now-Returns none clock = clock
  time_or_now-Returns (some t) clock = record { at = λ w. (t, w, refl) }

  -- Under the conditions of a completed run, and where the clock returns, every request without a
  -- key whose ticket is stored is answered 201, with the ticket's id, the classifier's category
  -- and its agent, the agent's draft, and the policy's decision on review.
  pub stored-Created :
      (p : TicketCreateRequest) (t : Ticket) (w w1 : W)
      → LangGraphLaws l
      → Constructs s
      → Returns s.now
      → store_ticket l s model p w ≡ (ok t, w1)
      → Created p t w w1
  unfolding response_of completed_state
  stored-Created p t w w1 laws c clock stored =
      let run = workflow-Completed l s (initial_state t.id p) w1 laws c in
      let (created_at, w3, timed) = (time_or_now-Returns t.created_at clock).at run.final_world in
      let f = completed_state (initial_state t.id p) run.category run.result in
      record {
        run = run;
        response = response_of t.id p f created_at;
        last = w3;
        answer = execute-stored p t f created_at w w1 run.final_world w3 stored run.final timed;
        ticket = refl;
        category = refl;
        agent = refl;
        draft = refl;
        review = refl;
      }
