-- ===== src/Tickets.antt =====
-- Ticket creation: backend/services/ticket.py, backend/schemas/ticket.py,
-- backend/database/repositories/ticket.py and backend/api/routes/tickets.py.
pub mod Replay
pub mod Refusals
pub mod Execution
pub mod Queued
use supportops_ai.Common.{
  ℕ, Bool, true, false, Option, none, some, List, [], ◌∷◌, ◌++◌, Text, codes, text_eq,
  if◌then◌else◌,
}
use supportops_ai.Python.{
  Uuid, Time, Exn, idempotency_backend_unavailable, ticket_creation_in_progress, customer_not_found,
  integrity_error, http_error, other, Outcome, Exec, pure, raise, lift, try_except, ◌>>=◌, ◌>>◌,
}
use supportops_ai.Enums.{
  TicketPriority, TicketStatus, TicketCategory, SupportAgentType, WorkflowStatus,
  ticket_category_value, support_agent_type_value,
}
use supportops_ai.Json.{Json, bool, str, obj, Fields, get_field, put_field}
use supportops_ai.Models.{Customer, Ticket}
use supportops_ai.Services.{Services, with_session}
use supportops_ai.Graph.{WorkflowState}
use supportops_ai.Graph.State.{get_or}
use supportops_ai.Graph.Workflow.{LangGraph, invoke_workflow}
use supportops_ai.Idempotency

pub record TicketCreateRequest : Type 0 where
  pub customer_id : Uuid
  pub subject : Text
  pub description : Text
  pub priority : TicketPriority

pub record TicketCreateResponse : Type 0 where
  pub ticket_id : Uuid
  pub customer_id : Uuid
  pub category : Text
  pub selected_agent : Text
  pub draft_response : Text
  pub requires_human_review : Bool
  pub matched_policy_rules : List Text
  pub created_at : Time
  pub idempotent_replay : Bool

-- Pydantic on `TicketCreateResponse`: `model_dump(mode="json")`, and `TicketCreateResponse(**fields)`,
-- which may raise a `ValidationError`.
pub record ResponseModel : Type 0 where
  pub model_dump : TicketCreateResponse → Fields
  pub validate : Fields → Outcome TicketCreateResponse

-- the state that the workflow starts from
unfoldable pub initial_state : Uuid → TicketCreateRequest → WorkflowState
initial_state ticket_id payload = record {
  ticket_id = ticket_id;
  customer_id = payload.customer_id;
  ticket_text = payload.subject ++ (codes "\n\n" ++ payload.description);
  category = none;
  selected_agent = none;
  retrieved_context = none;
  draft_response = none;
  agent_unresolved = none;
  confidence_score = none;
  requires_human_review = none;
  matched_policy_rules = none;
  workflow_status = some WorkflowStatus.pending;
}

unfoldable pub response_of :
    Uuid → TicketCreateRequest → WorkflowState → Time → TicketCreateResponse
response_of ticket_id payload final_state created_at = record {
  ticket_id = ticket_id;
  customer_id = payload.customer_id;
  category = ticket_category_value (get_or final_state.category TicketCategory.general);
  selected_agent =
      support_agent_type_value (get_or final_state.selected_agent SupportAgentType.general_agent);
  draft_response = get_or final_state.draft_response [];
  requires_human_review = get_or final_state.requires_human_review false;
  matched_policy_rules = get_or final_state.matched_policy_rules [];
  created_at = created_at;
  idempotent_replay = false;
}

-- `existing.get("status") == "in_progress"`; what is no dictionary has no `get`.
unfoldable pub is_in_progress : Json → Outcome Bool
is_in_progress (obj fields) = elim (get_field (codes "status") fields) [
  | some (str t) ↦ Outcome.ok (text_eq t (codes "in_progress"))
  | _ ↦ Outcome.ok false
]
is_in_progress _ = Outcome.raised (other (codes "AttributeError"))

abbrev pub fields_of : Json → Outcome Fields
fields_of (obj fields) = Outcome.ok fields
fields_of _ = Outcome.raised (other (codes "TypeError"))

-- `except IntegrityError`
abbrev pub is_integrity_error : Exn → Bool
is_integrity_error (integrity_error _) = true
is_integrity_error _ = false

-- what `create_ticket_endpoint` makes of an exception
unfoldable pub http_of : Exn → Exn
http_of (ticket_creation_in_progress _) =
    http_error 409 (codes "A request with this Idempotency-Key is already being processed")
http_of (idempotency_backend_unavailable _) =
    http_error 503 (codes "Unable to verify request idempotency right now; please retry")
http_of (customer_not_found customer_id) = http_error 404 (
    codes "Customer "
    ++ (customer_id ++ codes " not found. See GET /customers for valid customer_id values."))
http_of e = e

module _ {W : Type 0} (l : LangGraph W) (s : Services W) (model : ResponseModel) where
  -- `TicketRepository.create`
  unfoldable pub create_row : TicketCreateRequest → Exec W Ticket
  create_row payload = s.insert_ticket (record {
    customer_id = payload.customer_id;
    subject = payload.subject;
    description = payload.description;
    priority = payload.priority;
    status = TicketStatus.new;
  })

  -- the insert, with its translation of a foreign key that is gone
  unfoldable pub insert_row : TicketCreateRequest → Exec W Ticket
  insert_row payload =
      try_except (do ticket ← create_row payload; s.commit; pure ticket)
        λ e.
          if is_integrity_error e
          then s.rollback >> raise (customer_not_found payload.customer_id)
          else raise e

  unfoldable pub row_for : TicketCreateRequest → Option Customer → Exec W Ticket
  row_for payload none = raise (customer_not_found payload.customer_id)
  row_for payload (some customer) = insert_row payload

  -- the part of `_execute` that holds the session
  unfoldable pub store_ticket : TicketCreateRequest → Exec W Ticket
  store_ticket payload =
      with_session s (do customer ← s.get_customer payload.customer_id; row_for payload customer)

  abbrev pub time_or_now : Option Time → Exec W Time
  time_or_now (some t) = pure t
  time_or_now none = s.now

  -- `_execute`
  unfoldable pub execute : TicketCreateRequest → Exec W TicketCreateResponse
  execute payload = do
    ticket ← store_ticket payload
    final_state ← invoke_workflow l s (initial_state ticket.id payload)
    created_at ← time_or_now ticket.created_at
    pure (response_of ticket.id payload final_state created_at)

  abbrev pub ttl : ℕ
  ttl = s.settings.redis_idempotency_ttl_seconds

  unfoldable pub replay_fields : Json → Exec W TicketCreateResponse
  replay_fields existing = do
    fields ← lift (fields_of existing)
    lift (model.validate (put_field (codes "idempotent_replay") (bool true) fields))

  -- a key that another request has claimed
  unfoldable pub answer_existing : Text → Json → Exec W TicketCreateResponse
  answer_existing idempotency_key existing = do
    in_progress ← lift (is_in_progress existing)
    if in_progress
        then raise (ticket_creation_in_progress idempotency_key)
        else replay_fields existing

  -- this request has claimed the key
  unfoldable pub execute_claimed : Text → TicketCreateRequest → Exec W TicketCreateResponse
  execute_claimed idempotency_key payload = do
    response ←
        try_except (execute payload)
          λ e. Idempotency.release s.redis s.json ttl idempotency_key >> raise e
    Idempotency.complete s.redis s.json ttl idempotency_key (obj (model.model_dump response))
    pure response

  unfoldable pub after_claim :
      Text → TicketCreateRequest → Option Json → Exec W TicketCreateResponse
  after_claim idempotency_key payload none = execute_claimed idempotency_key payload
  after_claim idempotency_key payload (some existing) = answer_existing idempotency_key existing

  unfoldable pub create_ticket : TicketCreateRequest → Option Text → Exec W TicketCreateResponse
  create_ticket payload none = execute payload
  create_ticket payload (some idempotency_key) = do
    existing ← Idempotency.claim_or_get_existing s.redis s.json ttl idempotency_key
    after_claim idempotency_key payload existing

  -- The status of the answer, 200 for a replay, and its body. The route resolves its active user
  -- before it calls this.
  unfoldable pub create_ticket_endpoint :
      TicketCreateRequest → Option Text → Exec W (ℕ × TicketCreateResponse)
  create_ticket_endpoint payload idempotency_key = do
    response ← try_except (create_ticket payload idempotency_key) (λ e. raise (http_of e))
    pure ((if response.idempotent_replay then 200 else 201), response)
