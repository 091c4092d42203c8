-- ===== src/Tests/Requests.antt =====
-- Requests for tickets at concrete inputs.
use supportops_ai.Common.{◌≡◌, refl, inr, false, true, none, some, [], Text, codes, text_eq}
use supportops_ai.Python.{
  idempotency_backend_unavailable, ticket_creation_in_progress, customer_not_found, ok, raised,
  pure,
}
use supportops_ai.Python.Returns.{Returns-pure}
use supportops_ai.Json.{obj}
use supportops_ai.Enums.{TicketPriority, TicketStatus}
use supportops_ai.Models.{Ticket}
use supportops_ai.Idempotency.{store_key, in_progress_sentinel, claim_or_get_existing, complete}
use supportops_ai.Tickets.{
  TicketCreateRequest, TicketCreateResponse, execute, create_ticket, store_ticket, after_claim,
  initial_state, execute_claimed, row_for, insert_row, response_of, create_row,
}
use supportops_ai.Graph.Workflow.{LangGraph, invoke_workflow}
use supportops_ai.Tickets.Replay.{replay_stored, create_then_replay}
use supportops_ai.Tickets.Refusals.{failed_release, response_lost, held_refused}
use supportops_ai.Tickets.Execution.{Created, stored-Created}
use supportops_ai.Sample.Codec.{codec, codec-CodecLaws}
use supportops_ai.Sample.Response.{model, model-ResponseModelLaws}
use supportops_ai.Sample.World.{World, live, empty, put, redis, redis_read_only, redis-RedisLaws}
use supportops_ai.Sample.Services.{
  services, services_on, runner, runner-LangGraphLaws, services-Constructs,
}

abbrev key : Text
key = codes "key-1"

abbrev order : Text → TicketCreateRequest
order customer_id = record {
  customer_id = customer_id;
  subject = codes "Refund";
  description = codes "I want my money";
  priority = TicketPriority.low;
}

abbrev response : TicketCreateResponse
response = record {
  ticket_id = codes "t1";
  customer_id = codes "c1";
  category = codes "billing";
  selected_agent = codes "billing_agent";
  draft_response = codes "Dear Cy";
  requires_human_review = true;
  matched_policy_rules = [];
  created_at = 7;
  idempotent_replay = false;
}

abbrev replayed : TicketCreateResponse
replayed = record response { idempotent_replay = true }

abbrev stored : World
stored = put (store_key key) (some (codec.dumps (obj (model.model_dump response)))) empty

replay_stored_example :
    create_ticket runner services model (order (codes "c1")) (some key) stored
    ≡ (ok replayed, stored)
unfolding services services_on redis store_key text_eq
replay_stored_example =
    replay_stored runner services model key (order (codes "c1")) response stored stored stored false
      (stored (store_key key)) redis-RedisLaws codec-CodecLaws model-ResponseModelLaws refl refl
      refl

abbrev claimed : World
claimed = put (store_key key) (some (codec.dumps in_progress_sentinel)) empty

held_refused_example :
    create_ticket runner services model (order (codes "c1")) (some key) claimed
    ≡ (raised (ticket_creation_in_progress key), claimed)
unfolding services services_on redis store_key text_eq
held_refused_example =
    held_refused runner services model key (order (codes "c1")) claimed claimed claimed
      (some (codec.dumps in_progress_sentinel)) codec-CodecLaws (inr refl) refl refl

-- A request for an unknown customer gives its key back.
failed_release_example :
    (create_ticket runner services model (order (codes "c9")) (some key) empty
      ≡ (raised (customer_not_found (codes "c9")), put (store_key key) none claimed))
    × (live (put (store_key key) none claimed) (store_key key) ≡ none)
unfolding services services_on redis store_key text_eq execute store_ticket row_for
failed_release_example =
    failed_release runner services model key (order (codes "c9")) empty claimed claimed
      (put (store_key key) none claimed) (customer_not_found (codes "c9")) redis-RedisLaws refl refl
      refl

-- a graph runner that leaves the state as it is
unfoldable idle : LangGraph World
idle = record { invoke = λ g state. pure state }

abbrev answer : TicketCreateResponse
answer = record {
  ticket_id = codes "t1";
  customer_id = codes "c1";
  category = codes "general";
  selected_agent = codes "general_agent";
  draft_response = [];
  requires_human_review = false;
  matched_policy_rules = [];
  created_at = 7;
  idempotent_replay = false;
}

response_lost_example :
    create_ticket idle (services_on redis_read_only) model (order (codes "c1")) (some key) empty
    ≡ (raised (idempotency_backend_unavailable (codes "read only")), claimed)
unfolding services_on redis redis_read_only store_key text_eq execute idle store_ticket row_for
    insert_row create_row invoke_workflow response_of initial_state
response_lost_example =
    response_lost idle (services_on redis_read_only) model key (order (codes "c1")) answer empty
      claimed claimed claimed (codes "read only") refl refl refl

abbrev completed : World
completed = put (store_key key) (some (codec.dumps (obj (model.model_dump answer)))) claimed

create_then_replay_example :
    create_ticket idle services model (order (codes "c2")) (some key) completed
    ≡ (ok (record answer { idempotent_replay = true }), completed)
unfolding services services_on redis store_key text_eq execute idle create_ticket
    claim_or_get_existing after_claim execute_claimed store_ticket row_for insert_row create_row
    invoke_workflow complete response_of initial_state
create_then_replay_example =
    create_then_replay idle services model key (order (codes "c1")) (order (codes "c2")) answer
      empty completed completed completed completed false (completed (store_key key))
      redis-RedisLaws codec-CodecLaws model-ResponseModelLaws refl refl refl refl refl

abbrev ticket : Ticket
ticket = record {
  id = codes "t1";
  customer_id = codes "c1";
  subject = codes "Refund";
  description = codes "I want my money";
  priority = TicketPriority.low;
  status = TicketStatus.new;
  created_at = some 7;
}

stored-Created_example : Created runner services model (order (codes "c1")) ticket empty empty
unfolding services services_on text_eq store_ticket row_for insert_row create_row
stored-Created_example =
    stored-Created runner services model (order (codes "c1")) ticket empty empty
      runner-LangGraphLaws services-Constructs (Returns-pure 1000) refl
