-- ===== src/Tests/Runs.antt =====
-- Runs of the workflow and of its parts at concrete inputs.
use supportops_ai.Common.{◌≡◌, refl, true, none, some, Text, codes}
use supportops_ai.Python.{ok, raised, raise, other}
use supportops_ai.Python.Returns.{Returns, Returns-pure}
use supportops_ai.Json.{str, null}
use supportops_ai.Enums.{WorkflowStatus}
use supportops_ai.Services.{Services}
use supportops_ai.Cache
use supportops_ai.Agents.{
  AgentResult, respond, retrieve_context, task_description, fallback_response, billing_agent,
}
use supportops_ai.Agents.Respond.{Reply, respond-Reply}
use supportops_ai.Classifier.{classify_ticket, cached_category}
use supportops_ai.Classifier.Laws.{classify_ticket-Returns, classify_ticket_raises}
use supportops_ai.Checkpoint.{save, get_latest, checkpoint_key, checkpoint_payload}
use supportops_ai.Checkpoint.Restore.{get_latest-save}
use supportops_ai.Graph.State.{WorkflowState}
use supportops_ai.Graph.Workflow.{invoke_workflow}
use supportops_ai.Graph.Workflow.Outcomes.{Completed, workflow-Completed, Outage, outage_review}
use supportops_ai.Sample.Codec.{codec, codec-CodecLaws}
use supportops_ai.Sample.World.{World, empty, put, redis, redis-RedisLaws, redis-RedisFails}
use supportops_ai.Sample.Services.{
  services, services_on, runner, runner-LangGraphLaws, services-Constructs,
}

abbrev start_state : WorkflowState
start_state = record {
  ticket_id = codes "t1";
  customer_id = codes "c1";
  ticket_text = codes "Refund me $900, please";
  category = none;
  selected_agent = none;
  retrieved_context = none;
  draft_response = none;
  agent_unresolved = none;
  confidence_score = none;
  requires_human_review = none;
  matched_policy_rules = none;
  workflow_status = some WorkflowStatus.pending;
}

workflow-Completed_example :
    Completed services start_state (invoke_workflow runner services start_state empty)
workflow-Completed_example =
    workflow-Completed runner services start_state empty runner-LangGraphLaws services-Constructs

services-Outage : Outage runner services
unfolding services services_on
services-Outage a d w = (other (codes "timeout"), w, refl)

outage_review_example :
    (f : WorkflowState) × (w' : World) × (invoke_workflow runner services start_state empty
      ≡ (ok f, w'))
    × (f.workflow_status ≡ some WorkflowStatus.completed)
    × (f.draft_response ≡ some fallback_response)
    × (f.requires_human_review ≡ some true)
outage_review_example =
    outage_review runner services start_state empty runner-LangGraphLaws services-Constructs
      services-Outage

crew-Returns : (d : Text) → Returns (services.new_crew billing_agent d)
unfolding services services_on
crew-Returns d = Returns-pure tt

respond-Reply_example :
    (context : Text) × (w' w'' : World) × (r : AgentResult) × (retrieve_context services
        billing_agent
        (codes "money")
        empty
      ≡ (ok context, w'))
    × (services.new_crew billing_agent (task_description (codes "money") context) w' ≡ (ok tt, w''))
    × (respond services billing_agent (codes "money") empty
        ≡ (ok r, (services.kickoff billing_agent (task_description (codes "money") context) w'').1))
    × Reply services context
        (services.kickoff billing_agent (task_description (codes "money") context) w'').0
        r
respond-Reply_example = respond-Reply services billing_agent (codes "money") empty crew-Returns

classify_ticket-Returns_example : Returns (classify_ticket services (codes "money"))
unfolding services services_on
classify_ticket-Returns_example =
    classify_ticket-Returns services (codes "money") redis-RedisFails (Returns-pure tt)

-- the services without an API key for the model
unfoldable no_key : Services World
no_key = record services { new_open_ai = raise (other (codes "no key")) }

classify_ticket_raises_example :
    classify_ticket no_key (codes "money") empty ≡ (raised (other (codes "no key")), empty)
unfolding no_key services services_on redis Cache.get cached_category
classify_ticket_raises_example =
    classify_ticket_raises no_key (codes "money") empty empty empty none (other (codes "no key"))
      refl refl refl

abbrev payload : Text
payload = codec.dumps (checkpoint_payload services (codes "select_agent") null 1000)

abbrev saved : World
saved = put (checkpoint_key (codes "t1")) (some payload) empty

get_latest-save_example :
    get_latest services
      (codes "t1")
      (save services (codes "t1") (codes "select_agent") null empty).1
    ≡ (
      ok (
          some (record {
            ticket_id = codes "t1";
            stage = str (codes "select_agent");
            snapshot = null;
            saved_at = 1000;
          })),
      (services.redis.get (checkpoint_key (codes "t1")) saved).1,
    )
unfolding services services_on redis
get_latest-save_example =
    get_latest-save services (codes "t1") (codes "select_agent") null 1000 empty empty saved
      (saved (checkpoint_key (codes "t1"))) redis-RedisLaws codec-CodecLaws refl refl refl refl
