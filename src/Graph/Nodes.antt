-- ===== src/Graph/Nodes.antt =====
-- The nodes: backend/graph/nodes.py.
pub mod Laws
pub mod Review
use supportops_ai.Common.{
  Bool, true, false, Option, none, some, List, [], ◌∷◌, Text, codes, if◌then◌else◌,
}
use supportops_ai.Python.{Uuid, Exec, pure, try_except, ◌>>=◌, ◌>>◌}
use supportops_ai.Enums.{TicketCategory, SupportAgentType, WorkflowStatus, support_agent_type_value}
use supportops_ai.Json.{Json, obj, end, field, arr}
use supportops_ai.Bridge.{in_worker}
use supportops_ai.Policy.{Score, PolicyEvaluation, evaluate_policy}
use supportops_ai.Services.{Services, Profile, with_session}
use supportops_ai.Agents.{
  billing_agent, technical_agent, account_agent, general_agent, AgentResult, respond,
}
use supportops_ai.Audit.{log_audit_event}
use supportops_ai.Approvals.{create_pending}
use supportops_ai.Classifier.{classify_ticket}
use supportops_ai.Checkpoint
use supportops_ai.Graph.State.{
  WorkflowState, StateUpdate, no_update, get_or, update_json, texts_json,
}

-- 1.0
abbrev pub placeholder_confidence_score : Score
placeholder_confidence_score = record { mantissa = 1; shift = 0 }

-- `_AGENT_BY_CATEGORY`
unfoldable pub agent_by_category : TicketCategory → SupportAgentType
agent_by_category TicketCategory.billing = SupportAgentType.billing_agent
agent_by_category TicketCategory.technical = SupportAgentType.technical_agent
agent_by_category TicketCategory.account = SupportAgentType.account_agent
agent_by_category TicketCategory.general = SupportAgentType.general_agent

-- `_AGENT_CLASS_BY_TYPE`
unfoldable pub agent_class_by_type : SupportAgentType → Profile
agent_class_by_type SupportAgentType.billing_agent = billing_agent
agent_class_by_type SupportAgentType.technical_agent = technical_agent
agent_class_by_type SupportAgentType.account_agent = account_agent
agent_class_by_type SupportAgentType.general_agent = general_agent

abbrev pub Node : Type 0 → Type 0
Node W = WorkflowState → Exec W StateUpdate

module _ {W : Type 0} (s : Services W) where
  -- `@_checkpointed(stage=…)`
  unfoldable pub checkpointed : Text → Node W → Node W
  checkpointed stage node_fn state = do
    update ← node_fn state
    try_except (in_worker (Checkpoint.save s state.ticket_id stage (update_json update)))
        (λ _. pure tt)
    pure update

  unfoldable pub load_ticket_node : Node W
  load_ticket_node state = pure (record no_update {
    ticket_id = some state.ticket_id;
    customer_id = some state.customer_id;
    ticket_text = some state.ticket_text;
  })

  unfoldable pub classify_ticket_node : Node W
  classify_ticket_node = checkpointed (codes "classification") λ state. do
    category ← classify_ticket s state.ticket_text
    pure (record no_update { category = some category })

  unfoldable pub select_agent_node : Node W
  select_agent_node = checkpointed (codes "agent_selection") λ state. pure (record no_update {
    selected_agent = some (agent_by_category (get_or state.category TicketCategory.general));
  })

  unfoldable pub execute_agent_node : Node W
  execute_agent_node = checkpointed (codes "specialist_execution") λ state. do
    let agent = agent_class_by_type (get_or state.selected_agent SupportAgentType.general_agent)
    s.new_agent agent
    result ← respond s agent state.ticket_text
    pure (record no_update {
      retrieved_context = some result.retrieved_context;
      draft_response = some result.response;
      agent_unresolved = some result.unresolved;
    })

  unfoldable pub confidence_evaluation_node : Node W
  confidence_evaluation_node = checkpointed (codes "policy_evaluation") λ state. do
    let evaluation =
        evaluate_policy state.ticket_text placeholder_confidence_score
          (get_or state.agent_unresolved false)
    pure (record no_update {
      confidence_score = some placeholder_confidence_score;
      requires_human_review = some evaluation.requires_human_review;
      matched_policy_rules = some evaluation.matched_rules;
    })

  -- the review item, and the audit event behind it
  unfoldable pub persist_review : WorkflowState → Exec W (Unit {0})
  persist_review state = do
    let matched_policy_rules = get_or state.matched_policy_rules []
    with_session s (do
      create_pending s state.ticket_id (get_or state.draft_response []) state.retrieved_context
          (support_agent_type_value (get_or state.selected_agent SupportAgentType.general_agent))
          matched_policy_rules
      s.commit)
    log_audit_event s state.ticket_id (codes "ai_draft_created")
        (codes "AI generated a draft response requiring supervisor review.") none
        (some
          (obj (field (codes "matched_policy_rules") (arr (texts_json matched_policy_rules)) end)))

  -- a failure is logged and never raised
  unfoldable pub enqueue_supervisor_review : WorkflowState → Exec W (Unit {0})
  enqueue_supervisor_review state = try_except (in_worker (persist_review state)) (λ _. pure tt)

  unfoldable pub persist_results_node : Node W
  persist_results_node state = do
    if get_or state.requires_human_review false then enqueue_supervisor_review state else pure tt
    pure (record no_update { workflow_status = some WorkflowStatus.completed })
