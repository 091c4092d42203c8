-- ===== src/Graph/Nodes/Laws.antt =====
-- What each node of backend/graph/nodes.py returns.
use supportops_ai.Common.{◌≡◌, refl, inl, inr, false, some, Text, codes, Bool-cases}
use supportops_ai.Enums.{TicketCategory, SupportAgentType, WorkflowStatus}
use supportops_ai.Python.{Exn, ok, raised, pure, try_except}
use supportops_ai.Python.Returns.{Returns, returns_rules}
use supportops_ai.Services.{Services}
use supportops_ai.Agents.{AgentResult, respond}
use supportops_ai.Classifier.{classify_ticket}
use supportops_ai.Checkpoint
use supportops_ai.Policy.{evaluate_policy}
use supportops_ai.Graph.State.{WorkflowState, StateUpdate, no_update, get_or, update_json}
use supportops_ai.Graph.Nodes.{
  Node, placeholder_confidence_score, agent_by_category, agent_class_by_type, checkpointed,
  classify_ticket_node, select_agent_node, execute_agent_node, confidence_evaluation_node,
  enqueue_supervisor_review, persist_results_node,
}

module _ {W : Type 0} (s : Services W) where
  checkpoint-Returns :
      (stage : Text) (state : WorkflowState) (u : StateUpdate)
      → Returns
          (try_except (Checkpoint.save s state.ticket_id stage (update_json u)) (λ _. pure tt))
  checkpoint-Returns stage state u = search returns_rules

  -- A checkpointed node returns the update of the node itself, whatever saving the checkpoint does.
  pub checkpointed-ok :
      (stage : Text) (node : Node W) (state : WorkflowState) (w w' : W) (u : StateUpdate)
      → node state w ≡ (ok u, w')
      → (w'' : W) × (checkpointed s stage node state w ≡ (ok u, w''))
  unfolding checkpointed
  checkpointed-ok stage node state w w' u e =
      let (_, w'', saved) = (checkpoint-Returns stage state u).at w' in (w'', rw e (rw saved))

  -- A checkpointed node that raises saves nothing.
  pub checkpointed-raised :
      (stage : Text) (node : Node W) (state : WorkflowState) (w w' : W) (e : Exn)
      → node state w ≡ (raised e, w')
      → checkpointed s stage node state w ≡ (raised e, w')
  unfolding checkpointed
  checkpointed-raised stage node state w w' e h = rw h

  pub classify_ticket_node-ok :
      (state : WorkflowState) (w w' : W) (c : TicketCategory)
      → classify_ticket s state.ticket_text w ≡ (ok c, w')
      → (w'' : W) × (classify_ticket_node s state w
          ≡ (ok (record no_update { category = some c }), w''))
  unfolding classify_ticket_node
  classify_ticket_node-ok state w w' c e =
      checkpointed-ok (codes "classification") _ state w w' (record no_update { category = some c })
        (rw e)

  pub select_agent_node-ok :
      (state : WorkflowState) (w : W)
      → (w' : W) × (select_agent_node s state w ≡ (
        ok (record no_update {
          selected_agent = some (agent_by_category (get_or state.category TicketCategory.general));
        }),
        w',
      ))
  unfolding select_agent_node
  select_agent_node-ok state w = checkpointed-ok (codes "agent_selection") _ state w w _ refl

  pub execute_agent_node-ok :
      (state : WorkflowState) (w w' w'' : W) (r : AgentResult)
      → s.new_agent
          (agent_class_by_type (get_or state.selected_agent SupportAgentType.general_agent))
          w
        ≡ (ok tt, w')
      → respond s
          (agent_class_by_type (get_or state.selected_agent SupportAgentType.general_agent))
          state.ticket_text
          w'
        ≡ (ok r, w'')
      → (v : W) × (execute_agent_node s state w ≡ (
        ok (record no_update {
          retrieved_context = some r.retrieved_context;
          draft_response = some r.response;
          agent_unresolved = some r.unresolved;
        }),
        v,
      ))
  unfolding execute_agent_node
  execute_agent_node-ok state w w' w'' r made answered =
      checkpointed-ok (codes "specialist_execution") _ state w w'' _ (rw made (rw answered))

  pub confidence_evaluation_node-ok :
      (state : WorkflowState) (w : W)
      → let evaluation =
          evaluate_policy state.ticket_text placeholder_confidence_score
            (get_or state.agent_unresolved false) in
        (w' : W) × (confidence_evaluation_node s state w ≡ (
          ok (record no_update {
            confidence_score = some placeholder_confidence_score;
            requires_human_review = some evaluation.requires_human_review;
            matched_policy_rules = some evaluation.matched_rules;
          }),
          w',
        ))
  unfolding confidence_evaluation_node
  confidence_evaluation_node-ok state w =
      checkpointed-ok (codes "policy_evaluation") _ state w w _ refl

  enqueue-Returns : (state : WorkflowState) → Returns (enqueue_supervisor_review s state)
  unfolding enqueue_supervisor_review
  enqueue-Returns state = search returns_rules

  pub persist_results_node-ok :
      (state : WorkflowState) (w : W)
      → (w' : W) × (persist_results_node s state w
          ≡ (ok (record no_update { workflow_status = some WorkflowStatus.completed }), w'))
  unfolding persist_results_node
  persist_results_node-ok state w = elim (Bool-cases (get_or state.requires_human_review false)) [
    | inl review ↦ let (_, w', e) = (enqueue-Returns state).at w in (w', rw review (rw e))
    | inr quiet ↦ (w, rw quiet)
  ]
