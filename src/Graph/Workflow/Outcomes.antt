-- ===== src/Graph/Workflow/Outcomes.antt =====
-- The endings of a run of the workflow: backend/graph/.
use supportops_ai.Common.{◌≡◌, refl, ap, ◌∙◌, codes, true, some, List, [], ◌∷◌, Text}
use supportops_ai.Enums.{TicketCategory, WorkflowStatus}
use supportops_ai.Python.{Exn, Outcome, ok, raised}
use supportops_ai.Python.Returns.{Returns}
use supportops_ai.Redis.{RedisFails}
use supportops_ai.Services.{Services, Profile}
use supportops_ai.Policy.{evaluate_policy}
use supportops_ai.Policy.Review.{unresolved, evaluate_policy_iff}
use supportops_ai.Agents.{AgentResult, respond, task_description, fallback_response}
use supportops_ai.Agents.Respond.{respond-Returns, Reply, respond-Reply}
use supportops_ai.Classifier.{classify_ticket}
use supportops_ai.Classifier.Laws.{classify_ticket-Returns}
use supportops_ai.Graph.State.{WorkflowState, StateUpdate, no_update, merge}
use supportops_ai.Graph.Nodes.{
  Node, placeholder_confidence_score, agent_by_category, agent_class_by_type, load_ticket_node,
  classify_ticket_node, select_agent_node, execute_agent_node, confidence_evaluation_node,
  persist_results_node,
}
use supportops_ai.Graph.Nodes.Laws.{
  classify_ticket_node-ok, select_agent_node-ok, execute_agent_node-ok,
  confidence_evaluation_node-ok, persist_results_node-ok,
}
use supportops_ai.Graph.Workflow.{
  LangGraph, LangGraphLaws, run_chain, invoke_workflow, workflow_chain, build_workflow,
  build_workflow-OneEdgeEach,
}

-- What has to work outside the nodes' own `try` blocks: the constructors of the libraries, and Redis
-- raising nothing but its own error.
pub record Constructs {W : Type 0} (s : Services W) : Type 0 where
  pub redis_fails : RedisFails s.redis
  pub open_ai : Returns s.new_open_ai
  pub agent : (a : Profile) → Returns (s.new_agent a)
  pub crew : (a : Profile) (d : Text) → Returns (s.new_crew a d)

-- the state at the end of a run, by the category and the agent's result
unfoldable pub completed_state : WorkflowState → TicketCategory → AgentResult → WorkflowState
completed_state state category result =
    let evaluation =
      evaluate_policy state.ticket_text placeholder_confidence_score result.unresolved in
    record state {
      category = some category;
      selected_agent = some (agent_by_category category);
      retrieved_context = some result.retrieved_context;
      draft_response = some result.response;
      agent_unresolved = some result.unresolved;
      confidence_score = some placeholder_confidence_score;
      requires_human_review = some evaluation.requires_human_review;
      matched_policy_rules = some evaluation.matched_rules;
      workflow_status = some WorkflowStatus.completed;
    }

run_chain-step :
    {W : Type 0} (node : Node W) (nodes : List (Node W)) (state : WorkflowState) (w w' : W)
    (u : StateUpdate)
    → node state w ≡ (ok u, w')
    → run_chain (node ∷ nodes) state w ≡ run_chain nodes (merge state u) w'
unfolding run_chain
run_chain-step node nodes state w w' u e = rw e

-- the state that the last node is given
unfoldable pub reviewed_state : WorkflowState → TicketCategory → AgentResult → WorkflowState
unfolding completed_state
reviewed_state state category result = record (completed_state state category result) {
  workflow_status = state.workflow_status;
}

-- a run that has ended: what the classifier and the agent of the category answered on the way, and
-- the state that came out
pub record Completed {W : Type 0} (s : Services W) (state : WorkflowState)
    (end : Outcome WorkflowState × W) : Type 0 where
  pub category : TicketCategory
  pub result : AgentResult
  pub before_category : W
  pub after_category : W
  pub before_agent : W
  pub after_agent : W
  pub before_results : W
  pub final_world : W
  pub classified :
      classify_ticket s state.ticket_text before_category ≡ (ok category, after_category)
  pub answered :
      respond s (agent_class_by_type (agent_by_category category)) state.ticket_text before_agent
      ≡ (ok result, after_agent)
  pub persisted :
      persist_results_node s (reviewed_state state category result) before_results
      ≡ (ok (record no_update { workflow_status = some WorkflowStatus.completed }), final_world)
  pub final : end ≡ (ok (completed_state state category result), final_world)

module _ {W : Type 0} (l : LangGraph W) (s : Services W) where
  -- Where LangGraph runs a chain of nodes in its order, Redis raises only `RedisError`, and the
  -- constructors of the OpenAI client, the agents and the crews return, every run returns a state
  -- with status COMPLETED: its category is what the classifier answered, its draft and context are
  -- what that category's agent answered, and its review decision and rules are the policy's for
  -- the ticket's text and the agent's `unresolved` signal.
  pub workflow-Completed :
      (state : WorkflowState) (w : W)
      → LangGraphLaws l
      → Constructs s
      → Completed s state (invoke_workflow l s state w)
  unfolding invoke_workflow load_ticket_node merge run_chain completed_state reviewed_state
  workflow-Completed state w laws c =
      let text = state.ticket_text in
      let (category, w1, classified) =
        (classify_ticket-Returns s text c.redis_fails c.open_ai).at w in
      let agent = agent_class_by_type (agent_by_category category) in
      let (w2, e2) = classify_ticket_node-ok s state w w1 category classified in
      let s2 = record state { category = some category } in
      let (w3, e3) = select_agent_node-ok s s2 w2 in
      let s3 = record s2 { selected_agent = some (agent_by_category category) } in
      let (_, w4, made) = (c.agent agent).at w3 in
      let (result, w5, answered) = (respond-Returns s agent text (c.crew agent)).at w4 in
      let (w6, e6) = execute_agent_node-ok s s3 w3 w4 w5 result made answered in
      let s6 = record s3 {
        retrieved_context = some result.retrieved_context;
        draft_response = some result.response;
        agent_unresolved = some result.unresolved;
      } in
      let (w7, e7) = confidence_evaluation_node-ok s s6 w6 in
      let evaluation = evaluate_policy text placeholder_confidence_score result.unresolved in
      let s7 = record s6 {
        confidence_score = some placeholder_confidence_score;
        requires_human_review = some evaluation.requires_human_review;
        matched_policy_rules = some evaluation.matched_rules;
      } in
      let (w8, e8) = persist_results_node-ok s s7 w7 in
      let last = persist_results_node s ∷ [] in
      let from_policy = confidence_evaluation_node s ∷ last in
      let from_agent = execute_agent_node s ∷ from_policy in
      let from_selection = select_agent_node s ∷ from_agent in
      let from_classifier = classify_ticket_node s ∷ from_selection in
      record {
        category = category;
        result = result;
        before_category = w;
        after_category = w1;
        before_agent = w4;
        after_agent = w5;
        before_results = w7;
        final_world = w8;
        classified = classified;
        answered = answered;
        persisted = e8;
        final =
            laws.invoke_chain (build_workflow s) _ state w (build_workflow-OneEdgeEach s)
              (workflow_chain s)
            ∙ (run_chain-step (load_ticket_node s) from_classifier state w w _ refl
                ∙ (run_chain-step (classify_ticket_node s) from_selection state w w2 _ e2
                    ∙ (run_chain-step (select_agent_node s) from_agent s2 w2 w3 _ e3
                        ∙ (run_chain-step (execute_agent_node s) from_policy s3 w3 w6 _ e6
                            ∙ (run_chain-step (confidence_evaluation_node s) last s6 w6 w7 _ e7
                                ∙ run_chain-step (persist_results_node s) [] s7 w7 w8 _ e8)))));
      }

-- An agent that reports `unresolved` always sends the ticket to review.
unresolved-review :
    (state : WorkflowState) (c : TicketCategory) (r : AgentResult)
    → r.unresolved ≡ true
    → (completed_state state c r).requires_human_review ≡ some true
unfolding completed_state
unresolved-review state c r h = ap some (
    (evaluate_policy_iff state.ticket_text placeholder_confidence_score r.unresolved).1.1
      (codes "agent_unresolved", unresolved h))

module _ {W : Type 0} (l : LangGraph W) (s : Services W) where
  -- the model cannot be reached: every kickoff raises
  abbrev pub Outage : Type 0
  Outage =
      (a : Profile) (d : Text) (w : W) → (e : Exn) × (w' : W) × (s.kickoff a d w ≡ (raised e, w'))

  respond_in_outage :
      (a : Profile) (t : Text) (w w' : W) (r : AgentResult)
      → ((d : Text) → Returns (s.new_crew a d))
      → Outage
      → respond s a t w ≡ (ok r, w')
      → (r.unresolved ≡ true) × (r.response ≡ fallback_response)
  respond_in_outage a t w w' r crew outage answered =
      let (context, w1, w2, result, _, _, made, reply) = respond-Reply s a t w crew in
      let (e, w3, failed) = outage a (task_description t context) w2 in
      let reply' : Reply s context (raised e) result = rw failed at reply in
      let (text, signal, _, _) = reply' in
      let same : result ≡ r = cc (made, answered) in (rw same at signal, rw same at text)

  -- Under the conditions of a completed run, and while every kickoff of a crew raises, a run still
  -- returns a state with status COMPLETED, with the fallback as its draft and with review
  -- required.
  pub outage_review :
      (state : WorkflowState) (w : W)
      → LangGraphLaws l
      → Constructs s
      → Outage
      → (f : WorkflowState) × (w' : W) × (invoke_workflow l s state w ≡ (ok f, w'))
        × (f.workflow_status ≡ some WorkflowStatus.completed)
        × (f.draft_response ≡ some fallback_response)
        × (f.requires_human_review ≡ some true)
  outage_review state w laws c outage =
      let run = workflow-Completed l s state w laws c in
      let agent = agent_class_by_type (agent_by_category run.category) in
      let (set, fallback) =
        respond_in_outage agent state.ticket_text run.before_agent run.after_agent run.result
          (c.crew agent) outage run.answered in
      (
        completed_state state run.category run.result,
        run.final_world,
        run.final,
        unfold completed_state in refl,
        unfold completed_state in ap some fallback,
        unresolved-review state run.category run.result set,
      )
