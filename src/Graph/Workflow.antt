-- ===== src/Graph/Workflow.antt =====
-- The compiled workflow: backend/graph/workflow.py. LangGraph itself is a parameter: what is used of
-- it is that a graph whose edges form one chain runs its nodes in that order, each on the state that
-- has the earlier updates put in.
pub mod Outcomes
use supportops_ai.Common.{
  ℕ, zero, suc, ◌≡◌, refl, Bool, true, false, Option, none, some, List, [], ◌∷◌, Text, codes,
  length, text_eq, if◌then◌else◌,
}
use supportops_ai.Python.{Exec, pure, ◌>>=◌}
use supportops_ai.Services.{Services}
use supportops_ai.Graph.State.{WorkflowState, StateUpdate, merge}
use supportops_ai.Graph.Nodes.{
  Node, load_ticket_node, classify_ticket_node, select_agent_node, execute_agent_node,
  confidence_evaluation_node, persist_results_node,
}

-- a `StateGraph` with its nodes and edges
pub record StateGraph (W : Type 0) : Type 0 where
  pub nodes : List (Text × Node W)
  pub edges : List (Text × Text)

abbrev pub start : Text
start = codes "__start__"

abbrev pub end : Text
end = codes "__end__"

unfoldable pub build_workflow : {W : Type 0} → Services W → StateGraph W
build_workflow s = record {
  nodes =
      (codes "load_ticket", load_ticket_node s)
      ∷ (codes "classify_ticket", classify_ticket_node s)
      ∷ (codes "select_agent", select_agent_node s)
      ∷ (codes "execute_agent", execute_agent_node s)
      ∷ (codes "confidence_evaluation", confidence_evaluation_node s)
      ∷ (codes "persist_results", persist_results_node s)
      ∷ [];
  edges =
      (start, codes "load_ticket")
      ∷ (codes "load_ticket", codes "classify_ticket")
      ∷ (codes "classify_ticket", codes "select_agent")
      ∷ (codes "select_agent", codes "execute_agent")
      ∷ (codes "execute_agent", codes "confidence_evaluation")
      ∷ (codes "confidence_evaluation", codes "persist_results")
      ∷ (codes "persist_results", end)
      ∷ [];
}

unfoldable pub assoc {ℓ} : {A : Type ℓ} → Text → List (Text × A) → Option A
assoc k [] = none
assoc k ((j, a) ∷ l) = if text_eq j k then some a else assoc k l

abbrev link {ℓ} : {A : Type ℓ} → Option A → Option (List A) → Option (List A)
link none _ = none
link (some a) none = none
link (some a) (some l) = some (a ∷ l)

-- The nodes on the way from `name` to the end, along the first edge out of each; `fuel` bounds the
-- number of nodes.
unfoldable pub chain_from : {W : Type 0} → StateGraph W → ℕ → Text → Option (List (Node W))
chain_from g zero name = none
chain_from g (suc fuel) name = elim (assoc name g.edges) [
  | none ↦ none
  | some next ↦ elim (text_eq next end) [
    | true ↦ some []
    | false ↦ link (assoc next g.nodes) (chain_from g fuel next)
  ]
]

-- the nodes one after the other, each update put into the state
unfoldable pub run_chain : {W : Type 0} → List (Node W) → WorkflowState → Exec W WorkflowState
run_chain [] state = pure state
run_chain (node ∷ nodes) state = do update ← node state; run_chain nodes (merge state update)

-- `graph.compile().invoke(state)`
pub record LangGraph (W : Type 0) : Type 0 where
  pub invoke : StateGraph W → WorkflowState → Exec W WorkflowState

-- No node has a second edge out of it.
abbrev pub OneEdgeEach : List (Text × Text) → Type 0
OneEdgeEach [] = Unit {0}
OneEdgeEach ((k, j) ∷ l) = (assoc k l ≡ none) × OneEdgeEach l

-- A chain takes no edge twice, so that the number of edges bounds its length.
pub record LangGraphLaws {W : Type 0} (l : LangGraph W) : Type 0 where
  pub invoke_chain :
      (g : StateGraph W) (nodes : List (Node W)) (state : WorkflowState) (w : W)
      → OneEdgeEach g.edges
      → chain_from g (length g.edges) start ≡ some nodes
      → l.invoke g state w ≡ run_chain nodes state w

-- `get_graph().invoke(state)`
unfoldable pub invoke_workflow :
    {W : Type 0} → LangGraph W → Services W → WorkflowState → Exec W WorkflowState
invoke_workflow l s state = l.invoke (build_workflow s) state

-- The six nodes run in the order of the module's diagram.
pub workflow_chain :
    {W : Type 0} (s : Services W)
    → chain_from (build_workflow s) (length (build_workflow s).edges) start
      ≡ some (
          load_ticket_node s
          ∷ classify_ticket_node s
          ∷ select_agent_node s
          ∷ execute_agent_node s
          ∷ confidence_evaluation_node s
          ∷ persist_results_node s
          ∷ [])
unfolding chain_from assoc build_workflow text_eq
workflow_chain s = refl

pub build_workflow-OneEdgeEach :
    {W : Type 0} (s : Services W) → OneEdgeEach (build_workflow s).edges
unfolding build_workflow assoc text_eq
build_workflow-OneEdgeEach s = (refl, (refl, (refl, (refl, (refl, (refl, (refl, tt)))))))
