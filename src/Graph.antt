-- ===== src/Graph.antt =====
-- The workflow graph: backend/graph/state.py, nodes.py and workflow.py.
pub mod State
pub mod Nodes
pub mod Workflow
pub use State.{WorkflowState, StateUpdate}
unfoldable pub use State.{no_update, merge}
