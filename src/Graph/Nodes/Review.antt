-- ===== src/Graph/Nodes/Review.antt =====
-- The request for approval that the last node stores: backend/graph/nodes.py.
use supportops_ai.Common.{◌≡◌, ◌∙◌, true, false, Option, none, some, List, [], In, Text, codes}
use supportops_ai.Python.{Uuid, ok}
use supportops_ai.Python.Returns.{Returns}
use supportops_ai.Python.Keeps.{Keeps, Keeps-at}
use supportops_ai.Enums.{ApprovalStatus, SupportAgentType, support_agent_type_value}
use supportops_ai.Models.{ApprovalRequest, NewApprovalRequest}
use supportops_ai.Services.{Services}
use supportops_ai.Audit.{log_audit_event-Returns}
use supportops_ai.Approvals.{create_pending}
use supportops_ai.Graph.State.{WorkflowState, StateUpdate, get_or, texts_json}
use supportops_ai.Json.{Json, obj, end, field, arr}
use supportops_ai.Graph.Nodes.{persist_review, enqueue_supervisor_review, persist_results_node}
use supportops_ai.Supervisor.Rows.{QueueLaws, log-Keeps}

-- the columns of a row are those that its insert gave
abbrev pub IsOf : NewApprovalRequest → ApprovalRequest → Type 0
IsOf n r =
    (r.ticket_id ≡ n.ticket_id)
    × (r.status ≡ n.status)
    × (r.draft_response ≡ n.draft_response)
    × (r.retrieved_context ≡ n.retrieved_context)
    × (r.selected_agent ≡ n.selected_agent)
    × (r.matched_policy_rules ≡ n.matched_policy_rules)

-- A database that is up, for the calls behind a request for approval, and what it documents of an
-- insert.
pub record ReviewLaws {W : Type 0} (s : Services W) (stored visible : W → List ApprovalRequest)
    : Type 0 where
  pub opens : Returns s.open_session
  pub closes : Returns s.close_session
  pub commits : Returns s.commit
  pub inserts : (n : NewApprovalRequest) → Returns (s.insert_approval_request n)
  pub loads : (id : Uuid) → Returns (s.approval_by_id id)
  pub load_sees : (id : Uuid) → Keeps visible (s.approval_by_id id)
  pub insert_adds :
      (n : NewApprovalRequest) (id : Uuid) (w w' : W)
      → s.insert_approval_request n w ≡ (ok id, w')
      → (r : ApprovalRequest) × In r (visible w') × IsOf n r

-- the request that a state asks for
abbrev pub asked_for : WorkflowState → NewApprovalRequest
asked_for state = record {
  ticket_id = state.ticket_id;
  status = ApprovalStatus.pending;
  draft_response = get_or state.draft_response [];
  retrieved_context = state.retrieved_context;
  selected_agent =
      support_agent_type_value (get_or state.selected_agent SupportAgentType.general_agent);
  matched_policy_rules = get_or state.matched_policy_rules [];
}

module _ {W : Type 0} (s : Services W) (stored visible : W → List ApprovalRequest)
    (L : QueueLaws s stored visible) (R : ReviewLaws s stored visible) where
  abbrev pub IsStored : WorkflowState → W → Type 0
  IsStored state w = (r : ApprovalRequest) × In r (stored w) × IsOf (asked_for state) r

  -- the audit event of the request
  abbrev event : Text
  event = codes "ai_draft_created"

  abbrev event_description : Text
  event_description = codes "AI generated a draft response requiring supervisor review."

  abbrev event_metadata : WorkflowState → Option Json
  event_metadata state = some (
      obj (
        field (codes "matched_policy_rules")
          (arr (texts_json (get_or state.matched_policy_rules []))) end))

  persist_review-IsStored :
      (state : WorkflowState) (w : W)
      → (w' : W) × (persist_review s state w ≡ (ok tt, w')) × IsStored state w'
  unfolding persist_review create_pending
  persist_review-IsStored state w =
      let (_, w1, opened) = R.opens.at w in
      let (id, w2, inserted) = (R.inserts (asked_for state)).at w1 in
      let (row, w3, loaded) = (R.loads id).at w2 in
      let (_, w4, saved) = R.commits.at w3 in
      let (_, w5, closed) = R.closes.at w4 in
      let log =
        log_audit_event-Returns s state.ticket_id event event_description none
          (event_metadata state) in
      let (_, w6, logged) = log.at w5 in
      let (r, there, is_of) = R.insert_adds (asked_for state) id w1 w2 inserted in
      let kept : stored w6 ≡ visible w2 =
        Keeps-at _ w5 w6 _
          (log-Keeps s stored visible L state.ticket_id event event_description none
            (event_metadata state))
          logged
        ∙ (Keeps-at _ w4 w5 _ L.close_keeps closed
            ∙ (L.commit_stores w3 w4 saved ∙ Keeps-at _ w2 w3 _ (R.load_sees id) loaded)) in
      (
        w6,
        rw opened (rw inserted (rw loaded (rw saved (rw closed logged)))),
        (r, rw kept there, is_of),
      )

  -- the last node of a run that asks for a review
  pub persist_results_node-IsStored :
      (state : WorkflowState) (u : StateUpdate) (w w' : W)
      → get_or state.requires_human_review false ≡ true
      → persist_results_node s state w ≡ (ok u, w')
      → IsStored state w'
  unfolding persist_results_node enqueue_supervisor_review
  persist_results_node-IsStored state u w w' review h =
      let (v, stored, is_stored) = persist_review-IsStored state w in
      let same : v ≡ w' = cc (rw stored at (rw review at h)) in rw same at is_stored
