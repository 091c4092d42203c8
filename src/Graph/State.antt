-- ===== src/Graph/State.antt =====
-- `WorkflowState` of backend/graph/state.py, and the partial updates that the nodes return.
use supportops_ai.Common.{Bool, Option, none, some, List, [], ◌∷◌, Text, codes}
use supportops_ai.Python.{Uuid}
use supportops_ai.Enums.{
  TicketCategory, SupportAgentType, WorkflowStatus, ticket_category_value, support_agent_type_value,
  workflow_status_value,
}
use supportops_ai.Json.{Json, bool, str, float, arr, obj, Items, nil, cons, Fields, end, field}
use supportops_ai.Policy.{Score}

-- A field that is `NotRequired` is `none` while no node has set it.
pub record WorkflowState : Type 0 where
  pub ticket_id : Uuid
  pub customer_id : Uuid
  pub ticket_text : Text
  pub category : Option TicketCategory
  pub selected_agent : Option SupportAgentType
  pub retrieved_context : Option Text
  pub draft_response : Option Text
  pub agent_unresolved : Option Bool
  pub confidence_score : Option Score
  pub requires_human_review : Option Bool
  pub matched_policy_rules : Option (List Text)
  pub workflow_status : Option WorkflowStatus

-- the dictionary that a node returns: the keys that it sets
pub record StateUpdate : Type 0 where
  pub ticket_id : Option Uuid
  pub customer_id : Option Uuid
  pub ticket_text : Option Text
  pub category : Option TicketCategory
  pub selected_agent : Option SupportAgentType
  pub retrieved_context : Option Text
  pub draft_response : Option Text
  pub agent_unresolved : Option Bool
  pub confidence_score : Option Score
  pub requires_human_review : Option Bool
  pub matched_policy_rules : Option (List Text)
  pub workflow_status : Option WorkflowStatus

abbrev pub no_update : StateUpdate
no_update = record {
  ticket_id = none;
  customer_id = none;
  ticket_text = none;
  category = none;
  selected_agent = none;
  retrieved_context = none;
  draft_response = none;
  agent_unresolved = none;
  confidence_score = none;
  requires_human_review = none;
  matched_policy_rules = none;
  workflow_status = none;
}

-- `state.get(k, default)`
abbrev pub get_or {ℓ} : {A : Type ℓ} → Option A → A → A
get_or none a = a
get_or (some b) a = b

abbrev pub or_else {ℓ} : {A : Type ℓ} → Option A → Option A → Option A
or_else none o = o
or_else (some a) o = some a

-- the state with the keys of an update put in
unfoldable pub merge : WorkflowState → StateUpdate → WorkflowState
merge s u = record {
  ticket_id = get_or u.ticket_id s.ticket_id;
  customer_id = get_or u.customer_id s.customer_id;
  ticket_text = get_or u.ticket_text s.ticket_text;
  category = or_else u.category s.category;
  selected_agent = or_else u.selected_agent s.selected_agent;
  retrieved_context = or_else u.retrieved_context s.retrieved_context;
  draft_response = or_else u.draft_response s.draft_response;
  agent_unresolved = or_else u.agent_unresolved s.agent_unresolved;
  confidence_score = or_else u.confidence_score s.confidence_score;
  requires_human_review = or_else u.requires_human_review s.requires_human_review;
  matched_policy_rules = or_else u.matched_policy_rules s.matched_policy_rules;
  workflow_status = or_else u.workflow_status s.workflow_status;
}

abbrev pub texts_json : List Text → Items
texts_json [] = nil
texts_json (t ∷ ts) = cons (str t) (texts_json ts)

abbrev pub entry {ℓ} : {A : Type ℓ} → Text → (A → Json) → Option A → Fields → Fields
entry k f none rest = rest
entry k f (some a) rest = field k (f a) rest

-- an update as `json.dumps` sees it: a member of an enumeration is its value, a tuple a list
unfoldable pub update_json : StateUpdate → Json
update_json u = obj (
    entry (codes "ticket_id") str u.ticket_id (
      entry (codes "customer_id") str u.customer_id (
        entry (codes "ticket_text") str u.ticket_text (
          entry (codes "category") (λ c. str (ticket_category_value c)) u.category
            (entry (codes "selected_agent") (λ a. str (support_agent_type_value a)) u.selected_agent
              (entry (codes "retrieved_context") str u.retrieved_context (
                entry (codes "draft_response") str u.draft_response (
                  entry (codes "agent_unresolved") bool u.agent_unresolved (
                    entry (codes "confidence_score") (λ c. float c.mantissa c.shift)
                      u.confidence_score
                      (entry (codes "requires_human_review") bool u.requires_human_review (
                        entry (codes "matched_policy_rules") (λ r. arr (texts_json r))
                          u.matched_policy_rules
                          (entry (codes "workflow_status") (λ w. str (workflow_status_value w))
                            u.workflow_status end))))))))))))
