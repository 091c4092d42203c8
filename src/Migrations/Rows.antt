-- ===== src/Migrations/Rows.antt =====
-- The columns that the backend's inserts give: backend/database/repositories/ticket.py,
-- approval_request.py and audit_log.py.
use supportops_ai.Common.{Option, none, some, [], ◌∷◌, Text, codes}
use supportops_ai.Python.{Uuid}
use supportops_ai.Enums.{ticket_priority_value, ticket_status_value, approval_status_value}
use supportops_ai.Models.{NewTicket, NewApprovalRequest, AuditLog}
use supportops_ai.Migrations.Values.{
  Value, Values, null, uuid_value, json_value, text_value, label, texts_value,
}

abbrev pub uuid_or_null : Option Uuid → Value
uuid_or_null none = null
uuid_or_null (some _) = uuid_value

abbrev pub text_or_null : Option Text → Value
text_or_null none = null
text_or_null (some t) = text_value t

-- `Ticket(…)`, with the key that its mixin makes
abbrev pub ticket_values : NewTicket → Values
ticket_values n =
    (codes "id", uuid_value)
    ∷ (codes "customer_id", uuid_value)
    ∷ (codes "subject", text_value n.subject)
    ∷ (codes "description", text_value n.description)
    ∷ (codes "priority", label (ticket_priority_value n.priority))
    ∷ (codes "status", label (ticket_status_value n.status))
    ∷ []

-- `ApprovalRequest(…)`
abbrev pub approval_values : NewApprovalRequest → Values
approval_values n =
    (codes "id", uuid_value)
    ∷ (codes "ticket_id", uuid_value)
    ∷ (codes "status", label (approval_status_value n.status))
    ∷ (codes "draft_response", text_value n.draft_response)
    ∷ (codes "retrieved_context", text_or_null n.retrieved_context)
    ∷ (codes "selected_agent", text_value n.selected_agent)
    ∷ (codes "matched_policy_rules", texts_value n.matched_policy_rules)
    ∷ []

-- `AuditLog(…)`, whose `event_metadata` is the column `metadata`
abbrev pub audit_values : AuditLog → Values
audit_values a =
    (codes "id", uuid_value)
    ∷ (codes "ticket_id", uuid_value)
    ∷ (codes "user_id", uuid_or_null a.user_id)
    ∷ (codes "event_type", text_value a.event_type)
    ∷ (codes "description", text_value a.description)
    ∷ (codes "metadata", json_value)
    ∷ []
