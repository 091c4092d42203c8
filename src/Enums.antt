-- ===== src/Enums.antt =====
-- The enumerations of backend/database/enums.py and backend/graph/state.py: the members, and the
-- values by which they are stored and sent.
pub mod Values
use supportops_ai.Common.{Option, none, some, List, [], ◌∷◌, Text, codes, text_eq, if◌then◌else◌}

-- `E(value)`: the member that has the value; Python raises `ValueError` where there is none.
abbrev pub by_value {ℓ} : {E : Type ℓ} → (E → Text) → List E → Text → Option E
by_value value [] t = none
by_value value (e ∷ es) t = if text_eq (value e) t then some e else by_value value es t

pub data UserRole : Type 0 where
  agent supervisor admin : UserRole

pub data CustomerTier : Type 0 where
  standard premium enterprise : CustomerTier

pub data TicketPriority : Type 0 where
  low medium high urgent : TicketPriority

pub data TicketStatus : Type 0 where
  new triaged assigned drafted approval_required approved sent closed : TicketStatus

pub data ApprovalStatus : Type 0 where
  pending approved rejected : ApprovalStatus

pub data TicketCategory : Type 0 where
  billing technical account general : TicketCategory

pub data SupportAgentType : Type 0 where
  billing_agent technical_agent account_agent general_agent : SupportAgentType

pub data WorkflowStatus : Type 0 where
  pending in_progress completed : WorkflowStatus

-- `.value` of UserRole
abbrev pub user_role_value : UserRole → Text
user_role_value UserRole.agent = codes "agent"
user_role_value UserRole.supervisor = codes "supervisor"
user_role_value UserRole.admin = codes "admin"

abbrev pub user_role_members : List UserRole
user_role_members = UserRole.agent ∷ UserRole.supervisor ∷ UserRole.admin ∷ []

-- `.value` of CustomerTier
abbrev pub customer_tier_value : CustomerTier → Text
customer_tier_value CustomerTier.standard = codes "standard"
customer_tier_value CustomerTier.premium = codes "premium"
customer_tier_value CustomerTier.enterprise = codes "enterprise"

abbrev pub customer_tier_members : List CustomerTier
customer_tier_members = CustomerTier.standard ∷ CustomerTier.premium ∷ CustomerTier.enterprise ∷ []

-- `.value` of TicketPriority
abbrev pub ticket_priority_value : TicketPriority → Text
ticket_priority_value TicketPriority.low = codes "low"
ticket_priority_value TicketPriority.medium = codes "medium"
ticket_priority_value TicketPriority.high = codes "high"
ticket_priority_value TicketPriority.urgent = codes "urgent"

abbrev pub ticket_priority_members : List TicketPriority
ticket_priority_members =
    TicketPriority.low ∷ TicketPriority.medium ∷ TicketPriority.high ∷ TicketPriority.urgent ∷ []

-- `.value` of TicketStatus
abbrev pub ticket_status_value : TicketStatus → Text
ticket_status_value TicketStatus.new = codes "new"
ticket_status_value TicketStatus.triaged = codes "triaged"
ticket_status_value TicketStatus.assigned = codes "assigned"
ticket_status_value TicketStatus.drafted = codes "drafted"
ticket_status_value TicketStatus.approval_required = codes "approval_required"
ticket_status_value TicketStatus.approved = codes "approved"
ticket_status_value TicketStatus.sent = codes "sent"
ticket_status_value TicketStatus.closed = codes "closed"

abbrev pub ticket_status_members : List TicketStatus
ticket_status_members =
    TicketStatus.new ∷ TicketStatus.triaged ∷ TicketStatus.assigned ∷ TicketStatus.drafted
    ∷ TicketStatus.approval_required ∷ TicketStatus.approved ∷ TicketStatus.sent
    ∷ TicketStatus.closed ∷ []

-- `.value` of ApprovalStatus
abbrev pub approval_status_value : ApprovalStatus → Text
approval_status_value ApprovalStatus.pending = codes "pending"
approval_status_value ApprovalStatus.approved = codes "approved"
approval_status_value ApprovalStatus.rejected = codes "rejected"

abbrev pub approval_status_members : List ApprovalStatus
approval_status_members =
    ApprovalStatus.pending ∷ ApprovalStatus.approved ∷ ApprovalStatus.rejected ∷ []

-- `.value` of TicketCategory
abbrev pub ticket_category_value : TicketCategory → Text
ticket_category_value TicketCategory.billing = codes "billing"
ticket_category_value TicketCategory.technical = codes "technical"
ticket_category_value TicketCategory.account = codes "account"
ticket_category_value TicketCategory.general = codes "general"

abbrev pub ticket_category_members : List TicketCategory
ticket_category_members =
    TicketCategory.billing ∷ TicketCategory.technical ∷ TicketCategory.account
    ∷ TicketCategory.general ∷ []

-- `.value` of SupportAgentType
abbrev pub support_agent_type_value : SupportAgentType → Text
support_agent_type_value SupportAgentType.billing_agent = codes "billing_agent"
support_agent_type_value SupportAgentType.technical_agent = codes "technical_agent"
support_agent_type_value SupportAgentType.account_agent = codes "account_agent"
support_agent_type_value SupportAgentType.general_agent = codes "general_agent"

abbrev pub support_agent_type_members : List SupportAgentType
support_agent_type_members =
    SupportAgentType.billing_agent ∷ SupportAgentType.technical_agent
    ∷ SupportAgentType.account_agent ∷ SupportAgentType.general_agent ∷ []

-- `.value` of WorkflowStatus
abbrev pub workflow_status_value : WorkflowStatus → Text
workflow_status_value WorkflowStatus.pending = codes "pending"
workflow_status_value WorkflowStatus.in_progress = codes "in_progress"
workflow_status_value WorkflowStatus.completed = codes "completed"

abbrev pub workflow_status_members : List WorkflowStatus
workflow_status_members =
    WorkflowStatus.pending ∷ WorkflowStatus.in_progress ∷ WorkflowStatus.completed ∷ []

-- `TicketCategory(value)`
unfoldable pub ticket_category : Text → Option TicketCategory
ticket_category = by_value ticket_category_value ticket_category_members

-- `UserRole(value)`
unfoldable pub user_role : Text → Option UserRole
user_role = by_value user_role_value user_role_members
