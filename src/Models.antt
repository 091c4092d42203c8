-- ===== src/Models.antt =====
-- The rows of the database: backend/database/models/*.py. Relationships are read through the
-- columns that hold them; columns that the program never reads are left out.
use supportops_ai.Common.{Bool, Option, List, Text}
use supportops_ai.Python.{Uuid, Time}
use supportops_ai.Enums.{UserRole, CustomerTier, TicketPriority, TicketStatus, ApprovalStatus}
use supportops_ai.Json.{Json}

pub record User : Type 0 where
  pub id : Uuid
  pub email : Text
  pub password_hash : Text
  pub full_name : Text
  pub role : UserRole
  pub is_active : Bool

pub record Customer : Type 0 where
  pub id : Uuid
  pub name : Text
  pub email : Text
  pub company : Option Text
  pub tier : CustomerTier
  pub created_at : Time

-- `ticket.id` and `ticket.created_at` are `None` until the row is flushed and refreshed.
pub record Ticket : Type 0 where
  pub id : Uuid
  pub customer_id : Uuid
  pub subject : Text
  pub description : Text
  pub priority : TicketPriority
  pub status : TicketStatus
  pub created_at : Option Time

-- the columns that `Ticket(…)` is given; the database and the mixins fill in the others
pub record NewTicket : Type 0 where
  pub customer_id : Uuid
  pub subject : Text
  pub description : Text
  pub priority : TicketPriority
  pub status : TicketStatus

-- the columns that `ApprovalRequest(…)` is given
pub record NewApprovalRequest : Type 0 where
  pub ticket_id : Uuid
  pub status : ApprovalStatus
  pub draft_response : Text
  pub retrieved_context : Option Text
  pub selected_agent : Text
  pub matched_policy_rules : List Text

-- With the columns of `approval_request.ticket` that the queue shows.
pub record ApprovalRequest : Type 0 where
  pub id : Uuid
  pub ticket_id : Uuid
  pub customer_id : Uuid
  pub priority : TicketPriority
  pub requested_by : Option Uuid
  pub approved_by : Option Uuid
  pub status : ApprovalStatus
  pub comments : Option Text
  pub requested_at : Time
  pub decided_at : Option Time
  pub draft_response : Text
  pub retrieved_context : Option Text
  pub selected_agent : Text
  pub matched_policy_rules : List Text

pub record AuditLog : Type 0 where
  pub ticket_id : Uuid
  pub user_id : Option Uuid
  pub event_type : Text
  pub description : Text
  pub event_metadata : Json
