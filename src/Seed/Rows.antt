-- ===== src/Seed/Rows.antt =====
-- The rows that backend/scripts/seed.py writes, and the shape of the data that it writes them from.
use supportops_ai.Common.{ℕ, Bool, true, false, Option, Text, text_eq}
use supportops_ai.Enums.{UserRole, CustomerTier, TicketPriority, TicketStatus}

pub record UserSeed : Type 0 where
  pub full_name : Text
  pub email : Text
  pub password : Text
  pub role : UserRole

pub record CustomerSeed : Type 0 where
  pub name : Text
  pub email : Text
  pub company : Text
  pub tier : CustomerTier

pub record TicketSeed : Type 0 where
  pub customer_index : ℕ
  pub subject : Text
  pub description : Text
  pub priority : TicketPriority
  pub status : TicketStatus
  pub assigned_to : Option Text
  pub ai_summary : Option Text

pub record KnowledgeArticleSeed : Type 0 where
  pub category : Text
  pub title : Text
  pub content : Text

-- the columns that `User(…)`, `Customer(…)`, `Ticket(…)` and `KnowledgeArticle(…)` are given
pub record NewUser : Type 0 where
  pub email : Text
  pub password_hash : Text
  pub full_name : Text
  pub role : UserRole
  pub is_active : Bool

pub record NewCustomer : Type 0 where
  pub name : Text
  pub email : Text
  pub company : Text
  pub tier : CustomerTier

-- the relationships hold the objects that they were given
pub record NewDeskTicket : Type 0 where
  pub customer : NewCustomer
  pub assigned_agent : Option NewUser
  pub subject : Text
  pub description : Text
  pub priority : TicketPriority
  pub status : TicketStatus
  pub ai_summary : Option Text

pub data Row : Type 0 where
  user_row : NewUser → Row
  customer_row : NewCustomer → Row
  ticket_row : NewDeskTicket → Row
  article_row : KnowledgeArticleSeed → Row

-- `select(User.id).where(User.email == email)` has a result
abbrev pub is_user : Text → Row → Bool
is_user email (user_row u) = text_eq u.email email
is_user email _ = false

abbrev pub is_article : Row → Bool
is_article (article_row _) = true
is_article _ = false
