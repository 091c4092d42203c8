-- ===== src/Seed/Values.antt =====
-- The tables and the columns of the rows that backend/scripts/seed.py adds.
use supportops_ai.Common.{Option, none, some, [], ◌∷◌, Text, codes}
use supportops_ai.Enums.{
  user_role_value, customer_tier_value, ticket_priority_value, ticket_status_value,
}
use supportops_ai.Migrations.Values.{Value, Values, null, uuid_value, text_value, label, bool_value}
use supportops_ai.Migrations.Rows.{text_or_null}
use supportops_ai.Seed.Rows.{
  NewUser, NewCustomer, NewDeskTicket, KnowledgeArticleSeed, Row, user_row, customer_row,
  ticket_row, article_row,
}

-- the key of a related object
abbrev pub key_or_null : {A : Type 0} → Option A → Value
key_or_null none = null
key_or_null (some _) = uuid_value

-- `User(…)`
abbrev pub user_values : NewUser → Values
user_values u =
    (codes "id", uuid_value)
    ∷ (codes "email", text_value u.email)
    ∷ (codes "password_hash", text_value u.password_hash)
    ∷ (codes "full_name", text_value u.full_name)
    ∷ (codes "role", label (user_role_value u.role))
    ∷ (codes "is_active", bool_value u.is_active)
    ∷ []

-- `Customer(…)`
abbrev pub customer_values : NewCustomer → Values
customer_values c =
    (codes "id", uuid_value)
    ∷ (codes "name", text_value c.name)
    ∷ (codes "email", text_value c.email)
    ∷ (codes "company", text_value c.company)
    ∷ (codes "tier", label (customer_tier_value c.tier))
    ∷ []

-- `Ticket(…)`, whose relationships set the keys of the customer and the agent
abbrev pub desk_ticket_values : NewDeskTicket → Values
desk_ticket_values t =
    (codes "id", uuid_value)
    ∷ (codes "customer_id", uuid_value)
    ∷ (codes "assigned_agent_id", key_or_null t.assigned_agent)
    ∷ (codes "subject", text_value t.subject)
    ∷ (codes "description", text_value t.description)
    ∷ (codes "priority", label (ticket_priority_value t.priority))
    ∷ (codes "status", label (ticket_status_value t.status))
    ∷ (codes "ai_summary", text_or_null t.ai_summary)
    ∷ []

-- `KnowledgeArticle(…)`
abbrev pub article_values : KnowledgeArticleSeed → Values
article_values a =
    (codes "id", uuid_value)
    ∷ (codes "category", text_value a.category)
    ∷ (codes "title", text_value a.title)
    ∷ (codes "content", text_value a.content)
    ∷ []

abbrev pub table_of : Row → Text
table_of (user_row _) = codes "users"
table_of (customer_row _) = codes "customers"
table_of (ticket_row _) = codes "tickets"
table_of (article_row _) = codes "knowledge_articles"

abbrev pub values_of : Row → Values
values_of (user_row u) = user_values u
values_of (customer_row c) = customer_values c
values_of (ticket_row t) = desk_ticket_values t
values_of (article_row a) = article_values a
