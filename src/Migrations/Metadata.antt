-- ===== src/Migrations/Metadata.antt =====
-- The tables that the ORM's classes declare: backend/database/models/*.py and the mixins and names of
-- backend/database/base.py.
use supportops_ai.Common.{
  Bool, true, false, Option, none, some, List, [], ◌∷◌, ◌++◌, Text, codes, map,
}
use supportops_ai.Migrations.Schema.{
  Column, Constraint, Index, Table, column, uuid, text, timestamp, timestamp_with_time_zone, jsonb,
  integer, boolean, varchar, varchar_array, enum, now, true_value, primary_key, unique, foreign_key,
}

-- what `mapped_column(…)` is given
pub record Attribute : Type 0 where
  pub declared : Column
  pub is_indexed : Bool
  pub is_unique : Bool
  pub refers_to : Option Text

pub record Model : Type 0 where
  pub tablename : Text
  pub attributes : List Attribute

abbrev plain : Column → Attribute
plain c = record { declared = c; is_indexed = false; is_unique = false; refers_to = none }

abbrev indexed : Column → Attribute
indexed c = record { declared = c; is_indexed = true; is_unique = false; refers_to = none }

abbrev unique_attribute : Column → Attribute
unique_attribute c = record { declared = c; is_indexed = false; is_unique = true; refers_to = none }

abbrev reference : Column → Text → Attribute
reference c t = record { declared = c; is_indexed = false; is_unique = false; refers_to = some t }

abbrev indexed_reference : Column → Text → Attribute
indexed_reference c t = record {
  declared = c;
  is_indexed = true;
  is_unique = false;
  refers_to = some t;
}

-- the mixins
abbrev id_attribute : Attribute
id_attribute = plain (column (codes "id") uuid false none)

abbrev created_at_attribute : Attribute
created_at_attribute = plain (column (codes "created_at") timestamp false (some now))

abbrev updated_at_attribute : Attribute
updated_at_attribute = plain (column (codes "updated_at") timestamp false (some now))

abbrev pub user_model : Model
user_model = record {
  tablename = codes "users";
  attributes =
      id_attribute
      ∷ created_at_attribute
      ∷ updated_at_attribute
      ∷ unique_attribute (column (codes "email") (varchar 255) false none)
      ∷ plain (column (codes "password_hash") text false none)
      ∷ plain (column (codes "full_name") (varchar 255) false none)
      ∷ plain (column (codes "role") (enum (codes "user_role")) false none)
      ∷ plain (column (codes "is_active") boolean false (some true_value))
      ∷ [];
}

abbrev pub customer_model : Model
customer_model = record {
  tablename = codes "customers";
  attributes =
      id_attribute
      ∷ created_at_attribute
      ∷ plain (column (codes "name") (varchar 255) false none)
      ∷ indexed (column (codes "email") (varchar 255) false none)
      ∷ indexed (column (codes "company") (varchar 255) true none)
      ∷ plain (column (codes "tier") (enum (codes "customer_tier")) false none)
      ∷ [];
}

abbrev pub ticket_model : Model
ticket_model = record {
  tablename = codes "tickets";
  attributes =
      id_attribute
      ∷ updated_at_attribute
      ∷ indexed_reference (column (codes "customer_id") uuid false none) (codes "customers")
      ∷ indexed_reference (column (codes "assigned_agent_id") uuid true none) (codes "users")
      ∷ plain (column (codes "subject") (varchar 255) false none)
      ∷ plain (column (codes "description") text false none)
      ∷ indexed (column (codes "priority") (enum (codes "ticket_priority")) false none)
      ∷ indexed (column (codes "status") (enum (codes "ticket_status")) false none)
      ∷ plain (column (codes "ai_summary") text true none)
      ∷ indexed (column (codes "created_at") timestamp false (some now))
      ∷ [];
}

abbrev pub approval_request_model : Model
approval_request_model = record {
  tablename = codes "approval_requests";
  attributes =
      id_attribute
      ∷ indexed_reference (column (codes "ticket_id") uuid false none) (codes "tickets")
      ∷ reference (column (codes "requested_by") uuid true none) (codes "users")
      ∷ reference (column (codes "approved_by") uuid true none) (codes "users")
      ∷ indexed (column (codes "status") (enum (codes "approval_status")) false none)
      ∷ plain (column (codes "comments") text true none)
      ∷ plain (column (codes "requested_at") timestamp false (some now))
      ∷ plain (column (codes "decided_at") timestamp_with_time_zone true none)
      ∷ plain (column (codes "draft_response") text false none)
      ∷ plain (column (codes "retrieved_context") text true none)
      ∷ plain (column (codes "selected_agent") (varchar 50) false none)
      ∷ plain (column (codes "matched_policy_rules") varchar_array false none)
      ∷ [];
}

abbrev pub audit_log_model : Model
audit_log_model = record {
  tablename = codes "audit_logs";
  attributes =
      id_attribute
      ∷ indexed_reference (column (codes "ticket_id") uuid false none) (codes "tickets")
      ∷ reference (column (codes "user_id") uuid true none) (codes "users")
      ∷ plain (column (codes "event_type") (varchar 100) false none)
      ∷ plain (column (codes "description") text false none)
      ∷ plain (column (codes "metadata") jsonb true none)
      ∷ indexed (column (codes "created_at") timestamp false (some now))
      ∷ [];
}

abbrev pub agent_run_model : Model
agent_run_model = record {
  tablename = codes "agent_runs";
  attributes =
      id_attribute
      ∷ indexed_reference (column (codes "ticket_id") uuid false none) (codes "tickets")
      ∷ plain (column (codes "agent_name") (varchar 100) false none)
      ∷ plain (column (codes "model") (varchar 100) false none)
      ∷ plain (column (codes "input") jsonb false none)
      ∷ plain (column (codes "output") jsonb false none)
      ∷ plain (column (codes "latency_ms") integer false none)
      ∷ plain (column (codes "tokens_prompt") integer true none)
      ∷ plain (column (codes "tokens_completion") integer true none)
      ∷ indexed (column (codes "success") boolean false none)
      ∷ plain (column (codes "error_message") text true none)
      ∷ indexed (column (codes "created_at") timestamp false (some now))
      ∷ [];
}

abbrev pub knowledge_article_model : Model
knowledge_article_model = record {
  tablename = codes "knowledge_articles";
  attributes =
      id_attribute
      ∷ created_at_attribute
      ∷ updated_at_attribute
      ∷ indexed (column (codes "category") (varchar 50) false none)
      ∷ plain (column (codes "title") (varchar 255) false none)
      ∷ plain (column (codes "content") text false none)
      ∷ [];
}

-- `Base.metadata`
abbrev pub models : List Model
models =
    user_model ∷ customer_model ∷ ticket_model ∷ approval_request_model ∷ audit_log_model
    ∷ agent_run_model ∷ knowledge_article_model ∷ []

-- `NAMING_CONVENTION`
abbrev label : Text → Text → Text → Text
label prefix tablename rest = prefix ++ (codes "_" ++ (tablename ++ (codes "_" ++ rest)))

abbrev constraints_of : Text → List Attribute → List Constraint
constraints_of t [] = []
constraints_of t (a ∷ others) =
    unique_of a.is_unique (reference_of a.refers_to (constraints_of t others))
  where
    reference_of : Option Text → List Constraint → List Constraint
    reference_of none l = l
    reference_of (some to) l =
        foreign_key (label (codes "fk") t (a.declared.name ++ (codes "_" ++ to))) a.declared.name to
        ∷ l

    unique_of : Bool → List Constraint → List Constraint
    unique_of false l = l
    unique_of true l = unique (label (codes "uq") t a.declared.name) a.declared.name ∷ l

abbrev indexes_of : Text → List Attribute → List Index
indexes_of t [] = []
indexes_of t (a ∷ others) = index_of a.is_indexed (indexes_of t others)
  where
    index_of : Bool → List Index → List Index
    index_of false l = l
    index_of true l =
        record { name = label (codes "ix") t a.declared.name; column = a.declared.name } ∷ l

-- the table that a class describes
abbrev pub table_of : Model → Table
table_of m = record {
  name = m.tablename;
  columns = map (λ a. a.declared) m.attributes;
  constraints =
      primary_key (codes "pk_" ++ m.tablename) (codes "id")
      ∷ constraints_of m.tablename m.attributes;
  indexes = indexes_of m.tablename m.attributes;
}
