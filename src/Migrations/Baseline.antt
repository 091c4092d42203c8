-- ===== src/Migrations/Baseline.antt =====
-- The statements of alembic/versions/8f0d1bb0d4bb_initial_schema_baseline.py.
use supportops_ai.Common.{true, false, none, some, List, [], ◌∷◌, codes}
use supportops_ai.Migrations.Schema.{
  Statement, column, create_type, create_table, create_index, drop_table_if_exists,
  drop_type_if_exists, uuid, text, timestamp, jsonb, integer, boolean, varchar, enum, now,
  true_value, primary_key, unique, foreign_key,
}

abbrev pub upgrade_statements : List Statement
upgrade_statements =
    create_type (codes "approval_status")
      (codes "pending" ∷ codes "approved" ∷ codes "rejected" ∷ [])
    ∷ create_type (codes "customer_tier")
        (codes "standard" ∷ codes "premium" ∷ codes "enterprise" ∷ [])
    ∷ create_type (codes "ticket_priority")
        (codes "low" ∷ codes "medium" ∷ codes "high" ∷ codes "urgent" ∷ [])
    ∷ create_type (codes "ticket_status") (
        codes "new"
        ∷ codes "triaged"
        ∷ codes "assigned"
        ∷ codes "drafted"
        ∷ codes "approval_required"
        ∷ codes "approved"
        ∷ codes "sent"
        ∷ codes "closed"
        ∷ [])
    ∷ create_type (codes "user_role") (codes "agent" ∷ codes "supervisor" ∷ codes "admin" ∷ [])
    ∷ create_table (codes "customers")
        (record { name = codes "id"; column_type = uuid; nullable = false; server_default = none }
          ∷ column (codes "name") (varchar 255) false none
          ∷ column (codes "email") (varchar 255) false none
          ∷ column (codes "company") (varchar 255) true none
          ∷ column (codes "tier") (enum (codes "customer_tier")) false none
          ∷ column (codes "created_at") timestamp false (some now)
          ∷ [])
        (primary_key (codes "pk_customers") (codes "id") ∷ [])
    ∷ create_index (codes "ix_customers_email") (codes "customers") (codes "email")
    ∷ create_index (codes "ix_customers_company") (codes "customers") (codes "company")
    ∷ create_table (codes "users")
        (record { name = codes "id"; column_type = uuid; nullable = false; server_default = none }
          ∷ column (codes "email") (varchar 255) false none
          ∷ column (codes "password_hash") text false none
          ∷ column (codes "full_name") (varchar 255) false none
          ∷ column (codes "role") (enum (codes "user_role")) false none
          ∷ column (codes "is_active") boolean false (some true_value)
          ∷ column (codes "created_at") timestamp false (some now)
          ∷ column (codes "updated_at") timestamp false (some now)
          ∷ [])
        (primary_key (codes "pk_users") (codes "id")
          ∷ unique (codes "uq_users_email") (codes "email")
          ∷ [])
    ∷ create_table (codes "tickets")
        (record { name = codes "id"; column_type = uuid; nullable = false; server_default = none }
          ∷ column (codes "customer_id") uuid false none
          ∷ column (codes "assigned_agent_id") uuid true none
          ∷ column (codes "subject") (varchar 255) false none
          ∷ column (codes "description") text false none
          ∷ column (codes "priority") (enum (codes "ticket_priority")) false none
          ∷ column (codes "status") (enum (codes "ticket_status")) false none
          ∷ column (codes "ai_summary") text true none
          ∷ column (codes "created_at") timestamp false (some now)
          ∷ column (codes "updated_at") timestamp false (some now)
          ∷ [])
        (primary_key (codes "pk_tickets") (codes "id")
          ∷ foreign_key (codes "fk_tickets_customer_id_customers") (codes "customer_id")
              (codes "customers")
          ∷ foreign_key (codes "fk_tickets_assigned_agent_id_users") (codes "assigned_agent_id")
              (codes "users")
          ∷ [])
    ∷ create_index (codes "ix_tickets_customer_id") (codes "tickets") (codes "customer_id")
    ∷ create_index (codes "ix_tickets_assigned_agent_id") (codes "tickets")
        (codes "assigned_agent_id")
    ∷ create_index (codes "ix_tickets_priority") (codes "tickets") (codes "priority")
    ∷ create_index (codes "ix_tickets_status") (codes "tickets") (codes "status")
    ∷ create_index (codes "ix_tickets_created_at") (codes "tickets") (codes "created_at")
    ∷ create_table (codes "approval_requests")
        (record { name = codes "id"; column_type = uuid; nullable = false; server_default = none }
          ∷ column (codes "ticket_id") uuid false none
          ∷ column (codes "requested_by") uuid false none
          ∷ column (codes "approved_by") uuid true none
          ∷ column (codes "status") (enum (codes "approval_status")) false none
          ∷ column (codes "comments") text true none
          ∷ column (codes "requested_at") timestamp false (some now)
          ∷ column (codes "decided_at") timestamp true none
          ∷ [])
        (primary_key (codes "pk_approval_requests") (codes "id")
          ∷ foreign_key (codes "fk_approval_requests_ticket_id_tickets") (codes "ticket_id")
              (codes "tickets")
          ∷ foreign_key (codes "fk_approval_requests_requested_by_users") (codes "requested_by")
              (codes "users")
          ∷ foreign_key (codes "fk_approval_requests_approved_by_users") (codes "approved_by")
              (codes "users")
          ∷ [])
    ∷ create_index (codes "ix_approval_requests_ticket_id") (codes "approval_requests")
        (codes "ticket_id")
    ∷ create_index (codes "ix_approval_requests_status") (codes "approval_requests")
        (codes "status")
    ∷ create_table (codes "audit_logs")
        (record { name = codes "id"; column_type = uuid; nullable = false; server_default = none }
          ∷ column (codes "ticket_id") uuid false none
          ∷ column (codes "user_id") uuid true none
          ∷ column (codes "event_type") (varchar 100) false none
          ∷ column (codes "description") text false none
          ∷ column (codes "metadata") jsonb true none
          ∷ column (codes "created_at") timestamp false (some now)
          ∷ [])
        (primary_key (codes "pk_audit_logs") (codes "id")
          ∷ foreign_key (codes "fk_audit_logs_ticket_id_tickets") (codes "ticket_id")
              (codes "tickets")
          ∷ foreign_key (codes "fk_audit_logs_user_id_users") (codes "user_id") (codes "users")
          ∷ [])
    ∷ create_index (codes "ix_audit_logs_ticket_id") (codes "audit_logs") (codes "ticket_id")
    ∷ create_index (codes "ix_audit_logs_created_at") (codes "audit_logs") (codes "created_at")
    ∷ create_table (codes "agent_runs")
        (record { name = codes "id"; column_type = uuid; nullable = false; server_default = none }
          ∷ column (codes "ticket_id") uuid false none
          ∷ column (codes "agent_name") (varchar 100) false none
          ∷ column (codes "model") (varchar 100) false none
          ∷ column (codes "input") jsonb false none
          ∷ column (codes "output") jsonb false none
          ∷ column (codes "latency_ms") integer false none
          ∷ column (codes "tokens_prompt") integer true none
          ∷ column (codes "tokens_completion") integer true none
          ∷ column (codes "success") boolean false none
          ∷ column (codes "error_message") text true none
          ∷ column (codes "created_at") timestamp false (some now)
          ∷ [])
        (primary_key (codes "pk_agent_runs") (codes "id")
          ∷ foreign_key (codes "fk_agent_runs_ticket_id_tickets") (codes "ticket_id")
              (codes "tickets")
          ∷ [])
    ∷ create_index (codes "ix_agent_runs_ticket_id") (codes "agent_runs") (codes "ticket_id")
    ∷ create_index (codes "ix_agent_runs_success") (codes "agent_runs") (codes "success")
    ∷ create_index (codes "ix_agent_runs_created_at") (codes "agent_runs") (codes "created_at")
    ∷ []

abbrev pub downgrade_statements : List Statement
downgrade_statements =
    drop_table_if_exists (codes "agent_runs")
    ∷ drop_table_if_exists (codes "audit_logs")
    ∷ drop_table_if_exists (codes "approval_requests")
    ∷ drop_table_if_exists (codes "tickets")
    ∷ drop_table_if_exists (codes "users")
    ∷ drop_table_if_exists (codes "customers")
    ∷ drop_type_if_exists (codes "user_role")
    ∷ drop_type_if_exists (codes "ticket_status")
    ∷ drop_type_if_exists (codes "ticket_priority")
    ∷ drop_type_if_exists (codes "customer_tier")
    ∷ drop_type_if_exists (codes "approval_status")
    ∷ []
