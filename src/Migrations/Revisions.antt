-- ===== src/Migrations/Revisions.antt =====
-- The revisions of alembic/versions/*.py, in the order of their `down_revision`.
use supportops_ai.Common.{true, false, Option, none, some, List, [], ◌∷◌, ◌++◌, Text, codes}
use supportops_ai.Migrations.Schema.{
  Statement, column, create_table, create_index, add_column, drop_default, set_nullable, set_type,
  drop_column, drop_index, drop_table, uuid, text, timestamp, timestamp_with_time_zone, varchar,
  varchar_array, now, empty_text, empty_array, primary_key,
}
use supportops_ai.Migrations.Baseline.{upgrade_statements, downgrade_statements}

pub record Revision : Type 0 where
  pub revision : Text
  pub down_revision : Option Text
  pub upgrade : List Statement
  pub downgrade : List Statement

abbrev pub baseline : Revision
baseline = record {
  revision = codes "8f0d1bb0d4bb";
  down_revision = none;
  upgrade = upgrade_statements;
  downgrade = downgrade_statements;
}

-- 757988297d96_add_knowledge_articles_and_approval_.py
abbrev pub ai_context : Revision
ai_context = record {
  revision = codes "757988297d96";
  down_revision = some (codes "8f0d1bb0d4bb");
  upgrade =
      create_table (codes "knowledge_articles")
        (column (codes "category") (varchar 50) false none
          ∷ column (codes "title") (varchar 255) false none
          ∷ column (codes "content") text false none
          ∷ column (codes "id") uuid false none
          ∷ column (codes "updated_at") timestamp false (some now)
          ∷ column (codes "created_at") timestamp false (some now)
          ∷ [])
        (primary_key (codes "pk_knowledge_articles") (codes "id") ∷ [])
      ∷ create_index (codes "ix_knowledge_articles_category") (codes "knowledge_articles")
          (codes "category")
      ∷ add_column (codes "approval_requests")
          (column (codes "draft_response") text false (some empty_text))
      ∷ add_column (codes "approval_requests") (column (codes "retrieved_context") text true none)
      ∷ add_column (codes "approval_requests")
          (column (codes "selected_agent") (varchar 50) false (some empty_text))
      ∷ add_column (codes "approval_requests")
          (column (codes "matched_policy_rules") varchar_array false (some empty_array))
      ∷ drop_default (codes "approval_requests") (codes "draft_response")
      ∷ drop_default (codes "approval_requests") (codes "selected_agent")
      ∷ drop_default (codes "approval_requests") (codes "matched_policy_rules")
      ∷ set_nullable (codes "approval_requests") (codes "requested_by") true
      ∷ [];
  downgrade =
      set_nullable (codes "approval_requests") (codes "requested_by") false
      ∷ drop_column (codes "approval_requests") (codes "matched_policy_rules")
      ∷ drop_column (codes "approval_requests") (codes "selected_agent")
      ∷ drop_column (codes "approval_requests") (codes "retrieved_context")
      ∷ drop_column (codes "approval_requests") (codes "draft_response")
      ∷ drop_index (codes "ix_knowledge_articles_category") (codes "knowledge_articles")
      ∷ drop_table (codes "knowledge_articles")
      ∷ [];
}

-- 26f06c6b17b3_make_approval_requests_decided_at_.py
abbrev pub decided_at_aware : Revision
decided_at_aware = record {
  revision = codes "26f06c6b17b3";
  down_revision = some (codes "757988297d96");
  upgrade = set_type (codes "approval_requests") (codes "decided_at") timestamp_with_time_zone ∷ [];
  downgrade = set_type (codes "approval_requests") (codes "decided_at") timestamp ∷ [];
}

abbrev pub revisions : List Revision
revisions = baseline ∷ ai_context ∷ decided_at_aware ∷ []

-- `alembic upgrade head`, and `alembic downgrade base`
abbrev pub upgrade_all : List Revision → List Statement
upgrade_all [] = []
upgrade_all (r ∷ rs) = r.upgrade ++ upgrade_all rs

abbrev pub downgrade_all : List Revision → List Statement
downgrade_all [] = []
downgrade_all (r ∷ rs) = downgrade_all rs ++ r.downgrade
