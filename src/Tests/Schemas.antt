-- ===== src/Tests/Schemas.antt =====
-- The migrations on a database with a table of another program.
use supportops_ai.Common.{some, ◌≤◌, length, ◌≡◌, refl, false, none, [], ◌∷◌, codes, text_eq, In}
use supportops_ai.Python.{ok}
use supportops_ai.Migrations.Schema.{Schema, table, column, uuid, primary_key}
use supportops_ai.Migrations.Effect.{apply_all}
use supportops_ai.Migrations.Revisions.{revisions, upgrade_all}
use supportops_ai.Migrations.Metadata.{Model, models}
use supportops_ai.Migrations.Frame.{IsApart, is_apart-IsApart, all_names}
use supportops_ai.Migrations.History.{or_empty}
use supportops_ai.Migrations.Declared.{IsDeclared}
use supportops_ai.Migrations.Undone.{downgrade_all, upgrade-downgrade}
use supportops_ai.Sample.Postgres.{execute}
use supportops_ai.Migrations.Effect.{apply}
use supportops_ai.Migrations.Migrator.{run, upgrade_head-IsDeclared}
use supportops_ai.Enums.{SupportAgentType, support_agent_type_value}
use supportops_ai.Models.{NewTicket, NewApprovalRequest, AuditLog}
use supportops_ai.Migrations.Rows.{ticket_values, approval_values, audit_values}
use supportops_ai.Migrations.Values.{Accepts}
use supportops_ai.Migrations.Inserts.{inserts-Accepts}
use supportops_ai.Sample.Database.{stored, visible, database, database-DatabaseLaws}
use supportops_ai.Seed.Run.{seed}
use supportops_ai.Seed.Stored.{AreAccepted, seed-AreAccepted}
use supportops_ai.Sample.Postgres.{Postgres, schema, has_null, migrator, migrator-MigratorLaws}

abbrev others : Schema
others =
    table (record {
      name = codes "invoices";
      columns = column (codes "id") uuid false none ∷ [];
      constraints = primary_key (codes "pk_invoices") (codes "id") ∷ [];
      indexes = [];
    })
    ∷ []

upgrades-IsApart : IsApart (all_names (upgrade_all revisions)) others
unfolding text_eq
upgrades-IsApart = is_apart-IsApart (all_names (upgrade_all revisions)) others refl

upgrade_head-IsDeclared_example :
    (w' : Postgres) × (run migrator (upgrade_all revisions) (others, false) ≡ (ok tt, w'))
    × ((c : Model) → In c models → IsDeclared c (schema w'))
upgrade_head-IsDeclared_example =
    upgrade_head-IsDeclared migrator schema has_null migrator-MigratorLaws (others, false)
      upgrades-IsApart

downgrades-IsApart : IsApart (all_names (downgrade_all revisions)) others
unfolding text_eq
downgrades-IsApart = is_apart-IsApart (all_names (downgrade_all revisions)) others refl

abbrev upgraded_database : Postgres
upgraded_database = (run migrator (upgrade_all revisions) (others, false)).1

upgrades : run migrator (upgrade_all revisions) (others, false) ≡ (ok tt, upgraded_database)
unfolding run migrator execute apply text_eq
upgrades = refl

not_null : has_null upgraded_database (codes "approval_requests") (codes "requested_by") ≡ false
unfolding run migrator execute apply text_eq
not_null = refl

upgrade-downgrade_example :
    (w' : Postgres) × (run migrator (downgrade_all revisions) upgraded_database ≡ (ok tt, w'))
    × (schema w' ≡ others)
upgrade-downgrade_example =
    upgrade-downgrade migrator schema has_null migrator-MigratorLaws (others, false)
      upgraded_database upgraded_database upgrades-IsApart downgrades-IsApart upgrades refl not_null

abbrev migrated : Schema
migrated = or_empty (apply_all (upgrade_all revisions) others)

upgraded : apply_all (upgrade_all revisions) others ≡ some migrated
unfolding apply_all text_eq
upgraded = refl

inserts-Accepts_example :
    ((n : NewTicket)
      → length n.subject ≤ 255
      → Accepts migrated (codes "tickets") (ticket_values n))
    × ((n : NewApprovalRequest) (a : SupportAgentType)
        → n.selected_agent ≡ support_agent_type_value a
        → Accepts migrated (codes "approval_requests") (approval_values n))
    × ((a : AuditLog)
        → length a.event_type ≤ 100
        → Accepts migrated (codes "audit_logs") (audit_values a))
inserts-Accepts_example = inserts-Accepts others migrated upgrades-IsApart upgraded

seed-AreAccepted_example : AreAccepted migrated (stored (seed database ([], [])).1)
seed-AreAccepted_example =
    seed-AreAccepted database stored visible database-DatabaseLaws others migrated upgrades-IsApart
      upgraded ([], []) (seed database ([], [])).1 (seed database ([], [])).0 refl
      (λ r at. absurd at)
