-- ===== src/Sample/Postgres.antt =====
-- A database that is a schema, and whether some approval request has no requester.
use supportops_ai.Common.{◌&&◌, ◌≡◌, refl, Bool, true, false, Option, none, some, [], Text, codes}
use supportops_ai.Python.{Exec, ok, raised, other}
use supportops_ai.Migrations.Schema.{
  Schema, Statement, ColumnType, set_nullable, set_type, add_column,
}
use supportops_ai.Migrations.Effect.{apply}
use supportops_ai.Migrations.Migrator.{Migrator, MigratorLaws, Allows, forbids_null}

abbrev pub Postgres : Type 0
Postgres = Schema × Bool

abbrev pub schema : Postgres → Schema
schema (s, b) = s

abbrev pub has_null : Postgres → Text → Text → Bool
has_null (s, b) t c = b

abbrev applied : Option Schema → Exec Postgres (Unit {0})
applied none (s, b) = (raised (other (codes "refused")), (s, b))
applied (some s') (s, b) = (ok tt, (s', b))

abbrev refuse_when : Bool → Exec Postgres (Unit {0}) → Exec Postgres (Unit {0})
refuse_when true m w = (raised (other (codes "contains null values")), w)
refuse_when false m w = m w

-- a statement about NULL is refused when there is one
unfoldable pub execute : Statement → Exec Postgres (Unit {0})
execute st (s, b) = refuse_when (forbids_null st && b) (applied (apply st s)) (s, b)

unfoldable pub migrator : Migrator Postgres
unfolding execute
migrator = record { execute = execute }

not_refused : (st : Statement) (b : Bool) → Allows (λ t c. b) st → (forbids_null st && b) ≡ false
not_refused (set_nullable t c true) b h = refl
not_refused (set_nullable t c false) b h = h
not_refused (add_column t c) b h = rw h refl
not_refused _ b h = refl

executes :
    (st : Statement) (w : Postgres) (s : Schema)
    → apply st (schema w) ≡ some s
    → Allows (has_null w) st
    → (w' : Postgres) × (execute st w ≡ (ok tt, w')) × (schema w' ≡ s)
unfolding execute
executes st (s, b) s' h allowed = ((s', b), rw (not_refused st b allowed) (rw h refl), refl)

applied_keeps :
    (o : Option Schema) (s : Schema) (b : Bool) (w : Postgres)
    → applied o (s, b) ≡ (ok tt, w)
    → has_null w [] [] ≡ b
applied_keeps none s b w h = absurd (cc h)
applied_keeps (some s') s b w h = let e : (s', b) ≡ w = cc h in rw (← e) refl

type_keeps :
    (t c : Text) (ty : ColumnType) (w w' : Postgres) (t' c' : Text)
    → execute (set_type t c ty) w ≡ (ok tt, w')
    → has_null w' t' c' ≡ has_null w t' c'
unfolding execute
type_keeps t c ty (s, b) (s', b') t' c' h = applied_keeps (apply (set_type t c ty) s) s b (s', b') h

pub migrator-MigratorLaws : MigratorLaws migrator schema has_null
unfolding migrator
migrator-MigratorLaws = record { executes = executes; type_keeps = type_keeps }
