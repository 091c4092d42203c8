-- ===== src/Migrations/Migrator.antt =====
-- The revisions on a database, which is not part of the repository: what it is given to execute, and
-- what the migrations rely on.
use supportops_ai.Common.{
  ◌≡◌, refl, inl, inr, Bool, true, false, not, ◌&&◌, &&_true, Option, some, none, List, [], ◌∷◌,
  Text, Option-cases, In,
}
use supportops_ai.Python.{Exec, ok, pure, ◌>>◌}
use supportops_ai.Migrations.Schema.{
  Schema, Statement, Default, ColumnType, add_column, set_nullable, set_type,
}
use supportops_ai.Migrations.Effect.{apply, apply_all}
use supportops_ai.Migrations.Revisions.{revisions, upgrade_all}
use supportops_ai.Migrations.Metadata.{Model, models}
use supportops_ai.Migrations.Frame.{all_names, IsApart, not-true}
use supportops_ai.Migrations.Declared.{IsDeclared, upgrade-IsDeclared}

-- `op.execute(statement)`, or the operation of Alembic
pub record Migrator (W : Type 0) : Type 0 where
  pub execute : Statement → Exec W (Unit {0})

abbrev is_none : Option Default → Bool
is_none none = true
is_none (some _) = false

-- a statement that the rows of a table may contradict
abbrev pub forbids_null : Statement → Bool
forbids_null (set_nullable _ _ b) = not b
forbids_null (add_column _ c) = not c.nullable && is_none c.server_default
forbids_null _ = false

-- The rows contradict a statement where it forbids NULL in a column that has one. A new column
-- without a default has NULL in every row, and is not allowed to forbid it here.
abbrev pub Allows : (Text → Text → Bool) → Statement → Type 0
Allows has_null (set_nullable t c false) = has_null t c ≡ false
Allows has_null (add_column t c) = (not c.nullable && is_none c.server_default) ≡ false
Allows has_null _ = Unit {0}

-- What PostgreSQL documents of a database of tables, types and indexes alone, without views, rules or
-- triggers on them, to whose owner the migrations connect. `schema w` is its schema, and
-- `has_null w t c` tells whether a row of table `t` has NULL in column `c`.
pub record MigratorLaws {W : Type 0} (m : Migrator W) (schema : W → Schema)
    (has_null : W → Text → Text → Bool) : Type 0 where
  -- a statement that the schema and the rows allow is executed
  pub executes :
      (st : Statement) (w : W) (s : Schema)
      → apply st (schema w) ≡ some s
      → Allows (has_null w) st
      → (w' : W) × (m.execute st w ≡ (ok tt, w')) × (schema w' ≡ s)
  -- a value is not NULL in another type
  pub type_keeps :
      (t c : Text) (ty : ColumnType) (w w' : W) (t' c' : Text)
      → m.execute (set_type t c ty) w ≡ (ok tt, w')
      → has_null w' t' c' ≡ has_null w t' c'

plain-Allows :
    (has_null : Text → Text → Bool) (st : Statement) → forbids_null st ≡ false → Allows has_null st
plain-Allows has_null (set_nullable t c true) h = tt
plain-Allows has_null (set_nullable t c false) h = absurd (cc h)
plain-Allows has_null (add_column t c) h = h
plain-Allows has_null _ h = tt

module _ {W : Type 0} (m : Migrator W) where
  -- the body of `upgrade` or `downgrade`
  unfoldable pub run : List Statement → Exec W (Unit {0})
  run [] = pure tt
  run (st ∷ statements) = m.execute st >> run statements

abbrev pub none_forbid : List Statement → Bool
none_forbid [] = true
none_forbid (st ∷ statements) = not (forbids_null st) && none_forbid statements

module _ {W : Type 0} (m : Migrator W) (schema : W → Schema) (has_null : W → Text → Text → Bool)
    (L : MigratorLaws m schema has_null) where
  pub run-ok :
      (statements : List Statement) (w : W) (s : Schema)
      → apply_all statements (schema w) ≡ some s
      → none_forbid statements ≡ true
      → (w' : W) × (run m statements w ≡ (ok tt, w')) × (schema w' ≡ s)
  unfolding run apply_all
  run-ok [] w s h plain = (w, refl, cc h)
  run-ok (st ∷ statements) w s h plain =
      let (here, later) = &&_true (not (forbids_null st)) (none_forbid statements) plain in
      elim (Option-cases (apply st (schema w))) [
        | inl absent ↦ absurd (cc (rw absent at h))
        | inr (s1, made) ↦
            let (w1, done, left) =
              L.executes st w s1 made (plain-Allows (has_null w) st (not-true _ here)) in
            let rest : apply_all statements (schema w1) ≡ some s = rw left (rw made at h) in
            let (w', ran, last) = run-ok statements w1 s rest later in (w', rw done ran, last)
      ]

  -- On a database whose schema mentions none of the names in the upgrades, and which executes what
  -- PostgreSQL documents, `alembic upgrade head` returns, and every class of the ORM finds in the
  -- schema that it leaves the table that the class declares.
  pub upgrade_head-IsDeclared :
      (w : W)
      → IsApart (all_names (upgrade_all revisions)) (schema w)
      → (w' : W) × (run m (upgrade_all revisions) w ≡ (ok tt, w'))
        × ((c : Model) → In c models → IsDeclared c (schema w'))
  upgrade_head-IsDeclared w apart =
      let (s, up, declared) = upgrade-IsDeclared (schema w) apart in
      let (w', ran, left) = run-ok (upgrade_all revisions) w s up refl in
      (w', ran, λ c at. rw left (declared c at))
