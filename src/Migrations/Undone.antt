-- ===== src/Migrations/Undone.antt =====
-- The upgrades and the downgrades of alembic/versions/ on one database.
use supportops_ai.Common.{
  ◌≡◌, refl, ◌∙◌, inl, inr, false, some, List, [], ◌∷◌, ◌++◌, codes, Option-cases, text_eq, Text,
  Bool,
}
use supportops_ai.Python.{ok}
use supportops_ai.Migrations.Schema.{Schema, Statement, set_type, set_nullable, timestamp}
use supportops_ai.Migrations.Effect.{apply, apply_all}
use supportops_ai.Migrations.Revisions.{Revision, revisions, upgrade_all}
use supportops_ai.Migrations.Frame.{all_names, IsApart}
use supportops_ai.Migrations.Steps.{apply_all-append}
use supportops_ai.Migrations.History.{head}
use supportops_ai.Migrations.Declared.{up_from_empty}
use supportops_ai.Migrations.Migrator.{Migrator, MigratorLaws, run, run-ok}

-- `alembic downgrade base`
abbrev pub downgrade_all : List Revision → List Statement
downgrade_all [] = []
downgrade_all (r ∷ rs) = downgrade_all rs ++ r.downgrade

-- behind the first two statements
abbrev after_two : List Statement → List Statement
after_two (_ ∷ _ ∷ statements) = statements
after_two _ = []

down_to_empty : apply_all (downgrade_all revisions) head ≡ some []
unfolding head apply_all text_eq
down_to_empty = refl

apply_all-cons :
    (st : Statement) (statements : List Statement) (s s' : Schema)
    → apply_all (st ∷ statements) s ≡ some s'
    → (s1 : Schema) × (apply st s ≡ some s1) × (apply_all statements s1 ≡ some s')
unfolding apply_all
apply_all-cons st statements s s' h = elim (Option-cases (apply st s)) [
  | inl absent ↦ absurd (cc (rw absent at h))
  | inr (s1, made) ↦ (s1, made, rw made at h)
]

module _ {W : Type 0} (m : Migrator W) (schema : W → Schema) (has_null : W → Text → Text → Bool)
    (L : MigratorLaws m schema has_null) where
  -- the two statements that a row may stop, or that a row stays the same under, and then plain ones
  downgrade-ok :
      (w : W) (s : Schema)
      → apply_all (downgrade_all revisions) (schema w) ≡ some s
      → has_null w (codes "approval_requests") (codes "requested_by") ≡ false
      → (w' : W) × (run m (downgrade_all revisions) w ≡ (ok tt, w')) × (schema w' ≡ s)
  unfolding run
  downgrade-ok w s h filled =
      let first = set_type (codes "approval_requests") (codes "decided_at") timestamp in
      let second = set_nullable (codes "approval_requests") (codes "requested_by") false in
      let rest = after_two (downgrade_all revisions) in
      let (s1, made, h1) = apply_all-cons first (second ∷ rest) (schema w) s h in
      let (w1, done, left) = L.executes first w s1 made tt in
      let kept =
        L.type_keeps _ _ timestamp w w1 (codes "approval_requests") (codes "requested_by") done in
      let (s2, made', h2) = apply_all-cons second rest s1 s h1 in
      let (w2, done', left') = L.executes second w1 s2 (rw left made') (kept ∙ filled) in
      let (w', ran, last) = run-ok m schema has_null L rest w2 s (rw left' h2) refl in
      (w', rw done (rw done' ran), last)

  -- A database whose schema mentions none of the names in the migrations, and which executes what
  -- PostgreSQL documents, has been upgraded to the head. When it is then downgraded to the base, in
  -- a state with that schema in which no approval request has NULL for `requested_by`, every
  -- statement is executed, and the schema is exactly what it was before the upgrade. Whatever other
  -- rows there are by then does not matter.
  pub upgrade-downgrade :
      (w w1 w2 : W)
      → IsApart (all_names (upgrade_all revisions)) (schema w)
      → IsApart (all_names (downgrade_all revisions)) (schema w)
      → run m (upgrade_all revisions) w ≡ (ok tt, w1)
      → schema w2 ≡ schema w1
      → has_null w2 (codes "approval_requests") (codes "requested_by") ≡ false
      → (w3 : W) × (run m (downgrade_all revisions) w2 ≡ (ok tt, w3)) × (schema w3 ≡ schema w)
  upgrade-downgrade w w1 w2 ups downs upgraded same filled =
      let base = schema w in
      let up = apply_all-append (upgrade_all revisions) [] head base ups up_from_empty in
      let down = apply_all-append (downgrade_all revisions) head [] base downs down_to_empty in
      let (w', ran, reached) =
        run-ok m schema has_null L (upgrade_all revisions) w (head ++ base) up refl in
      let one : w' ≡ w1 = cc (ran, upgraded) in
      let there : schema w2 ≡ head ++ base = same ∙ (rw one at reached) in
      downgrade-ok w2 base (rw there down) filled
