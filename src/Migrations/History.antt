-- ===== src/Migrations/History.antt =====
-- The revisions one after the other, each with its downgrade.
use supportops_ai.Common.{◌≡◌, refl, Option, none, some, List, [], ◌∷◌, ◌++◌, Text, text_eq}
use supportops_ai.Migrations.Schema.{Schema}
use supportops_ai.Migrations.Effect.{apply_all}
use supportops_ai.Migrations.Revisions.{Revision, baseline, ai_context, decided_at_aware, revisions}
use supportops_ai.Migrations.Frame.{all_names, IsApart, IsApart-append}
use supportops_ai.Migrations.Steps.{apply_all-append}

abbrev pub or_empty : Option Schema → Schema
or_empty none = []
or_empty (some s) = s

-- the schemas that the revisions leave in an empty database
unfoldable pub after_baseline : Schema
unfolding apply_all
after_baseline = or_empty (apply_all baseline.upgrade [])

unfoldable pub after_ai_context : Schema
unfolding apply_all after_baseline
after_ai_context = or_empty (apply_all ai_context.upgrade after_baseline)

unfoldable pub head : Schema
unfolding apply_all after_ai_context
head = or_empty (apply_all decided_at_aware.upgrade after_ai_context)

-- every name that the statements of the revisions have
abbrev pub revision_names : List Revision → List Text
revision_names [] = []
revision_names (r ∷ rs) = all_names r.upgrade ++ (all_names r.downgrade ++ revision_names rs)

-- From the schema each revision upgrades, its downgrade takes the new schema back to the one before
-- it, and the next revision goes on from the new one.
abbrev pub Undoes : List Revision → Schema → Type 0
Undoes [] s = Unit {0}
Undoes (r ∷ rs) s =
    (s' : Schema) × (apply_all r.upgrade s ≡ some s')
    × (apply_all r.downgrade s' ≡ some s)
    × Undoes rs s'

Undoes-append :
    (rs : List Revision) (s base : Schema)
    → IsApart (revision_names rs) base
    → Undoes rs s
    → Undoes rs (s ++ base)
Undoes-append [] s base apart h = tt
Undoes-append (r ∷ rs) s base apart (s', up, down, h) =
    let (ups, rest) = IsApart-append (all_names r.upgrade) _ base apart in
    let (downs, later) = IsApart-append (all_names r.downgrade) (revision_names rs) base rest in
    (
      s' ++ base,
      apply_all-append r.upgrade s s' base ups up,
      apply_all-append r.downgrade s' s base downs down,
      Undoes-append rs s' base later h,
    )

from_empty : Undoes revisions []
unfolding head apply_all text_eq
from_empty = (after_baseline, refl, refl, (after_ai_context, refl, refl, (head, refl, refl, tt)))

-- Rows left aside, in any schema that mentions none of the names in the revisions, the three revisions
-- upgrade one after the other, and the downgrade of each takes the schema back to exactly what it
-- was before its upgrade.
pub revisions-Undoes :
    (base : Schema) → IsApart (revision_names revisions) base → Undoes revisions base
revisions-Undoes base apart = Undoes-append revisions [] base apart from_empty
