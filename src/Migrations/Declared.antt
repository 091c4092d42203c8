-- ===== src/Migrations/Declared.antt =====
-- The migrated schema against the classes of the ORM.
use supportops_ai.Common.{
  ◌≡◌, ◌↔◌, refl, inl, inr, Bool, true, false, ◌&&◌, &&_true, some, List, [], ◌∷◌, ◌++◌, text_eq,
  text_eq→≡, In, In-append_left, any, Bool-cases, ◌==◌, ==_iff, length,
}
use supportops_ai.Migrations.Schema.{Table, Entry, Schema, enum_type, table}
use supportops_ai.Migrations.Effect.{apply_all}
use supportops_ai.Migrations.Revisions.{revisions, upgrade_all}
use supportops_ai.Migrations.Metadata.{Model, models, table_of}
use supportops_ai.Migrations.Equality.{
  column_eq, column_eq→≡, constraint_eq, constraint_eq→≡, index_eq, index_eq→≡, all_in, all_in-In,
}
use supportops_ai.Migrations.Frame.{all_names, IsApart}
use supportops_ai.Migrations.Steps.{apply_all-append}
use supportops_ai.Migrations.History.{head}

-- the same items, in any order
abbrev pub SameItems : {A : Type 0} → List A → List A → Type 0
SameItems {A} xs ys = (length xs ≡ length ys) × ((a : A) → In a xs ↔ In a ys)

-- The schema has the table of the class: its name, and its columns (each with its type, whether it
-- may be NULL, and its default), constraints and indexes in some order.
pub record IsDeclared (m : Model) (s : Schema) : Type 0 where
  pub found : Table
  pub there : In (table found) s
  pub named : found.name ≡ m.tablename
  pub same_columns : SameItems found.columns (table_of m).columns
  pub same_constraints : SameItems found.constraints (table_of m).constraints
  pub same_indexes : SameItems found.indexes (table_of m).indexes

-- The table stays where the schema grows.
IsDeclared-grow :
    (m : Model) (s s' : Schema)
    → ((e : Entry) → In e s → In e s')
    → IsDeclared m s
    → IsDeclared m s'
IsDeclared-grow m s s' grows d = record {
  found = d.found;
  there = grows (table d.found) d.there;
  named = d.named;
  same_columns = d.same_columns;
  same_constraints = d.same_constraints;
  same_indexes = d.same_indexes;
}

module _ {A : Type 0} (eq : A → A → Bool) (sound : (a b : A) → eq a b ≡ true → a ≡ b) where
  abbrev same_items : List A → List A → Bool
  same_items xs ys = length xs == length ys && (all_in eq sound xs ys && all_in eq sound ys xs)

  same_items-SameItems : (xs ys : List A) → same_items xs ys ≡ true → SameItems xs ys
  same_items-SameItems xs ys h =
      let (size, h') = &&_true (length xs == length ys) _ h in
      let (l, r) = &&_true (all_in eq sound xs ys) (all_in eq sound ys xs) h' in
      (
        (==_iff (length xs) (length ys)).0 size,
        λ a. (all_in-In eq sound xs ys a l, all_in-In eq sound ys xs a r),
      )

abbrev table_agrees : Model → Table → Bool
table_agrees m t =
    text_eq t.name m.tablename
    && (same_items column_eq column_eq→≡ t.columns (table_of m).columns
        && (same_items constraint_eq constraint_eq→≡ t.constraints (table_of m).constraints
            && same_items index_eq index_eq→≡ t.indexes (table_of m).indexes))

abbrev agrees : Model → Entry → Bool
agrees m (enum_type _ _) = false
agrees m (table t) = table_agrees m t

abbrev all_agree : List Model → Schema → Bool
all_agree [] s = true
all_agree (m ∷ ms) s = any (agrees m) s && all_agree ms s

agrees-IsDeclared : (m : Model) (s : Schema) → any (agrees m) s ≡ true → IsDeclared m s
agrees-IsDeclared m [] h = absurd (cc)
agrees-IsDeclared m (enum_type n ls ∷ s) h =
    IsDeclared-grow m s _ (λ e at. inr at) (agrees-IsDeclared m s h)
agrees-IsDeclared m (table t ∷ s) h = elim (Bool-cases (table_agrees m t)) [
  | inl same ↦
      let (name, h1) = &&_true (text_eq t.name m.tablename) _ same in
      let (cols, h2) =
        &&_true (same_items column_eq column_eq→≡ t.columns (table_of m).columns) _ h1 in
      let (cons, idx) =
        &&_true (same_items constraint_eq constraint_eq→≡ t.constraints (table_of m).constraints) _
          h2 in
      record {
        found = t;
        there = inl refl;
        named = text_eq→≡ t.name m.tablename name;
        same_columns =
            same_items-SameItems column_eq column_eq→≡ t.columns (table_of m).columns cols;
        same_constraints =
            same_items-SameItems constraint_eq constraint_eq→≡ t.constraints
              (table_of m).constraints cons;
        same_indexes = same_items-SameItems index_eq index_eq→≡ t.indexes (table_of m).indexes idx;
      }
  | inr f ↦ IsDeclared-grow m s _ (λ e at. inr at) (agrees-IsDeclared m s (rw f at h))
]

all_agree-IsDeclared :
    (ms : List Model) (s : Schema) (m : Model) → all_agree ms s ≡ true → In m ms → IsDeclared m s
all_agree-IsDeclared [] s m h at = absurd at
all_agree-IsDeclared (x ∷ ms) s m h (inl e) =
    rw e (agrees-IsDeclared x s (&&_true (any (agrees x) s) (all_agree ms s) h).0)
all_agree-IsDeclared (x ∷ ms) s m h (inr at) =
    all_agree-IsDeclared ms s m (&&_true (any (agrees x) s) (all_agree ms s) h).1 at

head-agrees : all_agree models head ≡ true
unfolding head text_eq
head-agrees = refl

pub up_from_empty : apply_all (upgrade_all revisions) [] ≡ some head
unfolding head apply_all text_eq
up_from_empty = refl

-- In any database whose schema mentions none of the names in the upgrades, `alembic upgrade head`
-- is accepted statement by statement, and in the schema that it leaves every class of the ORM finds
-- its table: the same columns with their types, nullability and defaults, the same constraints and
-- the same indexes, under the names of the naming convention.
pub upgrade-IsDeclared :
    (base : Schema)
    → IsApart (all_names (upgrade_all revisions)) base
    → (s : Schema) × (apply_all (upgrade_all revisions) base ≡ some s)
      × ((m : Model) → In m models → IsDeclared m s)
upgrade-IsDeclared base apart = (
  head ++ base,
  apply_all-append (upgrade_all revisions) [] head base apart up_from_empty,
  λ m at.
      IsDeclared-grow m head (head ++ base) (λ e h. In-append_left e head base h)
        (all_agree-IsDeclared models head m head-agrees at),
)
