-- ===== src/Migrations/Equality.antt =====
-- Boolean equality of columns, constraints and indexes.
use supportops_ai.Common.{
  ◌≡◌, refl, ap, Bool, true, false, ◌&&◌, &&_true, Option, none, some, List, [], ◌∷◌, text_eq,
  text_eq→≡, In, inl, inr, any, Bool-cases, ◌==◌, ==_iff,
}
use supportops_ai.Migrations.Schema.{
  ColumnType, Default, Column, Constraint, Index, uuid, text, timestamp, timestamp_with_time_zone,
  jsonb, integer, boolean, varchar, varchar_array, enum, now, true_value, empty_text, empty_array,
  primary_key, unique, foreign_key,
}

abbrev type_eq : ColumnType → ColumnType → Bool
type_eq uuid uuid = true
type_eq text text = true
type_eq timestamp timestamp = true
type_eq timestamp_with_time_zone timestamp_with_time_zone = true
type_eq jsonb jsonb = true
type_eq integer integer = true
type_eq boolean boolean = true
type_eq varchar_array varchar_array = true
type_eq (varchar n) (varchar m) = n == m
type_eq (enum n) (enum m) = text_eq n m
type_eq _ _ = false

abbrev default_eq : Option Default → Option Default → Bool
default_eq none none = true
default_eq (some now) (some now) = true
default_eq (some true_value) (some true_value) = true
default_eq (some empty_text) (some empty_text) = true
default_eq (some empty_array) (some empty_array) = true
default_eq _ _ = false

abbrev bool_eq : Bool → Bool → Bool
bool_eq true b = b
bool_eq false true = false
bool_eq false false = true

abbrev pub column_eq : Column → Column → Bool
column_eq c d =
    text_eq c.name d.name
    && (type_eq c.column_type d.column_type
        && (bool_eq c.nullable d.nullable && default_eq c.server_default d.server_default))

abbrev pub constraint_eq : Constraint → Constraint → Bool
constraint_eq (primary_key n c) (primary_key m d) = text_eq n m && text_eq c d
constraint_eq (unique n c) (unique m d) = text_eq n m && text_eq c d
constraint_eq (foreign_key n c t) (foreign_key m d u) = text_eq n m && (text_eq c d && text_eq t u)
constraint_eq _ _ = false

abbrev pub index_eq : Index → Index → Bool
index_eq i j = text_eq i.name j.name && text_eq i.column j.column

type_eq→≡ : (t u : ColumnType) → type_eq t u ≡ true → t ≡ u
type_eq→≡ uuid uuid h = refl
type_eq→≡ text text h = refl
type_eq→≡ timestamp timestamp h = refl
type_eq→≡ timestamp_with_time_zone timestamp_with_time_zone h = refl
type_eq→≡ jsonb jsonb h = refl
type_eq→≡ integer integer h = refl
type_eq→≡ boolean boolean h = refl
type_eq→≡ varchar_array varchar_array h = refl
type_eq→≡ (varchar n) (varchar m) h = ap varchar ((==_iff n m).0 h)
type_eq→≡ (enum n) (enum m) h = ap enum (text_eq→≡ n m h)
type_eq→≡ _ _ h = absurd (cc)

default_eq→≡ : (t u : Option Default) → default_eq t u ≡ true → t ≡ u
default_eq→≡ none none h = refl
default_eq→≡ (some now) (some now) h = refl
default_eq→≡ (some true_value) (some true_value) h = refl
default_eq→≡ (some empty_text) (some empty_text) h = refl
default_eq→≡ (some empty_array) (some empty_array) h = refl
default_eq→≡ _ _ h = absurd (cc)

bool_eq→≡ : (a b : Bool) → bool_eq a b ≡ true → a ≡ b
bool_eq→≡ true true h = refl
bool_eq→≡ true false h = absurd (cc)
bool_eq→≡ false true h = absurd (cc)
bool_eq→≡ false false h = refl

pub column_eq→≡ : (c d : Column) → column_eq c d ≡ true → c ≡ d
column_eq→≡ c d h =
    let (n, h1) = &&_true (text_eq c.name d.name) _ h in
    let (t, h2) = &&_true (type_eq c.column_type d.column_type) _ h1 in
    let (b, v) = &&_true (bool_eq c.nullable d.nullable) _ h2 in
    let name = text_eq→≡ c.name d.name n in
    let ty = type_eq→≡ c.column_type d.column_type t in
    let null = bool_eq→≡ c.nullable d.nullable b in
    let default = default_eq→≡ c.server_default d.server_default v in cc

pub constraint_eq→≡ : (c d : Constraint) → constraint_eq c d ≡ true → c ≡ d
constraint_eq→≡ (primary_key n c) (primary_key m d) h =
    let (a, b) = &&_true (text_eq n m) (text_eq c d) h in cc (text_eq→≡ n m a, text_eq→≡ c d b)
constraint_eq→≡ (unique n c) (unique m d) h =
    let (a, b) = &&_true (text_eq n m) (text_eq c d) h in cc (text_eq→≡ n m a, text_eq→≡ c d b)
constraint_eq→≡ (foreign_key n c t) (foreign_key m d u) h =
    let (a, h') = &&_true (text_eq n m) (text_eq c d && text_eq t u) h in
    let (b, e) = &&_true (text_eq c d) (text_eq t u) h' in
    cc (text_eq→≡ n m a, text_eq→≡ c d b, text_eq→≡ t u e)
constraint_eq→≡ _ _ h = absurd (cc)

pub index_eq→≡ : (i j : Index) → index_eq i j ≡ true → i ≡ j
index_eq→≡ i j h =
    let (a, b) = &&_true (text_eq i.name j.name) (text_eq i.column j.column) h in
    let name = text_eq→≡ i.name j.name a in let col = text_eq→≡ i.column j.column b in cc

-- every item of a list is in another
module _ {A : Type 0} (eq : A → A → Bool) (sound : (a b : A) → eq a b ≡ true → a ≡ b) where
  abbrev pub all_in : List A → List A → Bool
  all_in [] l = true
  all_in (x ∷ xs) l = any (eq x) l && all_in xs l

  any-In : (x : A) (l : List A) → any (eq x) l ≡ true → In x l
  any-In x [] h = absurd (cc)
  any-In x (y ∷ l) h = elim (Bool-cases (eq x y)) [
    | inl t ↦ inl (sound x y t)
    | inr f ↦ inr (any-In x l (rw f at h))
  ]

  pub all_in-In : (xs l : List A) (a : A) → all_in xs l ≡ true → In a xs → In a l
  all_in-In [] l a h m = absurd m
  all_in-In (x ∷ xs) l a h (inl e) = rw e (any-In x l (&&_true (any (eq x) l) (all_in xs l) h).0)
  all_in-In (x ∷ xs) l a h (inr m) = all_in-In xs l a (&&_true (any (eq x) l) (all_in xs l) h).1 m
