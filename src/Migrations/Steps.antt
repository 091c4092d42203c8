-- ===== src/Migrations/Steps.antt =====
-- Statements on a schema with a part that they do not mention.
use supportops_ai.Common.{
  ◌≡◌, refl, inl, inr, Bool, true, false, not, ◌&&◌, ◌||◌, &&_true, Option, none, some, List, [],
  ◌∷◌, ◌++◌, Text, if◌then◌else◌, any, any-append_left, any-skip, Bool-cases, Option-cases,
}
use supportops_ai.Migrations.Schema.{
  Column, Constraint, Entry, Schema, Statement, ColumnType, enum, foreign_key, table, enum_type,
  create_type, create_table, create_index, add_column, drop_default, set_nullable, set_type,
  drop_column, drop_index, drop_table, drop_table_if_exists, drop_type_if_exists,
}
use supportops_ai.Migrations.Sound.{is_name, is_sound_type, is_sound, is_sound_column}
use supportops_ai.Migrations.Effect.{
  is_named, is_table, is_type, has_index, is_keyed, key_names, all_free, is_taken, type_known,
  types_known, reference_known, references_known, alter_entry, with_rest, alter, without, apply,
  apply_all,
}
use supportops_ai.Migrations.Frame.{
  names, all_names, IsApart, IsApart-append, is_taken-append, without-append, all_free-append,
  no_table, no_other,
}

type_known-append :
    (ty : ColumnType) (s base : Schema) → type_known ty s ≡ true → type_known ty (s ++ base) ≡ true
type_known-append (enum m) s base h = any-append_left (is_named m) s base h
type_known-append _ s base h = refl

types_known-append :
    (cs : List Column) (s base : Schema)
    → types_known cs s ≡ true
    → types_known cs (s ++ base) ≡ true
types_known-append [] s base h = refl
types_known-append (c ∷ cs) s base h =
    let (here, there) = &&_true (type_known c.column_type s) (types_known cs s) h in
    rw (type_known-append c.column_type s base here) (types_known-append cs s base there)

reference_known-append :
    (c : Constraint) (s base : Schema)
    → reference_known c s ≡ true
    → reference_known c (s ++ base) ≡ true
reference_known-append (foreign_key _ _ m) s base h = any-append_left (is_keyed m) s base h
reference_known-append _ s base h = refl

references_known-append :
    (cs : List Constraint) (s base : Schema)
    → references_known cs s ≡ true
    → references_known cs (s ++ base) ≡ true
references_known-append [] s base h = refl
references_known-append (c ∷ cs) s base h =
    let (here, there) = &&_true (reference_known c s) (references_known cs s) h in
    rw (reference_known-append c s base here) (references_known-append cs s base there)

with_rest-append :
    (o : Option Entry) (s s' base : Schema)
    → with_rest o s ≡ some s'
    → with_rest o (s ++ base) ≡ some (s' ++ base)
with_rest-append none s s' base h = absurd (cc)
with_rest-append (some e) s s' base h = let same : e ∷ s ≡ s' = cc h in rw (← same) refl

alter-append :
    (n : Text) (st : Statement) (s s' base : Schema)
    → alter n st s ≡ some s'
    → alter n st (s ++ base) ≡ some (s' ++ base)
alter-append n st [] s' base h = absurd (cc)
alter-append n st (e ∷ s) s' base h = elim (Bool-cases (is_named n e)) [
  | inl t ↦ rw t (with_rest-append (alter_entry st e) s s' base (rw t at h))
  | inr f ↦ elim (Option-cases (alter n st s)) [
    | inl absent ↦ absurd (cc (rw absent at (rw f at h)))
    | inr (s1, made) ↦
        let same : e ∷ s1 ≡ s' = cc (rw made at (rw f at h)) in
        rw f (rw (alter-append n st s s1 base made) (rw (← same) refl))
  ]
]

-- A test that guards a result has failed where there is one.
unless_some :
    {A : Type 0} (b : Bool) (x : Option A) (a : A)
    → (if b then none else x) ≡ some a
    → (b ≡ false) × (x ≡ some a)
unless_some true x a h = absurd (cc)
unless_some false x a h = (refl, h)

when_some :
    {A : Type 0} (b : Bool) (x : Option A) (a : A)
    → (if b then x else none) ≡ some a
    → (b ≡ true) × (x ≡ some a)
when_some true x a h = (refl, h)
when_some false x a h = absurd (cc)

||_false : (a b : Bool) → (a || not b) ≡ false → (a ≡ false) × (b ≡ true)
||_false false true h = (refl, refl)
||_false false false h = absurd (cc)
||_false true b h = absurd (cc)

-- What a statement makes of a schema, it makes of it beside any entries that mention none of its
-- names, and it leaves those as they are.
pub apply-append :
    (st : Statement) (s s' base : Schema)
    → IsApart (names st) base
    → apply st s ≡ some s'
    → apply st (s ++ base) ≡ some (s' ++ base)
unfolding apply
apply-append (create_type n labels) s s' base (apart, _) h =
    let (fine, e) =
      unless_some (is_taken n s || not (is_sound_type n labels)) (some (enum_type n labels ∷ s)) s'
        h in
    let (free, sound) = ||_false (is_taken n s) (is_sound_type n labels) fine in
    let same : enum_type n labels ∷ s ≡ s' = cc e in
    rw (is_taken-append n base apart s) (rw free (rw sound (rw (← same) refl)))
apply-append (create_table n columns constraints) s s' base (apart, keys_apart) h =
    let t =
      table (record { name = n; columns = columns; constraints = constraints; indexes = [] }) in
    let known = types_known columns s && references_known constraints s in
    let fits = all_free (key_names constraints) s && known in
    let sound = is_sound n columns constraints in
    let (fine, e) = unless_some (is_taken n s || not (sound && fits)) (some (t ∷ s)) s' h in
    let (free, all) = ||_false (is_taken n s) (sound && fits) fine in
    let (well, fitting) = &&_true sound fits all in
    let (keys, there) = &&_true (all_free (key_names constraints) s) known fitting in
    let (types, refs) = &&_true (types_known columns s) (references_known constraints s) there in
    let keys' = all_free-append (key_names constraints) s base keys_apart in
    let same : t ∷ s ≡ s' = cc e in
    rw (is_taken-append n base apart s) (
      rw free (
        rw well (
          rw keys' (
            rw keys (
              rw (types_known-append columns s base types)
                (rw (references_known-append constraints s base refs) (rw (← same) refl)))))))
apply-append (create_index i n column) s s' base (apart, _) h =
    let st = create_index i n column in
    let (fine, e) = unless_some (is_taken i s || not (is_name i)) (alter n st s) s' h in
    let (free, named) = ||_false (is_taken i s) (is_name i) fine in
    rw (is_taken-append i base apart s) (rw free (rw named (alter-append n st s s' base e)))
apply-append (add_column n c) s s' base _ h =
    let st = add_column n c in
    let (fine, e) = when_some (types_known (c ∷ []) s && is_sound_column c) (alter n st s) s' h in
    let (known, sound) = &&_true (types_known (c ∷ []) s) (is_sound_column c) fine in
    rw (types_known-append (c ∷ []) s base known) (rw sound (alter-append n st s s' base e))
apply-append (drop_default n c) s s' base _ h = alter-append n (drop_default n c) s s' base h
apply-append (set_nullable n c b) s s' base _ h = alter-append n (set_nullable n c b) s s' base h
apply-append (set_type n c ty) s s' base _ h = alter-append n (set_type n c ty) s s' base h
apply-append (drop_column n c) s s' base _ h = alter-append n (drop_column n c) s s' base h
apply-append (drop_index i n) s s' base _ h = alter-append n (drop_index i n) s s' base h
apply-append (drop_table n) s s' base (apart, _) h =
    let (there, e) = when_some (any (is_table n) s) (without n s) s' h in
    rw (any-append_left (is_table n) s base there) (without-append n base apart s s' e)
apply-append (drop_table_if_exists n) s s' base (apart, _) h =
    let is_other : Entry → Bool = λ x. is_type n x || has_index n x in
    let (other, e) = unless_some (any is_other s) (without n s) s' h in
    rw (any-skip is_other s base (no_other n base apart))
      (rw other (without-append n base apart s s' e))
apply-append (drop_type_if_exists n) s s' base (apart, _) h =
    let (other, e) = unless_some (any (is_table n) s) (without n s) s' h in
    rw (any-skip (is_table n) s base (no_table n base apart))
      (rw other (without-append n base apart s s' e))

pub apply_all-append :
    (statements : List Statement) (s s' base : Schema)
    → IsApart (all_names statements) base
    → apply_all statements s ≡ some s'
    → apply_all statements (s ++ base) ≡ some (s' ++ base)
unfolding apply_all
apply_all-append [] s s' base apart h = let same : s ≡ s' = cc h in rw (← same) refl
apply_all-append (st ∷ statements) s s' base apart h =
    let (here, there) = IsApart-append (names st) (all_names statements) base apart in
    elim (Option-cases (apply st s)) [
      | inl absent ↦ absurd (cc (rw absent at h))
      | inr (s1, made) ↦
          rw (apply-append st s s1 base here made)
            (apply_all-append statements s1 s' base there (rw made at h))
    ]
