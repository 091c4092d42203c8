-- ===== src/Migrations/Frame.antt =====
-- A statement leaves alone the part of a schema that has nothing to do with the names in it.
use supportops_ai.Common.{
  ◌≡◌, refl, ◌∙◌, ap, inl, inr, Bool, true, false, not, ◌&&◌, ◌||◌, &&_true, some, List, [], ◌∷◌,
  ◌++◌, Text, any, any-skip, any_weaken, select, Bool-cases, arith,
}
use supportops_ai.Migrations.Schema.{
  Entry, enum_type, table, Schema, Statement, create_type, create_table, create_index, add_column,
  drop_default, set_nullable, set_type, drop_column, drop_index, drop_table, drop_table_if_exists,
  drop_type_if_exists,
}
use supportops_ai.Migrations.Effect.{
  is_named, is_table, is_type, has_index, refers, key_names, all_free, is_taken, without,
}

-- an entry that has the name, an index of the name, or a reference to it
abbrev pub mentions : Text → Entry → Bool
mentions n e = is_named n e || (has_index n e || refers n e)

abbrev pub names : Statement → List Text
names (create_type n _) = n ∷ []
names (create_table n _ constraints) = n ∷ key_names constraints
names (create_index i n _) = i ∷ n ∷ []
names (add_column n _) = n ∷ []
names (drop_default n _) = n ∷ []
names (set_nullable n _ _) = n ∷ []
names (set_type n _ _) = n ∷ []
names (drop_column n _) = n ∷ []
names (drop_index _ n) = n ∷ []
names (drop_table n) = n ∷ []
names (drop_table_if_exists n) = n ∷ []
names (drop_type_if_exists n) = n ∷ []

abbrev pub all_names : List Statement → List Text
all_names [] = []
all_names (st ∷ statements) = names st ++ all_names statements

-- no entry mentions any of the names
abbrev pub IsApart : List Text → Schema → Type 0
IsApart [] base = Unit {0}
IsApart (n ∷ ns) base = (any (mentions n) base ≡ false) × IsApart ns base

pub not-true : (b : Bool) → not b ≡ true → b ≡ false
not-true false h = refl
not-true true h = absurd (cc)

abbrev pub is_apart : List Text → Schema → Bool
is_apart [] base = true
is_apart (n ∷ ns) base = not (any (mentions n) base) && is_apart ns base

pub is_apart-IsApart : (ns : List Text) (base : Schema) → is_apart ns base ≡ true → IsApart ns base
is_apart-IsApart [] base h = tt
is_apart-IsApart (n ∷ ns) base h =
    let (here, later) = &&_true (not (any (mentions n) base)) (is_apart ns base) h in
    (not-true (any (mentions n) base) here, is_apart-IsApart ns base later)

pub IsApart-append :
    (ns ms : List Text) (base : Schema)
    → IsApart (ns ++ ms) base
    → IsApart ns base × IsApart ms base
IsApart-append [] ms base h = (tt, h)
IsApart-append (n ∷ ns) ms base (here, h) =
    let (l, r) = IsApart-append ns ms base h in ((here, l), r)

||_left : (a b : Bool) → a ≡ true → (a || b) ≡ true
||_left a b h = rw h refl

||_right : (a b : Bool) → b ≡ true → (a || b) ≡ true
||_right a b h = ground arith

is_table-is_named : (n : Text) (e : Entry) → is_table n e ≡ true → is_named n e ≡ true
is_table-is_named n (enum_type m labels) h = absurd (cc)
is_table-is_named n (table t) h = h

is_type-is_named : (n : Text) (e : Entry) → is_type n e ≡ true → is_named n e ≡ true
is_type-is_named n (enum_type m labels) h = h
is_type-is_named n (table t) h = absurd (cc)

module _ (n : Text) (base : Schema) (apart : any (mentions n) base ≡ false) where
  no_name : any (is_named n) base ≡ false
  no_name = any_weaken (is_named n) (mentions n) base (λ e h. ||_left _ _ h) apart

  no_index : any (has_index n) base ≡ false
  no_index =
      any_weaken (has_index n) (mentions n) base (λ e h. ||_right (is_named n e) _ (||_left _ _ h))
        apart

  no_reference : any (refers n) base ≡ false
  no_reference =
      any_weaken (refers n) (mentions n) base
        (λ e h. ||_right (is_named n e) _ (||_right (has_index n e) _ h)) apart

  pub is_taken-append : (s : Schema) → is_taken n (s ++ base) ≡ is_taken n s
  is_taken-append s =
      rw (any-skip (is_named n) s base no_name) (rw (any-skip (has_index n) s base no_index) refl)

  pub no_table : any (is_table n) base ≡ false
  no_table = any_weaken (is_table n) (is_named n) base (is_table-is_named n) no_name

  pub no_type : any (is_type n) base ≡ false
  no_type = any_weaken (is_type n) (is_named n) base (is_type-is_named n) no_name

  pub no_other : any (λ e. is_type n e || has_index n e) base ≡ false
  no_other =
      any_weaken (λ e. is_type n e || has_index n e) (mentions n) base
        (λ e h. elim (Bool-cases (is_type n e)) [
          | inl t ↦ ||_left _ _ (is_type-is_named n e t)
          | inr f ↦ ||_right (is_named n e) _ (||_left _ _ (rw f at h))
        ])
        apart

  select-append :
      (s : Schema)
      → select (λ e. not (is_named n e)) (s ++ base) ≡ select (λ e. not (is_named n e)) s ++ base
  select-append [] = all_kept base no_name
    where
      all_kept : (b : Schema) → any (is_named n) b ≡ false → select (λ e. not (is_named n e)) b ≡ b
      all_kept [] h = refl
      all_kept (e ∷ b) h = elim (Bool-cases (is_named n e)) [
        | inl t ↦ absurd (cc (rw t at h))
        | inr f ↦ rw f (ap (◌∷◌ e) (all_kept b (rw f at h)))
      ]
  select-append (e ∷ s) = elim (Bool-cases (is_named n e)) [
    | inl t ↦ rw t (select-append s)
    | inr f ↦ rw f (ap (◌∷◌ e) (select-append s))
  ]

  pub without-append :
      (s s' : Schema) → without n s ≡ some s' → without n (s ++ base) ≡ some (s' ++ base)
  without-append s s' h = elim (Bool-cases (any (refers n) s)) [
    | inl t ↦ absurd (cc (rw t at h))
    | inr f ↦
        let e : select (λ e. not (is_named n e)) s ≡ s' = cc (rw f at h) in
        rw (any-skip (refers n) s base no_reference) (rw f (ap some (select-append s ∙ rw e refl)))
  ]

pub all_free-append :
    (ns : List Text) (s base : Schema) → IsApart ns base → all_free ns (s ++ base) ≡ all_free ns s
all_free-append [] s base h = refl
all_free-append (n ∷ ns) s base (here, h) =
    rw (is_taken-append n base here s) (rw (all_free-append ns s base h) refl)
