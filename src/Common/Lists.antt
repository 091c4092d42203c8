-- ===== src/Common/Lists.antt =====
-- Lists measured by the native numbers, selection by a test, and membership that computes.
use Prim.Native.Nat.{ℕ, zero, suc, ◌+◌, ◌≤◌}
use mathlib.Core.Path.{◌≡◌, refl, ap}
use mathlib.Core.Logic.{◌⊎◌, inl, inr}
use mathlib.Core.Bool.{Bool, true, false}
use mathlib.Core.List.{List, [], ◌∷◌, ◌++◌, map}
use native.Mathlib.Omega.{arith}
use supportops_ai.Common.Tests.{if◌then◌else◌, Bool-cases}

module _ {ℓ} {A : Type ℓ} where
  abbrev pub length : List A → ℕ
  length [] = 0
  length (x ∷ xs) = suc (length xs)

  -- `l[:n]`
  abbrev pub take : ℕ → List A → List A
  take (suc n) (x ∷ xs) = x ∷ take n xs
  take _ _ = []

  -- `l[n:]`
  abbrev pub drop : ℕ → List A → List A
  drop zero l = l
  drop (suc n) [] = []
  drop (suc n) (x ∷ xs) = drop n xs

  pub take-append-drop : (n : ℕ) (l : List A) → take n l ++ drop n l ≡ l
  take-append-drop zero l = refl
  take-append-drop (suc n) [] = refl
  take-append-drop (suc n) (x ∷ xs) = ap (◌∷◌ x) (take-append-drop n xs)

  -- a slice is as long as asked, or there is nothing left
  pub take_full : (n : ℕ) (l : List A) → (length (take n l) ≡ n) ⊎ (drop n l ≡ [])
  take_full zero l = inl refl
  take_full (suc n) [] = inr refl
  take_full (suc n) (x ∷ xs) = elim (take_full n xs) [ inl e ↦ inl (ap suc e) | inr e ↦ inr e ]

  -- `[x for x in l if p(x)]`
  abbrev pub select : (A → Bool) → List A → List A
  select p [] = []
  select p (x ∷ xs) = if p x then x ∷ select p xs else select p xs

  pub length-append : (xs ys : List A) → length (xs ++ ys) ≡ length xs + length ys
  length-append [] ys = omega arith
  length-append (x ∷ xs) ys = omega (arith, length-append xs ys)

  pub length-take_le : (n : ℕ) (l : List A) → length (take n l) ≤ n
  length-take_le zero l = omega arith
  length-take_le (suc n) [] = omega arith
  length-take_le (suc n) (x ∷ xs) = omega (arith, length-take_le n xs)

  -- `any(p(x) for x in l)`
  abbrev pub any : (A → Bool) → List A → Bool
  any p [] = false
  any p (x ∷ xs) = if p x then true else any p xs

  pub any-append_left : (p : A → Bool) (xs ys : List A) → any p xs ≡ true → any p (xs ++ ys) ≡ true
  any-append_left p [] ys h = absurd (cc)
  any-append_left p (x ∷ xs) ys h = elim (Bool-cases (p x)) [
    | inl t ↦ rw t refl
    | inr f ↦ rw f (any-append_left p xs ys (rw f at h))
  ]

  pub any-append_right :
      (p : A → Bool) (xs ys : List A) → any p xs ≡ false → any p (xs ++ ys) ≡ any p ys
  any-append_right p [] ys h = refl
  any-append_right p (x ∷ xs) ys h = elim (Bool-cases (p x)) [
    | inl t ↦ absurd (cc (rw t at h))
    | inr f ↦ rw f (any-append_right p xs ys (rw f at h))
  ]

  pub any-skip : (p : A → Bool) (xs ys : List A) → any p ys ≡ false → any p (xs ++ ys) ≡ any p xs
  any-skip p [] ys h = h
  any-skip p (x ∷ xs) ys h = elim (Bool-cases (p x)) [
    | inl t ↦ rw t refl
    | inr f ↦ rw f (any-skip p xs ys h)
  ]

  pub any_weaken :
      (p q : A → Bool) (l : List A)
      → ((x : A) → p x ≡ true → q x ≡ true)
      → any q l ≡ false
      → any p l ≡ false
  any_weaken p q [] h e = refl
  any_weaken p q (x ∷ xs) h e = elim (Bool-cases (q x)) [
    | inl t ↦ absurd (cc (rw t at e))
    | inr f ↦ elim (Bool-cases (p x)) [
      | inl t ↦ absurd (cc (f, h x t))
      | inr f' ↦ rw f' (any_weaken p q xs h (rw f at e))
    ]
  ]

  pub any-map :
      {B : Type 0} (p : A → Bool) (f : B → A) (l : List B)
      → ((b : B) → p (f b) ≡ false)
      → any p (map f l) ≡ false
  any-map p f [] h = refl
  any-map p f (x ∷ xs) h = rw (h x) (any-map p f xs h)

module _ {A : Type 0} where
  -- `a in l`, as a proposition that computes
  abbrev pub In : A → List A → Type 0
  In a [] = ⊥
  In a (x ∷ xs) = (a ≡ x) ⊎ In a xs

  -- what is left of `l` when some of its items are dropped
  abbrev pub IsSubsequence : List A → List A → Type 0
  IsSubsequence [] l = Unit {0}
  IsSubsequence (x ∷ xs) [] = ⊥
  IsSubsequence (x ∷ xs) (y ∷ ys) = ((x ≡ y) × IsSubsequence xs ys) ⊎ IsSubsequence (x ∷ xs) ys

  pub In-append_left : (a : A) (xs ys : List A) → In a xs → In a (xs ++ ys)
  In-append_left a [] ys h = absurd h
  In-append_left a (x ∷ xs) ys (inl e) = inl e
  In-append_left a (x ∷ xs) ys (inr h) = inr (In-append_left a xs ys h)

  pub In-append_right : (a : A) (xs ys : List A) → In a ys → In a (xs ++ ys)
  In-append_right a [] ys h = h
  In-append_right a (x ∷ xs) ys h = inr (In-append_right a xs ys h)

  pub In-append : (a : A) (xs ys : List A) → In a (xs ++ ys) → In a xs ⊎ In a ys
  In-append a [] ys h = inr h
  In-append a (x ∷ xs) ys (inl e) = inl (inl e)
  In-append a (x ∷ xs) ys (inr h) = elim (In-append a xs ys h) [
    | inl l ↦ inl (inr l)
    | inr r ↦ inr r
  ]

  pub In-take : (a : A) (n : ℕ) (l : List A) → In a (take n l) → In a l
  In-take a zero l h = absurd h
  In-take a (suc n) [] h = absurd h
  In-take a (suc n) (x ∷ xs) (inl e) = inl e
  In-take a (suc n) (x ∷ xs) (inr h) = inr (In-take a n xs h)

  pub In-select : (p : A → Bool) (a : A) (l : List A) → In a l → p a ≡ true → In a (select p l)
  In-select p a [] h e = h
  In-select p a (x ∷ xs) (inl e) h = rw (← e) (rw h (inl refl))
  In-select p a (x ∷ xs) (inr m) h = elim (Bool-cases (p x)) [
    | inl t ↦ rw t (inr (In-select p a xs m h))
    | inr f ↦ rw f (In-select p a xs m h)
  ]

  pub select-In : (p : A → Bool) (a : A) (l : List A) → In a (select p l) → In a l × (p a ≡ true)
  select-In p a [] h = absurd h
  select-In p a (x ∷ xs) h = elim (Bool-cases (p x)) [
    | inl t ↦ elim (rw t at h) [
      | inl e ↦ (inl e, rw e t)
      | inr m ↦ let r = select-In p a xs m in (inr r.0, r.1)
    ]
    | inr f ↦ let r = select-In p a xs (rw f at h) in (inr r.0, r.1)
  ]

  pub IsSubsequence-skip :
      (y : A) (xs ys : List A) → IsSubsequence xs ys → IsSubsequence xs (y ∷ ys)
  IsSubsequence-skip y [] ys h = tt
  IsSubsequence-skip y (x ∷ xs) ys h = inr h

  pub IsSubsequence-append :
      (xs ys us vs : List A)
      → IsSubsequence xs us
      → IsSubsequence ys vs
      → IsSubsequence (xs ++ ys) (us ++ vs)
  IsSubsequence-append [] ys [] vs h k = k
  IsSubsequence-append [] ys (u ∷ us) vs h k =
      IsSubsequence-skip u ys (us ++ vs) (IsSubsequence-append [] ys us vs tt k)
  IsSubsequence-append (x ∷ xs) ys [] vs h k = absurd h
  IsSubsequence-append (x ∷ xs) ys (u ∷ us) vs (inl h) k =
      inl (h.0, IsSubsequence-append xs ys us vs h.1 k)
  IsSubsequence-append (x ∷ xs) ys (u ∷ us) vs (inr h) k =
      inr (IsSubsequence-append (x ∷ xs) ys us vs h k)

  pub IsSubsequence-select : (p : A → Bool) (l : List A) → IsSubsequence (select p l) l
  IsSubsequence-select p [] = tt
  IsSubsequence-select p (x ∷ xs) = elim (Bool-cases (p x)) [
    | inl t ↦ rw t (inl (refl, IsSubsequence-select p xs))
    | inr f ↦ rw f (IsSubsequence-skip x (select p xs) xs (IsSubsequence-select p xs))
  ]

  pub In-when : (b : Bool) (a x : A) → In a (if b then x ∷ [] else []) → (b ≡ true) × (a ≡ x)
  In-when true a x (inl e) = (refl, e)
  In-when true a x (inr h) = absurd h
  In-when false a x h = absurd h

  pub In-when_true : (b : Bool) (x : A) → b ≡ true → In x (if b then x ∷ [] else [])
  In-when_true b x h = rw h (inl refl)

  -- an item that brings further items with it
  pub In-when_then :
      (b : Bool) (a x : A) (l : List A)
      → In a (if b then x ∷ l else [])
      → (b ≡ true) × ((a ≡ x) ⊎ In a l)
  In-when_then true a x l h = (refl, h)
  In-when_then false a x l h = absurd h
