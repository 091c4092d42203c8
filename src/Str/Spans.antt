-- ===== src/Str/Spans.antt =====
-- Where `take_while` and `drop_while` end.
use supportops_ai.Common.{
  ℕ, ◌+◌, ◌≡◌, refl, ap, Bool, true, false, inl, inr, [], ◌∷◌, ◌++◌, arith, Text, length,
  Bool-cases,
}
use supportops_ai.Str.{take_while, drop_while}

-- every character passes
abbrev pub AllPass : (ℕ → Bool) → Text → Type 0
AllPass p [] = Unit {0}
AllPass p (c ∷ s) = (p c ≡ true) × AllPass p s

module _ (p : ℕ → Bool) where
  pub length-spans : (s : Text) → length (take_while p s) + length (drop_while p s) ≡ length s
  unfolding take_while drop_while
  length-spans [] = omega arith
  length-spans (c ∷ s) = elim (Bool-cases (p c)) [
    | inl t ↦ rw t (omega (arith, length-spans s))
    | inr f ↦ rw f (omega arith)
  ]

  -- The span that starts in `s` ends before a character that does not pass.
  pub take_while-stop :
      (s : Text) (d : ℕ) (r : Text) → p d ≡ false → take_while p (s ++ d ∷ r) ≡ take_while p s
  unfolding take_while
  take_while-stop [] d r h = rw h
  take_while-stop (c ∷ s) d r h = rw (take_while-stop s d r h)

  pub drop_while-stop :
      (s : Text) (d : ℕ) (r : Text)
      → p d ≡ false
      → drop_while p (s ++ d ∷ r) ≡ drop_while p s ++ d ∷ r
  unfolding drop_while
  drop_while-stop [] d r h = rw h
  drop_while-stop (c ∷ s) d r h = elim (Bool-cases (p c)) [
    | inl t ↦ rw t (drop_while-stop s d r h)
    | inr f ↦ rw f
  ]

  pub take_while_all : (s r : Text) → AllPass p s → take_while p (s ++ r) ≡ s ++ take_while p r
  unfolding take_while
  take_while_all [] r h = refl
  take_while_all (c ∷ s) r h = rw h.0 (ap (◌∷◌ c) (take_while_all s r h.1))

  pub drop_while_all : (s r : Text) → AllPass p s → drop_while p (s ++ r) ≡ drop_while p r
  unfolding drop_while
  drop_while_all [] r h = refl
  drop_while_all (c ∷ s) r h = rw h.0 (drop_while_all s r h.1)
