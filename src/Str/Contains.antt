-- ===== src/Str/Contains.antt =====
-- The substring test and its substrings.
use supportops_ai.Common.{
  ◌≡◌, refl, ap, ◌↔◌, inl, inr, true, [], ◌∷◌, ◌++◌, arith, Text, &&_true, ||_true, ◌==◌, ==_iff,
}
use mathlib.Core.List.{append_assoc}
use supportops_ai.Str.{starts_with, contains}

-- `k` stands in `t` between two other pieces.
abbrev pub IsSubstring : Text → Text → Type 0
IsSubstring k t = (u : Text) × (v : Text) × (t ≡ u ++ (k ++ v))

starts_with-append : (p v : Text) → starts_with (p ++ v) p ≡ true
unfolding starts_with
starts_with-append [] v = refl
starts_with-append (c ∷ p) v = ground (arith, starts_with-append p v)

starts_with→prefix : (t p : Text) → starts_with t p ≡ true → (v : Text) × (t ≡ p ++ v)
unfolding starts_with
starts_with→prefix t [] h = (t, refl)
starts_with→prefix [] (p ∷ ps) h = cc
starts_with→prefix (c ∷ s) (p ∷ ps) h =
    let both = &&_true (c == p) (starts_with s ps) h in
    let (v, e) = starts_with→prefix s ps both.1 in (v, cc ((==_iff c p).0 both.0, e))

contains_of_prefix : (t k : Text) → starts_with t k ≡ true → contains t k ≡ true
unfolding contains
contains_of_prefix [] k h = h
contains_of_prefix (c ∷ s) k h = rw h

contains-middle : (u k v : Text) → contains (u ++ (k ++ v)) k ≡ true
unfolding contains
contains-middle [] k v = contains_of_prefix (k ++ v) k (starts_with-append k v)
contains-middle (c ∷ u) k v = ground (arith, contains-middle u k v)

contains→IsSubstring : (t k : Text) → contains t k ≡ true → IsSubstring k t
unfolding contains
contains→IsSubstring [] k h = let (v, e) = starts_with→prefix [] k h in ([], v, e)
contains→IsSubstring (c ∷ s) k h = elim (||_true (starts_with (c ∷ s) k) (contains s k) h) [
  | inl here ↦ let (v, e) = starts_with→prefix (c ∷ s) k here in ([], v, e)
  | inr later ↦ let (u, v, e) = contains→IsSubstring s k later in (c ∷ u, v, ap (◌∷◌ c) e)
]

pub contains_iff : (t k : Text) → (contains t k ≡ true) ↔ IsSubstring k t
contains_iff t k = (contains→IsSubstring t k, λ (u, v, e). rw e (contains-middle u k v))

-- A piece of a text is a piece of every text around it.
pub contains-around : (a b t k : Text) → contains t k ≡ true → contains (a ++ (t ++ b)) k ≡ true
contains-around a b t k h =
    let (u, v, e) = contains→IsSubstring t k h in
    (contains_iff (a ++ (t ++ b)) k).1 (a ++ u, v ++ b, rw e (simp append_assoc))
