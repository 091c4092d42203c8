-- ===== src/Policy/Figures.antt =====
-- Dollar figures in a text, for the rule in backend/policy/rules.py.
use mathlib.Core.List.{append_assoc}
use native.Mathlib.Nat.{pow-suc}
use native.Mathlib.Numerals.{add-one}
use supportops_ai.Common.{
  ℕ, zero, suc, ◌+◌, ◌-◌, ◌*◌, ◌^◌, ◌≤◌, ◌<◌, ◌≡◌, ◌≢◌, refl, Bool, true, false, inl, inr, Option,
  none, some, List, [], ◌∷◌, ◌++◌, arith, Text, if◌then◌else◌, length, Bool-cases, Option-cases,
  ◌==◌, lt→ltb, length-append,
}
use supportops_ai.Str.{is_digit, is_space, take_while, drop_while, without_char}
use supportops_ai.Str.Spans.{
  AllPass, length-spans, take_while-stop, drop_while-stop, take_while_all,
}
use supportops_ai.Policy.Amount.{
  is_digit_or_comma, fraction_at, number_at, with_length, after_dollar, find_from, find_amounts,
  parse_fraction, parse_whole, parse_decimal, exceeds_threshold, any_over_threshold,
  has_amount_over_threshold,
}

-- a number read in decimal, `n` being what was read before
abbrev pub whole_value : ℕ → Text → ℕ
whole_value n [] = n
whole_value n (c ∷ s) = whole_value (n * 10 + (c - 48)) s

ten_pow_pos : (k : ℕ) → 0 < 10 ^ k
ten_pow_pos zero = omega arith
ten_pow_pos (suc k) = rw pow-suc (omega (arith, ten_pow_pos k))

ten_pow_step : (k : ℕ) → 10 ^ (k + 1) ≡ 10 ^ k * 10
ten_pow_step k = rw add-one (pow-suc 10 k)

-- More digits behind the point, whatever they are, keep a value of 501 or more over the threshold.
parse_fraction-exceeds :
    (n k : ℕ) (s : Text) → 501 * 10 ^ k ≤ n → exceeds_threshold (parse_fraction n k s) ≡ true
unfolding parse_fraction exceeds_threshold
parse_fraction-exceeds n k [] h = lt→ltb _ _ (omega (arith, ten_pow_pos k))
parse_fraction-exceeds n k (c ∷ s) h =
    parse_fraction-exceeds (n * 10 + (c - 48)) (k + 1) s (omega (arith, ten_pow_step k))

parse_whole-exceeds : (n : ℕ) (s : Text) → 501 ≤ n → exceeds_threshold (parse_whole n s) ≡ true
unfolding parse_whole exceeds_threshold
parse_whole-exceeds n [] h = lt→ltb _ _ (omega arith)
parse_whole-exceeds n (c ∷ s) h = elim (Bool-cases (c == b'.')) [
  | inl point ↦ rw point (parse_fraction-exceeds n 0 s (omega arith))
  | inr digit ↦ rw digit (parse_whole-exceeds (n * 10 + (c - 48)) s (omega arith))
]

-- Commas apart, a run of digits and commas is read whole before what follows it.
pub parse_whole-run :
    (n : ℕ) (ds s : Text)
    → AllPass is_digit_or_comma ds
    → parse_whole n (without_char b',' (ds ++ s))
      ≡ parse_whole (whole_value n (without_char b',' ds)) (without_char b',' s)
unfolding parse_whole without_char
parse_whole-run n [] s h = refl
parse_whole-run n (c ∷ ds) s h = elim (Bool-cases (c == b',')) [
  | inl comma ↦ rw comma (parse_whole-run n ds s h.1)
  | inr digit ↦
      let e : (c == b'.') ≡ false = ground (arith, h.0) in
      rw (digit) (rw e (parse_whole-run (n * 10 + (c - 48)) ds s h.1))
]

-- The match that starts at a digit.
number_at-run :
    (c : ℕ) (ds b : Text)
    → is_digit c ≡ true
    → AllPass is_digit_or_comma ds
    → (more : Text) × (number_at (c ∷ (ds ++ b)) ≡ some (c ∷ (ds ++ more)))
unfolding number_at
number_at-run c ds b h run = (
  take_while is_digit_or_comma b ++ fraction_at (drop_while is_digit_or_comma (ds ++ b)),
  rw (h, take_while_all is_digit_or_comma ds b run) (simp append_assoc),
)

after_dollar-run :
    (c : ℕ) (ds b : Text)
    → is_digit c ≡ true
    → AllPass is_digit_or_comma ds
    → (more : Text) × (n : ℕ) × (after_dollar (c ∷ (ds ++ b)) ≡ some (c ∷ (ds ++ more), n))
unfolding after_dollar
after_dollar-run c ds b h run =
    let (more, e) = number_at-run c ds b h run in
    let no_space : is_space c ≡ false = ground arith in
    (more, 0 + length (c ∷ (ds ++ more)), rw no_space (rw e))

-- A match that starts before a dollar sign ends before it.
fraction_at-stop : (s r : Text) → length (fraction_at (s ++ b'$' ∷ r)) ≤ length s
unfolding fraction_at
fraction_at-stop [] r = omega arith
fraction_at-stop (c ∷ s) r =
    ground (arith, take_while-stop is_digit s b'$' r refl, length-spans is_digit s)

number_at_dollar : (r g : Text) → number_at (b'$' ∷ r) ≢ some g
unfolding number_at
number_at_dollar r g h = cc

number_at-stop : (s r g : Text) → number_at (s ++ b'$' ∷ r) ≡ some g → length g ≤ length s
unfolding number_at
number_at-stop [] r g h = cc
number_at-stop (c ∷ s) r g h =
    let run = take_while-stop is_digit_or_comma s b'$' r refl in
    let rest = drop_while-stop is_digit_or_comma s b'$' r refl in
    let tail = drop_while is_digit_or_comma s in
    let matched = take_while is_digit_or_comma s ++ fraction_at (tail ++ b'$' ∷ r) in
    elim (Bool-cases (is_digit c)) [
      | inl digit ↦
          let found : some (c ∷ matched) ≡ some g = rw (digit, run, rest) at h in
          let e : c ∷ matched ≡ g = cc found in
          rw (← e) (
            omega (
              arith,
              length-append (take_while is_digit_or_comma s) (fraction_at (tail ++ b'$' ∷ r)),
              fraction_at-stop tail r,
              length-spans is_digit_or_comma s,
            ))
      | inr other ↦ cc (rw other at h)
    ]

with_length-eq :
    (k : ℕ) (o : Option Text) (g : Text) (n : ℕ)
    → with_length k o ≡ some (g, n)
    → (o ≡ some g) × (n ≡ k + length g)
with_length-eq k none g n h = cc
with_length-eq k (some x) g n h = ground arith

after_dollar-stop :
    (s r g : Text) (n : ℕ) → after_dollar (s ++ b'$' ∷ r) ≡ some (g, n) → n ≤ length s
unfolding after_dollar
after_dollar-stop [] r g n h =
    let (none_found, _) = with_length-eq 0 (number_at (b'$' ∷ r)) g n h in
    absurd (number_at_dollar r g none_found)
after_dollar-stop (c ∷ s) r g n h = elim (Bool-cases (is_space c)) [
  | inl space ↦
      let (e, size) = with_length-eq 1 (number_at (s ++ b'$' ∷ r)) g n (rw space at h) in
      omega (arith, number_at-stop s r g e)
  | inr other ↦
      let (e, size) = with_length-eq 0 (number_at (c ∷ (s ++ b'$' ∷ r))) g n (rw other at h) in
      omega (arith, number_at-stop (c ∷ s) r g e)
]

within :
    (a r g : Text) (n : ℕ) (test : Bool)
    → (if test then after_dollar (a ++ b'$' ∷ r) else none) ≡ some (g, n)
    → n ≤ length a
within a r g n true h = after_dollar-stop a r g n h
within a r g n false h = cc

any_cons :
    (g : Text) (gs : List Text) → any_over_threshold gs ≡ true → any_over_threshold (g ∷ gs) ≡ true
unfolding any_over_threshold
any_cons g gs h = ground arith

any_here :
    (g : Text) (gs : List Text)
    → exceeds_threshold (parse_decimal (without_char b',' g)) ≡ true
    → any_over_threshold (g ∷ gs) ≡ true
unfolding any_over_threshold
any_here g gs h = rw h

pub find_from-hit :
    (c : ℕ) (s g : Text) (n : ℕ)
    → (if c == b'$' then after_dollar s else none) ≡ some (g, n)
    → find_from 0 (c ∷ s) ≡ g ∷ find_from n s
unfolding find_from
find_from-hit c s g n h = rw (h, find_from)

pub find_from-miss :
    (c : ℕ) (s : Text)
    → (if c == b'$' then after_dollar s else none) ≡ none
    → find_from 0 (c ∷ s) ≡ find_from 0 s
unfolding find_from
find_from-miss c s h = rw (h, find_from)

pub find_from-skip : (k c : ℕ) (s : Text) → find_from (suc k) (c ∷ s) ≡ find_from k s
unfolding find_from
find_from-skip k c s = refl

-- Whatever was read before, the search comes to a dollar sign that stands behind `a`.
find_from-reaches :
    (a : Text) (skip : ℕ) (r g : Text) (n : ℕ)
    → skip ≤ length a
    → after_dollar r ≡ some (g, n)
    → exceeds_threshold (parse_decimal (without_char b',' g)) ≡ true
    → any_over_threshold (find_from skip (a ++ b'$' ∷ r)) ≡ true
find_from-reaches [] zero r g n k h over =
    rw (find_from-hit b'$' r g n h) (any_here g (find_from n r) over)
find_from-reaches [] (suc skip) r g n k h over = absurd (omega arith)
find_from-reaches (c ∷ a) (suc skip) r g n k h over =
    rw find_from-skip (find_from-reaches a skip r g n (omega arith) h over)
find_from-reaches (c ∷ a) zero r g n k h over =
    let rest = a ++ b'$' ∷ r in
    elim (Option-cases (if c == b'$' then after_dollar rest else none)) [
      | inl miss ↦
          rw (find_from-miss c rest miss) (find_from-reaches a 0 r g n (omega arith) h over)
      | inr ((g', n'), hit) ↦
          let size : n' ≤ length a = within a r g' n' (c == b'$') hit in
          rw (find_from-hit c rest g' n' hit)
            (any_cons g' (find_from n' rest) (find_from-reaches a n' r g n size h over))
    ]

-- A figure of 501 or more, written with or without commas, is flagged wherever it stands in a
-- text, whatever stands before it and behind it.
pub has_amount_of_figure :
    (a : Text) (c : ℕ) (ds b : Text)
    → is_digit c ≡ true
    → AllPass is_digit_or_comma ds
    → 500 < whole_value 0 (without_char b',' (c ∷ ds))
    → has_amount_over_threshold (a ++ b'$' ∷ c ∷ (ds ++ b)) ≡ true
unfolding has_amount_over_threshold find_amounts parse_decimal
has_amount_of_figure a c ds b digit run over =
    let (more, n, e) = after_dollar-run c ds b digit run in
    let all : AllPass is_digit_or_comma (c ∷ ds) = (rw digit refl, run) in
    find_from-reaches a 0 (c ∷ (ds ++ b)) (c ∷ (ds ++ more)) n (omega arith) e (
      unfold parse_decimal in
      rw (parse_whole-run 0 (c ∷ ds) more all) (
        parse_whole-exceeds (whole_value 0 (without_char b',' (c ∷ ds))) (without_char b',' more)
          over))
