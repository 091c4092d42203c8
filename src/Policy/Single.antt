-- ===== src/Policy/Single.antt =====
-- A figure in a text with one dollar sign, for the rule in backend/policy/rules.py.
use mathlib.Core.List.{append-nil}
use mathlib.Core.Path.{◌≡⟨◌⟩◌, ◌∎}
use native.Mathlib.Nat.{zero-add}
use supportops_ai.Common.{
  ℕ, ◌≡◌, refl, ap, ◌∙◌, true, false, some, [], ◌∷◌, ◌++◌, arith, Text, length, ◌==◌, ltb, not,
}
use supportops_ai.Str.{is_digit, is_space, take_while, drop_while, without_char}
use supportops_ai.Str.Spans.{AllPass, take_while_all, drop_while_all}
use supportops_ai.Policy.Amount.{
  is_digit_or_comma, fraction_at, number_at, after_dollar, find_from, find_amounts, parse_whole,
  parse_decimal, exceeds_threshold, any_over_threshold, has_amount_over_threshold,
}
use supportops_ai.Policy.Figures.{
  whole_value, parse_whole-run, find_from-hit, find_from-miss, find_from-skip,
}

-- no dollar sign
abbrev pub NoDollar : Text → Type 0
NoDollar = AllPass (λ c. not (c == b'$'))

-- a figure that ends where `b` begins
abbrev pub EndsFigure : Text → Type 0
EndsFigure [] = Unit {0}
EndsFigure (c ∷ _) = (is_digit_or_comma c ≡ false) × ((c == b'.') ≡ false)

find_from_plain : (a r : Text) → NoDollar a → find_from 0 (a ++ r) ≡ find_from 0 r
find_from_plain [] r h = refl
find_from_plain (c ∷ a) r h =
    let plain : (c == b'$') ≡ false = ground (arith, h.0) in
    find_from-miss c (a ++ r) (rw plain) ∙ find_from_plain a r h.1

find_from_none : (b : Text) → NoDollar b → find_from 0 b ≡ []
unfolding find_from
find_from_none [] h = refl
find_from_none (c ∷ b) h =
    let plain : (c == b'$') ≡ false = ground (arith, h.0) in
    find_from-miss c b (rw plain) ∙ find_from_none b h.1

find_from_past : (s b : Text) → find_from (length s) (s ++ b) ≡ find_from 0 b
find_from_past [] b = refl
find_from_past (c ∷ s) b = find_from-skip (length s) c (s ++ b) ∙ find_from_past s b

number_at_end :
    (c : ℕ) (ds b : Text)
    → is_digit c ≡ true
    → AllPass is_digit_or_comma ds
    → EndsFigure b
    → number_at (c ∷ (ds ++ b)) ≡ some (c ∷ ds)
unfolding number_at fraction_at take_while drop_while
number_at_end c ds [] h run end =
    rw (h, take_while_all is_digit_or_comma ds [] run, drop_while_all is_digit_or_comma ds [] run)
      (simp append-nil)
number_at_end c ds (x ∷ b) h run end =
    rw
      (
        h,
        take_while_all is_digit_or_comma ds (x ∷ b) run,
        drop_while_all is_digit_or_comma ds (x ∷ b) run,
      )
      (rw end.0 (rw end.1 (simp append-nil)))

parse_decimal-run :
    (ds : Text)
    → AllPass is_digit_or_comma ds
    → parse_decimal (without_char b',' ds)
      ≡ record { value = whole_value 0 (without_char b',' ds); places = 0 }
unfolding parse_decimal parse_whole without_char
parse_decimal-run ds run = rw (append-nil) at (parse_whole-run 0 ds [] run)

exceeds_whole : (v : ℕ) → exceeds_threshold (record { value = v; places = 0 }) ≡ ltb 500 v
unfolding exceeds_threshold
exceeds_whole v = ground arith

any_single :
    (g : Text)
    → any_over_threshold (g ∷ []) ≡ exceeds_threshold (parse_decimal (without_char b',' g))
unfolding any_over_threshold
any_single g = ground arith

after_dollar_end :
    (c : ℕ) (ds b : Text)
    → is_digit c ≡ true
    → AllPass is_digit_or_comma ds
    → EndsFigure b
    → after_dollar (c ∷ (ds ++ b)) ≡ some (c ∷ ds, length (c ∷ ds))
unfolding after_dollar
after_dollar_end c ds b digit run end =
    let no_space : is_space c ≡ false = ground arith in
    rw no_space (rw (number_at_end c ds b digit run end) (rw zero-add))

-- In a text with one dollar sign, a whole figure with or without commas is flagged exactly when it
-- is greater than 500.
pub has_amount_of_single :
    (a : Text) (c : ℕ) (ds b : Text)
    → NoDollar a
    → is_digit c ≡ true
    → AllPass is_digit_or_comma ds
    → NoDollar b
    → EndsFigure b
    → has_amount_over_threshold (a ++ b'$' ∷ c ∷ (ds ++ b))
      ≡ ltb 500 (whole_value 0 (without_char b',' (c ∷ ds)))
unfolding has_amount_over_threshold find_amounts
has_amount_of_single a c ds b quiet digit run quiet' end =
    let all : AllPass is_digit_or_comma (c ∷ ds) = (rw digit refl, run) in
    let rest : Text = c ∷ (ds ++ b) in
    any_over_threshold (find_from 0 (a ++ b'$' ∷ rest))
    ≡⟨ ap any_over_threshold (find_from_plain a (b'$' ∷ rest) quiet) ⟩
      any_over_threshold (find_from 0 (b'$' ∷ rest))
    ≡⟨ ap any_over_threshold (
        find_from-hit b'$' rest (c ∷ ds) (length (c ∷ ds))
          (after_dollar_end c ds b digit run end)) ⟩
      any_over_threshold ((c ∷ ds) ∷ find_from (length (c ∷ ds)) rest)
    ≡⟨ ap (λ gs. any_over_threshold ((c ∷ ds) ∷ gs))
        (find_from_past (c ∷ ds) b ∙ find_from_none b quiet') ⟩
      any_over_threshold ((c ∷ ds) ∷ [])
    ≡⟨ any_single (c ∷ ds) ∙ ap exceeds_threshold (parse_decimal-run (c ∷ ds) all) ⟩
      exceeds_threshold (record { value = whole_value 0 (without_char b',' (c ∷ ds)); places = 0 })
    ≡⟨ exceeds_whole (whole_value 0 (without_char b',' (c ∷ ds))) ⟩
      ltb 500 (whole_value 0 (without_char b',' (c ∷ ds))) ∎
