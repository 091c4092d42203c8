-- ===== src/Policy/Amount.antt =====
-- Dollar figures: `_DOLLAR_AMOUNT_PATTERN` and `_has_amount_over_threshold` of
-- backend/policy/rules.py.
use supportops_ai.Common.{
  ℕ, zero, suc, ◌+◌, ◌-◌, ◌*◌, ◌^◌, Bool, true, false, ◌||◌, Option, none, some, List, [], ◌∷◌,
  ◌++◌, Text, ◌==◌, ltb, if◌then◌else◌, length,
}
use supportops_ai.Str.{is_digit, is_space, take_while, drop_while, without_char}

-- `[\d,]`
abbrev pub is_digit_or_comma : ℕ → Bool
is_digit_or_comma c = is_digit c || c == b','

-- `(?:\.\d+)?`
unfoldable pub fraction_at : Text → Text
fraction_at [] = []
fraction_at (c ∷ s) =
    let digits = take_while is_digit s in
    if c == b'.' then elim digits [ [] ↦ [] | d ∷ ds ↦ c ∷ d ∷ ds ] else []

-- `\d[\d,]*(?:\.\d+)?` at the start of a text
unfoldable pub number_at : Text → Option Text
number_at [] = none
number_at (c ∷ s) =
    if is_digit c
    then some (c ∷ (take_while is_digit_or_comma s ++ fraction_at (drop_while is_digit_or_comma s)))
    else none

-- What `number_at` found after `n` further characters, with the count of all that was read.
abbrev pub with_length : ℕ → Option Text → Option (Text × ℕ)
with_length n none = none
with_length n (some group) = some (group, n + length group)

-- `\s?(…)`, behind the dollar sign: the group, and the length of the match behind the sign
unfoldable pub after_dollar : Text → Option (Text × ℕ)
after_dollar [] = none
after_dollar (c ∷ s) =
    if is_space c then with_length 1 (number_at s) else with_length 0 (number_at (c ∷ s))

-- The groups of `finditer`: after a match the search goes on behind it, `skip` characters on.
unfoldable pub find_from : ℕ → Text → List Text
find_from skip [] = []
find_from (suc skip) (c ∷ s) = find_from skip s
find_from zero (c ∷ s) = elim (if c == b'$' then after_dollar s else none) [
  | none ↦ find_from zero s
  | some (group, n) ↦ group ∷ find_from n s
]

unfoldable pub find_amounts : Text → List Text
find_amounts = find_from 0

-- A decimal numeral: `value / 10 ^ places`.
pub record Decimal : Type 0 where
  pub value : ℕ
  pub places : ℕ

unfoldable pub parse_fraction : ℕ → ℕ → Text → Decimal
parse_fraction n k [] = record { value = n; places = k }
parse_fraction n k (c ∷ s) = parse_fraction (n * 10 + (c - 48)) (k + 1) s

unfoldable pub parse_whole : ℕ → Text → Decimal
parse_whole n [] = record { value = n; places = 0 }
parse_whole n (c ∷ s) =
    if c == b'.' then parse_fraction n 0 s else parse_whole (n * 10 + (c - 48)) s

-- `float` on the numerals that the pattern lets through, before the rounding
unfoldable pub parse_decimal : Text → Decimal
parse_decimal = parse_whole 0

-- `float(s) > 500.0`. The doubles next to 500 are 2 ^ -44 apart, and a tie goes to 500 itself, so
-- the rounded value passes 500 exactly when the numeral passes 500 + 2 ^ -45.
unfoldable pub exceeds_threshold : Decimal → Bool
exceeds_threshold d = ltb ((500 * 2 ^ 45 + 1) * 10 ^ d.places) (d.value * 2 ^ 45)

unfoldable pub any_over_threshold : List Text → Bool
any_over_threshold [] = false
any_over_threshold (group ∷ groups) =
    if exceeds_threshold (parse_decimal (without_char b',' group))
    then true
    else any_over_threshold groups

unfoldable pub has_amount_over_threshold : Text → Bool
has_amount_over_threshold text = any_over_threshold (find_amounts text)
