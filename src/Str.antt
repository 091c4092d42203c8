-- ===== src/Str.antt =====
-- The methods of Python's `str` and the character classes of `re` that the program uses, over the
-- ASCII characters: other code points have no case here and belong to no class.
pub mod Contains
pub mod Spans
use supportops_ai.Common.{
  ℕ, zero, suc, ◌+◌, ◌≡◌, refl, Bool, true, false, ◌&&◌, ◌||◌, List, [], ◌∷◌, ◌++◌, map, arith,
  Text, ◌==◌, leb, if◌then◌else◌, text_eq,
}

unfoldable pub lower_char : ℕ → ℕ
lower_char c = if leb 65 c && leb c 90 then c + 32 else c

-- `s.lower()`
unfoldable pub lower : Text → Text
unfolding lower_char
lower = map lower_char

-- `\d`
abbrev pub is_digit : ℕ → Bool
is_digit c = leb 48 c && leb c 57

-- `\s`, which is also what `strip` removes
abbrev pub is_space : ℕ → Bool
is_space c = c == 32 || (leb 9 c && leb c 13) || (leb 28 c && leb c 31)

-- `t.startswith(p)`
unfoldable pub starts_with : Text → Text → Bool
starts_with t [] = true
starts_with [] (p ∷ ps) = false
starts_with (c ∷ s) (p ∷ ps) = c == p && starts_with s ps

-- `k in t`
unfoldable pub contains : Text → Text → Bool
unfolding starts_with
contains [] k = starts_with [] k
contains (c ∷ s) k = starts_with (c ∷ s) k || contains s k

-- `t.replace(c, "")` for one character
unfoldable pub without_char : ℕ → Text → Text
without_char k [] = []
without_char k (c ∷ s) = let rest = without_char k s in if c == k then rest else c ∷ rest

-- the longest start of `t` whose characters all pass, and what follows it
unfoldable pub take_while : (ℕ → Bool) → Text → Text
take_while p [] = []
take_while p (c ∷ s) = let rest = take_while p s in if p c then c ∷ rest else []

unfoldable pub drop_while : (ℕ → Bool) → Text → Text
drop_while p [] = []
drop_while p (c ∷ s) = let rest = drop_while p s in if p c then rest else c ∷ s

-- `sep.join(parts)`
unfoldable pub join : Text → List Text → Text
join sep [] = []
join sep (t ∷ []) = t
join sep (t ∷ u ∷ ts) = t ++ (sep ++ join sep (u ∷ ts))

pub lower_char_idem : (c : ℕ) → lower_char (lower_char c) ≡ lower_char c
unfolding lower_char
lower_char_idem c = ground arith

-- Lowering a lowered text changes nothing.
pub lower_idem : (s : Text) → lower (lower s) ≡ lower s
unfolding lower
lower_idem [] = refl
lower_idem (c ∷ s) = cc (lower_char_idem c, lower_idem s)

pub lower-append : (s t : Text) → lower (s ++ t) ≡ lower s ++ lower t
unfolding lower
lower-append [] t = refl
lower-append (c ∷ s) t = cc (lower-append s t)

abbrev pub starts_run : (ℕ → Bool) → Text → Bool
starts_run p [] = false
starts_run p (c ∷ s) = p c

abbrev pub extend_run : ℕ → List Text → List Text
extend_run c [] = (c ∷ []) ∷ []
extend_run c (w ∷ ws) = (c ∷ w) ∷ ws

-- `re.findall("[p]+", t)`: the longest runs of characters that pass
unfoldable pub runs : (ℕ → Bool) → Text → List Text
runs p [] = []
runs p (c ∷ s) =
    let rest = runs p s in
    if p c then (if starts_run p s then extend_run c rest else (c ∷ []) ∷ rest) else rest

-- `re.sub("\s+", " ", t)`; `inside` tells that the run of spaces has been replaced already.
unfoldable pub collapse_from : Bool → Text → Text
collapse_from inside [] = []
collapse_from inside (c ∷ s) =
    let rest = collapse_from (is_space c) s in
    if is_space c then (if inside then rest else 32 ∷ rest) else c ∷ rest

unfoldable pub rstrip : Text → Text
rstrip [] = []
rstrip (c ∷ s) =
    let rest = rstrip s in
    elim rest [ [] ↦ (if is_space c then [] else c ∷ []) | d ∷ ds ↦ c ∷ d ∷ ds ]

-- `t.strip()`
unfoldable pub strip : Text → Text
strip t = rstrip (drop_while is_space t)

-- string literals and f-strings in pieces
abbrev pub concat : List Text → Text
concat [] = []
concat (t ∷ ts) = t ++ concat ts
