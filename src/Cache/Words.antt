-- ===== src/Cache/Words.antt =====
-- Normalised texts and their words: `normalize_text` of backend/core/cache.py.
use supportops_ai.Common.{
  ℕ, ◌≡◌, refl, sym, ap, ◌∙◌, Bool, true, false, not, inl, inr, List, [], ◌∷◌, map, arith, Text,
  codes, Bool-cases,
}
use supportops_ai.Str.{
  is_space, lower, lower-append, join, strip, rstrip, collapse_from, drop_while, runs, starts_run,
  extend_run,
}
use supportops_ai.Cache.{normalize_text}

abbrev not_space : ℕ → Bool
not_space c = not (is_space c)

-- `t.split()`
abbrev pub words : Text → List Text
words = runs not_space

-- `" ".join(t.split())`
abbrev spaced : Text → Text
spaced t = join (codes " ") (words t)

-- a space and the words behind it, or nothing where there are no words
abbrev tail_words : Text → Text
tail_words [] = []
tail_words (c ∷ s) = 32 ∷ c ∷ s

rstrip_space : (s : Text) → rstrip (32 ∷ s) ≡ tail_words (rstrip s)
unfolding rstrip
rstrip_space s = ground arith

rstrip_word : (c : ℕ) (s : Text) → is_space c ≡ false → rstrip (c ∷ s) ≡ c ∷ rstrip s
unfolding rstrip
rstrip_word c s h = ground arith

join_extend :
    (c : ℕ) (s : Text) (ws : List Text)
    → join (codes " ") (extend_run c ws) ≡ c ∷ join (codes " ") ws
unfolding join
join_extend c s [] = refl
join_extend c s (w ∷ []) = refl
join_extend c s (w ∷ v ∷ ws) = refl

-- no word is empty
abbrev NoEmpty : List Text → Type 0
NoEmpty [] = Unit {0}
NoEmpty ([] ∷ ws) = ⊥
NoEmpty ((c ∷ w) ∷ ws) = NoEmpty ws

extend_run-NoEmpty : (c : ℕ) (ws : List Text) → NoEmpty ws → NoEmpty (extend_run c ws)
extend_run-NoEmpty c [] h = tt
extend_run-NoEmpty c ([] ∷ ws) h = absurd h
extend_run-NoEmpty c ((d ∷ w) ∷ ws) h = h

words-NoEmpty : (s : Text) → NoEmpty (words s)
unfolding runs
words-NoEmpty [] = tt
words-NoEmpty (c ∷ s) = elim (Bool-cases (not_space c)) [
  | inr space ↦ rw space (words-NoEmpty s)
  | inl word ↦ elim (Bool-cases (starts_run not_space s)) [
    | inl more ↦ rw word (rw more (extend_run-NoEmpty c (words s) (words-NoEmpty s)))
    | inr end ↦ rw word (rw end (words-NoEmpty s))
  ]
]

join_single :
    (c : ℕ) (ws : List Text)
    → NoEmpty ws
    → join (codes " ") ((c ∷ []) ∷ ws) ≡ c ∷ tail_words (join (codes " ") ws)
unfolding join
join_single c [] h = refl
join_single c ([] ∷ ws) h = absurd h
join_single c ((d ∷ w) ∷ []) h = refl
join_single c ((d ∷ w) ∷ v ∷ ws) h = refl

words-space : (c : ℕ) (s : Text) → is_space c ≡ true → words (c ∷ s) ≡ words s
unfolding runs
words-space c s h = rw h

words-extend :
    (c d : ℕ) (s : Text)
    → is_space c ≡ false
    → is_space d ≡ false
    → words (c ∷ d ∷ s) ≡ extend_run c (words (d ∷ s))
unfolding runs
words-extend c d s h k = rw h (rw k)

words-single :
    (c d : ℕ) (s : Text)
    → is_space c ≡ false
    → is_space d ≡ true
    → words (c ∷ d ∷ s) ≡ (c ∷ []) ∷ words s
unfolding runs
words-single c d s h k = rw h (rw k)

collapse-space :
    (c : ℕ) (s : Text)
    → is_space c ≡ true
    → (collapse_from true (c ∷ s) ≡ collapse_from true s)
      × (collapse_from false (c ∷ s) ≡ 32 ∷ collapse_from true s)
unfolding collapse_from
collapse-space c s h = (rw h, rw h)

collapse-word :
    (b : Bool) (c : ℕ) (s : Text)
    → is_space c ≡ false
    → collapse_from b (c ∷ s) ≡ c ∷ collapse_from false s
unfolding collapse_from
collapse-word b c s h = rw h

word-more :
    (c d : ℕ) (s : Text)
    → is_space c ≡ false
    → is_space d ≡ false
    → rstrip (collapse_from true (d ∷ s)) ≡ spaced (d ∷ s)
    → rstrip (collapse_from true (c ∷ d ∷ s)) ≡ spaced (c ∷ d ∷ s)
word-more c d s h k ih =
    rw (collapse-word true c (d ∷ s) h, collapse-word false d s k)
      (rw (rstrip_word c (d ∷ collapse_from false s) h, words-extend c d s h k, join_extend)
        (ap (◌∷◌ c) (rw (collapse-word true d s k) at ih)))

word-end :
    (c d : ℕ) (s : Text)
    → is_space c ≡ false
    → is_space d ≡ true
    → rstrip (collapse_from true s) ≡ spaced s
    → rstrip (collapse_from true (c ∷ d ∷ s)) ≡ spaced (c ∷ d ∷ s)
word-end c d s h k ih =
    rw (collapse-word true c (d ∷ s) h, (collapse-space d s k).1)
      (rw (rstrip_word c (32 ∷ collapse_from true s) h, rstrip_space, ih)
        (rw (words-single c d s h k) (sym (join_single c (words s) (words-NoEmpty s)))))

-- Behind a space, or at the start, the collapsed text without its last space is the spaced text.
rstrip-collapse : (s : Text) → rstrip (collapse_from true s) ≡ spaced s
rstrip-collapse [] = unfold rstrip collapse_from runs join in refl
rstrip-collapse (c ∷ []) = elim (Bool-cases (is_space c)) [
  | inl space ↦ unfold rstrip collapse_from runs join in rw space
  | inr word ↦ unfold rstrip collapse_from runs join in rw word (rw word)
]
rstrip-collapse (c ∷ d ∷ s) =
    let one = rstrip-collapse (d ∷ s) in
    let two = rstrip-collapse s in
    elim (Bool-cases (is_space c)) [
      | inl space ↦ rw ((collapse-space c (d ∷ s) space).0, words-space c (d ∷ s) space) one
      | inr word ↦ elim (Bool-cases (is_space d)) [
        | inl space ↦ word-end c d s word space two
        | inr more ↦ word-more c d s word more one
      ]
    ]

no_leading_space : (s : Text) → drop_while is_space (collapse_from true s) ≡ collapse_from true s
no_leading_space [] = unfold drop_while collapse_from in refl
no_leading_space (c ∷ s) = elim (Bool-cases (is_space c)) [
  | inl space ↦ rw ((collapse-space c s space).0) (no_leading_space s)
  | inr word ↦ rw (collapse-word true c s word) (unfold drop_while in rw word)
]

drop_while-space : (s : Text) → drop_while is_space (32 ∷ s) ≡ drop_while is_space s
unfolding drop_while
drop_while-space s = refl

lstrip-collapse : (s : Text) → drop_while is_space (collapse_from false s) ≡ collapse_from true s
lstrip-collapse [] = unfold drop_while collapse_from in refl
lstrip-collapse (c ∷ s) = elim (Bool-cases (is_space c)) [
  | inl space ↦
      rw ((collapse-space c s space).0, (collapse-space c s space).1, drop_while-space)
        (no_leading_space s)
  | inr word ↦
      rw (collapse-word false c s word, collapse-word true c s word) (unfold drop_while in rw word)
]

lower-join : (ws : List Text) → lower (join (codes " ") ws) ≡ join (codes " ") (map lower ws)
unfolding join
lower-join [] = unfold lower in refl
lower-join (w ∷ []) = refl
lower-join (w ∷ v ∷ ws) =
    rw (lower-append, lower-append, lower-join (v ∷ ws)) (unfold lower in refl)

-- A text is normalised to its words, each in lower case, with one space between them: what stands
-- between the words, the spaces around the text and the case of the letters make no difference.
pub normalize_text-words : (t : Text) → normalize_text t ≡ join (codes " ") (map lower (words t))
unfolding normalize_text strip
normalize_text-words t =
    rw (lstrip-collapse t) (ap lower (rstrip-collapse t) ∙ lower-join (words t))
