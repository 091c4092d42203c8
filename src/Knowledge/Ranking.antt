-- ===== src/Knowledge/Ranking.antt =====
-- What the ranking of backend/database/repositories/knowledge_article.py returns.
use mathlib.Core.List.{Perm}
use mathlib.Core.List.Perm
use supportops_ai.Common.{
  ℕ, zero, suc, ◌≤◌, ◌≡◌, refl, ap, inl, inr, List, [], ◌∷◌, ◌++◌, arith, Text, ◌==◌, ltb, length,
  take, select, drop, Bool-cases, length-take_le, take-append-drop, take_full, sym, ◌∙◌, ◌⊎◌,
}
use supportops_ai.Knowledge.{
  KnowledgeArticle, keywords, score, insert_descending, sorted_descending, cut_ranked,
  rank_by_keyword_overlap,
}

module _ {A : Type 0} (f : A → ℕ) where
  insert_descending-perm : (x : A) (l : List A) → Perm (insert_descending f x l) (x ∷ l)
  unfolding insert_descending
  insert_descending-perm x [] = Perm.refl (x ∷ [])
  insert_descending-perm x (y ∷ ys) = elim (Bool-cases (ltb (f x) (f y))) [
    | inl below ↦
        rw below (Perm.trans (Perm.cons y (insert_descending-perm x ys)) (Perm.swap x y ys))
    | inr above ↦ rw above (Perm.refl (x ∷ y ∷ ys))
  ]

  pub sorted_descending-perm : (l : List A) → Perm (sorted_descending f l) l
  unfolding sorted_descending
  sorted_descending-perm [] = Perm.refl []
  sorted_descending-perm (x ∷ xs) =
      Perm.trans (insert_descending-perm x (sorted_descending f xs))
        (Perm.cons x (sorted_descending-perm xs))

  -- no later item has a greater value
  abbrev pub AtMost : ℕ → List A → Type 0
  AtMost n [] = Unit {0}
  AtMost n (x ∷ xs) = (f x ≤ n) × AtMost n xs

  abbrev pub IsDescending : List A → Type 0
  IsDescending [] = Unit {0}
  IsDescending (x ∷ xs) = AtMost (f x) xs × IsDescending xs

  AtMost-mono : (m n : ℕ) (l : List A) → m ≤ n → AtMost m l → AtMost n l
  AtMost-mono m n [] le h = tt
  AtMost-mono m n (x ∷ xs) le h = (omega arith, AtMost-mono m n xs le h.1)

  insert_descending-AtMost :
      (n : ℕ) (x : A) (l : List A) → f x ≤ n → AtMost n l → AtMost n (insert_descending f x l)
  unfolding insert_descending
  insert_descending-AtMost n x [] le h = (le, tt)
  insert_descending-AtMost n x (y ∷ ys) le h =
      ground (arith, insert_descending-AtMost n x ys le h.1)

  insert_descending-IsDescending :
      (x : A) (l : List A) → IsDescending l → IsDescending (insert_descending f x l)
  unfolding insert_descending
  insert_descending-IsDescending x [] h = (tt, tt)
  insert_descending-IsDescending x (y ∷ ys) h = elim (Bool-cases (ltb (f x) (f y))) [
    | inl below ↦ rw below (
      insert_descending-AtMost (f y) x ys (ground arith) h.0,
      insert_descending-IsDescending x ys h.1,
    )
    | inr above ↦
        let le : f y ≤ f x = ground arith in rw above ((le, AtMost-mono (f y) (f x) ys le h.0), h)
  ]

  pub sorted_descending-IsDescending : (l : List A) → IsDescending (sorted_descending f l)
  unfolding sorted_descending
  sorted_descending-IsDescending [] = tt
  sorted_descending-IsDescending (x ∷ xs) =
      insert_descending-IsDescending x (sorted_descending f xs) (sorted_descending-IsDescending xs)

  -- Items with equal values keep their order.
  insert_descending-stable :
      (n : ℕ) (x : A) (l : List A)
      → select (λ a. f a == n) (insert_descending f x l) ≡ select (λ a. f a == n) (x ∷ l)
  unfolding insert_descending
  insert_descending-stable n x [] = refl
  insert_descending-stable n x (y ∷ ys) = ground (arith, insert_descending-stable n x ys)

  pub sorted_descending-stable :
      (n : ℕ) (l : List A)
      → select (λ a. f a == n) (sorted_descending f l) ≡ select (λ a. f a == n) l
  unfolding sorted_descending
  sorted_descending-stable n [] = refl
  sorted_descending-stable n (x ∷ xs) =
      ground (
        arith,
        insert_descending-stable n x (sorted_descending f xs),
        sorted_descending-stable n xs,
      )

  AtMost-insert :
      (n : ℕ) (x : A) (l : List A) → AtMost n (insert_descending f x l) → (f x ≤ n) × AtMost n l
  unfolding insert_descending
  AtMost-insert n x [] h = h
  AtMost-insert n x (y ∷ ys) h = elim (Bool-cases (ltb (f x) (f y))) [
    | inl below ↦
        let (here, later) = rw below at h in
        let (le, rest) = AtMost-insert n x ys later in (le, (here, rest))
    | inr above ↦ rw above at h
  ]

  AtMost-sorted : (n : ℕ) (l : List A) → AtMost n (sorted_descending f l) → AtMost n l
  unfolding sorted_descending
  AtMost-sorted n [] h = tt
  AtMost-sorted n (x ∷ xs) h =
      let (le, rest) = AtMost-insert n x (sorted_descending f xs) h in (le, AtMost-sorted n xs rest)

  insert_zero : (x : A) (l : List A) → AtMost 0 l → insert_descending f x l ≡ x ∷ l
  unfolding insert_descending
  insert_zero x [] h = refl
  insert_zero x (y ∷ ys) h = ground arith

  -- Sorting changes nothing where every value is zero.
  sorted_zero : (l : List A) → AtMost 0 l → sorted_descending f l ≡ l
  unfolding sorted_descending
  sorted_zero [] h = refl
  sorted_zero (x ∷ xs) h = rw (sorted_zero xs h.1) (insert_zero x xs h.1)

cut_ranked-sorted :
    (f : KnowledgeArticle → ℕ) (limit : ℕ) (articles ranked : List KnowledgeArticle)
    → sorted_descending f articles ≡ ranked
    → IsDescending f ranked
    → cut_ranked f limit articles ranked ≡ take limit ranked
unfolding cut_ranked
cut_ranked-sorted f zero articles [] e h = refl
cut_ranked-sorted f (suc limit) articles [] e h = refl
cut_ranked-sorted f limit articles (best ∷ others) e h = elim (Bool-cases (f best == 0)) [
  | inr positive ↦ rw positive
  | inl zero_score ↦
      let zeros : AtMost f 0 (best ∷ others) =
        (ground arith, AtMost-mono f (f best) 0 others (ground arith) h.0) in
      let same : best ∷ others ≡ articles =
        sym e ∙ sorted_zero f articles (AtMost-sorted f 0 articles (rw e zeros)) in
      rw zero_score (ap (take limit) (sym same))
]

-- The ranking is a cut of all the articles in the order of their scores, highest first: the fallback
-- to the incoming order, where no article has a keyword of the query, is that order too.
pub rank_by_keyword_overlap-eq :
    (articles : List KnowledgeArticle) (query : Text) (limit : ℕ)
    → rank_by_keyword_overlap articles query limit
      ≡ take limit (sorted_descending (score (keywords query)) articles)
unfolding rank_by_keyword_overlap
rank_by_keyword_overlap-eq articles query limit =
    let f = score (keywords query) in
    cut_ranked-sorted f limit articles (sorted_descending f articles) refl
      (sorted_descending-IsDescending f articles)

-- What is returned, and what is left out behind it.
pub record IsRanking (articles : List KnowledgeArticle) (query : Text) (limit : ℕ)
    (result rest : List KnowledgeArticle) : Type 0 where
  -- nothing is lost, invented or repeated
  pub all : Perm (result ++ rest) articles
  -- no article stands behind one with a lower score
  pub descending : IsDescending (score (keywords query)) (result ++ rest)
  -- articles of one score keep their order
  pub stable :
      (n : ℕ)
      → select (λ a. score (keywords query) a == n) (result ++ rest)
        ≡ select (λ a. score (keywords query) a == n) articles
  -- the result is as long as allowed, or nothing was left out
  pub size : length result ≤ limit
  pub full : (length result ≡ limit) ⊎ (rest ≡ [])

-- The result is the first `limit` articles of a stable order by descending score.
pub rank_by_keyword_overlap-IsRanking :
    (articles : List KnowledgeArticle) (query : Text) (limit : ℕ)
    → (rest : List KnowledgeArticle) × IsRanking articles query limit
        (rank_by_keyword_overlap articles query limit)
        rest
rank_by_keyword_overlap-IsRanking articles query limit =
    let f = score (keywords query) in
    let ranked = sorted_descending f articles in
    (
      drop limit ranked,
      rw (rank_by_keyword_overlap-eq articles query limit) (record {
        all = rw (take-append-drop limit ranked) (sorted_descending-perm f articles);
        descending = rw (take-append-drop limit ranked) (sorted_descending-IsDescending f articles);
        stable = λ n. rw (take-append-drop limit ranked) (sorted_descending-stable f n articles);
        size = length-take_le limit ranked;
        full = take_full limit ranked;
      }),
    )
