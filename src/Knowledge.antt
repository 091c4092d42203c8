-- ===== src/Knowledge.antt =====
-- The ranking of knowledge articles: backend/database/repositories/knowledge_article.py.
pub mod Ranking
use supportops_ai.Common.{
  ℕ, zero, suc, Bool, true, false, not, ◌&&◌, ◌||◌, ◌==◌, List, [], ◌∷◌, ◌++◌, Text, codes, text_eq,
  leb, ltb, if◌then◌else◌, length, take, select,
}
use supportops_ai.Str.{lower, runs}

-- the columns that the program reads; `created_at` orders the rows
pub record KnowledgeArticle : Type 0 where
  pub category : Text
  pub title : Text
  pub content : Text
  pub created_at : ℕ

-- `[a-zA-Z']`
abbrev pub is_word_char : ℕ → Bool
is_word_char c = (leb b'a' c && leb c b'z') || (leb b'A' c && leb c b'Z') || c == 39

abbrev pub min_word_length : ℕ
min_word_length = 3

-- membership in a set of words
unfoldable pub has_word : List Text → Text → Bool
has_word [] w = false
has_word (v ∷ vs) w = if text_eq v w then true else has_word vs w

-- a set: the words, each once
unfoldable pub distinct : List Text → List Text
unfolding has_word
distinct [] = []
distinct (w ∷ ws) = let rest = distinct ws in if has_word rest w then rest else w ∷ rest

unfoldable pub keywords : Text → List Text
unfolding distinct
keywords text =
    distinct (select (λ word. leb min_word_length (length word)) (runs is_word_char (lower text)))

-- `len(a & b)` of two sets
unfoldable pub common_count : List Text → List Text → ℕ
common_count a b = length (select (has_word b) a)

-- `_score`, in `_rank_by_keyword_overlap`
unfoldable pub score : List Text → KnowledgeArticle → ℕ
score query_words article =
    common_count query_words (keywords (article.title ++ (codes " " ++ article.content)))

-- `sorted(l, key=f, reverse=True)`: descending, and stable
module _ {A : Type 0} (f : A → ℕ) where
  unfoldable pub insert_descending : A → List A → List A
  insert_descending x [] = x ∷ []
  insert_descending x (y ∷ ys) = if ltb (f x) (f y) then y ∷ insert_descending x ys else x ∷ y ∷ ys

  unfoldable pub sorted_descending : List A → List A
  unfolding insert_descending
  sorted_descending [] = []
  sorted_descending (x ∷ xs) = insert_descending x (sorted_descending xs)

-- The articles in their ranked order or, where no score is positive, in the order that they came in.
unfoldable pub cut_ranked :
    (KnowledgeArticle → ℕ)
    → ℕ
    → List KnowledgeArticle
    → List KnowledgeArticle
    → List KnowledgeArticle
cut_ranked f limit articles [] = []
cut_ranked f limit articles (best ∷ others) =
    if f best == 0 then take limit articles else take limit (best ∷ others)

unfoldable pub rank_by_keyword_overlap : List KnowledgeArticle → Text → ℕ → List KnowledgeArticle
rank_by_keyword_overlap articles query_text limit =
    let score_of = score (keywords query_text) in
    cut_ranked score_of limit articles (sorted_descending score_of articles)
