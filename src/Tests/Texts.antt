-- ===== src/Tests/Texts.antt =====
-- Words, values, rankings and the cache at concrete inputs.
use supportops_ai.Common.{◌≡◌, refl, some, List, [], ◌∷◌, map, text_eq, Text, codes}
use supportops_ai.Str.{lower, join, runs}
use supportops_ai.Json.{str}
use supportops_ai.Cache.{normalize_text}
use supportops_ai.Cache.Words.{words, normalize_text-words}
use supportops_ai.Knowledge.{
  KnowledgeArticle, cut_ranked, common_count, keywords, score, sorted_descending,
  rank_by_keyword_overlap,
}
use supportops_ai.Knowledge.Ranking.{IsRanking, rank_by_keyword_overlap-IsRanking}
use supportops_ai.Sample.Codec.{codec}
use supportops_ai.Sample.World.{World, empty, put}

normalize_text-words_example :
    normalize_text (codes "  I want\n MY  money ")
    ≡ join (codes " ") (map lower (words (codes "  I want\n MY  money ")))
normalize_text-words_example = normalize_text-words (codes "  I want\n MY  money ")

abbrev written : World
written = put (codes "k") (some (codec.dumps (str (codes "v")))) empty

abbrev article : Text → KnowledgeArticle
article title = record {
  category = codes "billing";
  title = title;
  content = codes "text";
  created_at = 1;
}

abbrev articles : List KnowledgeArticle
articles = article (codes "Invoices") ∷ article (codes "Refund of money") ∷ []

abbrev query : Text
query = codes "my money, my refund"

-- The article with two of the words comes first.
rank_first : rank_by_keyword_overlap articles query 1 ≡ article (codes "Refund of money") ∷ []
unfolding rank_by_keyword_overlap cut_ranked sorted_descending score common_count keywords runs
    lower text_eq
rank_first = refl

rank_by_keyword_overlap-IsRanking_example :
    (rest : List KnowledgeArticle) × IsRanking articles query 1
      (rank_by_keyword_overlap articles query 1)
      rest
rank_by_keyword_overlap-IsRanking_example = rank_by_keyword_overlap-IsRanking articles query 1
