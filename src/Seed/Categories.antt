-- ===== src/Seed/Categories.antt =====
-- The categories of the articles of backend/scripts/seed.py.
use supportops_ai.Common.{
  ◌≡◌, ◌↔◌, refl, sym, inl, inr, Bool, true, false, ◌&&◌, &&_true, Option, none, some, List, [],
  ◌∷◌, Text, text_eq, In,
}
use supportops_ai.Enums.{TicketCategory, ticket_category, ticket_category_value}
use supportops_ai.Enums.Values.{ticket_category_iff}
use supportops_ai.Seed.Rows.{KnowledgeArticleSeed}
use supportops_ai.Seed.Articles.{knowledge_articles}

abbrev is_some : {A : Type 0} → Option A → Bool
is_some none = false
is_some (some _) = true

abbrev all_read : List KnowledgeArticleSeed → Bool
all_read [] = true
all_read (a ∷ articles) = is_some (ticket_category a.category) && all_read articles

articles-read : all_read knowledge_articles ≡ true
unfolding ticket_category text_eq
articles-read = refl

read_value : (o : Option TicketCategory) → is_some o ≡ true → (c : TicketCategory) × (o ≡ some c)
read_value none h = absurd (cc)
read_value (some c) h = (c, refl)

category_of_article :
    (l : List KnowledgeArticleSeed) (a : KnowledgeArticleSeed)
    → all_read l ≡ true
    → In a l
    → (c : TicketCategory) × (ticket_category_value c ≡ a.category)
category_of_article [] a h m = absurd m
category_of_article (x ∷ xs) a h (inl e) =
    let (here, _) = &&_true (is_some (ticket_category x.category)) (all_read xs) h in
    let (c, read) = read_value (ticket_category x.category) here in
    (c, rw e (sym ((ticket_category_iff x.category c).0 read)))
category_of_article (x ∷ xs) a h (inr m) =
    let (_, there) = &&_true (is_some (ticket_category x.category)) (all_read xs) h in
    category_of_article xs a there m

article_of_category :
    (c : TicketCategory)
    → (a : KnowledgeArticleSeed) × In a knowledge_articles × (a.category ≡ ticket_category_value c)
article_of_category TicketCategory.billing = (_, inl refl, refl)
article_of_category TicketCategory.technical = (_, inr (inr (inr (inl refl))), refl)
article_of_category TicketCategory.account = (_, inr (inr (inr (inr (inr (inr (inl refl)))))), refl)
article_of_category TicketCategory.general =
    (_, inr (inr (inr (inr (inr (inr (inr (inr (inr (inl refl))))))))), refl)

-- A text is the category of some seeded article exactly when it is the value of a category that a
-- ticket can be classified into: no article is out of reach of a search, and no category is empty.
pub knowledge_articles-categories_iff :
    (t : Text)
    → ((a : KnowledgeArticleSeed) × In a knowledge_articles × (a.category ≡ t))
      ↔ ((c : TicketCategory) × (ticket_category_value c ≡ t))
knowledge_articles-categories_iff t = (
  λ h.
      let (a, m, e) = h in
      let (c, e') = category_of_article knowledge_articles a articles-read m in (c, rw e at e'),
  λ h. let (c, e) = h in let (a, m, e') = article_of_category c in (a, m, rw e at e'),
)
