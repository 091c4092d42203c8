-- ===== src/Seed/Twice.antt =====
-- A second run of backend/scripts/seed.py.
use mathlib.Core.List.{append-nil}
use supportops_ai.Common.{
  any, any-append_left, any-append_right, ◌≡◌, refl, ◌∙◌, inl, inr, Bool, true, List, [], ◌++◌, map,
  Bool-cases,
}
use supportops_ai.Python.{Outcome, ok}
use supportops_ai.Seed.Rows.{Row, article_row, is_user, is_article}
use supportops_ai.Seed.Accounts.{admin_email}
use supportops_ai.Seed.Articles.{knowledge_articles}
use supportops_ai.Seed.Database.{Database, DatabaseLaws}
use supportops_ai.Seed.Run.{SeedEnd, returned, seed}
use supportops_ai.Seed.Written.{
  DeskPart, ArticlePart, IsMissing, AreDesk-admin, DeskPart-no_article,
}
use supportops_ai.Seed.Atomic.{seed-IsAllOrNothing}

DeskPart-admin :
    (before desk articles : List Row)
    → DeskPart (any (is_user admin_email) before) desk
    → any (is_user admin_email) (before ++ (desk ++ articles)) ≡ true
DeskPart-admin before desk articles h =
    let p = is_user admin_email in
    elim (Bool-cases (any p before)) [
      | inl t ↦ any-append_left p before (desk ++ articles) t
      | inr f ↦
          any-append_right p before (desk ++ articles) f
          ∙ any-append_left p desk articles (AreDesk-admin desk (rw f at h))
    ]

ArticlePart-article :
    (before desk articles : List Row) (b : Bool)
    → DeskPart b desk
    → ArticlePart (any is_article before) articles
    → any is_article (before ++ (desk ++ articles)) ≡ true
ArticlePart-article before desk articles b isDesk h = elim (Bool-cases (any is_article before)) [
  | inl t ↦ any-append_left is_article before (desk ++ articles) t
  | inr f ↦
      let all : articles ≡ map article_row knowledge_articles = rw f at h in
      any-append_right is_article before (desk ++ articles) f
      ∙ (any-append_right is_article desk articles (DeskPart-no_article b desk isDesk)
          ∙ rw all refl)
]

-- when the administrator and an article are there, nothing is missing
IsMissing-nothing :
    (before l : List Row)
    → any (is_user admin_email) before ≡ true
    → any is_article before ≡ true
    → IsMissing before l
    → l ≡ []
IsMissing-nothing before l admin article (desk, articles, isDesk, areArticles, split) =
    let no_desk : desk ≡ [] = rw admin at isDesk in
    let no_articles : articles ≡ [] = rw article at areArticles in
    split ∙ rw no_desk (rw no_articles refl)

module _ {W : Type 0} (db : Database W) (stored visible : W → List Row)
    (L : DatabaseLaws db stored visible) where
  -- A run that follows one that returned, on what that one has stored, stores nothing more, however
  -- it ends.
  pub seed-seed :
      (w w1 w2 : W) (o : Outcome SeedEnd)
      → seed db w ≡ (ok returned, w1)
      → seed db w1 ≡ (o, w2)
      → stored w2 ≡ stored w1
  seed-seed w w1 w2 o first second =
      let all = seed-IsAllOrNothing db stored visible L in
      let (l, (desk, articles, isDesk, areArticles, split), grown) = (all w w1 _ first).1 refl in
      let before = stored w in
      let after : stored w1 ≡ before ++ (desk ++ articles) = grown ∙ rw split refl in
      let admin = DeskPart-admin before desk articles isDesk in
      let article = ArticlePart-article before desk articles _ isDesk areArticles in
      elim ((all w1 w2 o second).0) [
        | inl same ↦ same
        | inr (l', missing, grown') ↦
            let nothing =
              IsMissing-nothing (stored w1) l' (rw after admin) (rw after article) missing in
            grown' ∙ (rw nothing (append-nil (stored w1)))
      ]
