-- ===== src/Seed/Written.antt =====
-- The rows that a run of backend/scripts/seed.py adds to what its session sees.
use supportops_ai.Common.{
  any, any-append_left, any-append_right, any-map, ◌≡◌, refl, ◌∙◌, Bool, true, false, List, [], ◌∷◌,
  ◌++◌, Text, map, text_eq,
}
use supportops_ai.Seed.Rows.{
  UserSeed, NewDeskTicket, Row, user_row, customer_row, ticket_row, article_row, is_user,
  is_article,
}
use supportops_ai.Seed.Accounts.{admin_email, users, customers}
use supportops_ai.Seed.Desk.{tickets}
use supportops_ai.Seed.Articles.{knowledge_articles}
use supportops_ai.Seed.Run.{new_user, new_customer}
use supportops_ai.Seed.Indexes.{IsWired}

-- one row for each user seed, in order, each with a hash of its own
abbrev pub AreUsers : List UserSeed → List Row → Type 0
AreUsers [] [] = Unit {0}
AreUsers [] (_ ∷ _) = ⊥
AreUsers (_ ∷ _) [] = ⊥
AreUsers (spec ∷ specs) (r ∷ rows) =
    ((hash : Text) × (r ≡ user_row (new_user spec hash))) × AreUsers specs rows

-- The users, the customers and the tickets of the seed, the tickets wired to the customers and the
-- users that their seeds name.
abbrev pub AreDesk : List Row → Type 0
AreDesk l =
    (us : List Row) × (ts : List NewDeskTicket) × AreUsers users us
    × IsWired (map new_customer customers) ts tickets
    × (l ≡ us ++ (map customer_row (map new_customer customers) ++ map ticket_row ts))

-- The part is there already and nothing is added, or it is missing and added.
abbrev pub DeskPart : Bool → List Row → Type 0
DeskPart true l = l ≡ []
DeskPart false l = AreDesk l

abbrev pub ArticlePart : Bool → List Row → Type 0
ArticlePart true l = l ≡ []
ArticlePart false l = l ≡ map article_row knowledge_articles

-- `l` is what the seed has to add to `before`: it is there for the desk when no user has the
-- address of the administrator, and for the articles when there is none.
abbrev pub IsMissing : List Row → List Row → Type 0
IsMissing before l =
    (desk : List Row) × (articles : List Row) × DeskPart (any (is_user admin_email) before) desk
    × ArticlePart (any is_article before) articles
    × (l ≡ desk ++ articles)

AreUsers-no_article :
    (specs : List UserSeed) (rows : List Row) → AreUsers specs rows → any is_article rows ≡ false
AreUsers-no_article [] [] h = refl
AreUsers-no_article [] (r ∷ rows) h = absurd h
AreUsers-no_article (s ∷ specs) [] h = absurd h
AreUsers-no_article (s ∷ specs) (r ∷ rows) ((hash, e), h) = rw e (AreUsers-no_article specs rows h)

AreDesk-no_article : (l : List Row) → AreDesk l → any is_article l ≡ false
AreDesk-no_article l (us, ts, areUsers, wired, e) =
    let made = map new_customer customers in
    let no_tickets = any-map is_article ticket_row ts (λ _. refl) in
    let no_customers = any-map is_article customer_row made (λ _. refl) in
    rw e (
      any-append_right is_article us _ (AreUsers-no_article users us areUsers)
      ∙ (any-append_right is_article (map customer_row made) (map ticket_row ts) no_customers
          ∙ no_tickets))

pub DeskPart-no_article : (b : Bool) (l : List Row) → DeskPart b l → any is_article l ≡ false
DeskPart-no_article true l e = rw e refl
DeskPart-no_article false l h = AreDesk-no_article l h

AreUsers-admin : (us : List Row) → AreUsers users us → any (is_user admin_email) us ≡ true
unfolding text_eq
AreUsers-admin [] h = absurd h
AreUsers-admin (r ∷ rows) ((hash, e), h) = rw e refl

pub AreDesk-admin : (l : List Row) → AreDesk l → any (is_user admin_email) l ≡ true
AreDesk-admin l (us, ts, areUsers, wired, e) =
    rw e (any-append_left (is_user admin_email) us _ (AreUsers-admin us areUsers))
