-- ===== src/Seed/Stored.antt =====
-- What backend/scripts/seed.py stores, and the schema that the migrations leave.
use supportops_ai.Common.{
  ◌≡◌, refl, inl, inr, Bool, true, false, ◌&&◌, &&_true, List, [], ◌∷◌, ◌++◌, map, length, leb,
  leb→le, In, In-append, some,
}
use supportops_ai.Python.{Outcome}
use supportops_ai.Migrations.Schema.{Schema}
use supportops_ai.Migrations.Effect.{apply_all}
use supportops_ai.Migrations.Revisions.{revisions, upgrade_all}
use supportops_ai.Migrations.Frame.{all_names, IsApart}
use supportops_ai.Migrations.Steps.{apply_all-append}
use supportops_ai.Migrations.History.{head}
use supportops_ai.Migrations.Declared.{up_from_empty}
use supportops_ai.Migrations.Values.{Accepts}
use supportops_ai.Seed.Rows.{
  UserSeed, CustomerSeed, TicketSeed, KnowledgeArticleSeed, NewCustomer, NewDeskTicket, Row,
  customer_row, ticket_row, article_row,
}
use supportops_ai.Seed.Accounts.{users, customers}
use supportops_ai.Seed.Desk.{tickets}
use supportops_ai.Seed.Articles.{knowledge_articles}
use supportops_ai.Seed.Database.{Database, DatabaseLaws}
use supportops_ai.Seed.Run.{SeedEnd, new_customer, new_ticket, seed}
use supportops_ai.Seed.Indexes.{IsWired}
use supportops_ai.Seed.Written.{AreUsers, DeskPart, ArticlePart, IsMissing}
use supportops_ai.Seed.Atomic.{seed-IsAllOrNothing}
use supportops_ai.Seed.Values.{table_of, values_of}
use supportops_ai.Seed.Accepted.{user_taken, customer_taken, desk_ticket_taken, article_taken}

-- The lengths of a seed are within those of its columns.
abbrev all : {A : Type 0} → (A → Bool) → List A → Bool
all p [] = true
all p (x ∷ l) = p x && all p l

abbrev user_fits : UserSeed → Bool
user_fits u = leb (length u.email) 255 && leb (length u.full_name) 255

abbrev customer_fits : CustomerSeed → Bool
customer_fits c =
    leb (length c.name) 255 && (leb (length c.email) 255 && leb (length c.company) 255)

abbrev ticket_fits : TicketSeed → Bool
ticket_fits t = leb (length t.subject) 255

abbrev article_fits : KnowledgeArticleSeed → Bool
article_fits a = leb (length a.category) 50 && leb (length a.title) 255

users-fit : all user_fits users ≡ true
users-fit = refl

customers-fit : all customer_fits customers ≡ true
customers-fit = refl

tickets-fit : all ticket_fits tickets ≡ true
tickets-fit = refl

articles-fit : all article_fits knowledge_articles ≡ true
articles-fit = refl

-- Each of the rows is one that its table takes.
abbrev pub AreAccepted : Schema → List Row → Type 0
AreAccepted s l = (r : Row) → In r l → Accepts s (table_of r) (values_of r)

AreAccepted-append :
    (s : Schema) (l l' : List Row) → AreAccepted s l → AreAccepted s l' → AreAccepted s (l ++ l')
AreAccepted-append s l l' h h' r at = elim (In-append r l l' at) [
  | inl here ↦ h r here
  | inr there ↦ h' r there
]

AreAccepted-cons :
    (s : Schema) (x : Row) (l : List Row)
    → Accepts s (table_of x) (values_of x)
    → AreAccepted s l
    → AreAccepted s (x ∷ l)
AreAccepted-cons s x l h h' r (inl e) = rw e h
AreAccepted-cons s x l h h' r (inr at) = h' r at

module _ (base : Schema) where
  abbrev migrated : Schema
  migrated = head ++ base

  users-AreAccepted :
      (specs : List UserSeed) (rows : List Row)
      → all user_fits specs ≡ true
      → AreUsers specs rows
      → AreAccepted migrated rows
  users-AreAccepted [] [] fit h = λ r at. absurd at
  users-AreAccepted [] (x ∷ rows) fit h = absurd h
  users-AreAccepted (u ∷ us) [] fit h = absurd h
  users-AreAccepted (u ∷ us) (x ∷ rows) fit ((hash, e), h) =
      let (here, there) = &&_true (user_fits u) (all user_fits us) fit in
      let (email, name) = &&_true _ (leb (length u.full_name) 255) here in
      AreAccepted-cons migrated x rows
        (rw e (user_taken base _ (leb→le _ _ email) (leb→le _ _ name)))
        (users-AreAccepted us rows there h)

  customers-AreAccepted :
      (specs : List CustomerSeed)
      → all customer_fits specs ≡ true
      → AreAccepted migrated (map customer_row (map new_customer specs))
  customers-AreAccepted [] fit = λ r at. absurd at
  customers-AreAccepted (c ∷ cs) fit =
      let (here, there) = &&_true (customer_fits c) (all customer_fits cs) fit in
      let (name, others) = &&_true (leb (length c.name) 255) _ here in
      let (email, company) = &&_true _ (leb (length c.company) 255) others in
      AreAccepted-cons migrated _ _
        (customer_taken base (new_customer c) (leb→le _ _ name) (leb→le _ _ email)
          (leb→le _ _ company))
        (customers-AreAccepted cs there)

  tickets-AreAccepted :
      (made : List NewCustomer) (ts : List NewDeskTicket) (specs : List TicketSeed)
      → all ticket_fits specs ≡ true
      → IsWired made ts specs
      → AreAccepted migrated (map ticket_row ts)
  tickets-AreAccepted made [] specs fit h = λ r at. absurd at
  tickets-AreAccepted made (t ∷ ts) [] fit h = absurd h
  tickets-AreAccepted made (t ∷ ts) (spec ∷ specs) fit (_, _, same, h) =
      let (here, there) = &&_true (ticket_fits spec) (all ticket_fits specs) fit in
      let made_of = new_ticket spec t.customer t.assigned_agent in
      AreAccepted-cons migrated (ticket_row t) _
        (rw same (desk_ticket_taken base made_of (leb→le _ _ here)))
        (tickets-AreAccepted made ts specs there h)

  articles-AreAccepted :
      (specs : List KnowledgeArticleSeed)
      → all article_fits specs ≡ true
      → AreAccepted migrated (map article_row specs)
  articles-AreAccepted [] fit = λ r at. absurd at
  articles-AreAccepted (a ∷ others) fit =
      let (here, there) = &&_true (article_fits a) (all article_fits others) fit in
      let (category, title) = &&_true _ (leb (length a.title) 255) here in
      AreAccepted-cons migrated _ _ (article_taken base a (leb→le _ _ category) (leb→le _ _ title))
        (articles-AreAccepted others there)

  desk-AreAccepted : (b : Bool) (l : List Row) → DeskPart b l → AreAccepted migrated l
  desk-AreAccepted true l e = rw e (λ r at. absurd at)
  desk-AreAccepted false l (us, ts, areUsers, wired, e) =
      let made = map new_customer customers in
      rw e (
        AreAccepted-append migrated us _ (users-AreAccepted users us users-fit areUsers) (
          AreAccepted-append migrated (map customer_row made) _
            (customers-AreAccepted customers customers-fit)
            (tickets-AreAccepted made ts tickets tickets-fit wired)))

  articles_part-AreAccepted : (b : Bool) (l : List Row) → ArticlePart b l → AreAccepted migrated l
  articles_part-AreAccepted true l e = rw e (λ r at. absurd at)
  articles_part-AreAccepted false l e = rw e (articles-AreAccepted knowledge_articles articles-fit)

  missing-AreAccepted : (before l : List Row) → IsMissing before l → AreAccepted migrated l
  missing-AreAccepted before l (desk, articles, h, h', e) = rw e (
      AreAccepted-append migrated desk articles (desk-AreAccepted _ desk h)
        (articles_part-AreAccepted _ articles h'))

-- In the schema that the upgrades leave, on whatever they started from that mentions none of their
-- names: when every stored row is one that its table takes, then so is every row that is stored
-- after a run of the seed on a transactional database, whether the run returns, exits or raises.
-- So no text of the seed is longer than its column, no value of it is missing from an enumeration
-- and no column that must have a value is left without one.
pub seed-AreAccepted :
    {W : Type 0} (db : Database W) (stored visible : W → List Row)
    → DatabaseLaws db stored visible
    → (base s : Schema) → IsApart (all_names (upgrade_all revisions)) base
    → apply_all (upgrade_all revisions) base ≡ some s
    → (w w' : W) (o : Outcome SeedEnd) → seed db w ≡ (o, w')
    → AreAccepted s (stored w)
    → AreAccepted s (stored w')
seed-AreAccepted db stored visible L base s apart up w w' o h before =
    let made = apply_all-append (upgrade_all revisions) [] head base apart up_from_empty in
    let same : head ++ base ≡ s = cc (made, up) in
    let (ended, _) = seed-IsAllOrNothing db stored visible L w w' o h in
    elim ended [
      | inl unchanged ↦ rw unchanged before
      | inr (l, missing, grown) ↦ rw grown (
          AreAccepted-append s (stored w) l before
            (rw same at (missing-AreAccepted base (stored w) l missing)))
    ]
