-- ===== src/Seed/Keeps.antt =====
-- What each call of backend/scripts/seed.py leaves of a view of the world, by the way it is built.
use supportops_ai.Common.{Bool, true, false, List, [], ◌∷◌}
use supportops_ai.Seed.Rows.{Row, UserSeed, NewCustomer}
use supportops_ai.Seed.Accounts.{users}
use supportops_ai.Python.Keeps.{Keeps, Keeps-pure, Keeps-lift, Keeps-bind, Keeps-then, keeps_rules}
use supportops_ai.Seed.Database.{Database, DatabaseLaws}
use supportops_ai.Seed.Run.{
  UsersByEmail, create_users, seed_users, seed_customers, seed_tickets, seed_knowledge_articles,
  already_seeded, knowledge_articles_already_seeded, seed_desk, seed_articles, write_rows,
}

module _ {W : Type 0} (db : Database W) (stored visible : W → List Row)
    (L : DatabaseLaws db stored visible) where
  create_users-Keeps :
      (specs : List UserSeed) (d : UsersByEmail) → Keeps stored (create_users db specs d)
  unfolding create_users
  create_users-Keeps [] d = Keeps-pure d
  create_users-Keeps (spec ∷ specs) d =
      search (keeps_rules, L.hash_keeps, L.add_keeps, create_users-Keeps specs)

  seed_users-Keeps : Keeps stored (seed_users db)
  unfolding seed_users
  seed_users-Keeps =
      Keeps-bind _ _ (create_users-Keeps users []) λ d. Keeps-then _ _ L.flush_keeps (Keeps-pure d)

  seed_customers-Keeps : Keeps stored (seed_customers db)
  unfolding seed_customers
  seed_customers-Keeps =
      Keeps-then _ _ (L.add_keeps _) (Keeps-then _ _ L.flush_keeps (Keeps-pure _))

  seed_tickets-Keeps :
      (made : List NewCustomer) (d : UsersByEmail) → Keeps stored (seed_tickets db made d)
  unfolding seed_tickets
  seed_tickets-Keeps made d =
      Keeps-bind _ _ (Keeps-lift _) λ rows. Keeps-then _ _ (L.add_keeps _) L.flush_keeps

  seed_desk-Keeps : (seeded : Bool) → Keeps stored (seed_desk db seeded)
  unfolding seed_desk
  seed_desk-Keeps true = Keeps-pure tt
  seed_desk-Keeps false =
      search (keeps_rules, seed_users-Keeps, seed_customers-Keeps, seed_tickets-Keeps)

  seed_articles-Keeps : (seeded : Bool) → Keeps stored (seed_articles db seeded)
  unfolding seed_articles seed_knowledge_articles
  seed_articles-Keeps true = Keeps-pure tt
  seed_articles-Keeps false = Keeps-then _ _ (L.add_keeps _) L.flush_keeps

  already_seeded-Keeps : Keeps stored (already_seeded db)
  unfolding already_seeded
  already_seeded-Keeps = search (keeps_rules, L.user_keeps)

  knowledge_articles-Keeps : Keeps stored (knowledge_articles_already_seeded db)
  unfolding knowledge_articles_already_seeded
  knowledge_articles-Keeps = search (keeps_rules, L.article_keeps)

  pub write_rows-Keeps : Keeps stored (write_rows db)
  unfolding write_rows
  write_rows-Keeps = search (
    keeps_rules, already_seeded-Keeps, seed_desk-Keeps, knowledge_articles-Keeps,
    seed_articles-Keeps,
  )
