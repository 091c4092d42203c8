-- ===== src/Seed/Growth.antt =====
-- How each call of backend/scripts/seed.py that returns has changed what its session sees.
use mathlib.Core.List.{append_assoc, append-nil}
use supportops_ai.Common.{
  any, any-skip, ◌≡◌, refl, ◌∙◌, sym, Bool, true, false, List, [], ◌∷◌, ◌++◌, map,
}
use supportops_ai.Python.{ok, ◌>>◌, pure}
use supportops_ai.Python.Inversion.{bind_ok}
use supportops_ai.Seed.Rows.{
  UserSeed, NewCustomer, NewDeskTicket, Row, user_row, customer_row, ticket_row, article_row,
  is_user, is_article,
}
use supportops_ai.Seed.Accounts.{admin_email, users, customers}
use supportops_ai.Seed.Desk.{tickets}
use supportops_ai.Seed.Articles.{knowledge_articles}
use supportops_ai.Python.Keeps.{Keeps-at}
use supportops_ai.Seed.Database.{Database, DatabaseLaws, is_found}
use supportops_ai.Seed.Run.{
  UsersByEmail, new_user, new_customer, tickets_of, create_users, seed_users, seed_customers,
  seed_tickets, seed_knowledge_articles, already_seeded, knowledge_articles_already_seeded,
  seed_desk, seed_articles, write_rows,
}
use supportops_ai.Seed.Indexes.{tickets_of-IsWired}
use supportops_ai.Seed.Written.{AreUsers, DeskPart, ArticlePart, IsMissing, DeskPart-no_article}

module _ {W : Type 0} (db : Database W) (stored visible : W → List Row)
    (L : DatabaseLaws db stored visible) where
  -- rows added and flushed
  add_flush_grows :
      {A : Type 0} (rows : List Row) (a a' : A) (w w' : W)
      → (db.add_all rows >> (db.flush >> pure a)) w ≡ (ok a', w')
      → (a ≡ a') × (visible w' ≡ visible w ++ rows)
  add_flush_grows rows a a' w w' h =
      let (_, v, added, h') = bind_ok (db.add_all rows) (λ _. db.flush >> pure a) w w' a' h in
      let (_, v', flushed, h'') = bind_ok db.flush (λ _. pure a) v w' a' h' in
      let seen = Keeps-at db.flush v v' _ L.flush_sees flushed in
      let grown = L.add_sees rows w v added in
      let same : v' ≡ w' = cc h'' in (cc h'', rw (← same) (seen ∙ grown))

  create_users_grows :
      (specs : List UserSeed) (d d' : UsersByEmail) (w w' : W)
      → create_users db specs d w ≡ (ok d', w')
      → (us : List Row) × AreUsers specs us × (visible w' ≡ visible w ++ us)
  unfolding create_users
  create_users_grows [] d d' w w' h =
      let same : w ≡ w' = cc h in ([], tt, rw (← same) (sym (append-nil _)))
  create_users_grows (spec ∷ specs) d d' w w' h =
      let (hash, v, hashed, h') = bind_ok (db.hash_password spec.password) _ w w' d' h in
      let row = user_row (new_user spec hash) in
      let (_, v', added, h'') = bind_ok (db.add_all (row ∷ [])) _ v w' d' h' in
      let (us, areUsers, grown) = create_users_grows specs _ d' v' w' h'' in
      let seen = Keeps-at _ w v _ (L.hash_sees spec.password) hashed in
      let first = L.add_sees (row ∷ []) v v' added in
      (
        row ∷ us,
        ((hash, refl), areUsers),
        grown ∙ (rw first (rw seen (append_assoc (visible w) (row ∷ []) us))),
      )

  seed_users_grows :
      (d : UsersByEmail) (w w' : W)
      → seed_users db w ≡ (ok d, w')
      → (us : List Row) × AreUsers users us × (visible w' ≡ visible w ++ us)
  unfolding seed_users
  seed_users_grows d w w' h =
      let (d', v, made, h') = bind_ok (create_users db users []) _ w w' d h in
      let (_, v', flushed, h'') = bind_ok db.flush (λ _. pure d') v w' d h' in
      let (us, areUsers, grown) = create_users_grows users [] d' w v made in
      let same : v' ≡ w' = cc h'' in
      (us, areUsers, rw (← same) (Keeps-at db.flush v v' _ L.flush_sees flushed ∙ grown))

  seed_tickets_grows :
      (made : List NewCustomer) (d : UsersByEmail) (ts : List NewDeskTicket) (w w' : W)
      → tickets_of made d tickets ≡ ok ts
      → seed_tickets db made d w ≡ (ok tt, w')
      → visible w' ≡ visible w ++ map ticket_row ts
  unfolding seed_tickets
  seed_tickets_grows made d ts w w' built h =
      let (_, v, added, flushed) =
        bind_ok (db.add_all (map ticket_row ts)) _ w w' tt (rw built at h) in
      Keeps-at db.flush v w' _ L.flush_sees flushed ∙ L.add_sees (map ticket_row ts) w v added

  seed_desk_grows :
      (seeded : Bool) (w w' : W)
      → seed_desk db seeded w ≡ (ok tt, w')
      → (l : List Row) × DeskPart seeded l × (visible w' ≡ visible w ++ l)
  unfolding seed_desk seed_customers
  seed_desk_grows true w w' h =
      let same : w ≡ w' = cc h in ([], refl, rw (← same) (sym (append-nil _)))
  seed_desk_grows false w w' h =
      let made = map new_customer customers in
      let (d, v, h1, h') = bind_ok (seed_users db) _ w w' tt h in
      let (made', v', h2, h3) = bind_ok (seed_customers db) _ v w' tt h' in
      let (us, areUsers, first) = seed_users_grows d w v h1 in
      let (same, second) = add_flush_grows (map customer_row made) made made' v v' h2 in
      let (ts, built, wired) = tickets_of-IsWired db d w v h1 in
      let third = seed_tickets_grows made d ts v' w' built (rw (← same) at h3) in
      let cs = map customer_row made in
      (
        us ++ (cs ++ map ticket_row ts),
        (us, ts, areUsers, wired, refl),
        third
            ∙ (rw second (
                rw first (
                  append_assoc (visible w ++ us) cs (map ticket_row ts)
                  ∙ append_assoc (visible w) us (cs ++ map ticket_row ts)))),
      )

  seed_articles_grows :
      (seeded : Bool) (w w' : W)
      → seed_articles db seeded w ≡ (ok tt, w')
      → (l : List Row) × ArticlePart seeded l × (visible w' ≡ visible w ++ l)
  unfolding seed_articles seed_knowledge_articles
  seed_articles_grows true w w' h =
      let same : w ≡ w' = cc h in ([], refl, rw (← same) (sym (append-nil _)))
  seed_articles_grows false w w' h =
      let rows = map article_row knowledge_articles in
      let (_, v, added, flushed) = bind_ok (db.add_all rows) (λ _. db.flush) w w' tt h in
      (rows, refl, Keeps-at db.flush v w' _ L.flush_sees flushed ∙ L.add_sees rows w v added)

  already_seeded_answers :
      (b : Bool) (w w' : W)
      → already_seeded db w ≡ (ok b, w')
      → (b ≡ any (is_user admin_email) (visible w)) × (visible w' ≡ visible w)
  unfolding already_seeded
  already_seeded_answers b w w' h =
      let (o, v, asked, h') = bind_ok (db.user_id_by_email admin_email) _ w w' b h in
      let e : is_found o ≡ b = cc h' in
      let same : v ≡ w' = cc h' in
      (
        sym e ∙ L.user_answers admin_email w v o asked,
        rw (← same) (Keeps-at _ w v _ (L.user_sees admin_email) asked),
      )

  articles_seeded_answers :
      (b : Bool) (w w' : W)
      → knowledge_articles_already_seeded db w ≡ (ok b, w')
      → (b ≡ any is_article (visible w)) × (visible w' ≡ visible w)
  unfolding knowledge_articles_already_seeded
  articles_seeded_answers b w w' h =
      let (o, v, asked, h') = bind_ok db.any_article_id _ w w' b h in
      let e : is_found o ≡ b = cc h' in
      let same : v ≡ w' = cc h' in
      (sym e ∙ L.article_answers w v o asked, rw (← same) (Keeps-at _ w v _ L.article_sees asked))

  pub write_rows_grows :
      (w w' : W)
      → write_rows db w ≡ (ok tt, w')
      → (l : List Row) × IsMissing (visible w) l × (visible w' ≡ visible w ++ l)
  unfolding write_rows
  write_rows_grows w w' h =
      let (b, v1, asked, h1) = bind_ok (already_seeded db) _ w w' tt h in
      let (_, v2, made, h2) = bind_ok (seed_desk db b) _ v1 w' tt h1 in
      let (b', v3, asked', added) = bind_ok (knowledge_articles_already_seeded db) _ v2 w' tt h2 in
      let (answer, seen) = already_seeded_answers b w v1 asked in
      let (desk, isDesk, grown) = seed_desk_grows b v1 v2 made in
      let (answer', seen') = articles_seeded_answers b' v2 v3 asked' in
      let (articles, areArticles, grown') = seed_articles_grows b' v3 w' added in
      let before : visible v2 ≡ visible w ++ desk = grown ∙ rw seen refl in
      let none_yet : b' ≡ any is_article (visible w) =
        answer'
        ∙ (rw before (any-skip is_article (visible w) desk (DeskPart-no_article b desk isDesk))) in
      (
        desk ++ articles,
        (desk, articles, rw (← answer) isDesk, rw (← none_yet) areArticles, refl),
        grown' ∙ (rw seen' (rw before (append_assoc (visible w) desk articles))),
      )
