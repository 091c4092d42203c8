-- ===== src/Seed/Run.antt =====
-- The functions of backend/scripts/seed.py.
use supportops_ai.Common.{
  ℕ, zero, suc, Bool, true, false, ◌&&◌, Option, none, some, List, [], ◌∷◌, Text, codes, text_eq,
  if◌then◌else◌, map,
}
use supportops_ai.Python.{
  Exec, Outcome, ok, raised, raise, other, pure, lift, ◌>>=◌, ◌>>◌, try_except, finally,
}
use supportops_ai.Seed.Rows.{
  UserSeed, CustomerSeed, TicketSeed, NewUser, NewCustomer, NewDeskTicket, user_row, customer_row,
  ticket_row, article_row,
}
use supportops_ai.Seed.Accounts.{admin_email, users, customers}
use supportops_ai.Seed.Desk.{tickets}
use supportops_ai.Seed.Articles.{knowledge_articles}
use supportops_ai.Seed.Database.{Database, is_found}

-- `dict[str, User]`: the latest entry of a key is the first
abbrev pub UsersByEmail : Type 0
UsersByEmail = List (Text × NewUser)

-- `users[email]`
unfoldable pub user_of : UsersByEmail → Text → Outcome NewUser
user_of [] email = raised (other email)
user_of ((key, user) ∷ rest) email =
    let found = user_of rest email in if text_eq key email then ok user else found

-- `customers[index]`
unfoldable pub customer_at : List NewCustomer → ℕ → Outcome NewCustomer
customer_at [] index = raised (other (codes "list index out of range"))
customer_at (c ∷ rest) zero = ok c
customer_at (c ∷ rest) (suc index) = customer_at rest index

abbrev pub new_user : UserSeed → Text → NewUser
new_user spec hash = record {
  email = spec.email;
  password_hash = hash;
  full_name = spec.full_name;
  role = spec.role;
  is_active = true;
}

abbrev pub new_customer : CustomerSeed → NewCustomer
new_customer spec = record {
  name = spec.name;
  email = spec.email;
  company = spec.company;
  tier = spec.tier;
}

abbrev pub new_ticket : TicketSeed → NewCustomer → Option NewUser → NewDeskTicket
new_ticket spec customer agent = record {
  customer = customer;
  assigned_agent = agent;
  subject = spec.subject;
  description = spec.description;
  priority = spec.priority;
  status = spec.status;
  ai_summary = spec.ai_summary;
}

abbrev pub and_then : {A B : Type 0} → Outcome A → (A → Outcome B) → Outcome B
and_then (ok a) f = f a
and_then (raised e) f = raised e

-- `users[spec["assigned_to"]] if spec["assigned_to"] else None`
unfoldable pub assigned_agent : UsersByEmail → Option Text → Outcome (Option NewUser)
unfolding user_of
assigned_agent by_email none = ok none
assigned_agent by_email (some []) = ok none
assigned_agent by_email (some (c ∷ email)) =
    and_then (user_of by_email (c ∷ email)) λ user. ok (some user)

-- the list comprehension of `_seed_tickets`
unfoldable pub tickets_of :
    List NewCustomer → UsersByEmail → List TicketSeed → Outcome (List NewDeskTicket)
unfolding customer_at assigned_agent
tickets_of made by_email [] = ok []
tickets_of made by_email (spec ∷ specs) =
    let rest = tickets_of made by_email specs in
    and_then (customer_at made spec.customer_index) λ customer.
      and_then (assigned_agent by_email spec.assigned_to)
        λ agent. and_then rest λ others. ok (new_ticket spec customer agent ∷ others)

pub data SeedEnd : Type 0 where
  returned : SeedEnd
  exited : ℕ → SeedEnd

module _ {W : Type 0} (db : Database W) where
  unfoldable pub already_seeded : Exec W Bool
  already_seeded = db.user_id_by_email admin_email >>= λ found. pure (is_found found)

  unfoldable pub knowledge_articles_already_seeded : Exec W Bool
  knowledge_articles_already_seeded = db.any_article_id >>= λ found. pure (is_found found)

  -- the loop of `_seed_users`
  unfoldable pub create_users : List UserSeed → UsersByEmail → Exec W UsersByEmail
  create_users [] by_email = pure by_email
  create_users (spec ∷ specs) by_email = db.hash_password spec.password >>= λ hash.
      let user = new_user spec hash in
      db.add_all (user_row user ∷ []) >> create_users specs ((spec.email, user) ∷ by_email)

  unfoldable pub seed_users : Exec W UsersByEmail
  unfolding create_users
  seed_users = create_users users [] >>= λ by_email. db.flush >> pure by_email

  unfoldable pub seed_customers : Exec W (List NewCustomer)
  seed_customers =
      let made = map new_customer customers in
      db.add_all (map customer_row made) >> (db.flush >> pure made)

  unfoldable pub seed_tickets : List NewCustomer → UsersByEmail → Exec W (Unit {0})
  unfolding tickets_of
  seed_tickets made by_email = lift (tickets_of made by_email tickets) >>= λ rows.
      db.add_all (map ticket_row rows) >> db.flush

  unfoldable pub seed_knowledge_articles : Exec W (Unit {0})
  seed_knowledge_articles = db.add_all (map article_row knowledge_articles) >> db.flush

  unfoldable pub seed_desk : Bool → Exec W (Unit {0})
  unfolding seed_users seed_customers seed_tickets
  seed_desk true = pure tt
  seed_desk false = seed_users >>= λ by_email. seed_customers >>= λ made. seed_tickets made by_email

  unfoldable pub seed_articles : Bool → Exec W (Unit {0})
  unfolding seed_knowledge_articles
  seed_articles true = pure tt
  seed_articles false = seed_knowledge_articles

  -- what is written before the commit
  unfoldable pub write_rows : Exec W (Unit {0})
  unfolding already_seeded seed_desk knowledge_articles_already_seeded seed_articles
  write_rows = already_seeded >>= λ seeded.
      seed_desk seeded >> (knowledge_articles_already_seeded >>= λ seeded'. seed_articles seeded')

  -- the body of the session
  unfoldable pub transaction : Exec W (Unit {0})
  unfolding write_rows
  transaction = try_except (write_rows >> db.commit) λ exc. db.rollback >> raise exc

  -- `not os.environ.get(…)`: unset, or the empty string
  abbrev pub is_unset : Option Text → Bool
  is_unset none = true
  is_unset (some []) = true
  is_unset (some (_ ∷ _)) = false

  abbrev pub is_refused : Bool
  is_refused = text_eq db.environment (codes "production") && is_unset db.allow_seed_in_production

  -- `seed`: it returns, or ends the process with a status, which no handler of it sees
  unfoldable pub seed : Exec W SeedEnd
  unfolding transaction
  seed =
      if is_refused
      then pure (exited 1)
      else db.open_session >> (finally transaction db.close_session >> pure returned)
