-- ===== src/Seed/Indexes.antt =====
-- The references between the rows of backend/scripts/seed.py: `customer_index` and `assigned_to`.
use supportops_ai.Common.{
  ℕ, zero, suc, ◌≡◌, refl, ◌<◌, inl, inr, Bool, true, false, ◌&&◌, Option, none, some, List, [],
  ◌∷◌, Text, text_eq, text_eq→≡, if◌then◌else◌, map, length, ltb, ltb→lt, Bool-cases, &&_true,
  arith,
}
use supportops_ai.Python.{ok}
use supportops_ai.Python.Inversion.{bind_ok}
use supportops_ai.Seed.Rows.{UserSeed, TicketSeed, NewUser, NewCustomer, NewDeskTicket, user_row}
use supportops_ai.Seed.Accounts.{users, customers}
use supportops_ai.Seed.Desk.{tickets}
use supportops_ai.Seed.Database.{Database}
use supportops_ai.Seed.Run.{
  UsersByEmail, user_of, customer_at, new_user, new_customer, new_ticket, assigned_agent,
  tickets_of, create_users, seed_users,
}

abbrev pub email_of : Option NewUser → Option Text
email_of none = none
email_of (some u) = some u.email

-- Row by row, a ticket has the customer at its seed's index, the agent with its seed's address, and the
-- other columns of its seed.
abbrev pub IsWired : List NewCustomer → List NewDeskTicket → List TicketSeed → Type 0
IsWired made [] [] = Unit {0}
IsWired made [] (_ ∷ _) = ⊥
IsWired made (_ ∷ _) [] = ⊥
IsWired made (t ∷ ts) (s ∷ ss) =
    (customer_at made s.customer_index ≡ ok t.customer)
    × (email_of t.assigned_agent ≡ s.assigned_to)
    × (t ≡ new_ticket s t.customer t.assigned_agent)
    × IsWired made ts ss

abbrev has_email : List UserSeed → Text → Bool
has_email [] email = false
has_email (u ∷ us) email = if text_eq u.email email then true else has_email us email

-- the seed of a ticket names an agent, and not the empty address, or none
abbrev names_user : Option Text → Bool
names_user none = true
names_user (some []) = false
names_user (some (c ∷ email)) = has_email users (c ∷ email)

abbrev is_resolvable : TicketSeed → Bool
is_resolvable spec = ltb spec.customer_index (length customers) && names_user spec.assigned_to

abbrev all_resolvable : List TicketSeed → Bool
all_resolvable [] = true
all_resolvable (spec ∷ specs) = is_resolvable spec && all_resolvable specs

tickets-resolvable : all_resolvable tickets ≡ true
unfolding text_eq
tickets-resolvable = refl

abbrev Knows : UsersByEmail → Text → Type 0
Knows by_email email = (u : NewUser) × (user_of by_email email ≡ ok u) × (u.email ≡ email)

Knows-cons :
    (spec : UserSeed) (hash : Text) (d : UsersByEmail) (email : Text)
    → Knows d email
    → Knows ((spec.email, new_user spec hash) ∷ d) email
unfolding user_of
Knows-cons spec hash d email (u, found, same) = elim (Bool-cases (text_eq spec.email email)) [
  | inl t ↦ (new_user spec hash, rw t refl, text_eq→≡ spec.email email t)
  | inr f ↦ (u, rw f found, same)
]

Knows-head :
    (spec : UserSeed) (hash : Text) (d : UsersByEmail) (email : Text)
    → text_eq spec.email email ≡ true
    → Knows ((spec.email, new_user spec hash) ∷ d) email
unfolding user_of
Knows-head spec hash d email t = (new_user spec hash, rw t refl, text_eq→≡ spec.email email t)

module _ {W : Type 0} (db : Database W) where
  -- the calls behind one round of the loop
  create_users_ok :
      (spec : UserSeed) (specs : List UserSeed) (d d' : UsersByEmail) (w w' : W)
      → create_users db (spec ∷ specs) d w ≡ (ok d', w')
      → (hash : Text) × (v : W) × (create_users db specs ((spec.email, new_user spec hash) ∷ d) v
          ≡ (ok d', w'))
  unfolding create_users
  create_users_ok spec specs d d' w w' h =
      let (hash, v, _, h') = bind_ok (db.hash_password spec.password) _ w w' d' h in
      let (_, v', _, h'') =
        bind_ok (db.add_all (user_row (new_user spec hash) ∷ [])) _ v w' d' h' in
      (hash, v', h'')

  create_users-keeps :
      (specs : List UserSeed) (d d' : UsersByEmail) (w w' : W) (email : Text)
      → create_users db specs d w ≡ (ok d', w')
      → Knows d email
      → Knows d' email
  unfolding create_users
  create_users-keeps [] d d' w w' email h k = let e : d ≡ d' = cc h in rw (← e) k
  create_users-keeps (spec ∷ specs) d d' w w' email h k =
      let (hash, v, h') = create_users_ok spec specs d d' w w' h in
      create_users-keeps specs _ d' v w' email h' (Knows-cons spec hash d email k)

  create_users-Knows :
      (specs : List UserSeed) (d d' : UsersByEmail) (w w' : W) (email : Text)
      → create_users db specs d w ≡ (ok d', w')
      → has_email specs email ≡ true
      → Knows d' email
  create_users-Knows [] d d' w w' email h k = absurd (cc)
  create_users-Knows (spec ∷ specs) d d' w w' email h k =
      let (hash, v, h') = create_users_ok spec specs d d' w w' h in
      elim (Bool-cases (text_eq spec.email email)) [
        | inl t ↦ create_users-keeps specs _ d' v w' email h' (Knows-head spec hash d email t)
        | inr f ↦ create_users-Knows specs _ d' v w' email h' (rw f at k)
      ]

  seed_users-Knows :
      (d : UsersByEmail) (w w' : W) (email : Text)
      → seed_users db w ≡ (ok d, w')
      → has_email users email ≡ true
      → Knows d email
  unfolding seed_users
  seed_users-Knows d w w' email h k =
      let (d', v, made, h') = bind_ok (create_users db users []) _ w w' d h in
      let (_, v', _, h'') = bind_ok db.flush _ v w' d h' in
      let e : d' ≡ d = cc h'' in rw (← e) (create_users-Knows users [] d' w v email made k)

customer_at_within :
    (made : List NewCustomer) (i : ℕ)
    → i < length made
    → (c : NewCustomer) × (customer_at made i ≡ ok c)
unfolding customer_at
customer_at_within [] i h = absurd (omega arith)
customer_at_within (c ∷ rest) zero h = (c, refl)
customer_at_within (c ∷ rest) (suc i) h = customer_at_within rest i (omega arith)

assigned_agent_named :
    (d : UsersByEmail) (o : Option Text)
    → ((email : Text) → has_email users email ≡ true → Knows d email)
    → names_user o ≡ true
    → (agent : Option NewUser) × (assigned_agent d o ≡ ok agent) × (email_of agent ≡ o)
unfolding assigned_agent
assigned_agent_named d none known h = (none, refl, refl)
assigned_agent_named d (some []) known h = absurd (cc)
assigned_agent_named d (some (c ∷ email)) known h =
    let (u, found, same) = known (c ∷ email) h in (some u, rw found refl, rw same refl)

tickets_of_resolvable :
    (made : List NewCustomer) (d : UsersByEmail) (specs : List TicketSeed)
    → length made ≡ length customers
    → ((email : Text) → has_email users email ≡ true → Knows d email)
    → all_resolvable specs ≡ true
    → (rows : List NewDeskTicket) × (tickets_of made d specs ≡ ok rows) × IsWired made rows specs
unfolding tickets_of
tickets_of_resolvable made d [] size known h = ([], refl, tt)
tickets_of_resolvable made d (spec ∷ specs) size known h =
    let (here, there) = &&_true (is_resolvable spec) (all_resolvable specs) h in
    let (within, named) = &&_true _ (names_user spec.assigned_to) here in
    let below = ltb→lt spec.customer_index (length customers) within in
    let (c, at) = customer_at_within made spec.customer_index (omega arith) in
    let (agent, found, same) = assigned_agent_named d spec.assigned_to known named in
    let (rows, others, wired) = tickets_of_resolvable made d specs size known there in
    (new_ticket spec c agent ∷ rows, rw at (rw found (rw others refl)), (at, same, refl, wired))

-- Whatever database it runs on, once `_seed_users` has returned its users the list that
-- `_seed_tickets` builds from them and from the seeded customers raises neither an `IndexError` nor
-- a `KeyError`: there is one ticket for each seed, in order, with the customer at the seed's
-- `customer_index`, the agent whose address is the seed's `assigned_to`, or no agent where it names
-- none, and the seed's subject, description, priority, status and summary.
pub tickets_of-IsWired :
    {W : Type 0} (db : Database W) (by_email : UsersByEmail) (w w' : W)
    → seed_users db w ≡ (ok by_email, w')
    → (rows : List NewDeskTicket) × (tickets_of (map new_customer customers) by_email tickets
        ≡ ok rows)
      × IsWired (map new_customer customers) rows tickets
tickets_of-IsWired db by_email w w' h =
    tickets_of_resolvable (map new_customer customers) by_email tickets refl
      (λ email k. seed_users-Knows db by_email w w' email h k) tickets-resolvable
