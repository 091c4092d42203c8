-- ===== src/Customers/Listed.antt =====
-- What the route of backend/api/routes/customers.py lists, and what backend/services/ticket.py makes of
-- it.
use supportops_ai.Common.{
  ℕ, ◌≤◌, ◌≡◌, ◌⊎◌, refl, ap, sym, ◌∙◌, inl, inr, Option, some, List, [], ◌∷◌, Text, In, length,
  map, arith,
}
use supportops_ai.Python.{ok}
use supportops_ai.Python.Inversion.{bind_ok, finally_ok}
use supportops_ai.Models.{Customer}
use supportops_ai.Services.{Services, with_session}
use supportops_ai.Auth.{Tokens, get_current_active_user}
use supportops_ai.Graph.Workflow.{LangGraph}
use supportops_ai.Tickets.{TicketCreateRequest, ResponseModel, insert_row, row_for}
use supportops_ai.Customers.{
  CustomerResponse, CustomerListResponse, CustomerSelect, default_limit, response_of, list_all,
  list_customers, list_customers_route,
}

-- What the database documents of the select and of `session.get(Customer, id)`: `rows w` are the
-- stored customers.
pub record CustomerLaws {W : Type 0} (s : Services W) (q : CustomerSelect W)
    (rows : W → List Customer) : Type 0 where
  pub at_most : (n : ℕ) (w w' : W) (l : List Customer) → q.newest n w ≡ (ok l, w') → length l ≤ n
  pub only_stored :
      (n : ℕ) (w w' : W) (l : List Customer) (c : Customer)
      → q.newest n w ≡ (ok l, w')
      → In c l
      → In c (rows w)
  -- what is left out does not fit, and is no newer than anything listed
  pub left_out :
      (n : ℕ) (w w' : W) (l : List Customer) (c : Customer)
      → q.newest n w ≡ (ok l, w')
      → In c (rows w)
      → In c l ⊎ ((length l ≡ n) × ((d : Customer) → In d l → c.created_at ≤ d.created_at))
  pub get_finds :
      (c : Customer) (w w' : W) (o : Option Customer)
      → In c (rows w)
      → s.get_customer c.id w ≡ (ok o, w')
      → (d : Customer) × (o ≡ some d)

length-map : (l : List Customer) → length (map response_of l) ≡ length l
length-map [] = refl
length-map (c ∷ l) = ap ℕ.suc (length-map l)

In-map : (l : List Customer) (c : Customer) → In c l → In (response_of c) (map response_of l)
In-map [] c h = absurd h
In-map (x ∷ l) c (inl e) = inl (ap response_of e)
In-map (x ∷ l) c (inr h) = inr (In-map l c h)

map-In :
    (l : List Customer) (r : CustomerResponse)
    → In r (map response_of l)
    → (c : Customer) × In c l × (response_of c ≡ r)
map-In [] r h = absurd h
map-In (x ∷ l) r (inl e) = (x, inl refl, sym e)
map-In (x ∷ l) r (inr h) = let (c, at, e) = map-In l r h in (c, inr at, e)

module _ {W : Type 0} (s : Services W) (t : Tokens W) (q : CustomerSelect W)
    (rows : W → List Customer) (L : CustomerLaws s q rows) where
  -- what a listing shows of the customers that were stored when its select ran
  pub record IsListing (r : CustomerListResponse) (w : W) : Type 0 where
    pub counted : r.total ≡ length r.items
    pub at_most : r.total ≤ 100
    pub stored :
        (i : CustomerResponse) → In i r.items → (c : Customer) × In c (rows w) × (response_of c ≡ i)
    pub newest :
        (c : Customer)
        → In c (rows w)
        → In (response_of c) r.items
          ⊎ ((r.total ≡ 100)
              × ((i : CustomerResponse) → In i r.items → c.created_at ≤ i.created_at))

  newest-IsListing :
      (l : List Customer) (w w' : W)
      → q.newest default_limit w ≡ (ok l, w')
      → IsListing (record { items = map response_of l; total = length (map response_of l) }) w
  newest-IsListing l w w' h = record {
    counted = refl;
    at_most = let e = length-map l in let b = L.at_most 100 w w' l h in omega arith;
    stored = λ i m. let (c, at, e) = map-In l i m in (c, L.only_stored 100 w w' l c h at, e);
    newest = λ c m. elim (L.left_out 100 w w' l c h m) [
      | inl at ↦ inl (In-map l c at)
      | inr (full, older) ↦ inr (
        length-map l ∙ full,
        λ i m'.
            let (d, at, e) = map-In l i m' in
            let date : d.created_at ≡ i.created_at = ap (λ x. x.created_at) e in
            let le = older d at in omega arith,
      )
    ];
  }

  -- Where the route answers, its total is the number of its items and at most 100, every item is a
  -- customer that was stored when the select ran, and a stored customer is listed unless the list
  -- is full and everything on it is at least as new.
  pub list_customers_route-IsListing :
      (token : Text) (w w' : W) (r : CustomerListResponse)
      → list_customers_route s t q token w ≡ (ok r, w')
      → (v v' : W) × (l : List Customer) × (q.newest default_limit v ≡ (ok l, v')) × IsListing r v
  unfolding list_customers_route list_customers list_all
  list_customers_route-IsListing token w w' r h =
      let (_, w1, _, h1) = bind_ok (get_current_active_user s t token) _ w w' r h in
      let (l, w2, h2, h3) = bind_ok (with_session s (q.newest default_limit)) _ w1 w' r h1 in
      let (_, v, _, h4) = bind_ok s.open_session _ w1 w2 l h2 in
      let (v', selected) = finally_ok (q.newest default_limit) s.close_session v w2 l h4 in
      let same : record { items = map response_of l; total = length (map response_of l) } ≡ r =
        cc h3 in
      (v, v', l, selected, rw same at (newest-IsListing l v v' selected))

  -- A request for a ticket with the `customer_id` of a listed item passes the check for the
  -- customer, in any world where the customer is still stored and `session.get` returns: the
  -- ticket's row is inserted, and `CustomerNotFound` is not raised for a missing customer.
  pub listed-row_for :
      (g : LangGraph W) (m : ResponseModel) (p : TicketCreateRequest) (r : CustomerListResponse)
      (i : CustomerResponse) (w w1 w2 : W) (o : Option Customer)
      → IsListing r w
      → In i r.items
      → ((c : Customer) → In c (rows w) → In c (rows w1))
      → p.customer_id ≡ i.customer_id
      → s.get_customer p.customer_id w1 ≡ (ok o, w2)
      → row_for g s m p o ≡ insert_row g s m p
  unfolding row_for
  listed-row_for g m p r i w w1 w2 o listing at kept same looked =
      let (c, there, e) = listing.stored i at in
      let id : p.customer_id ≡ c.id = same ∙ sym (ap (λ x. x.customer_id) e) in
      let (d, found) = L.get_finds c w1 w2 o (kept c there) (rw id at looked) in rw found refl
