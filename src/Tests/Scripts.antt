-- ===== src/Tests/Scripts.antt =====
-- The list of customers and the load test at concrete inputs.
use supportops_ai.Common.{
  length-take_le, In-take, zero, suc, ◌⊎◌, ap, sym, ℕ, ◌+◌, ◌≤◌, ◌≡◌, refl, inl, inr, Option, some,
  List, [], ◌∷◌, ◌++◌, codes, text_eq, length, take, In,
}
use supportops_ai.Python.{ok, raise, pure, other}
use supportops_ai.Python.Returns.{Returns, Returns-pure}
use supportops_ai.Models.{Customer}
use supportops_ai.Auth.{
  user_id_of, get_current_active_user, decode_access_token, active, get_current_user,
}
use supportops_ai.Customers.{
  CustomerListResponse, CustomerResponse, CustomerSelect, default_limit, response_of,
  list_customers_route,
}
use supportops_ai.Customers.Listed.{CustomerLaws, IsListing, list_customers_route-IsListing}
use supportops_ai.LoadTest.{HttpClient, tickets, ticket_batch, submit_ticket}
use supportops_ai.LoadTest.Batch.{ticket_batch_rounds}
use supportops_ai.LoadTest.Submit.{RaisesHttp, submit_ticket-Returns}
use supportops_ai.Sample.Web.{whole_numbers}
use supportops_ai.Sample.World.{World, empty}
use supportops_ai.Sample.Services.{services_on, customer, services}
use supportops_ai.Tests.Desk.{tokens}

abbrev select_all : CustomerSelect World
select_all = record { newest = λ n. pure (take n (customer ∷ [])) }

abbrev rows : World → List Customer
rows w = customer ∷ []

take_le : (n : ℕ) → length (take n (customer ∷ [])) ≤ n
take_le n = length-take_le n (customer ∷ [])

left_out_or_full :
    (n : ℕ) (c : Customer)
    → In c (customer ∷ [])
    → In c (take n (customer ∷ []))
      ⊎ ((length (take n (customer ∷ [])) ≡ n)
          × ((d : Customer) → In d (take n (customer ∷ [])) → c.created_at ≤ d.created_at))
left_out_or_full zero c m = inr (refl, λ d h. absurd h)
left_out_or_full (suc n) c (inl e) = inl (inl e)
left_out_or_full (suc n) c (inr m) = absurd m

finds :
    (c : Customer) (w w' : World) (o : Option Customer)
    → In c (customer ∷ [])
    → services.get_customer c.id w ≡ (ok o, w')
    → (d : Customer) × (o ≡ some d)
unfolding services services_on text_eq
finds c w w' o (inl e) h =
    let id : c.id ≡ codes "c1" = ap (λ x. x.id) e in (customer, sym (cc (rw id at h)))
finds c w w' o (inr m) h = absurd m

laws : CustomerLaws services select_all rows
laws = record {
  at_most = λ n w w' l h. let e : take n (customer ∷ []) ≡ l = cc h in rw (← e) (take_le n);
  only_stored = λ n w w' l c h m.
      let e : take n (customer ∷ []) ≡ l = cc h in In-take c n (customer ∷ []) (rw (← e) at m);
  left_out = λ n w w' l c h m.
      let e : take n (customer ∷ []) ≡ l = cc h in rw (← e) (left_out_or_full n c m);
  get_finds = finds;
}

abbrev item : CustomerResponse
item = response_of customer

abbrev listing : CustomerListResponse
listing = record { items = item ∷ []; total = 1 }

listed : list_customers_route services tokens select_all (codes "u1") empty ≡ (ok listing, empty)
unfolding list_customers_route get_current_active_user get_current_user user_id_of
    decode_access_token tokens text_eq services active
listed = refl

list_customers_route-IsListing_example :
    (v v' : World) × (l : List Customer) × (select_all.newest default_limit v ≡ (ok l, v'))
    × IsListing services tokens select_all rows laws listing v
list_customers_route-IsListing_example =
    list_customers_route-IsListing services tokens select_all rows laws (codes "u1") empty empty
      listing listed

batch_of_fifty :
    (length (ticket_batch 50) ≡ 50)
    × (50 ≤ 6 → ticket_batch 50 ≡ take 50 tickets)
    × (ticket_batch (6 + 50) ≡ tickets ++ ticket_batch 50)
batch_of_fifty = ticket_batch_rounds 50

-- a client whose requests time out
abbrev client : HttpClient World ℕ
client = record {
  post = λ token comment. raise (other (codes "timeout"));
  is_http_error = λ e. some (codes "timeout");
  perf_counter = pure 5;
}

raises_http : RaisesHttp whole_numbers client (codes "token")
raises_http comment w w' e h = (codes "timeout", refl)

submitted : Returns (
    submit_ticket whole_numbers client
      (codes "token")
      (λ n. codes "1")
      (record { title = codes "Refund request"; description = codes "I'd like a refund." })
      1)
submitted =
    submit_ticket-Returns whole_numbers client (codes "token") (λ n. codes "1") _ 1 (Returns-pure 5)
      raises_http
