-- ===== src/LoadTest/Submit.antt =====
-- One request of backend/scripts/load_test.py.
use supportops_ai.Common.{ℕ, ◌≡◌, refl, inl, inr, some, Text}
use supportops_ai.Python.{Exn, raised, call_cases}
use supportops_ai.Python.Returns.{Returns, Returns-bind, Returns-pure}
use supportops_ai.LoadTest.{
  Floats, HttpClient, LoadTestTicket, Answer, answered, failed_with, try_post, outcome_of,
  submit_ticket,
}

module _ {W F : Type 0} (fl : Floats F) (client : HttpClient W F) (token : Text) where
  -- what a request raises is an `httpx.HTTPError`
  abbrev pub RaisesHttp : Type 0
  RaisesHttp =
      (comment : Text) (w w' : W) (e : Exn)
      → client.post token comment w ≡ (raised e, w')
      → (m : Text) × (client.is_http_error e ≡ some m)

  try_post-Returns : (comment : Text) → RaisesHttp → Returns (try_post fl client token comment)
  try_post-Returns comment http = record {
    at = λ w. elim (call_cases (client.post token comment w)) [
      | inl (code, w', e) ↦ (answered code, w', rw e refl)
      | inr (x, w', e) ↦
          let (m, caught) = http comment w w' x e in (failed_with m, w', rw e (rw caught refl))
    ];
  }

  outcome_of-Returns :
      (start : F) (a : Answer)
      → Returns client.perf_counter
      → Returns (outcome_of fl client token start a)
  outcome_of-Returns start (answered code) clock = Returns-bind _ _ clock λ now. Returns-pure _
  outcome_of-Returns start (failed_with m) clock = Returns-pure _

  -- Where the clock returns and the client raises nothing but `httpx.HTTPError`, a request returns
  -- an outcome, whatever it is answered, so that one bad request does not end the batch.
  pub submit_ticket-Returns :
      (str : ℕ → Text) (ticket : LoadTestTicket) (n : ℕ)
      → Returns client.perf_counter
      → RaisesHttp
      → Returns (submit_ticket fl client token str ticket n)
  unfolding submit_ticket
  submit_ticket-Returns str ticket n clock http = Returns-bind _ _ clock λ start.
      Returns-bind _ _ (try_post-Returns _ http) λ answer. outcome_of-Returns start answer clock
