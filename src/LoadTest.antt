-- ===== src/LoadTest.antt =====
-- The load test: backend/scripts/load_test.py and backend/scripts/load_test_tickets.py. The floats
-- are a parameter, with the operations that the script uses.
pub mod Batch
pub mod Figures
pub mod Submit
pub mod Run
use supportops_ai.Common.{
  ℕ, zero, suc, ◌-◌, ◌*◌, ◌+◌, Bool, true, false, not, ◌&&◌, ◌||◌, ◌==◌, leb, ltb, Option, none,
  some, List, [], ◌∷◌, ◌++◌, Text, codes, if◌then◌else◌, length, select,
}
use supportops_ai.Python.{Exn, Exec, Outcome, ok, raised, pure, ◌>>=◌}

pub record LoadTestTicket : Type 0 where
  pub title : Text
  pub description : Text

abbrev pub tickets : List LoadTestTicket
tickets =
    record { title = codes "Billing issue"; description = codes "I was charged twice." }
    ∷ record { title = codes "Password reset"; description = codes "Cannot access my account." }
    ∷ record { title = codes "API error"; description = codes "Receiving a 500 error." }
    ∷ record { title = codes "Refund request"; description = codes "I'd like a refund." }
    ∷ record {
      title = codes "Login failure";
      description = codes "Getting 'invalid credentials' even after resetting my password.";
    }
    ∷ record {
      title = codes "Feature request";
      description = codes "Please add bulk CSV export for tickets.";
    }
    ∷ []

abbrev pub concurrent_requests : ℕ
concurrent_requests = 50

-- `sum` of a list, a quotient by a whole number, a product with 1000, a difference, `<`, `0.0`, and a
-- whole number by a float
pub record Floats (F : Type 0) : Type 0 where
  pub sum : List F → F
  pub over : F → ℕ → F
  pub times_1000 : F → F
  pub minus : F → F → F
  pub lt : F → F → Bool
  pub zero_float : F
  pub per : ℕ → F → F

pub record RequestOutcome (F : Type 0) : Type 0 where
  pub status_code : Option ℕ
  pub latency : Option F
  pub error : Option Text

abbrev pub is_success_code : Option ℕ → Bool
is_success_code none = false
is_success_code (some code) = leb 200 code && ltb code 300

abbrev pub is_code : ℕ → Option ℕ → Bool
is_code n none = false
is_code n (some code) = code == n

unfoldable pub is_successful : {F : Type 0} → RequestOutcome F → Bool
is_successful o = is_success_code o.status_code

unfoldable pub is_rate_limited : {F : Type 0} → RequestOutcome F → Bool
is_rate_limited o = is_code 429 o.status_code

unfoldable pub is_failed : {F : Type 0} → RequestOutcome F → Bool
unfolding is_successful is_rate_limited
is_failed o = not (is_successful o || is_rate_limited o)

-- `list(itertools.islice(itertools.cycle(all), count))`, in the middle of a round
module _ {A : Type 0} where
  unfoldable pub cycled : List A → ℕ → List A → List A
  cycled all zero rest = []
  cycled [] (suc count) [] = []
  cycled (x ∷ xs) (suc count) [] = x ∷ cycled (x ∷ xs) count xs
  cycled all (suc count) (y ∷ ys) = y ∷ cycled all count ys

unfoldable pub ticket_batch : ℕ → List LoadTestTicket
unfolding cycled
ticket_batch count = cycled tickets count tickets

-- what the script calls: `client.post` with the path, the comment and the token, whose answer is a
-- status or an exception, whether that is an `httpx.HTTPError`, and `time.perf_counter()`
pub record HttpClient (W F : Type 0) : Type 0 where
  pub post : Text → Text → Exec W ℕ
  pub is_http_error : Exn → Option Text
  pub perf_counter : Exec W F

-- the answer of a request, or the text of the error that it was caught with
pub data Answer : Type 0 where
  answered : ℕ → Answer
  failed_with : Text → Answer

module _ {W F : Type 0} (fl : Floats F) (client : HttpClient W F) (token : Text) where
  abbrev pub caught : Option Text → Exn → Exec W Answer
  caught none e w = (raised e, w)
  caught (some m) e w = (ok (failed_with m), w)

  abbrev pub answer_of : Outcome ℕ → Exec W Answer
  answer_of (ok code) w = (ok (answered code), w)
  answer_of (raised e) w = caught (client.is_http_error e) e w

  -- the request, with its `except httpx.HTTPError`
  abbrev pub try_post : Text → Exec W Answer
  try_post comment w = let (r, w') = client.post token comment w in answer_of r w'

  abbrev pub outcome_of : F → Answer → Exec W (RequestOutcome F)
  outcome_of start (answered code) = client.perf_counter >>= λ now.
      pure (record { status_code = some code; latency = some (fl.minus now start); error = none })
  outcome_of start (failed_with m) =
      pure (record { status_code = none; latency = none; error = some m })

  -- `str` of a request's number
  unfoldable pub submit_ticket : (ℕ → Text) → LoadTestTicket → ℕ → Exec W (RequestOutcome F)
  submit_ticket str ticket request_number =
      let comment =
        codes "["
        ++ (ticket.title
            ++ (codes "] "
                ++ (ticket.description
                    ++ (codes " (request #" ++ (str request_number ++ codes ")"))))) in
      client.perf_counter >>= λ start. try_post comment >>= λ answer. outcome_of start answer

abbrev pub latencies : {F : Type 0} → List (RequestOutcome F) → List F
latencies [] = []
latencies {F = F} (o ∷ outcomes) = present o.latency (latencies outcomes)
  where
    present : Option F → List F → List F
    present none l = l
    present (some n) l = n ∷ l

pub record Summary (F : Type 0) : Type 0 where
  pub concurrent : ℕ
  pub successful : ℕ
  pub rate_limited : ℕ
  pub failed : ℕ
  pub average : F
  pub minimum : F
  pub maximum : F
  pub throughput : F

module _ {F : Type 0} (fl : Floats F) where
  -- `min(l)` and `max(l)`, which keep the first of two that are not ordered
  abbrev pub least : F → List F → F
  least n [] = n
  least n (m ∷ l) = least (if fl.lt m n then m else n) l

  abbrev pub greatest : F → List F → F
  greatest n [] = n
  greatest n (m ∷ l) = greatest (if fl.lt n m then m else n) l

  abbrev pub average_of : List F → F
  average_of [] = fl.zero_float
  average_of (n ∷ l) = fl.times_1000 (fl.over (fl.sum (n ∷ l)) (length (n ∷ l)))

  abbrev pub minimum_of : List F → F
  minimum_of [] = fl.zero_float
  minimum_of (n ∷ l) = fl.times_1000 (least n l)

  abbrev pub maximum_of : List F → F
  maximum_of [] = fl.zero_float
  maximum_of (n ∷ l) = fl.times_1000 (greatest n l)

  -- the figures that `_print_summary` prints
  unfoldable pub summary : List (RequestOutcome F) → F → Summary F
  unfolding is_failed
  summary outcomes total_time = record {
    concurrent = length outcomes;
    successful = length (select is_successful outcomes);
    rate_limited = length (select is_rate_limited outcomes);
    failed = length (select is_failed outcomes);
    average = average_of (latencies outcomes);
    minimum = minimum_of (latencies outcomes);
    maximum = maximum_of (latencies outcomes);
    throughput =
        if fl.lt fl.zero_float total_time
        then fl.per (length outcomes) total_time
        else fl.zero_float;
  }
