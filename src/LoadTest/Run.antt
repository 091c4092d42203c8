-- ===== src/LoadTest/Run.antt =====
-- A run of backend/scripts/load_test.py: the login, the requests and the figures.
pub mod Counts
use supportops_ai.Common.{ℕ, suc, ◌-◌, ◌==◌, Bool, true, false, List, [], ◌∷◌, Text, codes}
use supportops_ai.Python.{Exec, Outcome, pure, lift, ◌>>=◌}
use supportops_ai.LoadTest.{
  Floats, LoadTestTicket, RequestOutcome, HttpClient, Summary, concurrent_requests, ticket_batch,
  submit_ticket, summary,
}

abbrev pub supervisor_email : Text
supervisor_email = codes "supervisor@supportops.ai"

abbrev pub supervisor_password : Text
supervisor_password = codes "SupervisorPass123!"

-- the answer to the login: its status, and `response.json()["access_token"]`
pub record LoginResponse : Type 0 where
  pub status_code : ℕ
  pub access_token : Outcome Text

-- What a run calls: the floats, the client of the requests, `client.post("/auth/login", …)` with an address and a
-- password, `asyncio.gather`, and `str` of a number.
pub record Runtime (W F : Type 0) : Type 0 where
  pub floats : Floats F
  pub client : HttpClient W F
  pub post_login : Text → Text → Exec W LoginResponse
  pub gather : List (Exec W (RequestOutcome F)) → Exec W (List (RequestOutcome F))
  pub str : ℕ → Text

-- a value, or the end of the process with a status
pub data Ended (A : Type 0) : Type 0 where
  finished : A → Ended A
  exited : ℕ → Ended A

module _ {W F : Type 0} (r : Runtime W F) where
  abbrev pub token_of : Bool → LoginResponse → Exec W (Ended Text)
  token_of true response = lift response.access_token >>= λ token. pure (finished token)
  token_of false response = pure (exited 1)

  unfoldable pub login : Exec W (Ended Text)
  login = r.post_login supervisor_email supervisor_password >>= λ response.
      token_of (response.status_code == 200) response

  -- the requests, numbered from a number on
  unfoldable pub tasks : Text → List LoadTestTicket → ℕ → List (Exec W (RequestOutcome F))
  tasks token [] n = []
  tasks token (t ∷ ts) n = submit_ticket r.floats r.client token r.str t n ∷ tasks token ts (suc n)

  unfoldable pub send_all : Ended Text → Exec W (Ended (List (RequestOutcome F)))
  unfolding tasks
  send_all (finished token) =
      r.gather (tasks token (ticket_batch concurrent_requests) 1) >>= λ outcomes.
      pure (finished outcomes)
  send_all (exited status) = pure (exited status)

  unfoldable pub run_load_test : Exec W (Ended (List (RequestOutcome F)))
  unfolding login send_all
  run_load_test = login >>= send_all

  abbrev pub summarize : F → Ended (List (RequestOutcome F)) → Exec W (Ended (Summary F))
  summarize start (finished outcomes) = r.client.perf_counter >>= λ now.
      pure (finished (summary r.floats outcomes (r.floats.minus now start)))
  summarize start (exited status) = pure (exited status)

  -- `main`, with the figures that it prints
  unfoldable pub main : Exec W (Ended (Summary F))
  unfolding run_load_test
  main = r.client.perf_counter >>= λ start. run_load_test >>= summarize start
