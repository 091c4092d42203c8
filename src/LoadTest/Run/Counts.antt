-- ===== src/LoadTest/Run/Counts.antt =====
-- What a run of backend/scripts/load_test.py counts.
use supportops_ai.Common.{
  ℕ, suc, ◌+◌, ◌≡◌, ◌≢◌, ◌⊎◌, refl, inl, inr, ◌∙◌, ap, ◌==◌, ==_iff, Bool-cases, List, [], ◌∷◌,
  Text, length, In,
}
use supportops_ai.Python.{Exec, ok}
use supportops_ai.Python.Returns.{Returns}
use supportops_ai.LoadTest.{
  LoadTestTicket, RequestOutcome, Summary, concurrent_requests, ticket_batch, summary,
}
use supportops_ai.LoadTest.Batch.{ticket_batch_rounds}
use supportops_ai.LoadTest.Figures.{summary_counts}
use supportops_ai.LoadTest.Submit.{RaisesHttp, submit_ticket-Returns}
use supportops_ai.LoadTest.Run.{
  LoginResponse, Runtime, finished, exited, supervisor_email, supervisor_password, login, tasks,
  send_all, run_load_test, main,
}

-- What the run relies on: a clock that returns, a client that raises nothing but `httpx.HTTPError`,
-- and a `gather` that, when every task returns, returns one result for each.
pub record RuntimeLaws {W F : Type 0} (r : Runtime W F) : Type 0 where
  pub clock : Returns r.client.perf_counter
  pub http : (token : Text) → RaisesHttp r.floats r.client token
  pub gathers :
      (l : List (Exec W (RequestOutcome F)))
      → ((m : Exec W (RequestOutcome F)) → In m l → Returns m)
      → (w : W)
      → (outcomes : List (RequestOutcome F)) × (w' : W) × (r.gather l w ≡ (ok outcomes, w'))
        × (length outcomes ≡ length l)

module _ {W F : Type 0} (r : Runtime W F) (L : RuntimeLaws r) where
  length-tasks :
      (token : Text) (ts : List LoadTestTicket) (n : ℕ) → length (tasks r token ts n) ≡ length ts
  unfolding tasks
  length-tasks token [] n = refl
  length-tasks token (t ∷ ts) n = ap suc (length-tasks token ts (suc n))

  tasks-Returns :
      (token : Text) (ts : List LoadTestTicket) (n : ℕ) (m : Exec W (RequestOutcome F))
      → In m (tasks r token ts n)
      → Returns m
  unfolding tasks
  tasks-Returns token [] n m h = absurd h
  tasks-Returns token (t ∷ ts) n m (inl e) =
      rw e (submit_ticket-Returns r.floats r.client token r.str t n L.clock (L.http token))
  tasks-Returns token (t ∷ ts) n m (inr h) = tasks-Returns token ts (suc n) m h

  -- all the requests are answered
  send_all_counts :
      (token : Text) (w : W)
      → (outcomes : List (RequestOutcome F)) × (w' : W) × (send_all r (finished token) w
          ≡ (ok (finished outcomes), w'))
        × (length outcomes ≡ concurrent_requests)
  unfolding send_all
  send_all_counts token w =
      let ts = ticket_batch concurrent_requests in
      let (outcomes, w', e, size) = L.gathers (tasks r token ts 1) (tasks-Returns token ts 1) w in
      let (batch, _, _) = ticket_batch_rounds concurrent_requests in
      (outcomes, w', rw e refl, size ∙ (length-tasks token ts 1 ∙ batch))

  login_ok :
      (token : Text) (response : LoginResponse) (v v' : W)
      → r.post_login supervisor_email supervisor_password v ≡ (ok response, v')
      → response.status_code ≡ 200
      → response.access_token ≡ ok token
      → login r v ≡ (ok (finished token), v')
  unfolding login
  login_ok token response v v' h e t = rw h (rw e (rw t refl))

  -- the run has ended with the figures of fifty requests
  abbrev pub IsCounted : W → Type 0
  IsCounted w =
      (s : Summary F) × (w' : W) × (main r w ≡ (ok (finished s), w'))
      × (s.concurrent ≡ 50)
      × (s.successful + (s.rate_limited + s.failed) ≡ 50)

  -- The login is answered, with a token where the status is 200. Either the status is 200, and the
  -- run sends its fifty requests and ends with figures in which each of the fifty is counted once,
  -- as successful, as rate limited or as failed, whatever they are answered; or the status is
  -- another one, and the process exits with 1 and no request is sent. The clock returns, the client
  -- raises nothing but `httpx.HTTPError`, and `gather` returns when its tasks do.
  pub main_counts :
      (w v v' : W) (start : F) (response : LoginResponse)
      → r.client.perf_counter w ≡ (ok start, v)
      → r.post_login supervisor_email supervisor_password v ≡ (ok response, v')
      → (response.status_code ≡ 200 → (token : Text) × (response.access_token ≡ ok token))
      → ((response.status_code ≡ 200) × IsCounted w)
        ⊎ ((response.status_code ≢ 200) × (main r w ≡ (ok (exited 1), v')))
  unfolding main run_load_test login send_all summary
  main_counts w v v' start response began answered with_token =
      elim (Bool-cases (response.status_code == 200)) [
        | inl t ↦
            let code = (==_iff response.status_code 200).0 t in
            let (token, has) = with_token code in
            let (outcomes, v2, sent, size) = send_all_counts token v' in
            let (now, w', ended) = L.clock.at v2 in
            let counted = summary_counts r.floats outcomes now in
            let entered = login_ok token response v v' answered code has in
            inl (
              code,
              (
                summary r.floats outcomes (r.floats.minus now start),
                w',
                rw began (rw entered (rw sent (rw ended refl))),
                size,
                counted ∙ size,
              ),
            )
        | inr f ↦ inr (
          λ code. let t = (==_iff response.status_code 200).1 code in absurd (cc (f, t)),
          rw began (rw answered (rw f refl)),
        )
      ]
