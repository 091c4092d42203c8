-- ===== src/Tests/Load.antt =====
-- The load test against a server that limits the rate of its requests.
use supportops_ai.Common.{ℕ, ◌≡◌, ◌≢◌, ◌⊎◌, refl}
use supportops_ai.Python.{Outcome, ok}
use supportops_ai.LoadTest.{Summary, ticket_batch, submit_ticket, summary}
use supportops_ai.LoadTest.Run.{
  LoginResponse, Ended, finished, exited, supervisor_email, run_load_test, main,
}
use supportops_ai.LoadTest.Run.Counts.{IsCounted, main_counts}
use supportops_ai.Sample.Web.{runtime, runtime-RuntimeLaws}

abbrev accepted : LoginResponse
accepted = record { status_code = 200; access_token = ok supervisor_email }

main_counts_example :
    ((accepted.status_code ≡ 200) × IsCounted runtime runtime-RuntimeLaws 0)
    ⊎ ((accepted.status_code ≢ 200) × (main runtime 0 ≡ (ok (exited 1), 0)))
unfolding runtime
main_counts_example =
    main_counts runtime runtime-RuntimeLaws 0 0 0 0 accepted refl refl
      (λ _. (supervisor_email, refl))

abbrev rate_limited_of : Outcome (Ended (Summary ℕ)) → ℕ
rate_limited_of (ok (finished s)) = s.rate_limited
rate_limited_of _ = 0

-- twenty of the fifty are limited
limits : rate_limited_of (main runtime 0).0 ≡ 20
unfolding runtime main run_load_test ticket_batch submit_ticket summary
limits = refl
