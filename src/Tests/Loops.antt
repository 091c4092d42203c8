-- ===== src/Tests/Loops.antt =====
-- Two event loops that ask for their clients.
use supportops_ai.Common.{some, ◌↔◌, ◌≡◌, ℕ, refl, inl, inr, [], ◌∷◌}
use supportops_ai.Python.{ok}
use supportops_ai.Scoped.{
  async_session_factory, Clients, History, at_start, called, get_client, client_or_new,
}
use supportops_ai.Scoped.Sessions.{at_once, then_called, engine_iff}
use supportops_ai.Scoped.Sharing.{never_shared}

-- Loop 4 gets client 0 twice, and loop 9 gets client 1.
history : (s : Clients) × History s ((4, 0) ∷ (9, 1) ∷ (4, 0) ∷ [])
unfolding get_client client_or_new
history = (_, called 4 0 (called 9 1 (called 4 0 at_start refl) refl) refl)

never_shared_example : ◌≡◌ {A = ℕ} 4 4
never_shared_example = never_shared 4 4 0 history.1 (inl refl) (inr (inr (inl refl)))

abbrev after_calls : Clients
after_calls = history.0

abbrev first_made : Clients
first_made = (async_session_factory (some 9) after_calls).1

abbrev between : Clients
between = (async_session_factory (some 7) first_made).1

abbrev second_made : Clients
second_made = (async_session_factory (some 9) between).1

first : async_session_factory (some 9) after_calls ≡ (ok (record { engine = 1 }), first_made)
unfolding async_session_factory client_or_new history
first = refl

other : async_session_factory (some 7) first_made ≡ (ok (record { engine = 2 }), between)
unfolding async_session_factory client_or_new history
other = refl

second : async_session_factory (some 9) between ≡ (ok (record { engine = 1 }), second_made)
unfolding async_session_factory client_or_new history
second = refl

-- loop 9 has engine 1 again, after loop 7 was given another
engine_iff_example : (◌≡◌ {A = ℕ} 1 1) ↔ (◌≡◌ {A = ℕ} 9 9)
engine_iff_example =
    engine_iff 9 9 first_made between second_made (record { engine = 1 }) (record { engine = 1 })
      history.1 first (then_called 7 (record { engine = 2 }) at_once other) second
