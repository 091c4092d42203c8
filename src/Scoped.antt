-- ===== src/Scoped.antt =====
-- One client and one session factory for each event loop: backend/core/redis_client.py and
-- backend/database/session.py. Loops and clients are numbered; `built` counts the clients.
pub mod Sharing
pub mod Sessions
use supportops_ai.Common.{
  ℕ, suc, ◌≡◌, Option, none, some, List, [], ◌∷◌, codes, ◌==◌, if◌then◌else◌,
}
use supportops_ai.Python.{Outcome, ok, raised, other}

-- the `WeakKeyDictionary` of the module
pub record Clients : Type 0 where
  pub by_loop : ℕ → Option ℕ
  pub built : ℕ

abbrev pub no_clients : Clients
no_clients = record { by_loop = λ _. none; built = 0 }

abbrev pub with_entry : ℕ → Option ℕ → (ℕ → Option ℕ) → ℕ → Option ℕ
with_entry loop client by_loop l = if l == loop then client else by_loop l

-- a client that is there, or a new one
unfoldable pub client_or_new : ℕ → Clients → Option ℕ → ℕ × Clients
client_or_new loop s (some client) = (client, s)
client_or_new loop s none =
    (s.built, record { by_loop = with_entry loop (some s.built) s.by_loop; built = suc s.built })

-- `get_redis_client`, and the lookup of the factory in `async_session_factory`; without a running loop
-- `asyncio.get_running_loop()` raises
unfoldable pub get_client : Option ℕ → Clients → Outcome ℕ × Clients
get_client none s = (raised (other (codes "no running event loop")), s)
get_client (some loop) s =
    let (client, s') = client_or_new loop s (s.by_loop loop) in (ok client, s')

-- an `AsyncSession`, by the engine that its factory holds
pub record Session : Type 0 where
  pub engine : ℕ

abbrev pub session_of : Outcome ℕ → Outcome Session
session_of (ok engine) = ok (record { engine = engine })
session_of (raised e) = raised e

-- `async_session_factory`: a new session of the running loop's factory
unfoldable pub async_session_factory : Option ℕ → Clients → Outcome Session × Clients
unfolding get_client
async_session_factory loop s = let (factory, s') = get_client loop s in (session_of factory, s')

-- an entry goes with its loop
unfoldable pub dropped : ℕ → Clients → Clients
dropped loop s = record s { by_loop = with_entry loop none s.by_loop }

-- what calls from any loops lead to, with what each one gave: the loop and its client, the last first
pub data History : Clients → List (ℕ × ℕ) → Type 0 where
  at_start : History no_clients []
  called :
      {s s' : Clients} {given : List (ℕ × ℕ)} (loop client : ℕ)
      → History s given
      → get_client (some loop) s ≡ (ok client, s')
      → History s' ((loop, client) ∷ given)
  loop_gone :
      {s : Clients} {given : List (ℕ × ℕ)} (loop : ℕ)
      → History s given
      → History (dropped loop s) given
