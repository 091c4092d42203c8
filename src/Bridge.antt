-- ===== src/Bridge.antt =====
-- From synchronous code to coroutines: backend/core/asyncio_utils.py.
pub mod Loop
pub mod Once
use supportops_ai.Common.{Bool, false, codes, if◌then◌else◌}
use supportops_ai.Python.{Exec, raise, other}

-- `run_sync(coro)`: the coroutine runs to its end on the background loop, and its result or exception
-- comes back. `on_background` tells that the caller runs on that very loop.
abbrev pub run_sync : {W A : Type 0} → Bool → Exec W A → Exec W A
run_sync on_background coro =
    if on_background
    then raise (other (codes "run_sync() cannot be called from its own background loop"))
    else coro

-- The nodes of the workflow run in a worker thread, which has no event loop.
abbrev pub in_worker : {W A : Type 0} → Exec W A → Exec W A
in_worker coro = run_sync false coro
