-- ===== src/Bridge/Loop.antt =====
-- `_LazyBackgroundLoop.get`, called by any number of threads: backend/core/asyncio_utils.py. A thread
-- stops between any two of its actions on shared state, and loops are numbered as they are started.
use supportops_ai.Common.{ℕ, suc, ◌≡◌, Option, none, some, ◌==◌, if◌then◌else◌}

-- where a thread stands in `get`
pub data Place : Type 0 where
  -- before the first test
  entering : Place
  -- before `with self._lock`
  waiting : Place
  -- in front of the second test
  locked : Place
  -- in front of `_start_background_loop()`
  starting : Place
  -- in front of the assignment of the loop that it started
  made : ℕ → Place
  -- at the end of the `with` block
  leaving : Place
  -- in front of `return self._loop`
  reading : Place
  returned : ℕ → Place

pub record Shared : Type 0 where
  -- `self._loop`, and the thread that holds `self._lock`
  pub loop : Option ℕ
  pub lock : Option ℕ
  -- how many loops `_start_background_loop` has started
  pub started : ℕ
  pub place : ℕ → Place

abbrev pub moved : ℕ → Place → (ℕ → Place) → ℕ → Place
moved t p place j = if j == t then p else place j

unfoldable pub at : Shared → ℕ → Place → Shared
at s t p = record s { place = moved t p s.place }

abbrev pub fresh : Shared
fresh = record { loop = none; lock = none; started = 0; place = λ _. entering }

-- one action of one thread
pub data Step : Shared → Shared → Type 0 where
  sees_none : {s : Shared} (t : ℕ) → s.place t ≡ entering → s.loop ≡ none → Step s (at s t waiting)
  sees_loop :
      {s : Shared} (t l : ℕ) → s.place t ≡ entering → s.loop ≡ some l → Step s (at s t reading)
  acquires :
      {s : Shared} (t : ℕ)
      → s.place t ≡ waiting
      → s.lock ≡ none
      → Step s (record (at s t locked) { lock = some t })
  rechecks_none :
      {s : Shared} (t : ℕ) → s.place t ≡ locked → s.loop ≡ none → Step s (at s t starting)
  rechecks_loop :
      {s : Shared} (t l : ℕ) → s.place t ≡ locked → s.loop ≡ some l → Step s (at s t leaving)
  starts :
      {s : Shared} (t : ℕ)
      → s.place t ≡ starting
      → Step s (record (at s t (made s.started)) { started = suc s.started })
  assigns :
      {s : Shared} (t l : ℕ)
      → s.place t ≡ made l
      → Step s (record (at s t leaving) { loop = some l })
  releases :
      {s : Shared} (t : ℕ) → s.place t ≡ leaving → Step s (record (at s t reading) { lock = none })
  returns :
      {s : Shared} (t l : ℕ) → s.place t ≡ reading → s.loop ≡ some l → Step s (at s t (returned l))

-- what the threads reach from the start
pub data Reachable : Shared → Type 0 where
  at_start : Reachable fresh
  after : {s s' : Shared} → Reachable s → Step s s' → Reachable s'
