-- ===== src/Tests/Threads.antt =====
-- Two threads that ask for the background loop.
use supportops_ai.Common.{ℕ, ◌≤◌, ◌≡◌, refl}
use supportops_ai.Bridge.Loop.{
  Shared, returned, Reachable, at_start, after, sees_none, acquires, rechecks_none, rechecks_loop,
  starts, assigns, releases, returns, at,
}
use supportops_ai.Bridge.Once.{one_loop}

-- Both threads find no loop; the first one starts it while the second waits for the lock.
both_back : (s : Shared) × Reachable s × (s.place 0 ≡ returned 0) × (s.place 1 ≡ returned 0)
unfolding at
both_back =
    let r2 = after (after at_start (sees_none 0 refl refl)) (sees_none 1 refl refl) in
    let r4 = after (after r2 (acquires 0 refl refl)) (rechecks_none 0 refl refl) in
    let r6 = after (after r4 (starts 0 refl)) (assigns 0 0 refl) in
    let r8 = after (after r6 (releases 0 refl)) (acquires 1 refl refl) in
    let r10 = after (after r8 (rechecks_loop 1 0 refl refl)) (releases 1 refl) in
    let r12 = after (after r10 (returns 1 0 refl refl)) (returns 0 0 refl refl) in
    (_, r12, refl, refl)

one_loop_example :
    (both_back.0.started ≤ 1)
    × (both_back.0.place 0 ≡ returned 0 → both_back.0.place 1 ≡ returned 0 → ◌≡◌ {A = ℕ} 0 0)
one_loop_example = one_loop 0 1 0 0 both_back.1
