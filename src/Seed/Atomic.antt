-- ===== src/Seed/Atomic.antt =====
-- What a run of backend/scripts/seed.py leaves in the database.
use supportops_ai.Common.{◌≡◌, refl, ◌∙◌, ◌⊎◌, inl, inr, List, ◌++◌, Bool-cases, ap}
use supportops_ai.Python.{
  Exec, Outcome, ok, raised, ◌>>◌, pure, raise, finally, call_cases, result, Exn,
}
use supportops_ai.Python.Inversion.{then_raise-not_ok, bind_ok, finally_ok}
use supportops_ai.Python.Keeps.{Keeps-then, Keeps-raise, finally_view}
use supportops_ai.Seed.Rows.{Row}
use supportops_ai.Seed.Database.{Database, DatabaseLaws}
use supportops_ai.Seed.Run.{SeedEnd, returned, exited, is_refused, write_rows, transaction, seed}
use supportops_ai.Seed.Keeps.{write_rows-Keeps}
use supportops_ai.Seed.Written.{IsMissing}
use supportops_ai.Seed.Growth.{write_rows_grows}

module _ {W : Type 0} (db : Database W) (stored visible : W → List Row)
    (L : DatabaseLaws db stored visible) where
  -- the rows before, followed by all that was missing
  abbrev pub IsComplete : W → W → Type 0
  IsComplete w w' = (l : List Row) × IsMissing (stored w) l × (stored w' ≡ stored w ++ l)

  abbrev pub IsAllOrNothing : W → W → Type 0
  IsAllOrNothing w w' = (stored w' ≡ stored w) ⊎ IsComplete w w'

  rolled_back :
      (w v w' : W) (o : Outcome (Unit {0})) (x : Exn)
      → stored v ≡ stored w
      → (db.rollback >> raise x) v ≡ (o, w')
      → (IsAllOrNothing w w') × (o ≡ ok tt → IsComplete w w')
  rolled_back w v w' o x kept h =
      let undone = (Keeps-then db.rollback (raise x) L.rollback_keeps (Keeps-raise x)).kept v in
      (
        inl (rw h at undone ∙ kept),
        λ e. absurd (then_raise-not_ok db.rollback x v w' tt (rw e at h)),
      )

  transaction_ends :
      (w w' : W) (o : Outcome (Unit {0}))
      → visible w ≡ stored w
      → transaction db w ≡ (o, w')
      → (IsAllOrNothing w w') × (o ≡ ok tt → IsComplete w w')
  unfolding transaction
  transaction_ends w w' o opened h = elim (call_cases (write_rows db w)) [
    | inl (u, v, e) ↦
        let kept : stored v ≡ stored w = rw e at ((write_rows-Keeps db stored visible L).kept w) in
        let (l, missing, grown) = write_rows_grows db stored visible L w v e in
        elim (call_cases (db.commit v)) [
          | inl (u', v', e') ↦
              let same : v' ≡ w' = cc (rw e' at (rw e at h)) in
              let complete : IsComplete w w' = (
                l,
                rw (← opened) missing,
                rw (← same) (L.commit_stores v v' e' ∙ (grown ∙ rw opened refl)),
              ) in
              (inr complete, λ _. complete)
          | inr (x, v', e') ↦
              rolled_back w v' w' o x (L.commit_fails x v v' e' ∙ kept) (rw e' at (rw e at h))
        ]
    | inr (x, v, e) ↦
        let kept : stored v ≡ stored w = rw e at ((write_rows-Keeps db stored visible L).kept w) in
        rolled_back w v w' o x kept (rw e at h)
  ]

  -- the end of the session adds nothing to what its body has stored
  then_returned_stored :
      (m : Exec W (Unit {0})) (w w' : W) (o : Outcome SeedEnd)
      → (m >> pure returned) w ≡ (o, w')
      → stored w' ≡ stored (m w).1
  then_returned_stored m w w' o h = elim (call_cases (m w)) [
    | inl (u, v, e) ↦ let same : v ≡ w' = cc (rw e at h) in rw e (rw same refl)
    | inr (x, v, e) ↦ let same : v ≡ w' = cc (rw e at h) in rw e (rw same refl)
  ]

  in_session :
      (w w' : W) (o : Outcome SeedEnd)
      → visible w ≡ stored w
      → (finally (transaction db) db.close_session >> pure returned) w ≡ (o, w')
      → (IsAllOrNothing w w') × (o ≡ ok returned → IsComplete w w')
  in_session w w' o opened h =
      let m = transaction db in
      let end : stored w' ≡ stored (m w).1 =
        then_returned_stored (finally m db.close_session) w w' o h
        ∙ finally_view m db.close_session w L.close_keeps in
      let (ended, complete) = transaction_ends w (m w).1 (m w).0 opened refl in
      (
        rw (← end) at ended,
        λ e.
            let (_, v, closed, _) =
              bind_ok (finally m db.close_session) (λ _. pure returned) w w' returned (rw e at h) in
            let (v', body) = finally_ok m db.close_session w v tt closed in
            rw (← end) at (complete (ap result body)),
      )

  -- Whatever the calls return or raise, a run stores everything that the seed finds missing or
  -- nothing at all, and a run that returns normally has stored it. The calls are those of a
  -- transactional database.
  pub seed-IsAllOrNothing :
      (w w' : W) (o : Outcome SeedEnd)
      → seed db w ≡ (o, w')
      → IsAllOrNothing w w' × (o ≡ ok returned → IsComplete w w')
  unfolding seed
  seed-IsAllOrNothing w w' o h = elim (Bool-cases (is_refused db)) [
    | inl t ↦
        let e : (ok (exited 1), w) ≡ (o, w') = rw t at h in
        let same : w ≡ w' = cc e in (inl (rw same refl), λ r. absurd (cc))
    | inr f ↦ elim (call_cases (db.open_session w)) [
      | inl (u, v, e) ↦
          let kept : stored v ≡ stored w = rw e at (L.open_keeps.kept w) in
          rw kept at (in_session v w' o (L.open_sees w v e) (rw e at (rw f at h)))
      | inr (x, v, e) ↦
          let kept : stored v ≡ stored w = rw e at (L.open_keeps.kept w) in
          let r : (raised x, v) ≡ (o, w') = rw e at (rw f at h) in
          let same : v ≡ w' = cc r in (inl (rw (← same) kept), λ done. absurd (cc))
    ]
  ]
