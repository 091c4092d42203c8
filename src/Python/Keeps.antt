-- ===== src/Python/Keeps.antt =====
-- Calls that leave a view of the world as it was, one rule for each way to build a call.
use supportops_ai.Common.{◌≡◌, refl, ◌∙◌, sym, ap, inl, inr}
use supportops_ai.Python.{
  Outcome, Exec, Exn, ok, raised, ◌>>=◌, ◌>>◌, pure, lift, raise, try_except, finally, call_cases,
}
use supportops_ai.Python.Inversion.{finally_ok}

pub record Keeps {W V A : Type 0} (view : W → V) (m : Exec W A) : Type 0 where
  pub kept : (w : W) → view (m w).1 ≡ view w

module _ {W V : Type 0} {view : W → V} where
  -- the world that a call has left
  pub Keeps-at :
      {A : Type 0} (m : Exec W A) (w w' : W) (o : Outcome A)
      → Keeps view m
      → m w ≡ (o, w')
      → view w' ≡ view w
  Keeps-at m w w' o k h = rw h at (k.kept w)

  pub Keeps-pure : {A : Type 0} (a : A) → Keeps view (pure a)
  Keeps-pure a = record { kept = λ w. refl }

  pub Keeps-lift : {A : Type 0} (r : Outcome A) → Keeps view (lift r)
  Keeps-lift r = record { kept = λ w. refl }

  pub Keeps-raise : (e : Exn) → Keeps view (raise {A = Unit {0}} e)
  Keeps-raise e = record { kept = λ w. refl }

  pub Keeps-bind :
      {A B : Type 0} (m : Exec W A) (f : A → Exec W B)
      → Keeps view m
      → ((a : A) → Keeps view (f a))
      → Keeps view (m >>= f)
  Keeps-bind m f h k = record {
    kept = λ w. elim (call_cases (m w)) [
      | inl (a, v, e) ↦ rw e ((k a).kept v ∙ Keeps-at m w v (ok a) h e)
      | inr (x, v, e) ↦ rw e (Keeps-at m w v (raised x) h e)
    ];
  }

  pub Keeps-then :
      {A B : Type 0} (m : Exec W A) (k : Exec W B)
      → Keeps view m
      → Keeps view k
      → Keeps view (m >> k)
  Keeps-then m k h j = Keeps-bind m (λ _. k) h (λ _. j)

  pub Keeps-try :
      {A : Type 0} (m : Exec W A) (handler : Exn → Exec W A)
      → Keeps view m
      → ((e : Exn) → Keeps view (handler e))
      → Keeps view (try_except m handler)
  Keeps-try m handler h k = record {
    kept = λ w. elim (call_cases (m w)) [
      | inl (a, v, e) ↦ rw e (Keeps-at m w v (ok a) h e)
      | inr (x, v, e) ↦ rw e ((k x).kept v ∙ Keeps-at m w v (raised x) h e)
    ];
  }

  -- closing leaves what the body has left
  pub finally_view :
      {A : Type 0} (m : Exec W A) (close : Exec W (Unit {0})) (w : W)
      → Keeps view close
      → view (finally m close w).1 ≡ view (m w).1
  finally_view m close w k = elim (call_cases (m w)) [
    | inl (a, v, e) ↦ elim (call_cases (close v)) [
      | inl (u, v', e') ↦ rw e (rw e' (Keeps-at close v v' (ok u) k e'))
      | inr (x, v', e') ↦ rw e (rw e' (Keeps-at close v v' (raised x) k e'))
    ]
    | inr (x, v, e) ↦ elim (call_cases (close v)) [
      | inl (u, v', e') ↦ rw e (rw e' (Keeps-at close v v' (ok u) k e'))
      | inr (y, v', e') ↦ rw e (rw e' (Keeps-at close v v' (raised y) k e'))
    ]
  ]

  -- a body in `async with` has given the value of the whole, and closing leaves what it has left
  pub finally_ok_view :
      {A : Type 0} (m : Exec W A) (close : Exec W (Unit {0})) (w w1 : W) (a : A)
      → Keeps view close
      → finally m close w ≡ (ok a, w1)
      → (w' : W) × (m w ≡ (ok a, w')) × (view w1 ≡ view w')
  finally_ok_view m close w w1 a k h =
      let (w', e) = finally_ok m close w w1 a h in
      let last : view (finally m close w).1 ≡ view w1 = ap (λ r. view r.1) h in
      let body : view (m w).1 ≡ view w' = ap (λ r. view r.1) e in
      (w', e, sym last ∙ (finally_view m close w k ∙ body))

  pub Keeps-finally :
      {A : Type 0} (m : Exec W A) (close : Exec W (Unit {0}))
      → Keeps view m
      → Keeps view close
      → Keeps view (finally m close)
  Keeps-finally m close h k = record { kept = λ w. finally_view m close w k ∙ h.kept w }

pub ruleset keeps_rules = (Keeps-pure, Keeps-lift, Keeps-bind, Keeps-then, Keeps-try, Keeps-finally)
