-- ===== src/Python/Inversion.antt =====
-- What a returned value shows of the calls behind it.
use supportops_ai.Common.{◌≡◌, ◌≢◌, ◌∙◌, sym, inl, inr}
use supportops_ai.Python.{
  ok, raised, Exn, Exec, ◌>>=◌, ◌>>◌, raise, try_except, finally, call_cases,
}

pub bind_ok :
    {W A B : Type 0} (m : Exec W A) (f : A → Exec W B) (w w1 : W) (b : B)
    → (m >>= f) w ≡ (ok b, w1)
    → (a : A) × (w' : W) × (m w ≡ (ok a, w')) × (f a w' ≡ (ok b, w1))
bind_ok m f w w1 b h = elim (call_cases (m w)) [
  | inl (a, w', e) ↦ let step : (m >>= f) w ≡ f a w' = rw e in (a, w', e, sym step ∙ h)
  | inr (x, w', e) ↦ let step : (m >>= f) w ≡ (raised x, w') = rw e in absurd (cc)
]

pub then_raise-not_ok :
    {W A B : Type 0} (m : Exec W A) (e : Exn) (w w1 : W) (b : B) → (m >> raise e) w ≢ (ok b, w1)
then_raise-not_ok m e w w1 b h = let (a, w', first, last) = bind_ok m (λ _. raise e) w w1 b h in cc

-- A handler that always raises gives no value.
pub try_ok :
    {W A : Type 0} (m : Exec W A) (handler : Exn → Exec W A) (w w1 : W) (a : A)
    → ((e : Exn) (v : W) → handler e v ≢ (ok a, w1))
    → try_except m handler w ≡ (ok a, w1)
    → m w ≡ (ok a, w1)
try_ok m handler w w1 a never h = elim (call_cases (m w)) [
  | inl (b, w', e) ↦ let step : try_except m handler w ≡ (ok b, w') = rw e in e ∙ (sym step ∙ h)
  | inr (x, w', e) ↦
      let step : try_except m handler w ≡ handler x w' = rw e in absurd (never x w' (sym step ∙ h))
]

-- A body in `async with` has given the value that the whole gives.
pub finally_ok :
    {W A : Type 0} (m : Exec W A) (close : Exec W (Unit {0})) (w w1 : W) (a : A)
    → finally m close w ≡ (ok a, w1)
    → (w' : W) × (m w ≡ (ok a, w'))
finally_ok m close w w1 a h = elim (call_cases (m w)) [
  | inl (b, w', e) ↦ elim (call_cases (close w')) [
    | inl (u, w'', e') ↦
        let step : finally m close w ≡ (ok b, w'') = rw e (rw e') in
        let same : (ok b, w'') ≡ (ok a, w1) = sym step ∙ h in (w', cc (e, same))
    | inr (x, w'', e') ↦
        let step : finally m close w ≡ (raised x, w'') = rw e (rw e') in absurd (cc (step, h))
  ]
  | inr (x, w', e) ↦ elim (call_cases (close w')) [
    | inl (u, w'', e') ↦
        let step : finally m close w ≡ (raised x, w'') = rw e (rw e') in absurd (cc (step, h))
    | inr (y, w'', e') ↦
        let step : finally m close w ≡ (raised y, w'') = rw e (rw e') in absurd (cc (step, h))
  ]
]
