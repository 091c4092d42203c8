-- ===== src/Python/Returns.antt =====
-- Actions that return and raise nothing, one rule for each way to build an action.
use supportops_ai.Common.{◌≡◌, refl, inl, inr, true, if◌then◌else◌}
use supportops_ai.Python.{
  ok, raised, Exn, Exec, ◌>>=◌, ◌>>◌, pure, try_except, call_cases, is_redis_error,
}

-- From every world the action gives a value.
pub record Returns {W A : Type 0} (m : Exec W A) : Type 0 where
  pub at : (w : W) → (a : A) × (w' : W) × (m w ≡ (ok a, w'))

-- Whatever the action raises is a `RedisError`.
pub record RaisesRedis {W A : Type 0} (m : Exec W A) : Type 0 where
  pub is_redis : (w w' : W) (e : Exn) → m w ≡ (raised e, w') → is_redis_error e ≡ true

module _ {W A : Type 0} where
  pub Returns-pure : (a : A) → Returns {W = W} (pure a)
  Returns-pure a = record { at = λ w. (a, w, refl) }

  pub Returns-try :
      (m : Exec W A) (handler : Exn → Exec W A)
      → ((e : Exn) → Returns (handler e))
      → Returns (try_except m handler)
  Returns-try m handler h = record {
    at = λ w. elim (call_cases (m w)) [
      | inl (a, w', e) ↦ (a, w', rw e)
      | inr (x, w', e) ↦ let (b, w'', e') = (h x).at w' in (b, w'', rw e e')
    ];
  }

  pub Returns-try_redis :
      (default : A) (m : Exec W A)
      → RaisesRedis m
      → Returns
          (try_except m (λ e. if is_redis_error e then pure default else (λ w. (raised e, w))))
  Returns-try_redis default m h = record {
    at = λ w. elim (call_cases (m w)) [
      | inl (a, w', e) ↦ (a, w', rw e)
      | inr (x, w', e) ↦ (default, w', rw e (rw (h.is_redis w w' x e)))
    ];
  }

pub Returns-bind :
    {W A B : Type 0} (m : Exec W A) (f : A → Exec W B)
    → Returns m
    → ((a : A) → Returns (f a))
    → Returns (m >>= f)
Returns-bind m f h k = record {
  at = λ w. let (a, w', e) = h.at w in let (b, w'', e') = (k a).at w' in (b, w'', rw e e');
}

pub Returns-then :
    {W A B : Type 0} (m : Exec W A) (k : Exec W B) → Returns m → Returns k → Returns (m >> k)
Returns-then m k h j = Returns-bind m (λ _. k) h (λ _. j)

pub ruleset returns_rules = (Returns-pure, Returns-try, Returns-bind, Returns-then)
