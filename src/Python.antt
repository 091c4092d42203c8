-- ===== src/Python.antt =====
-- Python code that reads and changes a world and may raise: a small monad, with `try`/`except`.
pub mod Returns
pub mod Inversion
pub mod Keeps
use supportops_ai.Common.{
  ℕ, ◌≡◌, refl, ◌⊎◌, inl, inr, Bool, true, false, Text, codes, ◌++◌, if◌then◌else◌,
}

-- A UUID stands for itself by its canonical text, and a point in time by a number.
abbrev pub Uuid : Type 0
Uuid = Text

abbrev pub Time : Type 0
Time = ℕ

-- The exceptions that the program raises or tells apart; `other` is any further `Exception`.
pub data Exn : Type 0 where
  redis_error : Text → Exn
  idempotency_backend_unavailable : Text → Exn
  ticket_creation_in_progress : Text → Exn
  customer_not_found : Uuid → Exn
  integrity_error jwt_error value_error : Text → Exn
  http_error : ℕ → Text → Exn
  other : Text → Exn

-- `str(exc)`; the key of a `TicketCreationInProgress` is printed for keys that need no escapes.
abbrev pub message : Exn → Text
message (redis_error m) = m
message (idempotency_backend_unavailable m) = m
message (ticket_creation_in_progress k) =
    codes "Ticket creation for idempotency key '" ++ (k ++ codes "' is in progress")
message (customer_not_found u) = codes "Customer " ++ (u ++ codes " not found")
message (integrity_error m) = m
message (jwt_error m) = m
message (value_error m) = m
message (http_error _ m) = m
message (other m) = m

pub data Outcome {ℓ} (A : Type ℓ) : Type ℓ where
  ok : A → Outcome A
  raised : Exn → Outcome A

abbrev pub Exec : Type 0 → Type 0 → Type 0
Exec W A = W → Outcome A × W

module _ {W A : Type 0} where
  abbrev pub pure : A → Exec W A
  pure a w = (ok a, w)

  abbrev pub raise : Exn → Exec W A
  raise e w = (raised e, w)

  -- an expression that raises or gives a value, and touches nothing
  abbrev pub lift : Outcome A → Exec W A
  lift r w = (r, w)

  abbrev pub handle : Outcome A → (Exn → Exec W A) → Exec W A
  handle (ok a) handler w = (ok a, w)
  handle (raised e) handler w = handler e w

  -- `try: m  except …`: the handler raises again what it does not catch. What the body changed
  -- before it raised stays changed.
  abbrev pub try_except : Exec W A → (Exn → Exec W A) → Exec W A
  try_except m handler w = let (r, w') = m w in handle r handler w'

abbrev pub bind_outcome : {W A B : Type 0} → Outcome A → (A → Exec W B) → Exec W B
bind_outcome (ok a) f w = f a w
bind_outcome (raised e) f w = (raised e, w)

infixl 5 ◌>>=◌ ◌>>◌
abbrev pub ◌>>=◌ : {W A B : Type 0} → Exec W A → (A → Exec W B) → Exec W B
◌>>=◌ m f w = let (r, w') = m w in bind_outcome r f w'

abbrev pub ◌>>◌ : {W A B : Type 0} → Exec W A → Exec W B → Exec W B
m >> k = m >>= λ _. k

-- `except RedisError`
abbrev pub is_redis_error : Exn → Bool
is_redis_error (redis_error _) = true
is_redis_error _ = false

-- What a finished call gave, with the world that it left, for statements.
abbrev pub result : {A W : Type 0} → Outcome A × W → Outcome A
result (r, w) = r

abbrev pub world : {A W : Type 0} → Outcome A × W → W
world (r, w) = w

-- A call returns or raises.
pub call_cases :
    {A W : Type 0} (c : Outcome A × W)
    → ((a : A) × (w : W) × (c ≡ (ok a, w))) ⊎ ((e : Exn) × (w : W) × (c ≡ (raised e, w)))
call_cases (ok a, w) = inl (a, w, refl)
call_cases (raised e, w) = inr (e, w, refl)

-- `async with`, seen from the body: the closing action runs however the body ended, and what it
-- raises takes the place of the body's outcome.
abbrev pub closing : {A : Type 0} → Outcome A → Outcome (Unit {0}) → Outcome A
closing r (ok _) = r
closing r (raised e) = raised e

abbrev pub finally : {W A : Type 0} → Exec W A → Exec W (Unit {0}) → Exec W A
finally m close w = let (r, w') = m w in let (c, w'') = close w' in (closing r c, w'')
