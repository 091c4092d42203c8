-- ===== src/Idempotency.antt =====
-- The idempotency keys of client writes: backend/services/idempotency.py.
pub mod Claims
pub mod Exclusion
use supportops_ai.Common.{
  ℕ, Bool, true, false, Option, none, some, ◌++◌, Text, codes, if◌then◌else◌,
}
use supportops_ai.Python.{
  Exn, idempotency_backend_unavailable, message, is_redis_error, Exec, pure, raise, try_except,
  ◌>>=◌,
}
use supportops_ai.Json.{Json, Fields, null, str, obj, end, field, Codec}
use supportops_ai.Redis.{Redis}

abbrev pub key_prefix : Text
key_prefix = codes "idempotency"

abbrev pub in_progress_fields : Fields
in_progress_fields = field (codes "status") (str (codes "in_progress")) end

abbrev pub in_progress_sentinel : Json
in_progress_sentinel = obj in_progress_fields

-- `IdempotencyStore._key`
unfoldable pub store_key : Text → Text
store_key idempotency_key = key_prefix ++ (codes ":" ++ idempotency_key)

-- `except RedisError as exc: raise IdempotencyBackendUnavailable(str(exc)) from exc`
abbrev pub or_unavailable : {W A : Type 0} → Exec W A → Exec W A
or_unavailable m =
    try_except m
      λ e. if is_redis_error e then raise (idempotency_backend_unavailable (message e)) else raise e

-- what `json.loads` gives; the caller reads the `None` of a JSON null as a claim
abbrev pub not_null : Json → Option Json
not_null null = none
not_null v = some v

-- the record that another request left, or the sentinel if it is gone or malformed
unfoldable pub existing_record : Codec → Option Text → Option Json
existing_record json none = some in_progress_sentinel
existing_record json (some raw) = elim (json.loads raw) [
  | none ↦ some in_progress_sentinel
  | some result ↦ not_null result
]

module _ {W : Type 0} (redis : Redis W) (json : Codec) (ttl_seconds : ℕ) where
  -- `none`: this call has claimed the key, or has read a null there.
  unfoldable pub claim_or_get_existing : Text → Exec W (Option Json)
  claim_or_get_existing idempotency_key = do
    claimed ←
        or_unavailable
          (redis.set_nx (store_key idempotency_key) (json.dumps in_progress_sentinel) ttl_seconds)
    if claimed then pure none else do
      raw ← or_unavailable (redis.get (store_key idempotency_key))
      pure (existing_record json raw)

  unfoldable pub complete : Text → Json → Exec W (Unit {0})
  complete idempotency_key response =
      or_unavailable (redis.set (store_key idempotency_key) (json.dumps response) ttl_seconds)

  unfoldable pub release : Text → Exec W (Unit {0})
  release idempotency_key =
      try_except (redis.delete (store_key idempotency_key))
        λ e. if is_redis_error e then pure tt else raise e
