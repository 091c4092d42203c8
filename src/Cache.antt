-- ===== src/Cache.antt =====
-- The cache of AI results: backend/core/cache.py.
pub mod Words
pub mod Degrades
use supportops_ai.Common.{
  ℕ, Bool, true, false, Option, none, some, List, ◌++◌, Text, codes, if◌then◌else◌,
}
use supportops_ai.Str.{lower, strip, collapse_from, join}
use supportops_ai.Python.{Exn, is_redis_error, Exec, pure, raise, try_except, ◌>>=◌}
use supportops_ai.Json.{Json, Codec}
use supportops_ai.Redis.{Redis}

unfoldable pub normalize_text : Text → Text
normalize_text text = lower (strip (collapse_from false text))

-- `sha256_hex` is `hashlib.sha256(…).hexdigest()`.
unfoldable pub build_cache_key : (Text → Text) → Text → List Text → Text
build_cache_key sha256_hex key_prefix parts =
    key_prefix ++ (codes ":" ++ sha256_hex (join (codes ":") parts))

-- a `RedisError` is logged and gives `default` instead
abbrev pub or_default : {W A : Type 0} → A → Exec W A → Exec W A
or_default default m = try_except m λ e. if is_redis_error e then pure default else raise e

-- the value behind a raw answer; what is no JSON counts as a miss
abbrev pub decode : Codec → Option Text → Option Json
decode json none = none
decode json (some raw) = json.loads raw

module _ {W : Type 0} (redis : Redis W) (json : Codec) (ttl_seconds : ℕ) where
  -- `RedisCache.get`: `None` on a miss, on a failure, and where the value is no JSON.
  unfoldable pub get : Text → Exec W (Option Json)
  get key = do raw ← or_default none (redis.get key); pure (decode json raw)

  -- `RedisCache.set`
  unfoldable pub set : Text → Json → Exec W (Unit {0})
  set key value = or_default tt (redis.set key (json.dumps value) ttl_seconds)
