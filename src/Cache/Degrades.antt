-- ===== src/Cache/Degrades.antt =====
-- The cache of backend/core/cache.py on a Redis that may fail.
use supportops_ai.Common.{ℕ, ◌≡◌, inl, inr, sym, ◌∙◌, Option, none, some, Text}
use supportops_ai.Python.{ok, Exec, call_cases}
use supportops_ai.Python.Returns.{Returns, RaisesRedis}
use supportops_ai.Json.{Json, Codec, CodecLaws}
use supportops_ai.Redis.{Redis, RedisLaws, RedisFails}
use supportops_ai.Cache
use supportops_ai.Cache.{or_default}

-- A call that raises only `RedisError` returns: its own value, or the default.
or_default_returns :
    {W A : Type 0} (default : A) (m : Exec W A) (w : W)
    → RaisesRedis m
    → (a : A) × (or_default default m w ≡ (ok a, (m w).1))
or_default_returns default m w fails = elim (call_cases (m w)) [
  | inl (a, w', e) ↦ (a, rw e)
  | inr (x, w', e) ↦ (default, rw e (rw (fails.is_redis w w' x e)))
]

module _ {W : Type 0} (redis : Redis W) (json : Codec) (ttl : ℕ) where
  -- Where Redis raises only `RedisError`, reading the cache returns, and leaves the world as the one
  -- call of Redis left it.
  pub get_returns :
      (key : Text) (w : W)
      → RedisFails redis
      → (o : Option Json) × (Cache.get redis json ttl key w ≡ (ok o, (redis.get key w).1))
  unfolding Cache.get
  get_returns key w fails =
      let (raw, e) = or_default_returns none (redis.get key) w (fails.get_fails key) in
      (Cache.decode json raw, rw e)

  -- Where Redis raises only `RedisError`, writing the cache returns, and leaves the world as the
  -- one call of Redis left it.
  pub set_returns :
      (key : Text) (value : Json) (w : W)
      → RedisFails redis
      → Cache.set redis json ttl key value w ≡ (ok tt, (redis.set key (json.dumps value) ttl w).1)
  unfolding Cache.set
  set_returns key value w fails =
      (or_default_returns tt (redis.set key (json.dumps value) ttl) w
        (fails.set_fails key (json.dumps value) ttl)).1

  -- Redis and the codec keep their laws: a value written to the cache, when Redis took the write,
  -- is read back when Redis answers the read.
  pub get-set :
      {live : W → Text → Option Text} (key : Text) (value : Json) (w w' : W) (o : Option Text)
      → RedisLaws redis live
      → CodecLaws json
      → redis.set key (json.dumps value) ttl w ≡ (ok tt, w')
      → redis.get key w' ≡ (ok o, (redis.get key w').1)
      → Cache.get redis json ttl key (Cache.set redis json ttl key value w).1
        ≡ (ok (some value), (redis.get key w').1)
  unfolding Cache.get Cache.set
  get-set key value w w' o laws codec set get =
      let stored = laws.set_writes key (json.dumps value) ttl w w' set in
      let read = laws.get_answers key w' (redis.get key w').1 o get in
      let here : o ≡ some (json.dumps value) = sym read ∙ stored in
      rw set (rw get (rw here (rw (codec.loads_dumps value))))

  pub get-Returns : (key : Text) → RedisFails redis → Returns (Cache.get redis json ttl key)
  get-Returns key fails = record {
    at = λ w. let (o, e) = get_returns key w fails in (o, (redis.get key w).1, e);
  }

  pub set-Returns :
      (key : Text) (value : Json) → RedisFails redis → Returns (Cache.set redis json ttl key value)
  set-Returns key value fails = record {
    at = λ w. (tt, (redis.set key (json.dumps value) ttl w).1, set_returns key value w fails);
  }
