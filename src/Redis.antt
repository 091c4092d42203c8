-- ===== src/Redis.antt =====
-- The Redis client (`redis.asyncio.Redis`) as the program calls it. It is not part of the
-- repository: its operations are a parameter, and what the program relies on are laws.
use supportops_ai.Common.{ℕ, ◌≡◌, ◌≢◌, Bool, true, false, Option, none, some, Text}
use supportops_ai.Python.{Exec, ok}
use supportops_ai.Python.Returns.{RaisesRedis}

pub record Redis (W : Type 0) : Type 0 where
  -- `await client.get(key)`
  pub get : Text → Exec W (Option Text)
  -- `await client.set(key, value, ex=ttl)`
  pub set : Text → Text → ℕ → Exec W (Unit {0})
  -- `await client.set(key, value, nx=True, ex=ttl)`: whether the key was set
  pub set_nx : Text → Text → ℕ → Exec W Bool
  -- `await client.delete(key)`
  pub delete : Text → Exec W (Unit {0})

-- What Redis documents, about the calls that it answers: `live w k` is the value that key `k` has.
pub record RedisLaws {W : Type 0} (r : Redis W) (live : W → Text → Option Text) : Type 0 where
  pub get_answers : (k : Text) (w w' : W) (o : Option Text) → r.get k w ≡ (ok o, w') → live w k ≡ o
  pub get_keeps : (k j : Text) (w : W) → live (r.get k w).1 j ≡ live w j
  pub set_writes :
      (k v : Text) (ttl : ℕ) (w w' : W) → r.set k v ttl w ≡ (ok tt, w') → live w' k ≡ some v
  pub set_others :
      (k v : Text) (ttl : ℕ) (j : Text) (w : W) → j ≢ k → live (r.set k v ttl w).1 j ≡ live w j
  -- the key is set if it was free, and then only
  pub set_nx_free :
      (k v : Text) (ttl : ℕ) (w w' : W)
      → r.set_nx k v ttl w ≡ (ok true, w')
      → (live w k ≡ none) × (live w' k ≡ some v)
  pub set_nx_taken :
      (k v : Text) (ttl : ℕ) (w w' : W)
      → r.set_nx k v ttl w ≡ (ok false, w')
      → (live w k ≢ none) × (live w' k ≡ live w k)
  pub set_nx_others :
      (k v : Text) (ttl : ℕ) (j : Text) (w : W) → j ≢ k → live (r.set_nx k v ttl w).1 j ≡ live w j
  pub delete_frees : (k : Text) (w w' : W) → r.delete k w ≡ (ok tt, w') → live w' k ≡ none
  pub delete_others : (k j : Text) (w : W) → j ≢ k → live (r.delete k w).1 j ≡ live w j

-- The calls raise nothing but `RedisError`.
pub record RedisFails {W : Type 0} (r : Redis W) : Type 0 where
  pub get_fails : (k : Text) → RaisesRedis (r.get k)
  pub set_fails : (k v : Text) (ttl : ℕ) → RaisesRedis (r.set k v ttl)
  pub set_nx_fails : (k v : Text) (ttl : ℕ) → RaisesRedis (r.set_nx k v ttl)
  pub delete_fails : (k : Text) → RaisesRedis (r.delete k)
