-- ===== src/Idempotency/Claims.antt =====
-- The outcomes of the calls that claim, complete and release a key:
-- backend/services/idempotency.py.
use supportops_ai.Common.{ℕ, ◌≡◌, true, false, Option, none, Text}
use supportops_ai.Python.{redis_error, idempotency_backend_unavailable, ok, raised}
use supportops_ai.Json.{Json, Codec}
use supportops_ai.Redis.{Redis}
use supportops_ai.Idempotency.{
  in_progress_sentinel, store_key, existing_record, claim_or_get_existing, complete, release,
}

module _ {W : Type 0} (redis : Redis W) (json : Codec) (ttl : ℕ) (k : Text) where
  pub claim_free :
      (w w' : W)
      → redis.set_nx (store_key k) (json.dumps in_progress_sentinel) ttl w ≡ (ok true, w')
      → claim_or_get_existing redis json ttl k w ≡ (ok none, w')
  unfolding claim_or_get_existing
  claim_free w w' e = rw e

  pub claim_taken :
      (w w' w'' : W) (o : Option Text)
      → redis.set_nx (store_key k) (json.dumps in_progress_sentinel) ttl w ≡ (ok false, w')
      → redis.get (store_key k) w' ≡ (ok o, w'')
      → claim_or_get_existing redis json ttl k w ≡ (ok (existing_record json o), w'')
  unfolding claim_or_get_existing
  claim_taken w w' w'' o e e' = rw e (rw e')

  -- A Redis that cannot be asked refuses the claim.
  pub claim_fails :
      (w w' : W) (m : Text)
      → redis.set_nx (store_key k) (json.dumps in_progress_sentinel) ttl w
        ≡ (raised (redis_error m), w')
      → claim_or_get_existing redis json ttl k w ≡ (raised (idempotency_backend_unavailable m), w')
  unfolding claim_or_get_existing
  claim_fails w w' m e = rw e

  pub complete_ok :
      (response : Json) (w w' : W)
      → redis.set (store_key k) (json.dumps response) ttl w ≡ (ok tt, w')
      → complete redis json ttl k response w ≡ (ok tt, w')
  unfolding complete
  complete_ok response w w' e = rw e

  pub complete_fails :
      (response : Json) (w w' : W) (m : Text)
      → redis.set (store_key k) (json.dumps response) ttl w ≡ (raised (redis_error m), w')
      → complete redis json ttl k response w ≡ (raised (idempotency_backend_unavailable m), w')
  unfolding complete
  complete_fails response w w' m e = rw e

  pub release_ok :
      (w w' : W)
      → redis.delete (store_key k) w ≡ (ok tt, w')
      → release redis json ttl k w ≡ (ok tt, w')
  unfolding release
  release_ok w w' e = rw e

  -- A failed release is passed over.
  pub release_fails :
      (w w' : W) (m : Text)
      → redis.delete (store_key k) w ≡ (raised (redis_error m), w')
      → release redis json ttl k w ≡ (ok tt, w')
  unfolding release
  release_fails w w' m e = rw e
