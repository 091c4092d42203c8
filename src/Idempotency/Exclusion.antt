-- ===== src/Idempotency/Exclusion.antt =====
-- Any number of requests under one key, their calls in any order: backend/services/idempotency.py.
use supportops_ai.Common.{
  ℕ, suc, ◌≤◌, ◌≡◌, ◌≢◌, refl, sym, ap, ◌∙◌, Bool, true, false, Bool-cases, inl, inr, Option, none,
  some, Text, arith, if◌then◌else◌,
}
use supportops_ai.Python.{
  Exn, idempotency_backend_unavailable, message, is_redis_error, ok, Exec, pure, raise, ◌>>=◌,
}
use supportops_ai.Python.Inversion.{bind_ok, try_ok}
use supportops_ai.Json.{Json, Fields, null, bool, num, float, str, arr, obj, Codec, CodecLaws}
use supportops_ai.Redis.{Redis, RedisLaws}
use supportops_ai.Idempotency.{
  in_progress_sentinel, store_key, existing_record, or_unavailable, not_null, claim_or_get_existing,
  complete, release,
}

pub or_unavailable_ok :
    {W A : Type 0} (m : Exec W A) (w w' : W) (a : A)
    → or_unavailable m w ≡ (ok a, w')
    → m w ≡ (ok a, w')
or_unavailable_ok m w w' a h =
    try_ok m
      (λ e.
        if is_redis_error e then raise (idempotency_backend_unavailable (message e)) else raise e)
      w w' a (λ e v. never e v) h
  where
    never :
        (e : Exn) (v : _)
        → (if is_redis_error e
              then raise (idempotency_backend_unavailable (message e))
              else raise e)
            v
          ≢ (ok a, w')
    never e v = elim (Bool-cases (is_redis_error e)) [
      | inl t ↦ rw t (λ x. cc)
      | inr f ↦ rw f (λ x. cc)
    ]

module _ {W : Type 0} (redis : Redis W) (json : Codec) (ttl : ℕ) (k : Text)
    (live : W → Text → Option Text) where
  abbrev IsHeld : W → Type 0
  IsHeld w = live w (store_key k) ≢ none

  -- no null is stored under the key
  abbrev pub IsClean : W → Type 0
  IsClean w = (t : Text) → live w (store_key k) ≡ some t → json.loads t ≢ some null

  -- The calls that requests make under the key, in the order in which Redis sees them, with any steps
  -- of others in between: how many claims succeeded, and how often the key was freed.
  pub data Calls : W → ℕ → ℕ → Type 0 where
    done : {w : W} → Calls w 0 0
    claimed :
        {w w' : W} {n m : ℕ}
        → claim_or_get_existing redis json ttl k w ≡ (ok none, w')
        → Calls w' n m
        → Calls w (suc n) m
    refused :
        {w w' : W} {n m : ℕ} (v : Json)
        → claim_or_get_existing redis json ttl k w ≡ (ok (some v), w')
        → Calls w' n m
        → Calls w n m
    -- with the fields of a response, which `model_dump` gives
    completed :
        {w w' : W} {n m : ℕ} (fields : Fields)
        → complete redis json ttl k (obj fields) w ≡ (ok tt, w')
        → Calls w' n m
        → Calls w n m
    -- a step that does not free the key and stores no null there: a failed call, or a call of
    -- something else
    kept :
        {w w' : W} {n m : ℕ}
        → (IsHeld w → IsHeld w')
        → (IsClean w → IsClean w')
        → Calls w' n m
        → Calls w n m
    -- `release`, which stores nothing, and anything else that frees the key, such as the end of its
    -- time to live
    released :
        {w w' : W} {n m : ℕ}
        → release redis json ttl k w ≡ (ok tt, w')
        → (IsClean w → IsClean w')
        → Calls w' n m
        → Calls w n (suc m)
    expired : {w w' : W} {n m : ℕ} → live w' (store_key k) ≡ none → Calls w' n m → Calls w n (suc m)

  -- the Redis calls of a claim
  abbrev sets : Exec W Bool
  sets = redis.set_nx (store_key k) (json.dumps in_progress_sentinel) ttl

  abbrev answers : Bool → Exec W (Option Json)
  answers won =
      if won
      then pure none
      else (or_unavailable (redis.get (store_key k)) >>= λ raw. pure (existing_record json raw))

  claim_or_get_existing_ok :
      (o : Option Json) (w w' : W)
      → claim_or_get_existing redis json ttl k w ≡ (ok o, w')
      → (b : Bool) × (w1 : W) × (sets w ≡ (ok b, w1)) × (answers b w1 ≡ (ok o, w'))
  unfolding claim_or_get_existing
  claim_or_get_existing_ok o w w' h =
      let (b, w1, set, rest) = bind_ok (or_unavailable sets) answers w w' o h in
      (b, w1, or_unavailable_ok sets w w1 b set, rest)

  answers_taken :
      (o : Option Json) (w w' : W)
      → answers false w ≡ (ok o, w')
      → (t : Option Text) × (redis.get (store_key k) w ≡ (ok t, w')) × (o ≡ existing_record json t)
  answers_taken o w w' h =
      let (t, w1, got, last) =
        bind_ok (or_unavailable (redis.get (store_key k))) (λ raw. pure (existing_record json raw))
          w w' o h in
      let read = or_unavailable_ok (redis.get (store_key k)) w w1 t got in
      (t, cc (read, last), cc last)

  -- a null would have to be there
  existing_record-none :
      (o : Option Text)
      → existing_record json o ≡ none
      → (t : Text) × (o ≡ some t) × (json.loads t ≡ some null)
  unfolding existing_record
  existing_record-none none h = absurd (cc)
  existing_record-none (some t) h = (t, refl, is_null (json.loads t) refl h)
    where
      is_null :
          (v : Option Json)
          → json.loads t ≡ v
          → (elim v [ none ↦ some in_progress_sentinel | some result ↦ not_null result ]) ≡ none
          → json.loads t ≡ some null
      is_null none e x = absurd (cc x)
      is_null (some null) e x = e
      is_null (some (bool b)) e x = absurd (cc x)
      is_null (some (num n)) e x = absurd (cc x)
      is_null (some (float a b)) e x = absurd (cc x)
      is_null (some (str u)) e x = absurd (cc x)
      is_null (some (arr l)) e x = absurd (cc x)
      is_null (some (obj f)) e x = absurd (cc x)

  dumps-IsClean :
      (v : Json) (w : W)
      → CodecLaws json
      → v ≢ null
      → live w (store_key k) ≡ some (json.dumps v)
      → IsClean w
  dumps-IsClean v w codec differs there t at h =
      let same : json.dumps v ≡ t = cc (there, at) in
      let back : json.loads t ≡ some v = rw same at (codec.loads_dumps v) in differs (cc (back, h))

  won-IsHeld :
      (b : Bool) (w w1 w' : W)
      → RedisLaws redis live
      → CodecLaws json
      → IsClean w
      → sets w ≡ (ok b, w1)
      → answers b w1 ≡ (ok none, w')
      → (live w (store_key k) ≡ none) × IsHeld w' × IsClean w'
  won-IsHeld true w w1 w' laws codec clean set rest =
      let (free, written) = laws.set_nx_free (store_key k) _ ttl w w1 set in
      let e : w1 ≡ w' = cc rest in
      let there : live w' (store_key k) ≡ some (json.dumps in_progress_sentinel) =
        rw e at written in
      (free, λ x. cc (there, x), dumps-IsClean in_progress_sentinel w' codec (λ x. cc x) there)
  won-IsHeld false w w1 w' laws codec clean set rest =
      let (o, got, e) = answers_taken none w1 w' rest in
      let (t, is_text, is_null) = existing_record-none o (sym e) in
      let read = laws.get_answers (store_key k) w1 w' o got in
      let same = (laws.set_nx_taken (store_key k) _ ttl w w1 set).1 in
      absurd (clean t (sym same ∙ (read ∙ is_text)) is_null)

  refused-keeps :
      (v : Json) (b : Bool) (w w1 w' : W)
      → RedisLaws redis live
      → sets w ≡ (ok b, w1)
      → answers b w1 ≡ (ok (some v), w')
      → live w' (store_key k) ≡ live w (store_key k)
  refused-keeps v true w w1 w' laws set rest = absurd (cc rest)
  refused-keeps v false w w1 w' laws set rest =
      let (t, got, e) = answers_taken (some v) w1 w' rest in
      let read : live (redis.get (store_key k) w1).1 (store_key k) ≡ live w1 (store_key k) =
        laws.get_keeps (store_key k) (store_key k) w1 in
      let end : (redis.get (store_key k) w1).1 ≡ w' = ap (λ c. c.1) got in
      ap (λ x. live x (store_key k)) (sym end)
      ∙ (read ∙ (laws.set_nx_taken (store_key k) _ ttl w w1 set).1)

  completed-IsHeld :
      (fields : Fields) (w w' : W)
      → RedisLaws redis live
      → CodecLaws json
      → complete redis json ttl k (obj fields) w ≡ (ok tt, w')
      → IsHeld w' × IsClean w'
  unfolding complete
  completed-IsHeld fields w w' laws codec h =
      let v = obj fields in
      let set = or_unavailable_ok (redis.set (store_key k) (json.dumps v) ttl) w w' tt h in
      let written = laws.set_writes (store_key k) (json.dumps v) ttl w w' set in
      (λ x. cc (written, x), dumps-IsClean v w' codec (λ x. cc x) written)

  -- While the key is held, a claim succeeds only behind a step that frees it.
  claims_bound :
      {w : W} {n m : ℕ}
      → RedisLaws redis live
      → CodecLaws json
      → IsClean w
      → Calls w n m
      → (n ≤ suc m) × (IsHeld w → n ≤ m)
  claims_bound laws codec clean done = (omega arith, λ h. omega arith)
  claims_bound {w = w} laws codec clean (claimed e c) =
      let (b, w1, set, rest) = claim_or_get_existing_ok none w _ e in
      let (free, held, clean') = won-IsHeld b w w1 _ laws codec clean set rest in
      let bound = (claims_bound laws codec clean' c).1 held in (omega arith, λ h. absurd (h free))
  claims_bound {w = w} laws codec clean (refused v e c) =
      let (b, w1, set, rest) = claim_or_get_existing_ok (some v) w _ e in
      let same = refused-keeps v b w w1 _ laws set rest in
      let (any, held) = claims_bound laws codec (λ t at. clean t (sym same ∙ at)) c in
      (any, λ h. held (λ x. h (sym same ∙ x)))
  claims_bound {w = w} laws codec clean (completed fields e c) =
      let (held', clean') = completed-IsHeld fields w _ laws codec e in
      let (any, held) = claims_bound laws codec clean' c in (any, λ h. held held')
  claims_bound laws codec clean (kept keeps cleans c) =
      let (any, held) = claims_bound laws codec (cleans clean) c in (any, λ h. held (keeps h))
  claims_bound laws codec clean (released e cleans c) =
      let any = (claims_bound laws codec (cleans clean) c).0 in (omega arith, λ h. any)
  claims_bound laws codec clean (expired gone c) =
      let any = (claims_bound laws codec (λ t at. absurd (cc (gone, at))) c).0 in
      (omega arith, λ h. any)

  -- However the calls of any number of requests under one key follow each other, where Redis and the
  -- JSON codec keep their laws and no JSON null is stored under the key to begin with, at most one
  -- claim more succeeds than the key is freed, by a release or by its expiry. The steps of others
  -- in between store no null there either.
  pub one_claim :
      {w : W} {n m : ℕ}
      → RedisLaws redis live
      → CodecLaws json
      → IsClean w
      → Calls w n m
      → n ≤ suc m
  one_claim laws codec clean c = (claims_bound laws codec clean c).0
