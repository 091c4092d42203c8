-- ===== src/Tickets/Replay.antt =====
-- Requests under an idempotency key, and their replays: backend/services/ticket.py.
use supportops_ai.Common.{
  ◌≡◌, ◌≢◌, refl, sym, ap, ◌∙◌, Bool, true, false, inl, inr, Option, none, some, Text, codes,
  Bool-cases, if◌then◌else◌,
}
use supportops_ai.Python.{
  Exn, idempotency_backend_unavailable, Outcome, ok, raised, Exec, pure, raise, try_except, ◌>>◌,
  message, call_cases, is_redis_error,
}
use supportops_ai.Python.Inversion.{bind_ok, try_ok}
use supportops_ai.Json.{CodecLaws, bool, obj, Fields, get_field, put_field}
use supportops_ai.Redis.{RedisLaws}
use supportops_ai.Services.{Services}
use supportops_ai.Graph.Workflow.{LangGraph}
use supportops_ai.Idempotency
use supportops_ai.Idempotency.{in_progress_sentinel, store_key, existing_record}
use supportops_ai.Idempotency.Claims.{claim_free, claim_taken}
use supportops_ai.Tickets.{
  TicketCreateRequest, TicketCreateResponse, ResponseModel, is_in_progress, execute, ttl,
  replay_fields, answer_existing, execute_claimed, after_claim, create_ticket,
}

-- What is used of Pydantic: the fields of a response do not include a `status`, and a dumped response
-- with `idempotent_replay` set is that response with the flag set.
pub record ResponseModelLaws (model : ResponseModel) : Type 0 where
  pub no_status :
      (r : TicketCreateResponse) → get_field (codes "status") (model.model_dump r) ≡ none
  pub validate_dump :
      (r : TicketCreateResponse)
      → model.validate (put_field (codes "idempotent_replay") (bool true) (model.model_dump r))
        ≡ ok (record r { idempotent_replay = true })

module _ {W : Type 0} (l : LangGraph W) (s : Services W) (model : ResponseModel) (k : Text) where
  -- the Redis calls of a claim
  abbrev pub claims : W → Outcome Bool × W
  claims = s.redis.set_nx (store_key k) (s.json.dumps in_progress_sentinel) (ttl l s model)

  abbrev pub reads : W → Outcome (Option Text) × W
  reads = s.redis.get (store_key k)

  abbrev pub stored : TicketCreateResponse → Text
  stored r = s.json.dumps (obj (model.model_dump r))

  abbrev pub replayed : TicketCreateResponse → TicketCreateResponse
  replayed r = record r { idempotent_replay = true }

  no_status-is_in_progress :
      (fields : Fields)
      → get_field (codes "status") fields ≡ none
      → is_in_progress (obj fields) ≡ ok false
  unfolding is_in_progress
  no_status-is_in_progress fields e = rw (e, is_in_progress)

  answer_stored :
      (r : TicketCreateResponse) (w : W)
      → ResponseModelLaws model
      → answer_existing l s model k (obj (model.model_dump r)) w ≡ (ok (replayed r), w)
  unfolding answer_existing replay_fields
  answer_stored r w m =
      rw (no_status-is_in_progress (model.model_dump r) (m.no_status r)) (rw (m.validate_dump r))

  after_claim_stored :
      (p : TicketCreateRequest) (r : TicketCreateResponse) (w : W)
      → ResponseModelLaws model
      → after_claim l s model k p (some (obj (model.model_dump r))) w ≡ (ok (replayed r), w)
  unfolding after_claim
  after_claim_stored p r w m = answer_stored r w m

  pub existing_record-dumps :
      (fields : Fields)
      → CodecLaws s.json
      → existing_record s.json (some (s.json.dumps (obj fields))) ≡ some (obj fields)
  unfolding existing_record
  existing_record-dumps fields codec = rw (codec.loads_dumps (obj fields), existing_record)

  pub existing_record-none : existing_record s.json none ≡ some in_progress_sentinel
  unfolding existing_record
  existing_record-none = refl

  pub taken-create_ticket :
      (p : TicketCreateRequest) (w w' w'' : W) (o : Option Text)
      → claims w ≡ (ok false, w')
      → reads w' ≡ (ok o, w'')
      → create_ticket l s model p (some k) w
        ≡ after_claim l s model k p (existing_record s.json o) w''
  unfolding create_ticket after_claim
  taken-create_ticket p w w' w'' o claim read =
      rw (claim_taken s.redis s.json (ttl l s model) k w w' w'' o claim read)

  -- Redis, the codec and the response model keep their laws, the key holds a stored response, and
  -- the two calls of Redis are answered: the request gets that response, marked as a replay, in
  -- the world that the two calls left.
  pub replay_stored :
      {live : W → Text → Option Text} (p : TicketCreateRequest) (r : TicketCreateResponse)
      (w w' w'' : W) (b : Bool) (o : Option Text)
      → RedisLaws s.redis live
      → CodecLaws s.json
      → ResponseModelLaws model
      → live w (store_key k) ≡ some (stored r)
      → claims w ≡ (ok b, w')
      → reads w' ≡ (ok o, w'')
      → create_ticket l s model p (some k) w ≡ (ok (replayed r), w'')
  replay_stored p r w w' w'' true o laws codec m held claim read =
      let free = (laws.set_nx_free (store_key k) _ _ w w' claim).0 in cc
  replay_stored p r w w' w'' false o laws codec m held claim read =
      let kept = (laws.set_nx_taken (store_key k) _ _ w w' claim).1 in
      let answer = laws.get_answers (store_key k) w' w'' o read in
      let found : o ≡ some (stored r) = sym answer ∙ (kept ∙ held) in
      taken-create_ticket p w w' w'' o claim read
      ∙ (ap (λ x. after_claim l s model k p (existing_record s.json x) w'') found
          ∙ (ap (λ x. after_claim l s model k p x w'')
                (existing_record-dumps (model.model_dump r) codec)
              ∙ after_claim_stored p r w'' m))

  pub claimed-create_ticket :
      (p : TicketCreateRequest) (w w' : W)
      → claims w ≡ (ok true, w')
      → create_ticket l s model p (some k) w ≡ execute_claimed l s model k p w'
  unfolding create_ticket after_claim
  claimed-create_ticket p w w' claim = rw (claim_free s.redis s.json (ttl l s model) k w w' claim)

  unclaimed-create_ticket :
      (p : TicketCreateRequest) (r : TicketCreateResponse) (w w' w1 : W) (e : Exn)
      → claims w ≡ (raised e, w')
      → create_ticket l s model p (some k) w ≢ (ok r, w1)
  unfolding create_ticket Idempotency.claim_or_get_existing
  unclaimed-create_ticket p r w w' w1 e claim = elim (Bool-cases (is_redis_error e)) [
    | inl t ↦ rw claim (rw t (λ h. cc))
    | inr f ↦ rw claim (rw f (λ h. cc))
  ]

  abbrev unavailable : {A : Type 0} → Exn → Exec W A
  unavailable e =
      if is_redis_error e then raise (idempotency_backend_unavailable (message e)) else raise e

  unavailable-not_ok : {A : Type 0} (e : Exn) (v w1 : W) (a : A) → unavailable e v ≢ (ok a, w1)
  unavailable-not_ok e v w1 a = elim (Bool-cases (is_redis_error e)) [
    | inl t ↦ rw t (λ h. cc)
    | inr f ↦ rw f (λ h. cc)
  ]

  abbrev guarded : TicketCreateRequest → Exec W TicketCreateResponse
  guarded p =
      try_except (execute l s model p)
        λ e. Idempotency.release s.redis s.json (ttl l s model) k >> raise e

  abbrev completes : TicketCreateResponse → Exec W (Unit {0})
  completes r = Idempotency.complete s.redis s.json (ttl l s model) k (obj (model.model_dump r))

  abbrev finish : TicketCreateResponse → Exec W TicketCreateResponse
  finish r = completes r >> pure r

  -- the response of a claimed request is the one that its key holds
  claimed_holds :
      {live : W → Text → Option Text} (p : TicketCreateRequest) (r : TicketCreateResponse)
      (w w1 : W)
      → RedisLaws s.redis live
      → execute_claimed l s model k p w ≡ (ok r, w1)
      → live w1 (store_key k) ≡ some (stored r)
  unfolding execute_claimed Idempotency.release Idempotency.complete
  claimed_holds p r w w1 laws h =
      let (a, w', run, rest) = bind_ok (guarded p) finish w w1 r h in
      let (u, w'', done, last) = bind_ok (completes a) (λ _. pure a) w' w1 r rest in
      let written = laws.set_writes (store_key k) (stored a) (ttl l s model) w' w'' (
        try_ok (s.redis.set (store_key k) (stored a) (ttl l s model)) unavailable w' w'' u
          (λ e v. unavailable-not_ok e v w'' u) done) in
      cc

  -- Redis, the codec and the response model keep their laws. A first request under a free key was
  -- answered with a response; the key has the same content when a later request with that key
  -- comes, whose two calls of Redis are answered. The later request gets the first one's response,
  -- marked as a replay, and its world is what those two calls left: nothing is executed for it.
  pub create_then_replay :
      {live : W → Text → Option Text} (p q : TicketCreateRequest) (r : TicketCreateResponse)
      (w w1 v v' v'' : W) (b : Bool) (o : Option Text)
      → RedisLaws s.redis live
      → CodecLaws s.json
      → ResponseModelLaws model
      → live w (store_key k) ≡ none
      → create_ticket l s model p (some k) w ≡ (ok r, w1)
      → live v (store_key k) ≡ live w1 (store_key k)
      → claims v ≡ (ok b, v')
      → reads v' ≡ (ok o, v'')
      → create_ticket l s model q (some k) v ≡ (ok (replayed r), v'')
  create_then_replay p q r w w1 v v' v'' b o laws codec m free first kept claim read =
      elim (call_cases (claims w)) [
        | inl (true, w', e) ↦
            replay_stored q r v v' v'' b o laws codec m
              (kept ∙ claimed_holds p r w' w1 laws (sym (claimed-create_ticket p w w' e) ∙ first))
              claim read
        | inl (false, w', e) ↦ absurd ((laws.set_nx_taken (store_key k) _ _ w w' e).0 free)
        | inr (x, w', e) ↦ absurd (unclaimed-create_ticket p r w w' w1 x e first)
      ]
