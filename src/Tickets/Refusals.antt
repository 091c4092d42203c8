-- ===== src/Tickets/Refusals.antt =====
-- Requests under an idempotency key that fail or are turned away: backend/services/ticket.py.
use supportops_ai.Common.{
  ◌≡◌, ◌⊎◌, ap, ◌∙◌, true, false, inl, inr, Option, none, some, Text, text_eq,
}
use supportops_ai.Python.{
  Exn, redis_error, idempotency_backend_unavailable, ticket_creation_in_progress, ok, raised,
}
use supportops_ai.Json.{CodecLaws, obj, get_field}
use supportops_ai.Redis.{RedisLaws}
use supportops_ai.Services.{Services}
use supportops_ai.Graph.Workflow.{LangGraph}
use supportops_ai.Idempotency.{in_progress_fields, in_progress_sentinel, store_key, existing_record}
use supportops_ai.Idempotency.Claims.{claim_fails, complete_fails, release_ok}
use supportops_ai.Tickets.{
  TicketCreateRequest, TicketCreateResponse, ResponseModel, is_in_progress, execute, ttl,
  answer_existing, after_claim, execute_claimed, create_ticket,
}
use supportops_ai.Tickets.Replay.{
  claims, reads, stored, existing_record-dumps, existing_record-none, taken-create_ticket,
  claimed-create_ticket,
}

module _ {W : Type 0} (l : LangGraph W) (s : Services W) (model : ResponseModel) (k : Text) where
  -- The key was free and is claimed, the execution raises, and Redis, within its laws, answers the
  -- deletion: the request raises the execution's exception, and the key is free for a retry.
  pub failed_release :
      {live : W → Text → Option Text} (p : TicketCreateRequest) (w w' w'' w3 : W) (e : Exn)
      → RedisLaws s.redis live
      → claims l s model k w ≡ (ok true, w')
      → execute l s model p w' ≡ (raised e, w'')
      → s.redis.delete (store_key k) w'' ≡ (ok tt, w3)
      → (create_ticket l s model p (some k) w ≡ (raised e, w3)) × (live w3 (store_key k) ≡ none)
  unfolding execute_claimed
  failed_release p w w' w'' w3 e laws claim run freed = (
    rw (claimed-create_ticket l s model k p w w' claim)
        (rw run (rw (release_ok s.redis s.json (ttl l s model) k w'' w3 freed))),
    laws.delete_frees (store_key k) w'' w3 freed,
  )

  -- The key is claimed and the execution returns, and then Redis raises its error on storing the
  -- response: the request raises `IdempotencyBackendUnavailable`, in the world that the finished
  -- execution and the failed write left.
  pub response_lost :
      (p : TicketCreateRequest) (r : TicketCreateResponse) (w w' w'' w3 : W) (m : Text)
      → claims l s model k w ≡ (ok true, w')
      → execute l s model p w' ≡ (ok r, w'')
      → s.redis.set (store_key k) (stored l s model k r) (ttl l s model) w''
        ≡ (raised (redis_error m), w3)
      → create_ticket l s model p (some k) w ≡ (raised (idempotency_backend_unavailable m), w3)
  unfolding execute_claimed
  response_lost p r w w' w'' w3 m claim run lost =
      rw (claimed-create_ticket l s model k p w w' claim) (
        rw run (
          rw (
            complete_fails s.redis s.json (ttl l s model) k (obj (model.model_dump r)) w'' w3 m
              lost)))

  -- Where Redis raises its error on the claim, the request raises `IdempotencyBackendUnavailable`
  -- in the world that this call left: nothing is executed.
  pub claim_refused :
      (p : TicketCreateRequest) (w w' : W) (m : Text)
      → claims l s model k w ≡ (raised (redis_error m), w')
      → create_ticket l s model p (some k) w ≡ (raised (idempotency_backend_unavailable m), w')
  unfolding create_ticket
  claim_refused p w w' m e = rw (claim_fails s.redis s.json (ttl l s model) k w w' m e)

  -- The claim is refused since the key is taken, and the record that is then read is the sentinel
  -- of a request in progress, printed by a codec that keeps its law, or is gone: the request
  -- raises `TicketCreationInProgress`, in the world that the two calls of Redis left.
  pub held_refused :
      (p : TicketCreateRequest) (w w' w'' : W) (o : Option Text)
      → CodecLaws s.json
      → (o ≡ none) ⊎ (o ≡ some (s.json.dumps in_progress_sentinel))
      → claims l s model k w ≡ (ok false, w')
      → reads l s model k w' ≡ (ok o, w'')
      → create_ticket l s model p (some k) w ≡ (raised (ticket_creation_in_progress k), w'')
  unfolding after_claim answer_existing is_in_progress get_field text_eq
  held_refused p w w' w'' o codec held claim read =
      let sentinel : existing_record s.json o ≡ some in_progress_sentinel = elim held [
        | inl e ↦ ap (existing_record s.json) e ∙ existing_record-none l s model k
        | inr e ↦
            ap (existing_record s.json) e
            ∙ existing_record-dumps l s model k in_progress_fields codec
      ] in
      taken-create_ticket l s model k p w w' w'' o claim read
      ∙ ap (λ x. after_claim l s model k p x w'') sentinel
