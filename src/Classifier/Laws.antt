-- ===== src/Classifier/Laws.antt =====
-- The endings of a classification: backend/graph/classifier.py.
use supportops_ai.Common.{◌≡◌, Option, none, some, Text}
use supportops_ai.Enums.{TicketCategory}
use supportops_ai.Python.{Exn, ok, raised}
use supportops_ai.Python.Returns.{Returns, returns_rules}
use supportops_ai.Json.{Json}
use supportops_ai.Redis.{RedisFails}
use supportops_ai.Cache
use supportops_ai.Cache.Degrades.{get-Returns, set-Returns}
use supportops_ai.Services.{Services}
use supportops_ai.Classifier.{
  cached_category, ask_model, conclude, after_cache, classification_key, classify_ticket,
}

module _ {W : Type 0} (s : Services W) where
  ask_model-Returns : (t : Text) → Returns (ask_model s t)
  unfolding ask_model
  ask_model-Returns t = search returns_rules

  conclude-Returns :
      (k : Text) (o : Option TicketCategory) → RedisFails s.redis → Returns (conclude s k o)
  unfolding conclude
  conclude-Returns k none fails = search returns_rules
  conclude-Returns k (some c) fails = search (returns_rules, set-Returns)

  after_cache-Returns :
      (t k : Text) (o : Option TicketCategory)
      → RedisFails s.redis
      → Returns s.new_open_ai
      → Returns (after_cache s t k o)
  unfolding after_cache
  after_cache-Returns t k none fails client =
      search (returns_rules, ask_model-Returns, conclude-Returns)
  after_cache-Returns t k (some c) fails client = search returns_rules

  -- Where Redis raises only `RedisError` and the OpenAI client can be constructed, classification
  -- returns a category, whatever the model or the cache answers.
  pub classify_ticket-Returns :
      (t : Text) → RedisFails s.redis → Returns s.new_open_ai → Returns (classify_ticket s t)
  unfolding classify_ticket
  classify_ticket-Returns t fails client = search (returns_rules, get-Returns, after_cache-Returns)

  -- Where the cache holds no category and the constructor of the client raises, as it does without an
  -- API key, classification raises that exception too.
  pub classify_ticket_raises :
      (t : Text) (w w' w'' : W) (o : Option Json) (e : Exn)
      → Cache.get s.redis s.json s.settings.redis_classification_cache_ttl_seconds
          (classification_key s t)
          w
        ≡ (ok o, w')
      → cached_category o ≡ none
      → s.new_open_ai w' ≡ (raised e, w'')
      → classify_ticket s t w ≡ (raised e, w'')
  unfolding classify_ticket after_cache
  classify_ticket_raises t w w' w'' o e miss no_category fails = rw miss (rw no_category (rw fails))
