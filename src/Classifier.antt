-- ===== src/Classifier.antt =====
-- Ticket classification: backend/graph/classifier.py.
pub mod Laws
use supportops_ai.Common.{◌++◌, Option, none, some, List, [], ◌∷◌, Text, codes}
use supportops_ai.Str.{concat}
use supportops_ai.Enums.{TicketCategory, ticket_category_value, ticket_category}
use supportops_ai.Python.{
  Exn, value_error, Outcome, ok, raised, Exec, pure, lift, try_except, ◌>>=◌, ◌>>◌,
}
use supportops_ai.Json.{Json, str}
use supportops_ai.Cache
use supportops_ai.Cache.{normalize_text, build_cache_key}
use supportops_ai.Bridge.{in_worker}
use supportops_ai.Services.{Services}

abbrev pub cache_key_prefix : Text
cache_key_prefix = codes "classification"

abbrev pub system_prompt : Text
system_prompt = concat (
    codes "You are a support ticket classifier. Assign exactly one category:\n"
    ∷ codes "- billing: invoices, refunds, subscriptions, pricing, payments, billing disputes\n"
    ∷ codes
        "- technical: bugs, crashes, API issues, login failures, troubleshooting, product issues\n"
    ∷ codes "- account: account settings, profile, permissions, user access, account management\n"
    ∷ codes "- general: anything that does not clearly belong to the categories above\n"
    ∷ codes "Choose the single best-fitting category for the ticket text you're given."
    ∷ [])

-- `TicketCategory(value)` on a cached value, which is ignored where it is no category
unfoldable pub cached_category : Option Json → Option TicketCategory
cached_category (some (str t)) = ticket_category t
cached_category _ = none

-- the category in the parsed message
unfoldable pub parsed_category : Option Text → Outcome TicketCategory
parsed_category none = raised (value_error (codes "model returned no parsed classification"))
parsed_category (some t) = elim (ticket_category t) [
  | none ↦ raised (value_error (t ++ codes " is not a valid TicketCategory"))
  | some c ↦ ok c
]

module _ {W : Type 0} (s : Services W) where
  -- the call of OpenAI; `none` where it failed
  unfoldable pub ask_model : Text → Exec W (Option TicketCategory)
  ask_model ticket_text =
      try_except
        (do
          parsed ← s.parse_classification system_prompt ticket_text
          category ← lift (parsed_category parsed)
          pure (some category))
        (λ _. pure none)

  -- a failure falls back to `GENERAL` and is not cached
  unfoldable pub conclude : Text → Option TicketCategory → Exec W TicketCategory
  conclude cache_key none = pure TicketCategory.general
  conclude cache_key (some category) = do
    in_worker (
        Cache.set s.redis s.json s.settings.redis_classification_cache_ttl_seconds cache_key
          (str (ticket_category_value category)))
    pure category

  unfoldable pub after_cache : Text → Text → Option TicketCategory → Exec W TicketCategory
  after_cache ticket_text cache_key (some category) = pure category
  after_cache ticket_text cache_key none = do
    s.new_open_ai
    answer ← ask_model ticket_text
    conclude cache_key answer

  unfoldable pub classification_key : Text → Text
  classification_key ticket_text =
      build_cache_key s.sha256_hex cache_key_prefix (normalize_text ticket_text ∷ [])

  unfoldable pub classify_ticket : Text → Exec W TicketCategory
  classify_ticket ticket_text = do
    cached ← in_worker (
        Cache.get s.redis s.json s.settings.redis_classification_cache_ttl_seconds
          (classification_key ticket_text))
    after_cache ticket_text (classification_key ticket_text) (cached_category cached)
