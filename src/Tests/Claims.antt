-- ===== src/Tests/Claims.antt =====
-- Requests under one key at concrete inputs.
use supportops_ai.Common.{◌≡◌, ◌∙◌, ap, ◌≤◌, refl, some, text_eq, Text, codes}
use supportops_ai.Idempotency.{
  store_key, in_progress_sentinel, claim_or_get_existing, existing_record, release,
}
use supportops_ai.Idempotency.Exclusion.{
  IsClean, Calls, done, claimed, refused, released, one_claim,
}
use supportops_ai.Idempotency.Claims.{claim_taken}
use supportops_ai.Python.{ok}
use supportops_ai.Sample.Codec.{codec, codec-CodecLaws}
use supportops_ai.Sample.World.{World, live, empty, put, redis, redis-RedisLaws}
use supportops_ai.Common.{none}

abbrev key : Text
key = codes "key-1"

abbrev held : World
held = put (store_key key) (some (codec.dumps in_progress_sentinel)) empty

abbrev freed : World
freed = put (store_key key) none held

abbrev held_again : World
held_again = put (store_key key) (some (codec.dumps in_progress_sentinel)) freed

freed-IsClean : IsClean redis codec 60 key live held → IsClean redis codec 60 key live freed
unfolding store_key text_eq
freed-IsClean h t at = absurd (cc at)

sentinel_read : existing_record codec (held (store_key key)) ≡ some in_progress_sentinel
unfolding existing_record store_key text_eq
sentinel_read = rw (codec-CodecLaws.loads_dumps in_progress_sentinel, existing_record)

in_progress : claim_or_get_existing redis codec 60 key held ≡ (ok (some in_progress_sentinel), held)
unfolding redis store_key text_eq
in_progress =
    claim_taken redis codec 60 key held held held (held (store_key key)) refl refl
    ∙ ap (λ o. (ok o, held)) sentinel_read

-- One request claims the key, another is refused, the first gives it back, and a third claims it.
calls : Calls redis codec 60 key live empty 2 1
unfolding redis claim_or_get_existing existing_record release store_key text_eq
calls = claimed {w' = held} refl (
    refused {w' = held} in_progress_sentinel in_progress
      (released {w' = freed} refl freed-IsClean (claimed {w' = held_again} refl done)))

one_claim_example : 2 ≤ 2
one_claim_example =
    one_claim redis codec 60 key live redis-RedisLaws codec-CodecLaws (λ t at. absurd (cc at)) calls
