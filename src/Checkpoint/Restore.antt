-- ===== src/Checkpoint/Restore.antt =====
-- Saving and restoring checkpoints: backend/graph/checkpoint.py.
use supportops_ai.Common.{◌≡◌, ◌∙◌, sym, Option, some, Text, text_eq}
use supportops_ai.Python.{Uuid, Time, ok}
use supportops_ai.Python.Returns.{Returns, returns_rules, Returns-try_redis}
use supportops_ai.Json.{Json, CodecLaws, get_field}
use supportops_ai.Redis.{RedisLaws, RedisFails}
use supportops_ai.Services.{Services}
use supportops_ai.Checkpoint.{
  checkpoint_key, checkpoint_payload, save, checkpoint_of, read_raw, get_latest,
}

module _ {W : Type 0} (s : Services W) where
  -- Saving returns where the clock does and Redis raises only `RedisError`.
  pub save-Returns :
      (id : Uuid) (stage : Text) (snapshot : Json)
      → Returns s.now
      → RedisFails s.redis
      → Returns (save s id stage snapshot)
  unfolding save
  save-Returns id stage snapshot clock fails =
      search (returns_rules, Returns-try_redis, fails.set_fails)

  pub get_latest-Returns : (id : Uuid) → RedisFails s.redis → Returns (get_latest s id)
  unfolding get_latest
  get_latest-Returns id fails = search (returns_rules, Returns-try_redis, fails.get_fails)

  checkpoint_of-payload :
      (id : Uuid) (stage : Text) (snapshot : Json) (time : Time)
      → s.fromisoformat (s.isoformat time) ≡ some time
      → checkpoint_of s id (some (checkpoint_payload s stage snapshot time))
        ≡ some (record {
          ticket_id = id;
          stage = Json.str stage;
          snapshot = snapshot;
          saved_at = time;
        })
  unfolding checkpoint_of checkpoint_payload get_field text_eq
  checkpoint_of-payload id stage snapshot time iso = rw iso

  -- Redis and the codec keep their laws, and the printed time is read back: the checkpoint read
  -- after a save, when Redis took the write and answers the read, has the stage, the snapshot and
  -- the time of that save.
  pub get_latest-save :
      {live : W → Text → Option Text} (id : Uuid) (stage : Text) (snapshot : Json) (time : Time)
      (w w' w'' : W) (o : Option Text)
      → RedisLaws s.redis live
      → CodecLaws s.json
      → s.fromisoformat (s.isoformat time) ≡ some time
      → s.now w ≡ (ok time, w')
      → s.redis.set
          (checkpoint_key id)
          (s.json.dumps (checkpoint_payload s stage snapshot time))
          s.settings.redis_checkpoint_ttl_seconds
          w'
        ≡ (ok tt, w'')
      → s.redis.get (checkpoint_key id) w'' ≡ (ok o, (s.redis.get (checkpoint_key id) w'').1)
      → get_latest s id (save s id stage snapshot w).1 ≡ (
        ok (
            some (record {
              ticket_id = id;
              stage = Json.str stage;
              snapshot = snapshot;
              saved_at = time;
            })),
        (s.redis.get (checkpoint_key id) w'').1,
      )
  unfolding save get_latest read_raw
  get_latest-save id stage snapshot time w w' w'' o laws codec iso clock set get =
      let payload = s.json.dumps (checkpoint_payload s stage snapshot time) in
      let stored =
        laws.set_writes (checkpoint_key id) payload s.settings.redis_checkpoint_ttl_seconds w' w''
          set in
      let read =
        laws.get_answers (checkpoint_key id) w'' (s.redis.get (checkpoint_key id) w'').1 o get in
      let here : o ≡ some payload = sym read ∙ stored in
      rw clock (
        rw set (
          rw get (
            rw here (
              rw (codec.loads_dumps (checkpoint_payload s stage snapshot time))
                (rw (checkpoint_of-payload id stage snapshot time iso))))))
