-- ===== src/Checkpoint.antt =====
-- Workflow checkpoints: backend/graph/checkpoint.py.
pub mod Restore
use supportops_ai.Common.{ℕ, Option, none, some, ◌++◌, Text, codes, if◌then◌else◌}
use supportops_ai.Python.{Uuid, Time, is_redis_error, Exec, pure, raise, try_except, ◌>>=◌}
use supportops_ai.Json.{Json, str, obj, Fields, end, field, get_field}
use supportops_ai.Services.{Services}

pub record WorkflowCheckpoint : Type 0 where
  pub ticket_id : Uuid
  pub stage : Json
  pub snapshot : Json
  pub saved_at : Time

-- `WorkflowCheckpointStore._key`
unfoldable pub checkpoint_key : Uuid → Text
checkpoint_key ticket_id = codes "workflow_checkpoint" ++ (codes ":" ++ ticket_id)

-- the next step of a reading that may fail
abbrev and_then : {A B : Type 0} → Option A → (A → Option B) → Option B
and_then none f = none
and_then (some a) f = f a

module _ {W : Type 0} (s : Services W) where
  unfoldable pub checkpoint_payload : Text → Json → Time → Json
  checkpoint_payload stage snapshot saved_at = obj (
      field (codes "stage") (str stage) (
        field (codes "snapshot") snapshot
          (field (codes "saved_at") (str (s.isoformat saved_at)) end)))

  -- `WorkflowCheckpointStore.save`
  unfoldable pub save : Uuid → Text → Json → Exec W (Unit {0})
  save ticket_id stage snapshot = do
    saved_at ← s.now
    try_except
        (s.redis.set (checkpoint_key ticket_id)
          (s.json.dumps (checkpoint_payload stage snapshot saved_at))
          s.settings.redis_checkpoint_ttl_seconds)
        (λ e. if is_redis_error e then pure tt else raise e)

  -- a text that holds a time; any other value is a `TypeError`
  abbrev time_of : Json → Option Time
  time_of (str t) = s.fromisoformat t
  time_of _ = none

  -- the checkpoint in a payload; `none` where it is malformed
  unfoldable pub checkpoint_of : Uuid → Option Json → Option WorkflowCheckpoint
  checkpoint_of ticket_id (some (obj payload)) =
      and_then (get_field (codes "stage") payload) λ stage.
        and_then (get_field (codes "snapshot") payload) λ snapshot.
          and_then (get_field (codes "saved_at") payload) λ saved_at.
            and_then (time_of saved_at) λ time. some (record {
              ticket_id = ticket_id;
              stage = stage;
              snapshot = snapshot;
              saved_at = time;
            })
  checkpoint_of ticket_id _ = none

  unfoldable pub read_raw : Uuid → Option Text → Option WorkflowCheckpoint
  read_raw ticket_id none = none
  read_raw ticket_id (some raw) = checkpoint_of ticket_id (s.json.loads raw)

  -- `WorkflowCheckpointStore.get_latest`
  unfoldable pub get_latest : Uuid → Exec W (Option WorkflowCheckpoint)
  get_latest ticket_id = do
    raw ←
        try_except (s.redis.get (checkpoint_key ticket_id))
          (λ e. if is_redis_error e then pure none else raise e)
    pure (read_raw ticket_id raw)
