-- ===== src/Audit.antt =====
-- Audit events: backend/services/audit.py and backend/database/repositories/audit_log.py.
use supportops_ai.Common.{Option, none, some, Text}
use supportops_ai.Python.{Uuid, Exec, pure, try_except, ◌>>◌}
use supportops_ai.Json.{Json, obj, end}
use supportops_ai.Python.Returns.{Returns, Returns-pure, Returns-try}
use supportops_ai.Services.{Services, with_session}

-- `metadata or {}`
abbrev pub or_empty : Option Json → Json
or_empty none = obj end
or_empty (some v) = v

module _ {W : Type 0} (s : Services W) where
  -- `AuditLogRepository.create`
  unfoldable pub create : Uuid → Text → Text → Option Uuid → Json → Exec W (Unit {0})
  create ticket_id event_type description user_id metadata = s.insert_audit_log (record {
    ticket_id = ticket_id;
    user_id = user_id;
    event_type = event_type;
    description = description;
    event_metadata = metadata;
  })

  -- a failed write is logged and never raised
  unfoldable pub log_audit_event :
      Uuid → Text → Text → Option Uuid → Option Json → Exec W (Unit {0})
  unfolding create
  log_audit_event ticket_id event_type description user_id metadata =
      try_except
        (with_session s
          (create ticket_id event_type description user_id (or_empty metadata) >> s.commit))
        (λ _. pure tt)

  -- An audit event that cannot be written raises nothing.
  pub log_audit_event-Returns :
      (ticket_id : Uuid) (event_type description : Text) (user_id : Option Uuid)
      (metadata : Option Json)
      → Returns (log_audit_event ticket_id event_type description user_id metadata)
  unfolding log_audit_event
  log_audit_event-Returns ticket_id event_type description user_id metadata =
      Returns-try _ (λ _. pure tt) (λ _. Returns-pure tt)
