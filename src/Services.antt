-- ===== src/Services.antt =====
-- What the program calls and does not implement: Redis, the database session, OpenAI, CrewAI, the
-- clock and the libraries around them, as one parameter.
use supportops_ai.Common.{ℕ, Bool, Option, List, Text}
use supportops_ai.Python.{Exec, Uuid, Time, ◌>>◌, finally}
use supportops_ai.Json.{Codec}
use supportops_ai.Redis.{Redis}
use supportops_ai.Knowledge.{KnowledgeArticle}
use supportops_ai.Models.{
  User, Customer, Ticket, NewTicket, ApprovalRequest, NewApprovalRequest, AuditLog,
}

-- `Settings` of backend/config/settings.py: the fields that change what the program does.
pub record Settings : Type 0 where
  pub redis_idempotency_ttl_seconds : ℕ
  pub redis_checkpoint_ttl_seconds : ℕ
  pub redis_classification_cache_ttl_seconds : ℕ
  pub redis_knowledge_cache_ttl_seconds : ℕ
  pub jwt_access_token_expire_minutes : ℕ

-- the class attributes of a `SpecialistAgent`
pub record Profile : Type 0 where
  pub role : Text
  pub goal : Text
  pub backstory : Text
  pub category : Text

-- what `crew.kickoff()` returns: a `CrewOutput` with a parsed `_AgentTaskOutput`, or anything else,
-- with its `str`
pub data CrewOutput : Type 0 where
  structured : Text → Bool → CrewOutput
  unstructured : Text → CrewOutput

pub record Services (W : Type 0) : Type 0 where
  pub settings : Settings
  pub redis : Redis W
  pub json : Codec
  -- `hashlib.sha256(s.encode()).hexdigest()`
  pub sha256_hex : Text → Text
  -- `datetime.now(UTC)`, and the `isoformat` and `fromisoformat` of a time
  pub now : Exec W Time
  pub isoformat : Time → Text
  pub fromisoformat : Text → Option Time
  -- `async_session_factory()` and the end of its `async with` block
  pub open_session : Exec W (Unit {0})
  pub close_session : Exec W (Unit {0})
  pub commit : Exec W (Unit {0})
  pub rollback : Exec W (Unit {0})
  -- `session.get(Customer, id)`
  pub get_customer : Uuid → Exec W (Option Customer)
  -- `select(User).where(User.email == email)` and `session.get(User, id)`
  pub user_by_email : Text → Exec W (Option User)
  pub get_user : Uuid → Exec W (Option User)
  -- `session.add(row)` with `session.flush()`: the row, or its key, as the database completed it
  pub insert_ticket : NewTicket → Exec W Ticket
  pub insert_approval_request : NewApprovalRequest → Exec W Uuid
  pub insert_audit_log : AuditLog → Exec W (Unit {0})
  -- `select(ApprovalRequest)` by key, and by a condition in the order of `requested_at`, each with
  -- its ticket; the Boolean asks for the ascending order
  pub approval_by_id : Uuid → Exec W ApprovalRequest
  pub select_approvals : (ApprovalRequest → Bool) → Bool → Exec W (List ApprovalRequest)
  -- `session.flush()` after the attributes of a loaded row were set
  pub flush_approval : ApprovalRequest → Exec W (Unit {0})
  -- the articles of a category, the newest first
  pub select_articles : Text → Exec W (List KnowledgeArticle)
  -- `OpenAI(api_key=…, timeout=…)`
  pub new_open_ai : Exec W (Unit {0})
  -- `client.chat.completions.parse(…)`: the category of the parsed message, given the two prompts
  pub parse_classification : Text → Text → Exec W (Option Text)
  -- `LLM(…)` and `Agent(…)`; `Task(…)` and `Crew(…)`; `crew.kickoff()`
  pub new_agent : Profile → Exec W (Unit {0})
  pub new_crew : Profile → Text → Exec W (Unit {0})
  pub kickoff : Profile → Text → Exec W CrewOutput

-- `async with async_session_factory() as session: body`
abbrev pub with_session : {W A : Type 0} → Services W → Exec W A → Exec W A
with_session s body = s.open_session >> finally body s.close_session
