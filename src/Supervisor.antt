-- ===== src/Supervisor.antt =====
-- The supervisor's endpoints: backend/api/supervisor.py and backend/schemas/supervisor.py.
pub mod Decisions
pub mod Queue
pub mod Rows
pub mod Removal
use supportops_ai.Common.{ℕ, Option, none, some, List, [], ◌∷◌, Text, codes, length}
use supportops_ai.Python.{Uuid, Time, http_error, Exec, pure, raise, ◌>>=◌, ◌>>◌}
use supportops_ai.Enums.{UserRole, TicketPriority, ApprovalStatus}
use supportops_ai.Json.{Json, null, str, obj, end, field}
use supportops_ai.Models.{User, ApprovalRequest}
use supportops_ai.Services.{Services, with_session}
use supportops_ai.Audit.{log_audit_event}
use supportops_ai.Approvals.{list_pending, get_by_ticket_id, decide, update_draft}
use supportops_ai.Auth.{Tokens, require_role}

pub record SupervisorQueueItem : Type 0 where
  pub ticket_id : Uuid
  pub customer_id : Uuid
  pub priority : TicketPriority
  pub status : ApprovalStatus
  pub selected_agent : Text
  pub matched_policy_rules : List Text
  pub draft_response : Text
  pub retrieved_context : Option Text
  pub comments : Option Text
  pub requested_at : Time
  pub reviewed_at : Option Time
  pub reviewer_id : Option Uuid

pub record SupervisorQueueResponse : Type 0 where
  pub items : List SupervisorQueueItem
  pub total : ℕ

abbrev pub supervisor_roles : List UserRole
supervisor_roles = UserRole.supervisor ∷ UserRole.admin ∷ []

unfoldable pub to_queue_item : ApprovalRequest → SupervisorQueueItem
to_queue_item r = record {
  ticket_id = r.ticket_id;
  customer_id = r.customer_id;
  priority = r.priority;
  status = r.status;
  selected_agent = r.selected_agent;
  matched_policy_rules = r.matched_policy_rules;
  draft_response = r.draft_response;
  retrieved_context = r.retrieved_context;
  comments = r.comments;
  requested_at = r.requested_at;
  reviewed_at = r.decided_at;
  reviewer_id = r.approved_by;
}

unfoldable pub to_queue_items : List ApprovalRequest → List SupervisorQueueItem
to_queue_items [] = []
to_queue_items (r ∷ rs) = to_queue_item r ∷ to_queue_items rs

-- `{"comments": comments}`
abbrev pub comments_metadata : Option Text → Json
comments_metadata none = obj (field (codes "comments") null end)
comments_metadata (some t) = obj (field (codes "comments") (str t) end)

module _ {W : Type 0} (s : Services W) where
  abbrev pub or_404 : Option ApprovalRequest → Exec W ApprovalRequest
  or_404 none = raise (http_error 404 (codes "Ticket not found in supervisor queue"))
  or_404 (some r) = pure r

  unfoldable pub get_or_404 : Uuid → Exec W ApprovalRequest
  get_or_404 ticket_id = do approval_request ← get_by_ticket_id s ticket_id; or_404 approval_request

  unfoldable pub list_queue : Exec W SupervisorQueueResponse
  list_queue = do
    items ← with_session s (do pending ← list_pending s; pure (to_queue_items pending))
    pure (record { items = items; total = length items })

  unfoldable pub get_queue_item : User → Uuid → Exec W SupervisorQueueItem
  get_queue_item user ticket_id = do
    item ← with_session s (do r ← get_or_404 ticket_id; pure (to_queue_item r))
    log_audit_event s ticket_id (codes "supervisor_viewed")
        (codes "Supervisor viewed the AI draft response.") (some user.id) none
    pure item

  -- the session of `approve_ticket` and of `reject_ticket`
  unfoldable pub decide_ticket :
      User → Uuid → ApprovalStatus → Option Text → Exec W SupervisorQueueItem
  decide_ticket user ticket_id status comments = with_session s (do
    r ← get_or_404 ticket_id
    decided ← decide s r status user.id comments
    s.commit
    pure (to_queue_item decided))

  unfoldable pub approve_ticket : User → Uuid → Option Text → Exec W SupervisorQueueItem
  approve_ticket user ticket_id comments = do
    item ← decide_ticket user ticket_id ApprovalStatus.approved comments
    log_audit_event s ticket_id (codes "supervisor_approved")
        (codes "Supervisor approved the AI draft response.") (some user.id)
        (some (comments_metadata comments))
    pure item

  unfoldable pub edit_draft : User → Uuid → Text → Exec W SupervisorQueueItem
  edit_draft user ticket_id draft_response = do
    item ← with_session s (do
      r ← get_or_404 ticket_id
      edited ← update_draft s r draft_response
      s.commit
      pure (to_queue_item edited))
    log_audit_event s ticket_id (codes "supervisor_edited")
        (codes "Supervisor edited the AI draft response.") (some user.id) none
    pure item

  unfoldable pub reject_ticket : User → Uuid → Option Text → Exec W SupervisorQueueItem
  reject_ticket user ticket_id comments = do
    item ← decide_ticket user ticket_id ApprovalStatus.rejected comments
    log_audit_event s ticket_id (codes "supervisor_rejected")
        (codes "Supervisor rejected the AI draft response; marked for manual handling.")
        (some user.id) (some (comments_metadata comments))
    pure item

  -- a route behind `Depends(require_role(*_SUPERVISOR_ROLES))`, for a bearer token
  unfoldable pub as_supervisor : {A : Type 0} → Tokens W → Text → (User → Exec W A) → Exec W A
  as_supervisor tokens token route = do
    user ← require_role s tokens supervisor_roles token
    route user
