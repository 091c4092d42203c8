-- ===== src/Approvals.antt =====
-- The supervisor queue's rows: backend/database/repositories/approval_request.py.
use supportops_ai.Common.{Bool, true, false, Option, none, some, List, [], ◌∷◌, Text, text_eq}
use supportops_ai.Python.{Uuid, Exec, pure, ◌>>=◌, ◌>>◌}
use supportops_ai.Enums.{ApprovalStatus}
use supportops_ai.Models.{ApprovalRequest}
use supportops_ai.Services.{Services}

-- `status == ApprovalStatus.PENDING`
unfoldable pub is_pending_status : ApprovalStatus → Bool
is_pending_status ApprovalStatus.pending = true
is_pending_status ApprovalStatus.approved = false
is_pending_status ApprovalStatus.rejected = false

abbrev pub is_pending : ApprovalRequest → Bool
is_pending r = is_pending_status r.status

-- `result.scalars().first()`
abbrev pub first {ℓ} : {A : Type ℓ} → List A → Option A
first [] = none
first (x ∷ xs) = some x

module _ {W : Type 0} (s : Services W) where
  unfoldable pub create_pending :
      Uuid → Text → Option Text → Text → List Text → Exec W ApprovalRequest
  create_pending ticket_id draft_response retrieved_context selected_agent matched_policy_rules = do
    id ← s.insert_approval_request (record {
      ticket_id = ticket_id;
      status = ApprovalStatus.pending;
      draft_response = draft_response;
      retrieved_context = retrieved_context;
      selected_agent = selected_agent;
      matched_policy_rules = matched_policy_rules;
    })
    s.approval_by_id id

  -- the oldest first
  unfoldable pub list_pending : Exec W (List ApprovalRequest)
  list_pending = s.select_approvals is_pending true

  -- the most recent of the ticket's requests
  unfoldable pub get_by_ticket_id : Uuid → Exec W (Option ApprovalRequest)
  get_by_ticket_id ticket_id = do
    rows ← s.select_approvals (λ r. text_eq r.ticket_id ticket_id) false
    pure (first rows)

  unfoldable pub decide :
      ApprovalRequest → ApprovalStatus → Uuid → Option Text → Exec W ApprovalRequest
  decide approval_request status reviewer_id comments = do
    now ← s.now
    let decided = record approval_request {
      status = status;
      approved_by = some reviewer_id;
      comments = comments;
      decided_at = some now;
    }
    s.flush_approval decided
    pure decided

  unfoldable pub update_draft : ApprovalRequest → Text → Exec W ApprovalRequest
  update_draft approval_request draft_response = do
    let edited = record approval_request { draft_response = draft_response }
    s.flush_approval edited
    pure edited
