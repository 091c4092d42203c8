-- ===== src/Tests/Desk.antt =====
-- Users and supervisors at concrete inputs.
use supportops_ai.Common.{
  ◌≡◌, refl, none, [], ◌∷◌, codes, text_eq, select, select-In, if◌then◌else◌,
}
use supportops_ai.Python.{jwt_error, ok, raised, pure, raise}
use supportops_ai.Python.Returns.{Returns-pure}
use supportops_ai.Json.{end}
use supportops_ai.Enums.{UserRole, ApprovalStatus}
use supportops_ai.Auth.{
  Tokens, require_role, login, decode_access_token, get_current_user, issue, allowed,
  get_current_active_user, user_id_of, has_role, active, check_login, create_access_token,
}
use supportops_ai.Auth.Access.{Admitted, require_role-Admitted}
use supportops_ai.Auth.Login.{LoggedIn, login-LoggedIn}
use supportops_ai.Supervisor.{
  SupervisorQueueItem, SupervisorQueueResponse, get_queue_item, approve_ticket, edit_draft,
  reject_ticket, to_queue_items,
}
use supportops_ai.Supervisor.Decisions.{
  absent, absent_404, Decided, decision-Decided, edit_draft-keeps,
}
use supportops_ai.Supervisor.Queue.{SelectLaws}
use supportops_ai.Sample.World.{World, empty}
use supportops_ai.Sample.Services.{agent_user, request, services, services_on}

-- tokens that are the text of the user's identifier, and passwords behind a `#`
unfoldable pub tokens : Tokens World
tokens = record {
  encode = λ claims. pure (codes "token");
  decode =
      λ token. if text_eq token (codes "u1") then pure end else raise (jwt_error (codes "bad"));
  validate = λ fields. ok (record { sub = codes "u1"; role = UserRole.supervisor; exp = 9000 });
  parse_uuid = λ t. ok t;
  verify_password = λ password hash. pure (text_eq (35 ∷ password) hash);
  dummy_password_hash = codes "#none";
}

require_role-Admitted_example :
    Admitted services tokens
      (UserRole.supervisor ∷ UserRole.admin ∷ [])
      (codes "u1")
      empty
      agent_user
      empty
unfolding services services_on tokens text_eq require_role get_current_active_user get_current_user
    user_id_of decode_access_token active allowed has_role
require_role-Admitted_example =
    require_role-Admitted services tokens (UserRole.supervisor ∷ UserRole.admin ∷ []) (codes "u1")
      agent_user empty empty refl

login-LoggedIn_example :
    LoggedIn services tokens (codes "a@x") (codes "pw") (codes "token") empty empty
unfolding services services_on tokens text_eq login check_login issue create_access_token
login-LoggedIn_example =
    login-LoggedIn services tokens (codes "a@x") (codes "pw") (codes "token") empty empty refl

absent_404_example :
    (get_queue_item services agent_user (codes "t9") empty ≡ (raised (absent services), empty))
    × (approve_ticket services agent_user (codes "t9") none empty
        ≡ (raised (absent services), empty))
    × (edit_draft services agent_user (codes "t9") (codes "Hi") empty
        ≡ (raised (absent services), empty))
    × (reject_ticket services agent_user (codes "t9") none empty
        ≡ (raised (absent services), empty))
unfolding services services_on text_eq
absent_404_example =
    absent_404 services agent_user (codes "t9") none (codes "Hi") empty empty empty empty refl refl
      refl

decision-Decided_example :
    ((item : SupervisorQueueItem) × (w' : World) × (approve_ticket services agent_user
          (codes "t1")
          none
          empty
        ≡ (ok item, w'))
      × Decided services request ApprovalStatus.approved agent_user none 1000 item)
    × ((item : SupervisorQueueItem) × (w' : World) × (reject_ticket services agent_user
            (codes "t1")
            none
            empty
          ≡ (ok item, w'))
        × Decided services request ApprovalStatus.rejected agent_user none 1000 item)
unfolding services services_on text_eq
decision-Decided_example =
    decision-Decided services agent_user (codes "t1") none request [] 1000 empty empty empty empty
      refl refl refl (λ row. Returns-pure tt) (Returns-pure tt) (Returns-pure tt)

services-SelectLaws : SelectLaws services
unfolding services services_on
services-SelectLaws = record {
  selected = λ test ascending w w' rows h r found.
      let same : select test (request ∷ []) ≡ rows = cc h in
      (select-In test r (request ∷ []) (rw same found)).1;
}

abbrev queue : SupervisorQueueResponse
queue = record { items = to_queue_items (request ∷ []); total = 1 }

edit_draft-keeps_example :
    (item : SupervisorQueueItem) × (w' : World) × (edit_draft services agent_user
        (codes "t1")
        (codes "Hi")
        empty
      ≡ (ok item, w'))
    × (item.draft_response ≡ codes "Hi")
    × (item.status ≡ request.status)
    × (item.reviewer_id ≡ request.approved_by)
    × (item.reviewed_at ≡ request.decided_at)
unfolding services services_on text_eq
edit_draft-keeps_example =
    edit_draft-keeps services agent_user (codes "t1") (codes "Hi") request [] empty empty empty refl
      refl (λ row. Returns-pure tt) (Returns-pure tt) (Returns-pure tt)
