-- ===== src/Auth/Me.antt =====
-- The current user: `GET /auth/me` of backend/auth/router.py, with backend/schemas/auth.py.
pub mod RoundTrip
use supportops_ai.Common.{Bool, Text}
use supportops_ai.Python.{Uuid, Exec, pure, ◌>>=◌}
use supportops_ai.Enums.{UserRole}
use supportops_ai.Models.{User}
use supportops_ai.Services.{Services}
use supportops_ai.Auth.{Tokens, get_current_active_user}

pub record AuthenticatedUser : Type 0 where
  pub id : Uuid
  pub email : Text
  pub full_name : Text
  pub role : UserRole
  pub is_active : Bool

-- `response_model=AuthenticatedUser`, from the attributes of the row
abbrev pub authenticated : User → AuthenticatedUser
authenticated u = record {
  id = u.id;
  email = u.email;
  full_name = u.full_name;
  role = u.role;
  is_active = u.is_active;
}

unfoldable pub read_current_user :
    {W : Type 0} → Services W → Tokens W → Text → Exec W AuthenticatedUser
read_current_user s t token =
    get_current_active_user s t token >>= λ user. pure (authenticated user)
