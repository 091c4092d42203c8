-- ===== src/Auth.antt =====
-- Users and their tokens: backend/auth/*.py and backend/core/security.py. A time is a number of
-- seconds here. `jose`, `passlib`, Pydantic and `uuid.UUID` are parameters.
pub mod Access
pub mod Login
pub mod Me
use supportops_ai.Common.{
  ℕ, Bool, true, false, Option, none, some, List, [], ◌∷◌, ◌++◌, Text, codes, drop, if◌then◌else◌,
  ◌||◌, ◌==◌, ◌*◌, ◌+◌,
}
use supportops_ai.Str.{lower, starts_with, strip}
use supportops_ai.Python.{
  Uuid, Time, Exn, jwt_error, value_error, http_error, Outcome, Exec, pure, raise, lift, try_except,
  ◌>>=◌, ◌>>◌,
}
use supportops_ai.Enums.{UserRole, user_role_value}
use supportops_ai.Json.{num, str, Fields, end, field}
use supportops_ai.Models.{User}
use supportops_ai.Services.{Services, with_session}

pub record TokenPayload : Type 0 where
  pub sub : Text
  pub role : UserRole
  pub exp : Time

pub record Tokens (W : Type 0) : Type 0 where
  -- `jose_jwt.encode` and `jose_jwt.decode` with the key and the algorithm of the settings
  pub encode : Fields → Exec W Text
  pub decode : Text → Exec W Fields
  -- `TokenPayload(**payload)`; a `ValidationError` is a `ValueError`
  pub validate : Fields → Outcome TokenPayload
  -- `uuid.UUID(text)`, which may raise a `ValueError`
  pub parse_uuid : Text → Outcome Uuid
  -- `_pwd_context.verify` and `_DUMMY_PASSWORD_HASH`
  pub verify_password : Text → Text → Exec W Bool
  pub dummy_password_hash : Text

abbrev pub credentials_exception : Exn
credentials_exception = http_error 401 (codes "Could not validate credentials")

abbrev pub forbidden_exception : Exn
forbidden_exception = http_error 403 (codes "Not enough permissions")

abbrev pub login_failed : Exn
login_failed = http_error 401 (codes "Incorrect email or password")

abbrev pub inactive_user : Exn
inactive_user = http_error 403 (codes "Inactive user")

-- `except JWTError`
abbrev pub is_jwt_error : Exn → Bool
is_jwt_error (jwt_error _) = true
is_jwt_error _ = false

-- `except ValueError`
abbrev pub is_value_error : Exn → Bool
is_value_error (value_error _) = true
is_value_error _ = false

-- `role in roles`
unfoldable pub has_role : UserRole → List UserRole → Bool
has_role r [] = false
has_role UserRole.agent (UserRole.agent ∷ rs) = true
has_role UserRole.supervisor (UserRole.supervisor ∷ rs) = true
has_role UserRole.admin (UserRole.admin ∷ rs) = true
has_role r (x ∷ rs) = has_role r rs

-- `expires_delta or timedelta(minutes=…)`: a zero `timedelta` is falsy
unfoldable pub lifetime : ℕ → Option ℕ → ℕ
lifetime minutes none = 60 * minutes
lifetime minutes (some seconds) = if seconds == 0 then 60 * minutes else seconds

abbrev pub claims_of : Uuid → UserRole → Time → Fields
claims_of user_id role expire =
    field (codes "sub") (str user_id)
      (field (codes "role") (str (user_role_value role)) (field (codes "exp") (num expire) end))

-- the request as `resolve_rate_limit_key` reads it: the header `authorization`, and
-- `get_remote_address(request)`
pub record Request : Type 0 where
  pub authorization : Option Text
  pub remote_address : Text

abbrev pub bearer_prefix : Text
bearer_prefix = codes "bearer "

abbrev pub header_or_empty : Option Text → Text
header_or_empty none = []
header_or_empty (some t) = t

module _ {W : Type 0} (s : Services W) (t : Tokens W) where
  unfoldable pub create_access_token : Uuid → UserRole → Option ℕ → Exec W Text
  create_access_token user_id role expires_delta = do
    now ← s.now
    t.encode (
        claims_of user_id role
          (now + lifetime s.settings.jwt_access_token_expire_minutes expires_delta))

  unfoldable pub decode_access_token : Text → Exec W TokenPayload
  decode_access_token token = do payload ← t.decode token; lift (t.validate payload)

  unfoldable pub user_id_of : Text → Exec W Uuid
  user_id_of token = do payload ← decode_access_token token; lift (t.parse_uuid payload.sub)

  abbrev pub present : Option User → Exec W User
  present none = raise credentials_exception
  present (some user) = pure user

  unfoldable pub get_current_user : Text → Exec W User
  get_current_user token = do
    user_id ←
        try_except (user_id_of token)
          λ e. if is_jwt_error e || is_value_error e then raise credentials_exception else raise e
    user ← with_session s (s.get_user user_id)
    present user

  unfoldable pub active : User → Exec W User
  active user = if user.is_active then pure user else raise forbidden_exception

  unfoldable pub get_current_active_user : Text → Exec W User
  get_current_active_user token = do user ← get_current_user token; active user

  unfoldable pub allowed : List UserRole → User → Exec W User
  allowed allowed_roles user =
      if has_role user.role allowed_roles then pure user else raise forbidden_exception

  -- `_check` of `require_role(*allowed_roles)`
  unfoldable pub require_role : List UserRole → Text → Exec W User
  require_role allowed_roles token = do
    user ← get_current_active_user token
    allowed allowed_roles user

  unfoldable pub issue : User → Exec W Text
  issue user =
      if user.is_active then create_access_token user.id user.role none else raise inactive_user

  -- the hash that a password is checked against
  abbrev pub hash_of : Option User → Text
  hash_of none = t.dummy_password_hash
  hash_of (some user) = user.password_hash

  -- the part of `login` that comes after the lookup; the token is the answer
  unfoldable pub check_login : Text → Option User → Exec W Text
  check_login password none = t.verify_password password t.dummy_password_hash >> raise login_failed
  check_login password (some user) = do
    verified ← t.verify_password password user.password_hash
    if verified then issue user else raise login_failed

  unfoldable pub login : Text → Text → Exec W Text
  login username password = do
    user ← with_session s (s.user_by_email username)
    check_login password user

  abbrev pub by_address : Request → Text
  by_address request = codes "ip:" ++ request.remote_address

  -- the key of a request that carries a token
  unfoldable pub key_by_token : Text → Request → Exec W Text
  key_by_token token request =
      try_except (do payload ← decode_access_token token; pure (codes "user:" ++ payload.sub))
        λ e. if is_jwt_error e then pure (by_address request) else raise e

  unfoldable pub resolve_rate_limit_key : Request → Exec W Text
  resolve_rate_limit_key request = do
    let auth_header = header_or_empty request.authorization
    if starts_with (lower auth_header) bearer_prefix
        then key_by_token (strip (drop 7 auth_header)) request
        else pure (by_address request)
