-- ===== src/Auth/Me/RoundTrip.antt =====
-- From a login to the current user: backend/auth/router.py, jwt.py and dependencies.py.
use supportops_ai.Common.{◌≡◌, refl, true, some, List, Text, In}
use supportops_ai.Python.{Uuid, Time, ok}
use supportops_ai.Python.Inversion.{bind_ok}
use supportops_ai.Python.Returns.{Returns}
use supportops_ai.Python.Keeps.{Keeps, Keeps-at}
use supportops_ai.Enums.{UserRole}
use supportops_ai.Json.{Fields}
use supportops_ai.Models.{User}
use supportops_ai.Services.{Services, with_session}
use supportops_ai.Auth.{
  Tokens, TokenPayload, claims_of, create_access_token, decode_access_token, user_id_of,
  get_current_user, get_current_active_user, active, login,
}
use supportops_ai.Auth.Login.{login-LoggedIn}
use supportops_ai.Auth.Me.{authenticated, read_current_user}

-- What the libraries document. `users w` are the stored users, and `Fresh v token` says that the time
-- at which a token expires has not come in `v`.
pub record AccountLaws {W : Type 0} (s : Services W) (t : Tokens W) (users : W → List User)
    (Fresh : W → Text → Type 0) : Type 0 where
  pub opens : Returns s.open_session
  pub closes : Returns s.close_session
  pub open_keeps : Keeps users s.open_session
  pub decode_keeps : (token : Text) → Keeps users (t.decode token)
  -- `session.get` by the key of a stored row
  pub gets :
      (u : User) (v : W) → In u (users v) → (v' : W) × (s.get_user u.id v ≡ (ok (some u), v'))
  -- the text of a stored key is that of a UUID
  pub parses : (u : User) (v : W) → In u (users v) → t.parse_uuid u.id ≡ ok u.id
  -- a token that was encoded with the key decodes, until it expires, to claims with its subject
  pub decodes :
      (id : Uuid) (role : UserRole) (exp : Time) (token : Text) (w w' v : W)
      → t.encode (claims_of id role exp) w ≡ (ok token, w')
      → Fresh v token
      → (f : Fields) × (p : TokenPayload) × (v' : W) × (t.decode token v ≡ (ok f, v'))
        × (t.validate f ≡ ok p)
        × (p.sub ≡ id)

module _ {W : Type 0} (s : Services W) (t : Tokens W) (users : W → List User)
    (Fresh : W → Text → Type 0) (L : AccountLaws s t users Fresh) where
  user_found :
      (u : User) (v : W)
      → In u (users v)
      → (v' : W) × (with_session s (s.get_user u.id) v ≡ (ok (some u), v'))
  user_found u v there =
      let (_, v1, opened) = L.opens.at v in
      let kept : users v1 ≡ users v = Keeps-at _ v v1 _ L.open_keeps opened in
      let (v2, found) = L.gets u v1 (rw kept there) in
      let (_, v3, closed) = L.closes.at v2 in (v3, rw opened (rw found (rw closed refl)))

  -- the token of a user, in a world where that user is stored and active
  current_user_of :
      (u : User) (exp : Time) (token : Text) (w w' v : W)
      → t.encode (claims_of u.id u.role exp) w ≡ (ok token, w')
      → Fresh v token
      → In u (users v)
      → u.is_active ≡ true
      → (v' : W) × (get_current_active_user s t token v ≡ (ok u, v'))
  unfolding get_current_active_user get_current_user user_id_of decode_access_token active
  current_user_of u exp token w w' v encoded fresh there is_active =
      let (f, p, v1, decoded, valid, subject) =
        L.decodes u.id u.role exp token w w' v encoded fresh in
      let kept : users v1 ≡ users v = Keeps-at _ v v1 _ (L.decode_keeps token) decoded in
      let parsed = L.parses u v there in
      let (v2, found) = user_found u v1 (rw kept there) in
      (v2, rw decoded (rw valid (rw subject (rw parsed (rw found (rw is_active refl))))))

  -- the token of a login is made of the claims of the user with the address
  pub login-encoded :
      (email password token : Text) (u : User) (w w0 w1 : W)
      → with_session s (s.user_by_email email) w ≡ (ok (some u), w0)
      → login s t email password w ≡ (ok token, w1)
      → (exp : Time) × (w2 : W) × (t.encode (claims_of u.id u.role exp) w2 ≡ (ok token, w1))
        × (u.is_active ≡ true)
  unfolding create_access_token
  login-encoded email password token u w w0 w1 looked answered =
      let logged = login-LoggedIn s t email password token w w1 answered in
      let same : logged.user ≡ u = cc (logged.found, looked) in
      let issued = rw same at logged.issued in
      let (now, w2, timed, encoded) = bind_ok s.now _ logged.verified w1 token issued in
      (_, w2, encoded, rw same at logged.is_active)

  -- A login with the address of a user has answered with a token. In any world where that user is
  -- still stored and the token has not expired, whoever presents the token is that user, and
  -- `GET /auth/me` answers with the user's columns other than the password hash.
  pub login-read_current_user :
      (email password token : Text) (u : User) (w w0 w1 v : W)
      → with_session s (s.user_by_email email) w ≡ (ok (some u), w0)
      → login s t email password w ≡ (ok token, w1)
      → In u (users v)
      → Fresh v token
      → (v' : W) × (get_current_active_user s t token v ≡ (ok u, v'))
        × (read_current_user s t token v ≡ (ok (authenticated u), v'))
  unfolding read_current_user
  login-read_current_user email password token u w w0 w1 v looked answered there fresh =
      let (exp, w2, encoded, is_active) =
        login-encoded email password token u w w0 w1 looked answered in
      let (v', current) = current_user_of u exp token w2 w1 v encoded fresh there is_active in
      (v', current, rw current refl)
