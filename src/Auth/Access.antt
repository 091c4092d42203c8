-- ===== src/Auth/Access.antt =====
-- The guards of the routes: backend/auth/dependencies.py.
use supportops_ai.Common.{
  ◌≡◌, ◌≢◌, refl, inl, inr, Bool, true, false, Option, none, some, List, [], ◌∷◌, Text,
  if◌then◌else◌, In, ◌||◌,
}
use supportops_ai.Python.{Uuid, Exn, ok, Exec, pure, raise, ◌>>=◌, try_except}
use supportops_ai.Python.Inversion.{bind_ok, try_ok}
use supportops_ai.Enums.{UserRole}
use supportops_ai.Models.{User}
use supportops_ai.Services.{Services, with_session}
use supportops_ai.Auth.{
  Tokens, forbidden_exception, credentials_exception, is_jwt_error, is_value_error, has_role,
  user_id_of, present, get_current_user, active, get_current_active_user, allowed, require_role,
}

pub has_role-In : (r : UserRole) (rs : List UserRole) → has_role r rs ≡ true → In r rs
unfolding has_role
has_role-In r [] h = absurd (cc)
has_role-In UserRole.agent (UserRole.agent ∷ rs) h = inl refl
has_role-In UserRole.agent (UserRole.supervisor ∷ rs) h = inr (has_role-In _ rs h)
has_role-In UserRole.agent (UserRole.admin ∷ rs) h = inr (has_role-In _ rs h)
has_role-In UserRole.supervisor (UserRole.supervisor ∷ rs) h = inl refl
has_role-In UserRole.supervisor (UserRole.agent ∷ rs) h = inr (has_role-In _ rs h)
has_role-In UserRole.supervisor (UserRole.admin ∷ rs) h = inr (has_role-In _ rs h)
has_role-In UserRole.admin (UserRole.admin ∷ rs) h = inl refl
has_role-In UserRole.admin (UserRole.agent ∷ rs) h = inr (has_role-In _ rs h)
has_role-In UserRole.admin (UserRole.supervisor ∷ rs) h = inr (has_role-In _ rs h)

-- A guard that raises where its test fails has tested what it passes.
pub guard_ok :
    {W A : Type 0} (b : Bool) (m : Exec W A) (e : Exn) (w w1 : W) (a : A)
    → (if b then m else raise e) w ≡ (ok a, w1)
    → (b ≡ true) × (m w ≡ (ok a, w1))
guard_ok true m e w w1 a h = (refl, h)
guard_ok false m e w w1 a h = absurd (cc)

module _ {W : Type 0} (s : Services W) (t : Tokens W) where
  allowed_ok :
      (roles : List UserRole) (user u : User) (w w1 : W)
      → allowed s t roles user w ≡ (ok u, w1)
      → (has_role user.role roles ≡ true) × (pure user w ≡ (ok u, w1))
  unfolding allowed
  allowed_ok roles user u w w1 h =
      guard_ok (has_role user.role roles) (pure user) forbidden_exception w w1 u h

  active_ok :
      (user u : User) (w w1 : W)
      → active s t user w ≡ (ok u, w1)
      → (user.is_active ≡ true) × (pure user w ≡ (ok u, w1))
  unfolding active
  active_ok user u w w1 h = guard_ok user.is_active (pure user) forbidden_exception w w1 u h

  present_ok :
      (o : Option User) (u : User) (w w1 : W)
      → present s t o w ≡ (ok u, w1)
      → ◌≡◌ {A = Option User × W} (o, w) (some u, w1)
  present_ok none u w w1 h = absurd (cc)
  present_ok (some v) u w w1 h = cc

  refuses-not_ok :
      (b : Bool) (e x : Exn) (id : Uuid) (v v' : W)
      → (if b then raise e else raise x) v ≢ (ok id, v')
  refuses-not_ok true e x id v v' h = cc
  refuses-not_ok false e x id v v' h = cc

  -- what a user who passed has shown
  pub record Admitted (roles : List UserRole) (token : Text) (w : W) (u : User) (w1 : W)
      : Type 0 where
    pub role : In u.role roles
    pub is_active : u.is_active ≡ true
    pub id : Uuid
    pub decoded : W
    pub identified : user_id_of s t token w ≡ (ok id, decoded)
    pub found : with_session s (s.get_user id) decoded ≡ (ok (some u), w1)

  current_user_ok :
      (token : Text) (u : User) (w w1 : W)
      → get_current_user s t token w ≡ (ok u, w1)
      → (id : Uuid) × (w' : W) × (user_id_of s t token w ≡ (ok id, w'))
        × (with_session s (s.get_user id) w' ≡ (ok (some u), w1))
  unfolding get_current_user
  current_user_ok token u w w1 h =
      let refuse : Exn → Exec W Uuid =
        λ e. if is_jwt_error e || is_value_error e then raise credentials_exception else raise e in
      let look : Uuid → Exec W (Option User) = λ id. with_session s (s.get_user id) in
      let (id, w', tried, rest) =
        bind_ok (try_except (user_id_of s t token) refuse) (λ i. look i >>= present s t) w w1 u h in
      let identified =
        try_ok (user_id_of s t token) refuse w w' id
          (λ e v. refuses-not_ok _ credentials_exception e id v w') tried in
      let (o, w'', found, last) = bind_ok (look id) (present s t) w' w1 u rest in
      let same = present_ok o u w'' w1 last in
      let found' : look id w' ≡ (ok (some u), w1) = cc in (id, w', identified, found')

  -- Whoever passes `require_role` is the active user that the database holds under the identifier in
  -- the valid token, and has one of the roles.
  pub require_role-Admitted :
      (roles : List UserRole) (token : Text) (u : User) (w w1 : W)
      → require_role s t roles token w ≡ (ok u, w1)
      → Admitted roles token w u w1
  unfolding require_role get_current_active_user
  require_role-Admitted roles token u w w1 h =
      let (user, w', a, b) =
        bind_ok (get_current_active_user s t token) (allowed s t roles) w w1 u h in
      let (role, same) = allowed_ok roles user u w' w1 b in
      let (user', w'', c, d) = bind_ok (get_current_user s t token) (active s t) w w' user a in
      let (is_active, same') = active_ok user' user w'' w' d in
      let e : user ≡ u = cc same in
      let e' : get_current_user s t token w ≡ (ok u, w1) = cc (c, same) in
      let (id, decoded, identified, found) = current_user_ok token u w w1 e' in
      let e'' : user' ≡ u = cc (same', same) in
      record {
        role = rw (← e) (has_role-In user.role roles role);
        is_active = rw (← e'') is_active;
        id = id;
        decoded = decoded;
        identified = identified;
        found = found;
      }
