-- ===== src/Auth/Login.antt =====
-- The login: backend/auth/router.py.
use supportops_ai.Common.{
  ◌≡◌, ◌⊎◌, inl, inr, Bool, true, false, Option, none, some, Text, if◌then◌else◌,
}
use supportops_ai.Python.{ok, raised, raise}
use supportops_ai.Python.Inversion.{bind_ok, then_raise-not_ok}
use supportops_ai.Models.{User}
use supportops_ai.Services.{Services, with_session}
use supportops_ai.Auth.{
  Tokens, login_failed, issue, check_login, create_access_token, login, inactive_user, hash_of,
}
use supportops_ai.Auth.Access.{guard_ok}

module _ {W : Type 0} (s : Services W) (t : Tokens W) where
  -- what a login has found when it answers with a token
  pub record LoggedIn (email password token : Text) (w w1 : W) : Type 0 where
    pub user : User
    pub looked_up : W
    pub verified : W
    pub found : with_session s (s.user_by_email email) w ≡ (ok (some user), looked_up)
    pub matches : t.verify_password password user.password_hash looked_up ≡ (ok true, verified)
    pub is_active : user.is_active ≡ true
    pub issued : create_access_token s t user.id user.role none verified ≡ (ok token, w1)

  issue_ok :
      (u : User) (token : Text) (w w1 : W)
      → issue s t u w ≡ (ok token, w1)
      → (u.is_active ≡ true) × (create_access_token s t u.id u.role none w ≡ (ok token, w1))
  unfolding issue
  issue_ok u token w w1 h =
      guard_ok u.is_active (create_access_token s t u.id u.role none) inactive_user w w1 token h

  check_login_ok :
      (email password token : Text) (o : Option User) (w w' w1 : W)
      → with_session s (s.user_by_email email) w ≡ (ok o, w')
      → check_login s t password o w' ≡ (ok token, w1)
      → LoggedIn email password token w w1
  unfolding check_login
  check_login_ok email password token none w w' w1 found h =
      absurd (then_raise-not_ok (t.verify_password password t.dummy_password_hash) _ w' w1 token h)
  check_login_ok email password token (some u) w w' w1 found h =
      let (b, w'', verified, rest) =
        bind_ok (t.verify_password password u.password_hash)
          (λ b. if b then issue s t u else raise login_failed) w' w1 token h in
      let (e, issued) = guard_ok b (issue s t u) login_failed w'' w1 token rest in
      let (is_active, made) = issue_ok u token w'' w1 issued in
      record {
        user = u;
        looked_up = w';
        verified = w'';
        found = found;
        matches = cc (verified, e);
        is_active = is_active;
        issued = made;
      }

  -- A login that answers with a token has found an active user with the email, the password verified
  -- against that user's hash, and the token is made for that user.
  pub login-LoggedIn :
      (email password token : Text) (w w1 : W)
      → login s t email password w ≡ (ok token, w1)
      → LoggedIn email password token w w1
  unfolding login
  login-LoggedIn email password token w w1 h =
      let (o, w', found, rest) =
        bind_ok (with_session s (s.user_by_email email)) (check_login s t password) w w1 token h in
      check_login_ok email password token o w w' w1 found rest

  -- The lookup of the email and the check of the password return: where no user has the email, or
  -- the password does not match, the login raises the same exception, in the world after the
  -- check.
  pub login_refusals :
      (email password : Text) (o : Option User) (b : Bool) (w w' w'' : W)
      → with_session s (s.user_by_email email) w ≡ (ok o, w')
      → t.verify_password password (hash_of s t o) w' ≡ (ok b, w'')
      → (o ≡ none) ⊎ (b ≡ false)
      → login s t email password w ≡ (raised login_failed, w'')
  unfolding login check_login
  login_refusals email password none b w w' w'' found verified h = rw found (rw verified)
  login_refusals email password (some u) true w w' w'' found verified (inl h) = absurd (cc)
  login_refusals email password (some u) true w w' w'' found verified (inr h) = absurd (cc)
  login_refusals email password (some u) false w w' w'' found verified h = rw found (rw verified)
