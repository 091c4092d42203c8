-- ===== src/Tests/Session.antt =====
-- A login, and the user behind its token. A token is the text of its subject.
use supportops_ai.Common.{
  ◌≡◌, refl, inl, inr, sym, List, ◌↔◌, [], ◌≢◌, ◌++◌, ◌∷◌, Text, codes, text_eq,
}
use supportops_ai.Python.{ok, pure}
use supportops_ai.Python.Returns.{Returns-pure}
use supportops_ai.Enums.{UserRole}
use supportops_ai.Json.{Fields, end, field, str}
use supportops_ai.Models.{User}
use supportops_ai.Auth.{
  Tokens, get_current_active_user, login, check_login, issue, create_access_token,
}
use supportops_ai.Auth.Me.{authenticated, read_current_user}
use supportops_ai.Auth.Me.RoundTrip.{AccountLaws, login-read_current_user}
use supportops_ai.RateLimit.{resolve_key, at_startup}
use supportops_ai.RateLimit.Users.{Bearer, with_token, login-resolve_key}
use supportops_ai.Str.{strip, rstrip, drop_while}
use supportops_ai.Sample.World.{World, empty}
use supportops_ai.Sample.Services.{agent_user, services, services_on}

abbrev subject_of : Fields → Text
subject_of (field _ (str t) _) = t
subject_of _ = []

unfoldable signed : Tokens World
signed = record {
  encode = λ claims. pure (subject_of claims);
  decode = λ token. pure (field (codes "sub") (str token) end);
  validate = λ f. ok (record { sub = subject_of f; role = UserRole.agent; exp = 9000 });
  parse_uuid = λ t. ok t;
  verify_password = λ password hash. pure (text_eq (35 ∷ password) hash);
  dummy_password_hash = codes "#none";
}

abbrev users : World → List User
users w = agent_user ∷ []

abbrev Fresh : World → Text → Type 0
Fresh w token = Unit {0}

signed-AccountLaws : AccountLaws services signed users Fresh
unfolding services services_on signed text_eq
signed-AccountLaws = record {
  opens = Returns-pure tt;
  closes = Returns-pure tt;
  open_keeps = record { kept = λ w. refl };
  decode_keeps = λ token. record { kept = λ w. refl };
  gets = λ u v m. elim m [ inl e ↦ (v, rw e refl) | inr h ↦ absurd h ];
  parses = λ u v m. refl;
  decodes = λ id role exp token w w' v h fresh.
      let e : id ≡ token = cc h in
      (
        field (codes "sub") (str token) end,
        record { sub = token; role = UserRole.agent; exp = 9000 },
        v,
        refl,
        refl,
        sym e,
      );
}

login-read_current_user_example :
    (v' : World) × (get_current_active_user services signed (codes "u1") empty
      ≡ (ok agent_user, v'))
    × (read_current_user services signed (codes "u1") empty ≡ (ok (authenticated agent_user), v'))
unfolding services services_on signed text_eq login check_login issue create_access_token
login-read_current_user_example =
    login-read_current_user services signed users Fresh signed-AccountLaws (codes "a@x")
      (codes "pw") (codes "u1") agent_user empty empty empty empty refl refl (inl refl) tt

-- the user of both requests has logged in
here : Bearer services signed users Fresh signed-AccountLaws agent_user (codes "u1") empty
unfolding services services_on signed text_eq login check_login issue create_access_token strip
    rstrip drop_while
here = record {
  email = codes "a@x";
  password = codes "pw";
  before = empty;
  looked_up = empty;
  after = empty;
  found = refl;
  answered = refl;
  fresh = tt;
  plain = refl;
}

login-resolve_key_example :
    (k k' : Text) × (w w' : World) × (resolve_key
        (at_startup services signed)
        (with_token (codes "u1") (codes "10.0.0.1"))
        empty
      ≡ (ok k, w))
    × (resolve_key (at_startup services signed) (with_token (codes "u1") (codes "10.0.0.2")) empty
        ≡ (ok k', w'))
    × ((k ≡ k') ↔ (agent_user.id ≡ agent_user.id))
    × ((other : Text) → k ≢ codes "ip:" ++ other)
login-resolve_key_example =
    login-resolve_key services signed users Fresh signed-AccountLaws agent_user agent_user
      (codes "u1") (codes "u1") (codes "10.0.0.1") (codes "10.0.0.2") empty empty here here
