-- ===== src/RateLimit/Users.antt =====
-- The keys of the requests of users who have logged in: backend/core/rate_limit.py with
-- backend/auth/rate_limit_key.py.
use supportops_ai.Common.{
  ◌≡◌, ◌≢◌, ◌↔◌, refl, true, arith, ℕ, [], ◌∷◌, ap, some, List, ◌++◌, Text, codes, drop,
}
use supportops_ai.Str.{lower, lower_char, starts_with, strip}
use supportops_ai.Python.{ok}
use supportops_ai.Models.{User}
use supportops_ai.Services.{Services, with_session}
use supportops_ai.Auth.{
  Tokens, Request, bearer_prefix, decode_access_token, key_by_token, login, resolve_rate_limit_key,
}
use supportops_ai.Auth.Me.RoundTrip.{AccountLaws, login-encoded}
use supportops_ai.RateLimit.{resolve_key, at_startup}

-- a request from an address, with the header `Authorization: Bearer <token>`
abbrev pub with_token : Text → Text → Request
with_token token address = record {
  authorization = some (codes "Bearer " ++ token);
  remote_address = address;
}

user_key_iff : (a b : Text) → (codes "user:" ++ a ≡ codes "user:" ++ b) ↔ (a ≡ b)
user_key_iff a b = (λ h. ap (drop 5) h, λ h. ap (λ x. codes "user:" ++ x) h)

abbrev first_code : Text → ℕ
first_code [] = 0
first_code (c ∷ t) = c

no_u : ◌≢◌ {A = ℕ} 117 105
no_u h = omega arith

user_key-no_address : (a address : Text) → codes "user:" ++ a ≢ codes "ip:" ++ address
user_key-no_address a address h = absurd (no_u (ap first_code h))

is_bearer : (token : Text) → starts_with (lower (codes "Bearer " ++ token)) bearer_prefix ≡ true
unfolding lower lower_char starts_with
is_bearer [] = refl
is_bearer (c ∷ token) = refl

module _ {W : Type 0} (s : Services W) (t : Tokens W) (users : W → List User)
    (Fresh : W → Text → Type 0) (L : AccountLaws s t users Fresh) where
  -- A user has logged in, and the token has not expired.
  pub record Bearer (u : User) (token : Text) (v : W) : Type 0 where
    pub email : Text
    pub password : Text
    pub before : W
    pub looked_up : W
    pub after : W
    pub found : with_session s (s.user_by_email email) before ≡ (ok (some u), looked_up)
    pub answered : login s t email password before ≡ (ok token, after)
    pub fresh : Fresh v token
    -- white space is no part of a token
    pub plain : strip token ≡ token

  user_key :
      (u : User) (token address : Text) (v : W)
      → Bearer u token v
      → (v' : W) × (resolve_key (at_startup s t) (with_token token address) v
          ≡ (ok (codes "user:" ++ u.id), v'))
  unfolding resolve_key at_startup resolve_rate_limit_key key_by_token decode_access_token
  user_key u token address v bearer =
      let (exp, w2, encoded, _) =
        login-encoded s t users Fresh L bearer.email bearer.password token u bearer.before
          bearer.looked_up bearer.after bearer.found bearer.answered in
      let (f, p, v', decoded, valid, subject) =
        L.decodes u.id u.role exp token w2 bearer.after v encoded bearer.fresh in
      (v', rw (is_bearer token) (rw bearer.plain (rw decoded (rw valid (rw subject refl)))))

  -- Two users have logged in, or one has twice, and each sends a request with a token of its own, from
  -- any addresses. At startup's registration both requests have keys: they are the same exactly
  -- when the users are, whatever the addresses, and they are none of the keys that requests without
  -- a token have.
  pub login-resolve_key :
      (u u' : User) (token token' address address' : Text) (v v' : W)
      → Bearer u token v
      → Bearer u' token' v'
      → (k k' : Text) × (w w' : W) × (resolve_key (at_startup s t) (with_token token address) v
          ≡ (ok k, w))
        × (resolve_key (at_startup s t) (with_token token' address') v' ≡ (ok k', w'))
        × ((k ≡ k') ↔ (u.id ≡ u'.id))
        × ((other : Text) → k ≢ codes "ip:" ++ other)
  login-resolve_key u u' token token' address address' v v' one two =
      let (w, first) = user_key u token address v one in
      let (w', second) = user_key u' token' address' v' two in
      (_, _, w, w', first, second, user_key_iff u.id u'.id, user_key-no_address u.id)
