-- ===== src/RateLimit.antt =====
-- The key that a request is rate limited by: backend/core/rate_limit.py, with its registration in
-- backend/main.py.
pub mod Users
use supportops_ai.Common.{Option, none, some, Text, codes, ◌++◌}
use supportops_ai.Python.{Exec, pure}
use supportops_ai.Services.{Services}
use supportops_ai.Auth.{Tokens, Request, resolve_rate_limit_key}

-- `_key_resolver`
abbrev pub Resolver : Type 0 → Type 0
Resolver W = Request → Exec W Text

-- `register_key_resolver`: the last resolver that was registered
abbrev pub register_key_resolver :
    {W : Type 0} → Resolver W → Option (Resolver W) → Option (Resolver W)
register_key_resolver resolver registered = some resolver

unfoldable pub resolve_key : {W : Type 0} → Option (Resolver W) → Resolver W
resolve_key none request = pure (codes "ip:" ++ request.remote_address)
resolve_key (some resolver) request = resolver request

-- the registration at startup
unfoldable pub at_startup : {W : Type 0} → Services W → Tokens W → Option (Resolver W)
at_startup s t = register_key_resolver (resolve_rate_limit_key s t) none
