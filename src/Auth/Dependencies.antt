-- ===== src/Auth/Dependencies.antt =====
-- backend/app/modules/auth/dependencies.py: who the caller of an endpoint is.
pub mod Memberships
pub mod Identity
use Prim.Native.String.{slice, len}
use ai_business_automation.Prelude.{
  ℕ, String, Option, none, some, Bool, true, false, not, ◌||◌, List, [], ◌∷◌, str_eq, starts_with,
  any,
}
use ai_business_automation.Errors.{Result, ok, err, ◌>>=◌, ◌>>◌, unauthorized, raise_if}
use ai_business_automation.Workflows.Graph.{Values}
use ai_business_automation.Security.{Claims, Jwt, decode_access_token}
use ai_business_automation.Auth.Models.{User, AuthDb}
use ai_business_automation.Auth.Platform.{Platform}
use ai_business_automation.Auth.Refresh.{session_user}

-- `request.headers.get("Authorization", "")`
abbrev pub header : Option String → String
header none = ""
header (some text) = text

-- `_bearer_token`
unfoldable pub bearer_token : Option String → Result String
bearer_token authorization = do
  raise_if (not (starts_with (header authorization) "Bearer ")) (unauthorized "UNAUTHORIZED")
  let token = slice (header authorization) 7 (len (header authorization))
  raise_if (str_eq token "") (unauthorized "UNAUTHORIZED")
  ok token

-- `payload.get(claim, "")`
abbrev pub claim_or_empty : Option String → String
claim_or_empty none = ""
claim_or_empty (some text) = text

-- Whether a claim is one of the texts; a claim that is missing is none of them.
abbrev pub is_one_of : Option String → List String → Bool
is_one_of none texts = false
is_one_of (some text) texts = any (str_eq text) texts

module _ (p : Platform) {v : Values} where
  -- The user, with the payload that is attached to him.
  unfoldable pub get_current_user : ℕ → p.jwt.Token → AuthDb v → Result (User × Claims)
  get_current_user now token db = do
    payload ← decode_access_token p.jwt now token
    user ← session_user p (claim_or_empty payload.user_id) db
    ok (user, payload)

unfoldable pub require_verified_email : User × Claims → Result (User × Claims)
require_verified_email (user, payload) =
    raise_if (not user.is_verified) (unauthorized "EMAIL_NOT_VERIFIED") >> ok (user, payload)

unfoldable pub require_scope : String → User × Claims → Result (User × Claims)
require_scope scope (user, payload) =
    raise_if (not (is_one_of payload.scope (scope ∷ []))) (unauthorized "FORBIDDEN")
    >> ok (user, payload)

unfoldable pub require_role : List String → User × Claims → Result (User × Claims)
require_role roles (user, payload) =
    raise_if (not (is_one_of payload.role roles)) (unauthorized "FORBIDDEN") >> ok (user, payload)
