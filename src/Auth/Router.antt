-- ===== src/Auth/Router.antt =====
-- The endpoints of backend/app/modules/auth/router.py. Each returns its answer, with what it does
-- to the cookie of the refresh token, and what it left in Redis. What it leaves of the tables is
-- the view of its database session, which it never commits.
pub mod Limits
pub mod Leaving
use Prim.Native.String.{◌++◌ as text_append}
use ai_business_automation.Prelude.{
  ℕ, ◌*◌, String, Option, none, some, Bool, true, false, str_eq, if◌then◌else◌,
}
use ai_business_automation.Errors.{Result, ok, err, app, uncaught, ◌>>=◌, unauthorized}
use ai_business_automation.Workflows.Graph.{Values}
use ai_business_automation.Security.{Claims, Jwt}
use ai_business_automation.RateLimit.{SortedSets, check_rate_limit}
use ai_business_automation.Auth.Models.{User, AuthDb}
use ai_business_automation.Auth.Redis.{Redis}
use ai_business_automation.Auth.Platform.{Platform}
use ai_business_automation.Auth.Sessions.{LoginRequest, LoginAnswer, choose, session, login}
use ai_business_automation.Auth.Refresh.{MeResponse, refresh, logout, me}
use ai_business_automation.Auth.Dependencies.{get_current_user}

-- What a response does to the cookie "refresh_token".
pub data Cookie (Token : Type 0) : Type 0 where
  keep_cookie clear_refresh_cookie : Cookie Token
  set_refresh_cookie : Token → Cookie Token

-- `f"login:{client_ip}"`
abbrev pub login_limit_key : Option String → String
login_limit_key none = text_append "login:" "unknown"
login_limit_key (some host) = text_append "login:" host

module _ (p : Platform) where
  -- A claim of a UUID that may be missing or empty.
  abbrev pub uuid_claim : Option String → Result (Option ℕ)
  uuid_claim none = ok none
  uuid_claim (some text) =
      if str_eq text ""
      then ok none
      else elim (p.parse_id text) [ none ↦ err uncaught | some id ↦ ok (some id) ]

  abbrev pub refresh_response :
      Result (p.jwt.Token × p.jwt.Token) → Result (p.jwt.Token × Cookie p.jwt.Token)
  refresh_response (err e) = err e
  refresh_response (ok (access, fresh)) = ok (access, set_refresh_cookie fresh)

  -- `if session_id: await service.logout(...)`
  abbrev pub leave : ℕ → Option ℕ → p.redis.Store → p.redis.Store
  leave user_id none s = s
  leave user_id (some session_id) s = logout p user_id session_id s

  abbrev pub left :
      p.redis.Store → Result (ℕ × Option ℕ) → Result (Cookie p.jwt.Token) × p.redis.Store
  left s (err e) = (err e, s)
  left s (ok (user_id, session_id)) = (ok clear_refresh_cookie, leave user_id session_id s)

  module _ {v : Values} where
    abbrev pub login_response :
        Result (LoginAnswer p.jwt.Token v) → Result (LoginAnswer p.jwt.Token v × Cookie p.jwt.Token)
    login_response (err e) = err e
    login_response (ok (choose organizations)) = ok (choose organizations, keep_cookie)
    login_response (ok (session access fresh organization)) =
        ok (session access fresh organization, set_refresh_cookie fresh)

    -- What follows the check of the rate limit.
    abbrev pub limited_login :
        ℕ
        → ℕ
        → ℕ
        → LoginRequest
        → AuthDb v
        → p.redis.Store
        → Result (Unit {0})
        → Result (LoginAnswer p.jwt.Token v × Cookie p.jwt.Token) × p.redis.Store
    limited_login session_id drawn now body db s (err e) = (err e, s)
    limited_login session_id drawn now body db s (ok u) = (
      login_response (login p session_id drawn now body db s).0,
      (login p session_id drawn now body db s).1,
    )

    -- `tick` is the time of `time.time()`, `per_second` of them are a second.
    unfoldable pub login_endpoint :
        (z : SortedSets)
        → Bool
        → ℕ
        → ℕ
        → Option String
        → ℕ
        → ℕ
        → ℕ
        → LoginRequest
        → AuthDb v
        → p.redis.Store
        → z.Store
        → (Result (LoginAnswer p.jwt.Token v × Cookie p.jwt.Token) × p.redis.Store) × z.Store
    login_endpoint z enabled per_second tick host session_id drawn now body db s sets =
        let checked =
          check_rate_limit z enabled 5 (900 * per_second) tick (login_limit_key host) sets in
        (limited_login session_id drawn now body db s checked.0, checked.1)

    -- The cookie, `none` where it is missing or empty.
    unfoldable pub refresh_endpoint :
        ℕ
        → ℕ
        → ℕ
        → Option p.jwt.Token
        → AuthDb v
        → p.redis.Store
        → Result (p.jwt.Token × Cookie p.jwt.Token) × p.redis.Store
    refresh_endpoint session_id drawn now none db s = (err (app (unauthorized "UNAUTHORIZED")), s)
    refresh_endpoint session_id drawn now (some token) db s = (
      refresh_response (refresh p session_id drawn now token db s).0,
      (refresh p session_id drawn now token db s).1,
    )

    unfoldable pub logout_endpoint :
        ℕ → p.jwt.Token → AuthDb v → p.redis.Store → Result (Cookie p.jwt.Token) × p.redis.Store
    logout_endpoint now token db s = left s (
        get_current_user p now token db >>= λ c.
        uuid_claim c.1.session_id >>= λ session_id. ok (c.0.id, session_id))

    unfoldable pub me_endpoint : ℕ → p.jwt.Token → AuthDb v → Result (MeResponse v)
    me_endpoint now token db = do
      (user, payload) ← get_current_user p now token db
      org_id ← uuid_claim payload.org_id
      me user.id org_id db
