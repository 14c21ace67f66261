-- ===== src/Auth/Router/Limits.antt =====
-- How often backend/app/modules/auth/router.py lets a client try a password.
use ai_business_automation.Prelude.{
  ℕ, ◌+◌, ◌*◌, ◌≤◌, String, Option, true, List, ◌∷◌, ◌≡◌, refl, arith, ltb, select, length,
}
use ai_business_automation.Errors.{err, app, rate_limited}
use ai_business_automation.Workflows.Graph.{Values}
use ai_business_automation.RateLimit.{SortedSets, IsSortedSets}
use ai_business_automation.RateLimit.Window.{Call, times, IsOrdered, run, check_rate_limit_eq}
use ai_business_automation.RateLimit.Scores.{is_recent}
use ai_business_automation.Auth.Models.{AuthDb}
use ai_business_automation.Auth.Platform.{Platform}
use ai_business_automation.Auth.Sessions.{LoginRequest}
use ai_business_automation.Auth.Router.{login_limit_key, login_endpoint}

module _ (p : Platform) {v : Values} (z : SortedSets) (laws : IsSortedSets z) where
  -- With the rate limit on, a client that has asked for five logins or more in the last 900
  -- seconds is answered 429, whatever the password, and no session is opened; the refused requests
  -- count too.
  pub login_endpoint_limited :
      (per_second tick : ℕ) (host : Option String) (session_id drawn now : ℕ) (body : LoginRequest)
      (db : AuthDb v) (s : p.redis.Store) (history : List Call)
      → IsOrdered (record { key = login_limit_key host; at = tick } ∷ history)
      → 5
        ≤ length (select (is_recent (900 * per_second) tick) (times (login_limit_key host) history))
      → (login_endpoint p z true per_second tick host session_id drawn now body db s
          (run z 5 (900 * per_second) history)).0
        ≡ (err (app rate_limited), s)
  unfolding login_endpoint
  login_endpoint_limited per_second tick host session_id drawn now body db s history ordered many =
      let recent =
        select (is_recent (900 * per_second) tick) (times (login_limit_key host) history) in
      let refused : ltb 5 (length recent + 1) ≡ true = ground (arith, many) in
      rw
        (check_rate_limit_eq z laws 5 (900 * per_second)
          (record { key = login_limit_key host; at = tick }) history ordered)
        (rw refused refl)
