-- ===== src/Tests/Limits.antt =====
-- Runs of backend/app/core/rate_limit.py and of the login endpoint behind it.
use ai_business_automation.Prelude.{ℕ, some, none, true, List, [], ◌∷◌, ◌≡◌, arith}
use ai_business_automation.Errors.{err, app, ok, rate_limited}
use ai_business_automation.RateLimit.{check_rate_limit}
use ai_business_automation.RateLimit.Window.{Call, IsOrdered, run, check_rate_limit_eq}
use ai_business_automation.Auth.Sessions.{LoginRequest}
use ai_business_automation.Auth.Router.{login_endpoint}
use ai_business_automation.Auth.Router.Limits.{login_endpoint_limited}
use ai_business_automation.Tests.Redis.{tables, tables-IsSortedSets}
use ai_business_automation.Tests.Platform.{bench, auth_db}

abbrev call_at : ℕ → Call
call_at t = record { key = "login:10.0.0.1"; at = t }

-- The first one is too old to count.
abbrev tries : List Call
tries = call_at 1500 ∷ call_at 1400 ∷ call_at 1300 ∷ call_at 1200 ∷ call_at 1100 ∷ call_at 500 ∷ []

tries-IsOrdered : IsOrdered (call_at 1600 ∷ tries)
tries-IsOrdered = ground arith

check_rate_limit_eq_example :
    (check_rate_limit tables true 6 900 1600 "login:10.0.0.1" (run tables 6 900 tries)).0 ≡ ok tt
check_rate_limit_eq_example =
    check_rate_limit_eq tables tables-IsSortedSets 6 900 (call_at 1600) tries tries-IsOrdered

abbrev wrong_password : LoginRequest
wrong_password = record { email = "ada@example.org"; password = "guess"; org_id = none }

login_endpoint_limited_example :
    (login_endpoint bench tables true 1 1600
      (some "10.0.0.1")
      1
      2
      1600
      wrong_password
      auth_db
      []
      (run tables 5 900 tries)).0
    ≡ (err (app rate_limited), [])
login_endpoint_limited_example =
    login_endpoint_limited bench tables tables-IsSortedSets 1 1600 (some "10.0.0.1") 1 2 1600
      wrong_password auth_db [] tries tries-IsOrdered (omega arith)
