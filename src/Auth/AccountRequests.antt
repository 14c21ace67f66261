-- ===== src/Auth/AccountRequests.antt =====
-- The endpoints of backend/app/modules/auth/router.py that change the tables, each one call of the
-- service, with the tables as the session sees them: the endpoints commit nothing.
pub mod Kept
use ai_business_automation.Prelude.{ℕ, String}
use ai_business_automation.Errors.{Result, ok, err, ◌>>=◌}
use ai_business_automation.Workflows.Graph.{Values}
use ai_business_automation.Auth.Models.{AuthDb}
use ai_business_automation.Auth.Redis.{Redis}
use ai_business_automation.Auth.Platform.{Platform}
use ai_business_automation.Auth.Accounts.{
  RegisterRequest, register, verify_email, resend_verification, forgot_password, reset_password,
}

-- A request with its body and what it draws.
pub data AuthRequest : Type 0 where
  post_register : ℕ → ℕ → String → ℕ → RegisterRequest → AuthRequest
  post_verify_email : String → AuthRequest
  post_resend_verification : ℕ → String → String → AuthRequest
  post_forgot_password : ℕ → String → String → AuthRequest
  post_reset_password : ℕ → String → String → AuthRequest

module _ (p : Platform) {v : Values} where
  unfoldable pub auth_call :
      ℕ → AuthRequest → AuthDb v → p.redis.Store → Result (AuthDb v) × p.redis.Store
  auth_call now (post_register user_id row_id plain salt body) db s =
      (register p user_id row_id plain salt now body db >>= λ r. ok r.1, s)
  auth_call now (post_verify_email token) db s = (verify_email p now token db, s)
  auth_call now (post_resend_verification id plain email) db s =
      (resend_verification p id plain now email db >>= λ r. ok r.1, s)
  auth_call now (post_forgot_password id plain email) db s =
      (forgot_password p id plain now email db >>= λ r. ok r.1, s)
  auth_call now (post_reset_password salt token new_password) db s =
      reset_password p salt now token new_password db s
