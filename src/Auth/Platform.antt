-- ===== src/Auth/Platform.antt =====
-- What backend/app/modules/auth calls that is not in the repository, in one place: the tokens of
-- python-jose, SHA-256, bcrypt, UUIDs and their texts, the case folding of Python and of SQL, and
-- Redis. The named laws are what the documentation of each says.
use ai_business_automation.Prelude.{ℕ, String, Option, some, Bool, true, false, str_eq, ◌≡◌}
use ai_business_automation.Security.{Jwt, Lifetimes}
use ai_business_automation.Security.Tokens.{IsFaithful}
use ai_business_automation.Auth.Redis.{Redis, IsRedis}

pub record Platform : Type 1 where
  pub jwt : Jwt
  pub settings : Lifetimes
  -- `hash_token` of a refresh token, and of a random text
  pub hash_refresh : jwt.Token → String
  pub hash_token : String → String
  -- `bcrypt.hashpw` with a salt, and `bcrypt.checkpw`
  pub hash_password : ℕ → String → String
  pub verify_password : String → String → Bool
  -- `str(uuid)`, and reading a UUID from a text
  pub show_id : ℕ → String
  pub parse_id : String → Option ℕ
  -- SQL's `LOWER` and Python's `str.lower`
  pub sql_lower : String → String
  pub lower : String → String
  pub redis : Redis

pub record IsLawful (p : Platform) : Type 0 where
  pub faithful : IsFaithful p.jwt
  pub parse-show : (id : ℕ) → p.parse_id (p.show_id id) ≡ some id
  pub show-filled : (id : ℕ) → str_eq (p.show_id id) "" ≡ false
  pub verify-hash :
      (salt : ℕ) (password : String)
      → p.verify_password password (p.hash_password salt password) ≡ true
  pub hash-filled :
      (salt : ℕ) (password : String) → str_eq (p.hash_password salt password) "" ≡ false
  pub stored : IsRedis p.redis
