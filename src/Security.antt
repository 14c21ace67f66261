-- ===== src/Security.antt =====
-- The tokens of backend/app/core/security.py. `python-jose` is a parameter: `encode` is
-- `jwt.encode` and `decode` is `jwt.decode`, under the configured secret and algorithm, each with
-- the time in seconds at which it runs.
pub mod Tokens
use ai_business_automation.Prelude.{
  ℕ, ◌+◌, ◌*◌, ◌<◌, String, Option, none, some, Bool, true, false, not, List, ◌≡◌, str_eq,
}
use ai_business_automation.Errors.{
  Result, ok, err, app, ◌>>=◌, ◌>>◌, AppException, unauthorized, raise_if,
}

-- A payload; a claim that is missing is `none`.
pub record Claims : Type 0 where
  pub user_id : Option String
  pub org_id : Option String
  pub session_id : Option String
  pub role : Option String
  pub scope : Option String
  pub iat : ℕ
  pub exp : ℕ
  pub type_ : Option String

-- What `jwt.decode` does: it returns a payload or raises one of the two exceptions.
pub data Decoded : Type 0 where
  decoded : Claims → Decoded
  expired_signature jwt_error : Decoded

-- A token is a text that is only handed on.
pub record Jwt : Type 1 where
  pub Token : Type 0
  pub encode : Claims → Token
  pub decode : ℕ → Token → Decoded

-- `ACCESS_TOKEN_EXPIRE_MINUTES` and `REFRESH_TOKEN_EXPIRE_DAYS`
pub record Lifetimes : Type 0 where
  pub access_minutes : ℕ
  pub refresh_days : ℕ

abbrev pub access_claims : Lifetimes → ℕ → String → String → String → String → String → Claims
access_claims settings now user_id org_id session_id role scope = record {
  user_id = some user_id;
  org_id = some org_id;
  session_id = some session_id;
  role = some role;
  scope = some scope;
  iat = now;
  exp = now + settings.access_minutes * 60;
  type_ = some "access";
}

abbrev pub refresh_claims : Lifetimes → ℕ → String → String → Claims
refresh_claims settings now user_id session_id = record {
  user_id = some user_id;
  org_id = none;
  session_id = some session_id;
  role = none;
  scope = none;
  iat = now;
  exp = now + settings.refresh_days * 86400;
  type_ = some "refresh";
}

-- `payload.get("type") != kind`
abbrev pub is_of_type : String → Claims → Bool
is_of_type kind payload = elim payload.type_ [ none ↦ false | some t ↦ str_eq t kind ]

module _ (jwt : Jwt) where
  unfoldable pub create_access_token :
      Lifetimes → ℕ → String → String → String → String → String → jwt.Token
  create_access_token settings now user_id org_id session_id role scope =
      jwt.encode (access_claims settings now user_id org_id session_id role scope)

  unfoldable pub create_refresh_token : Lifetimes → ℕ → String → String → jwt.Token
  create_refresh_token settings now user_id session_id =
      jwt.encode (refresh_claims settings now user_id session_id)

  unfoldable pub decode_access_token : ℕ → jwt.Token → Result Claims
  decode_access_token now token = elim (jwt.decode now token) [
    | expired_signature ↦ err (app (unauthorized "TOKEN_EXPIRED"))
    | jwt_error ↦ err (app (unauthorized "INVALID_TOKEN"))
    | decoded payload ↦
        raise_if (not (is_of_type "access" payload)) (unauthorized "INVALID_TOKEN") >> ok payload
  ]

  unfoldable pub decode_refresh_token : ℕ → jwt.Token → Result Claims
  decode_refresh_token now token = elim (jwt.decode now token) [
    | expired_signature ↦ err (app (unauthorized "REFRESH_TOKEN_EXPIRED"))
    | jwt_error ↦ err (app (unauthorized "INVALID_TOKEN"))
    | decoded payload ↦
        raise_if (not (is_of_type "refresh" payload)) (unauthorized "INVALID_TOKEN") >> ok payload
  ]
