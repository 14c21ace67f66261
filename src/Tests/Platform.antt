-- ===== src/Tests/Platform.antt =====
-- What backend/app/modules/auth calls, made concrete: tokens that are their claims, identifiers as
-- rows of bars, hashes that only mark a text; and the tables of a small organization.
use Prim.Native.String.{◌++◌ as text_append, len}
use text.Mathlib.TextPositions.{len-append}
use ai_business_automation.Prelude.{
  ℕ, zero, suc, ◌+◌, ◌-◌, String, none, some, Bool-cases, true, false, [], ◌∷◌, ◌≡◌, refl, ap, ◌∙◌,
  inl, inr, arith, str_eq, eq_iff,
}
use ai_business_automation.Security.{Claims}
use ai_business_automation.Organizations.Models.{Organization}
use ai_business_automation.Auth.Models.{User, TokenRow, AuthDb}
use ai_business_automation.Auth.Platform.{Platform, IsLawful}
use ai_business_automation.Tests.Samples.{whole, members}
use ai_business_automation.Tests.Tokens.{open_tokens, open_tokens-IsFaithful, lifetimes}
use ai_business_automation.Tests.Redis.{listed, listed-IsRedis}

abbrev pub bars : ℕ → String
bars zero = "|"
bars (suc n) = text_append "|" (bars n)

len-bars : (n : ℕ) → len (bars n) ≡ n + 1
len-bars zero = refl
len-bars (suc n) = len-append "|" (bars n) ∙ rw (len-bars n) (omega arith)

-- A text with characters is not the empty one.
filled : (t : String) (n : ℕ) → len t ≡ n + 1 → str_eq t "" ≡ false
filled t n h = elim (Bool-cases (str_eq t "")) [
  | inr full ↦ full
  | inl none_left ↦
      let empty : len t ≡ 0 = ap len ((eq_iff t "").0 none_left) in absurd (omega arith)
]

abbrev pub marked : ℕ → String → String
marked salt text = text_append "#" text

abbrev pub session_of : Claims → String
session_of c = elim c.session_id [ none ↦ "" | some text ↦ text ]

abbrev pub bench : Platform
bench = record {
  jwt = open_tokens;
  settings = lifetimes;
  hash_refresh = session_of;
  hash_token = λ t. t;
  hash_password = marked;
  verify_password = λ password hash. str_eq (marked 0 password) hash;
  show_id = bars;
  parse_id = λ t. some (len t - 1);
  sql_lower = λ t. t;
  lower = λ t. t;
  redis = listed;
}

pub bench-IsLawful : IsLawful bench
bench-IsLawful = record {
  faithful = open_tokens-IsFaithful;
  parse-show = λ id. rw (len-bars id) (ground arith);
  show-filled = λ id. filled (bars id) id (len-bars id);
  verify-hash = λ salt password. (eq_iff (marked 0 password) (marked 0 password)).1 refl;
  hash-filled = λ salt password.
      filled (marked salt password) (len password) (len-append "#" password ∙ omega arith);
  stored = listed-IsRedis;
}

abbrev pub ada_user : User
ada_user = record {
  id = 100;
  email = "ada@example.org";
  hashed_password = some "#Secret01";
  full_name = "Ada";
  avatar_url = none;
  is_verified = true;
  is_active = true;
}

abbrev pub reset_row : TokenRow
reset_row = record { id = 31; user_id = 100; token_hash = "r0"; expires_at = 9000; used_at = none }

abbrev pub initech : Organization whole
initech = record {
  id = 7;
  name = "Initech";
  slug = "initech";
  plan = "free";
  is_active = true;
  settings = 0;
  storage_used_bytes = 0;
}

abbrev pub auth_db : AuthDb whole
auth_db = record {
  users = ada_user ∷ [];
  email_verification_tokens = reset_row ∷ [];
  password_reset_tokens = reset_row ∷ [];
  org = record {
    organizations = initech ∷ [];
    members = members;
    departments = [];
    invitations = [];
    api_keys = [];
  };
}
