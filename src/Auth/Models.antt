-- ===== src/Auth/Models.antt =====
-- backend/app/modules/auth/models.py: the tables as lists of rows in the order in which they were
-- added, beside the tables of the organizations, which the same sessions read. The OAuth accounts,
-- which no code reads or writes, and the time stamps that nothing reads are left out.
use ai_business_automation.Prelude.{ℕ, String, Option, Bool, List, ◌==◌, ◌||◌, str_eq}
use ai_business_automation.Workflows.Graph.{Values}
use ai_business_automation.Organizations.Orgs.{OrgDb}

pub record User : Type 0 where
  pub id : ℕ
  pub email : String
  pub hashed_password : Option String
  pub full_name : String
  pub avatar_url : Option String
  pub is_verified : Bool
  pub is_active : Bool

-- The columns of `email_verification_tokens` and of `password_reset_tokens`.
pub record TokenRow : Type 0 where
  pub id : ℕ
  pub user_id : ℕ
  pub token_hash : String
  pub expires_at : ℕ
  pub used_at : Option ℕ

pub record AuthDb (v : Values) : Type 0 where
  pub users : List User
  pub email_verification_tokens : List TokenRow
  pub password_reset_tokens : List TokenRow
  pub org : OrgDb v

abbrev pub user_key : User → ℕ
user_key u = u.id

abbrev pub row_key : TokenRow → ℕ
row_key r = r.id

-- The primary key, and the unique hash.
abbrev pub token_clashes : TokenRow → TokenRow → Bool
token_clashes new r = r.id == new.id || str_eq r.token_hash new.token_hash
