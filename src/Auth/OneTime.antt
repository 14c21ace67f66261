-- ===== src/Auth/OneTime.antt =====
-- The one-time tokens of backend/app/modules/auth/service.py: both kinds are looked up, used and
-- replaced in the same way.
pub mod Laws
use ai_business_automation.Prelude.{
  ℕ, String, Option, none, some, Bool, not, List, ◌==◌, ◌&&◌, str_eq, ltb, is_some, if◌then◌else◌,
  select, map,
}
use ai_business_automation.Errors.{
  Result, ok, ◌>>=◌, ◌>>◌, not_found, unprocessable, scalar_one_or_none, or_raise, raise_if,
}
use ai_business_automation.Database.{add_row}
use ai_business_automation.Auth.Models.{TokenRow, token_clashes}

-- `used_at.is_(None)`
abbrev pub is_unused : TokenRow → Bool
is_unused r = not (is_some r.used_at)

abbrev pub redeems : String → TokenRow → Bool
redeems token_hash r = str_eq r.token_hash token_hash && is_unused r

abbrev pub used : ℕ → TokenRow → TokenRow
used now r = record r { used_at = some now }

-- The lookup that `verify_email` and `reset_password` begin with.
unfoldable pub redeem : String → ℕ → List TokenRow → Result TokenRow
redeem token_hash now rows = do
  found ← scalar_one_or_none (select (redeems token_hash) rows)
  row ← or_raise found not_found
  raise_if (ltb row.expires_at now) unprocessable
  ok row

abbrev pub is_open_for : ℕ → TokenRow → Bool
is_open_for user_id r = r.user_id == user_id && is_unused r

-- The UPDATE that uses up the unused tokens of a user.
unfoldable pub retire : ℕ → ℕ → List TokenRow → List TokenRow
retire now user_id = map (λ r. if is_open_for user_id r then used now r else r)

abbrev pub new_row : ℕ → ℕ → String → ℕ → TokenRow
new_row id user_id token_hash expires_at = record {
  id = id;
  user_id = user_id;
  token_hash = token_hash;
  expires_at = expires_at;
  used_at = none;
}

-- The unused tokens of the user are used up, and one is added.
unfoldable pub reissue : ℕ → TokenRow → List TokenRow → Result (List TokenRow)
reissue now new rows = add_row (token_clashes new) new (retire now new.user_id rows)
