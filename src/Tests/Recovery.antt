-- ===== src/Tests/Recovery.antt =====
-- Runs of the accounts in backend/app/modules/auth/service.py.
use ai_business_automation.Prelude.{
  ◌+◌, ◌*◌, ◌≤◌, some, none, true, false, not, is_some, [], ◌∷◌, ◌++◌, ◌≡◌, refl, inr, arith,
  select, str_eq, ◌&&◌, Member,
}
use ai_business_automation.Errors.{ok, scalar_one_or_none}
use ai_business_automation.Database.{change_row, UniqueKeys}
use ai_business_automation.Organizations.Roles.{employee}
use ai_business_automation.Organizations.Models.{Invitation}
use ai_business_automation.Auth.Models.{User, TokenRow, AuthDb, user_key}
use ai_business_automation.Auth.OneTime.{redeem, used, new_row, reissue, retire}
use ai_business_automation.Auth.OneTime.Laws.{count_open}
use ai_business_automation.Auth.Accounts.{
  RegisterRequest, Mail, verified, with_password, has_email, get_user_by_email, register,
  verify_email, forgot_password, change_password,
}
use ai_business_automation.Auth.Accounts.Laws.{verify_email_effect}
use ai_business_automation.Auth.Accounts.Recovery.{change_password-forgot_password}
use ai_business_automation.Auth.Accounts.Joining.{register-invited, register-uninvited}
use ai_business_automation.Auth.AccountRequests.{AuthRequest, post_reset_password}
use ai_business_automation.Organizations.Invitations.{invitation_id}
use ai_business_automation.Auth.Sessions.{candidate_hash}
use ai_business_automation.Tests.Samples.{whole, sample_member}
use ai_business_automation.Tests.Platform.{bench, bench-IsLawful, auth_db, ada_user, reset_row}

abbrev verified_db : AuthDb whole
verified_db = record auth_db {
  users = verified ada_user ∷ [];
  email_verification_tokens = used 8000 reset_row ∷ [];
}

verify_lem : verify_email bench 8000 "r0" auth_db ≡ ok verified_db
unfolding verify_email redeem scalar_one_or_none change_row
verify_lem = refl

verify_email_effect_example :
    (evt : TokenRow) × (user : User) × Member evt auth_db.email_verification_tokens
    × (evt.token_hash ≡ bench.hash_token "r0")
    × (evt.used_at ≡ none)
    × (8000 ≤ evt.expires_at)
    × Member user auth_db.users
    × (user.id ≡ evt.user_id)
    × (verified_db.users
        ≡ change_row user_key evt.user_id (λ u. record u { is_verified = true }) auth_db.users)
    × (select
          (λ r. str_eq r.token_hash (bench.hash_token "r0") && not (is_some r.used_at))
          verified_db.email_verification_tokens
        ≡ [])
    × (verified_db.password_reset_tokens ≡ auth_db.password_reset_tokens)
    × (verified_db.org ≡ auth_db.org)
verify_email_effect_example = verify_email_effect bench 8000 "r0" auth_db verify_lem

abbrev reset_db : AuthDb whole
reset_db = record auth_db {
  users = with_password "#Secret02" ada_user ∷ [];
  password_reset_tokens = used 8000 reset_row ∷ [];
}

-- A request of the endpoint for it.
abbrev reset_request : AuthRequest
reset_request = post_reset_password 0 "r0" "Secret02"

abbrev forgot_db : AuthDb whole
forgot_db = record auth_db {
  password_reset_tokens = used 8000 reset_row ∷ new_row 32 100 "r1" 11600 ∷ [];
}

abbrev mail : Mail
mail = record { to = "ada@example.org"; token = "r1" }

forgot_lem :
    forgot_password bench 32 "r1" 8000 "ada@example.org" auth_db ≡ ok (some mail, forgot_db)
unfolding forgot_password get_user_by_email scalar_one_or_none reissue retire
forgot_lem = refl

users-UniqueKeys : UniqueKeys user_key auth_db.users
users-UniqueKeys = (refl, tt)

change_password-forgot_password_example :
    (user : User) × (after : AuthDb whole) × (mail.to ≡ user.email)
    × (user.is_active ≡ true)
    × (count_open user.id forgot_db.password_reset_tokens ≡ 1)
    × (change_password bench 0 9000 "r1" "Secret02" forgot_db ≡ ok (user.id, after))
    × (select (has_email bench "ada@example.org") after.users ≡ with_password "#Secret02" user ∷ [])
    × (bench.verify_password "Secret02" (candidate_hash (some (with_password "#Secret02" user)))
        ≡ true)
change_password-forgot_password_example =
    change_password-forgot_password bench 32 "r1" 8000 "ada@example.org" auth_db 0 9000 "Secret02"
      bench-IsLawful users-UniqueKeys forgot_lem (omega arith)

-- An invitation for another address than the one that registers with it.
abbrev invitation : Invitation
invitation = record {
  id = 5;
  organization_id = 7;
  invited_by = 100;
  email = "carl@example.org";
  role = employee;
  token_hash = "t0";
  expires_at = 9000;
  accepted_at = none;
}

abbrev inviting_db : AuthDb whole
inviting_db = record auth_db { org = record auth_db.org { invitations = invitation ∷ [] } }

abbrev mallory : RegisterRequest
mallory = record {
  email = "mallory@example.org";
  password = "Secret03";
  full_name = "Mallory";
  invite_token = some "t0";
}

register-invited_example :
    (user : User) × (db' : AuthDb whole) × (register bench 103 4 "v0" 0 8000 mallory inviting_db
      ≡ ok ((user, none), db'))
    × (user.id ≡ 103)
    × (user.email ≡ "mallory@example.org")
    × (user.hashed_password ≡ some (bench.hash_password 0 "Secret03"))
    × (user.is_verified ≡ true)
    × (user.is_active ≡ true)
    × (db'.users
        ≡ change_row user_key 103
            (λ u. record u { is_verified = true })
            (ada_user ∷ record user { is_verified = false } ∷ []))
    × (db'.org.members ≡ inviting_db.org.members ++ sample_member 4 7 103 employee ∷ [])
    × (db'.org.invitations
        ≡ change_row invitation_id 5 (λ i. record i { accepted_at = some 8000 }) (invitation ∷ []))
register-invited_example =
    register-invited bench 103 4 "v0" 0 8000 mallory inviting_db "t0" invitation refl refl refl
      (refl, omega arith) refl refl refl

register-uninvited_example :
    (user : User) × (mail_sent : Mail) × (db' : AuthDb whole) × (register bench 103 4 "v0" 0 9000
        mallory inviting_db
      ≡ ok ((user, some mail_sent), db'))
    × (user.email ≡ "mallory@example.org")
    × (user.is_verified ≡ false)
    × (mail_sent.to ≡ "mallory@example.org")
    × (mail_sent.token ≡ "v0")
    × (db'.users ≡ inviting_db.users ++ user ∷ [])
    × (db'.org ≡ inviting_db.org)
    × (db'.email_verification_tokens
        ≡ inviting_db.email_verification_tokens
          ++ new_row 4 103 (bench.hash_token "v0") (9000 + 24 * 3600) ∷ [])
register-uninvited_example =
    register-uninvited bench 103 4 "v0" 0 9000 mallory inviting_db "t0" invitation refl refl refl
      (inr (omega arith)) refl refl refl
