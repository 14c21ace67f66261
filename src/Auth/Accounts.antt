-- ===== src/Auth/Accounts.antt =====
-- Registration, verification and passwords in backend/app/modules/auth/service.py. Identifiers,
-- random texts and salts are arguments; the two stubs that would send an email are the mail that
-- a function returns.
pub mod Laws
pub mod Recovery
pub mod Joining
use ai_business_automation.Prelude.{
  ℕ, ◌+◌, String, Option, none, some, Bool, true, false, not, List, [], ◌∷◌, ◌++◌, ◌==◌, ◌||◌,
  str_eq, is_some, if◌then◌else◌, select, any,
}
use ai_business_automation.Errors.{
  Result, ok, err, uncaught, ◌>>=◌, ◌>>◌, conflict, scalar_one_or_none, raise_if,
}
use ai_business_automation.Database.{add_row, change_row}
use ai_business_automation.Workflows.Graph.{Values}
use ai_business_automation.Organizations.Models.{Invitation}
use ai_business_automation.Organizations.Members.{is_member}
use ai_business_automation.Organizations.Invitations.{
  invitation_id, opens, accepted, membership, member_clashes,
}
use ai_business_automation.Organizations.Orgs.{OrgDb}
use ai_business_automation.Auth.Models.{User, TokenRow, AuthDb, user_key, row_key, token_clashes}
use ai_business_automation.Auth.Redis.{Key, Redis}
use ai_business_automation.Auth.Platform.{Platform}
use ai_business_automation.Auth.OneTime.{used, redeem, new_row, reissue}

pub record RegisterRequest : Type 0 where
  pub email : String
  pub password : String
  pub full_name : String
  pub invite_token : Option String

pub record Mail : Type 0 where
  pub to : String
  pub token : String

abbrev pub verified : User → User
verified u = record u { is_verified = true }

abbrev pub with_password : String → User → User
with_password hash u = record u { hashed_password = some hash }

-- The user of a token's foreign key.
abbrev pub user_of : ℕ → List User → Result User
user_of id [] = err uncaught
user_of id (u ∷ users) = if u.id == id then ok u else user_of id users

module _ (p : Platform) where
  abbrev pub has_email : String → User → Bool
  has_email email u = str_eq (p.sql_lower u.email) (p.lower email)

  -- `_get_user_by_email`
  unfoldable pub get_user_by_email : String → List User → Result (Option User)
  get_user_by_email email users = scalar_one_or_none (select (has_email email) users)

  -- The primary key, and `uq_users_lower_email`.
  abbrev pub user_clashes : User → User → Bool
  user_clashes new u = u.id == new.id || str_eq (p.sql_lower u.email) (p.sql_lower new.email)

  abbrev pub new_user : ℕ → ℕ → RegisterRequest → User
  new_user id salt body = record {
    id = id;
    email = body.email;
    hashed_password = some (p.hash_password salt body.password);
    full_name = body.full_name;
    avatar_url = none;
    is_verified = false;
    is_active = true;
  }

module _ {v : Values} where
  -- Adds the member and marks the invitation. A flush that fails is caught, but leaves a session
  -- that raises at its next use.
  abbrev pub join_by : ℕ → ℕ → ℕ → Invitation → OrgDb v → Result (Bool × OrgDb v)
  join_by now member_id user_id inv org =
      let new = membership member_id user_id inv in
      if any (member_clashes new) org.members
      then err uncaught
      else ok (
        true,
        record org {
          members = org.members ++ new ∷ [];
          invitations = change_row invitation_id inv.id (accepted now) org.invitations;
        },
      )

  -- `_accept_invitation`; more than one row is an exception that it catches.
  unfoldable pub accept_invite : String → ℕ → ℕ → ℕ → OrgDb v → Result (Bool × OrgDb v)
  accept_invite token_hash now member_id user_id org =
      elim (select (opens token_hash now) org.invitations) [
        | [] ↦ ok (false, org)
        | inv ∷ others ↦ elim others [
          | [] ↦ join_by now member_id user_id inv org
          | _ ∷ _ ↦ ok (false, org)
        ]
      ]

module _ (p : Platform) {v : Values} where
  -- `if body.invite_token:`
  abbrev pub invited : ℕ → ℕ → ℕ → Option String → OrgDb v → Result (Bool × OrgDb v)
  invited now member_id user_id none org = ok (false, org)
  invited now member_id user_id (some token) org =
      if str_eq token ""
      then ok (false, org)
      else accept_invite (p.hash_token token) now member_id user_id org

  -- What `register` does after the invitation: `users` are the users with the new one.
  abbrev pub registered :
      ℕ
      → String
      → ℕ
      → User
      → List User
      → OrgDb v
      → AuthDb v
      → Bool
      → Result ((User × Option Mail) × AuthDb v)
  registered row_id plain now user users org db true = ok (
    (verified user, none),
    record db { users = change_row user_key user.id verified users; org = org },
  )
  registered row_id plain now user users org db false =
      add_row (token_clashes (new_row row_id user.id (p.hash_token plain) (now + 86400)))
        (new_row row_id user.id (p.hash_token plain) (now + 86400)) db.email_verification_tokens
      >>= λ rows. ok (
        (user, some (record { to = user.email; token = plain })),
        record db { users = users; org = org; email_verification_tokens = rows },
      )

  -- `row_id` is the key of the member or of the verification token.
  unfoldable pub register :
      ℕ → ℕ → String → ℕ → ℕ → RegisterRequest → AuthDb v → Result ((User × Option Mail) × AuthDb v)
  register user_id row_id plain salt now body db = do
    existing ← get_user_by_email p body.email db.users
    raise_if (is_some existing) conflict
    let user = new_user p user_id salt body
    users ← add_row (user_clashes p user) user db.users
    (invitation_accepted, org) ← invited now row_id user_id body.invite_token db.org
    registered row_id plain now user users org db invitation_accepted

  unfoldable pub verify_email : ℕ → String → AuthDb v → Result (AuthDb v)
  verify_email now token db = do
    evt ← redeem (p.hash_token token) now db.email_verification_tokens
    user ← user_of evt.user_id db.users
    ok (record db {
      users = change_row user_key user.id verified db.users;
      email_verification_tokens = change_row row_key evt.id (used now) db.email_verification_tokens;
    })

  -- What `resend_verification` does for the user that it finds.
  abbrev pub verification_mail :
      ℕ → String → ℕ → AuthDb v → Option User → Result (Option Mail × AuthDb v)
  verification_mail id plain now db none = ok (none, db)
  verification_mail id plain now db (some user) =
      if user.is_verified
      then ok (none, db)
      else (reissue now (new_row id user.id (p.hash_token plain) (now + 86400))
            db.email_verification_tokens
          >>= λ rows. ok (
            some (record { to = user.email; token = plain }),
            record db { email_verification_tokens = rows },
          ))

  unfoldable pub resend_verification :
      ℕ → String → ℕ → String → AuthDb v → Result (Option Mail × AuthDb v)
  resend_verification id plain now email db =
      get_user_by_email p email db.users >>= verification_mail id plain now db

  -- What `forgot_password` does for the user that it finds.
  abbrev pub reset_mail : ℕ → String → ℕ → AuthDb v → Option User → Result (Option Mail × AuthDb v)
  reset_mail id plain now db none = ok (none, db)
  reset_mail id plain now db (some user) =
      if not user.is_active
      then ok (none, db)
      else (reissue now (new_row id user.id (p.hash_token plain) (now + 3600))
            db.password_reset_tokens
          >>= λ rows. ok (
            some (record { to = user.email; token = plain }),
            record db { password_reset_tokens = rows },
          ))

  unfoldable pub forgot_password :
      ℕ → String → ℕ → String → AuthDb v → Result (Option Mail × AuthDb v)
  forgot_password id plain now email db =
      get_user_by_email p email db.users >>= reset_mail id plain now db

  -- The tables part of `reset_password`.
  unfoldable pub change_password : ℕ → ℕ → String → String → AuthDb v → Result (ℕ × AuthDb v)
  change_password salt now token new_password db = do
    prt ← redeem (p.hash_token token) now db.password_reset_tokens
    user ← user_of prt.user_id db.users
    let hash = p.hash_password salt new_password
    ok (
      prt.user_id,
      record db {
        users = change_row user_key user.id (with_password hash) db.users;
        password_reset_tokens = change_row row_key prt.id (used now) db.password_reset_tokens;
      },
    )

-- `async for key in redis.scan_iter(...): await redis.delete(key)`
unfoldable pub delete_keys : (redis : Redis) → List Key → redis.Store → redis.Store
delete_keys redis [] s = s
delete_keys redis (k ∷ keys) s = delete_keys redis keys (redis.delete k s)

module _ (p : Platform) {v : Values} where
  -- The last step of `reset_password`: "Invalidate ALL active sessions for this user".
  abbrev pub end_sessions :
      ℕ → p.redis.Store → Result (ℕ × AuthDb v) → Result (AuthDb v) × p.redis.Store
  end_sessions now s (err e) = (err e, s)
  end_sessions now s (ok (user_id, db)) =
      (ok db, delete_keys p.redis (p.redis.scan now (p.show_id user_id) s) s)

  -- The tables, and the sessions in Redis afterwards.
  unfoldable pub reset_password :
      ℕ → ℕ → String → String → AuthDb v → p.redis.Store → Result (AuthDb v) × p.redis.Store
  reset_password salt now token new_password db s =
      end_sessions now s (change_password p salt now token new_password db)
