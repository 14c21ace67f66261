-- ===== src/Auth/Accounts/Laws.antt =====
-- What verifying an email address and resetting a password in
-- backend/app/modules/auth/service.py check and change.
use ai_business_automation.Prelude.{
  ℕ, ◌≤◌, String, Option-cases, none, Bool-cases, true, List, [], ◌∷◌, ◌≡◌, refl, ◌∙◌, inl, inr,
  arith, eq_iff, select, Member, ap, not, is_some, str_eq, ◌&&◌, ◌==◌, ==_iff,
}
use ai_business_automation.Errors.{Result, ok, err, >>=-eq-ok}
use ai_business_automation.Database.{change_row}
use ai_business_automation.Workflows.Graph.{Values}
use ai_business_automation.Auth.Models.{User, TokenRow, AuthDb, user_key, row_key}
use ai_business_automation.Auth.Redis.{Key, same_key, Redis, IsRedis}
use ai_business_automation.Auth.Platform.{Platform}
use ai_business_automation.Auth.OneTime.{redeems, used, redeem}
use ai_business_automation.Auth.OneTime.Laws.{redeem-eq-ok, redeems-row, redeems-used}
use ai_business_automation.Auth.Accounts.{
  verified, with_password, user_of, verify_email, change_password, delete_keys, end_sessions,
  reset_password,
}

pub user_of-eq-ok :
    (id : ℕ) (users : List User) {u : User} → user_of id users ≡ ok u → Member u users × (u.id ≡ id)
user_of-eq-ok id [] h = cc
user_of-eq-ok id (x ∷ users) {u} h = elim (Bool-cases (x.id == id)) [
  | inl at ↦ let e : u ≡ x = ground (arith, h, at) in (inl e, ap user_key e ∙ (==_iff x.id id).0 at)
  | inr off ↦ let (m, key) = user_of-eq-ok id users {u = u} (ground (arith, h, off)) in (inr m, key)
]

module _ (p : Platform) {v : Values} where
  -- The row and the user that `verify_email` finds when it returns.
  pub verify_email-eq-ok :
      (now : ℕ) (token : String) (db : AuthDb v) {db' : AuthDb v}
      → verify_email p now token db ≡ ok db'
      → (evt : TokenRow) × (user : User) × (select
            (redeems (p.hash_token token))
            db.email_verification_tokens
          ≡ evt ∷ [])
        × (now ≤ evt.expires_at)
        × (user_of evt.user_id db.users ≡ ok user)
        × (db' ≡ record db {
          users = change_row user_key user.id verified db.users;
          email_verification_tokens =
              change_row row_key evt.id (used now) db.email_verification_tokens;
        })
  unfolding verify_email
  verify_email-eq-ok now token db h =
      let (evt, e, h1) =
        >>=-eq-ok (redeem (p.hash_token token) now db.email_verification_tokens) _ h in
      let (user, u, h2) = >>=-eq-ok (user_of evt.user_id db.users) _ h1 in
      let (one, valid) = redeem-eq-ok (p.hash_token token) now db.email_verification_tokens e in
      (evt, user, one, valid, u, ground arith)

  -- When `verify_email` returns, the token is that of a row that was neither used nor expired, and
  -- the user whom it names is there. The row of his key becomes verified, and nothing else of the
  -- users is changed; no unused row of the token is left, and the other tables are as they were.
  pub verify_email_effect :
      (now : ℕ) (token : String) (db : AuthDb v) {db' : AuthDb v}
      → verify_email p now token db ≡ ok db'
      → (evt : TokenRow) × (user : User) × Member evt db.email_verification_tokens
        × (evt.token_hash ≡ p.hash_token token)
        × (evt.used_at ≡ none)
        × (now ≤ evt.expires_at)
        × Member user db.users
        × (user.id ≡ evt.user_id)
        × (db'.users
            ≡ change_row user_key evt.user_id (λ u. record u { is_verified = true }) db.users)
        × (select
              (λ r. str_eq r.token_hash (p.hash_token token) && not (is_some r.used_at))
              db'.email_verification_tokens
            ≡ [])
        × (db'.password_reset_tokens ≡ db.password_reset_tokens)
        × (db'.org ≡ db.org)
  verify_email_effect now token db {db'} h =
      let (evt, user, one, valid, u, same) = verify_email-eq-ok now token db h in
      let (there, hash, fresh) =
        redeems-row (p.hash_token token) db.email_verification_tokens one in
      let (exists, key) = user_of-eq-ok evt.user_id db.users u in
      (
        evt,
        user,
        there,
        hash,
        fresh,
        valid,
        exists,
        key,
        ap (λ (x : AuthDb v). x.users) same ∙ ap (λ i. change_row user_key i verified db.users) key,
        ap (λ (x : AuthDb v). select (redeems (p.hash_token token)) x.email_verification_tokens)
              same
            ∙ redeems-used (p.hash_token token) now evt db.email_verification_tokens one,
        ap (λ (x : AuthDb v). x.password_reset_tokens) same,
        ap (λ (x : AuthDb v). x.org) same,
      )

  pub change_password-eq-ok :
      (salt now : ℕ) (token new_password : String) (db : AuthDb v) {user_id : ℕ} {db' : AuthDb v}
      → change_password p salt now token new_password db ≡ ok (user_id, db')
      → (prt : TokenRow) × (user : User) × (select
            (redeems (p.hash_token token))
            db.password_reset_tokens
          ≡ prt ∷ [])
        × (now ≤ prt.expires_at)
        × (user_of prt.user_id db.users ≡ ok user)
        × (user_id ≡ prt.user_id)
        × (db' ≡ record db {
          users =
              change_row user_key user.id
                (with_password (p.hash_password salt new_password))
                db.users;
          password_reset_tokens = change_row row_key prt.id (used now) db.password_reset_tokens;
        })
  unfolding change_password
  change_password-eq-ok salt now token new_password db h =
      let (prt, e, h1) = >>=-eq-ok (redeem (p.hash_token token) now db.password_reset_tokens) _ h in
      let (user, u, h2) = >>=-eq-ok (user_of prt.user_id db.users) _ h1 in
      let (one, valid) = redeem-eq-ok (p.hash_token token) now db.password_reset_tokens e in
      (prt, user, one, valid, u, ground arith, ground arith)

  pub end_sessions-eq-ok :
      (now : ℕ) (s : p.redis.Store) (r : Result (ℕ × AuthDb v)) {db' : AuthDb v}
      {s' : p.redis.Store}
      → end_sessions p now s r ≡ (ok db', s')
      → (user_id : ℕ) × (r ≡ ok (user_id, db'))
        × (s' ≡ delete_keys p.redis (p.redis.scan now (p.show_id user_id) s) s)
  end_sessions-eq-ok now s (err e) h = cc
  end_sessions-eq-ok now s (ok (user_id, db)) h = (user_id, ground arith, ground arith)

  pub reset_password-eq-ok :
      (salt now : ℕ) (token new_password : String) (db : AuthDb v) (s : p.redis.Store)
      {db' : AuthDb v} {s' : p.redis.Store}
      → reset_password p salt now token new_password db s ≡ (ok db', s')
      → (user_id : ℕ) × (change_password p salt now token new_password db ≡ ok (user_id, db'))
        × (s' ≡ delete_keys p.redis (p.redis.scan now (p.show_id user_id) s) s)
  unfolding reset_password
  reset_password-eq-ok salt now token new_password db s h =
      end_sessions-eq-ok now s (change_password p salt now token new_password db) h

module _ (redis : Redis) (laws : IsRedis redis) where
  deleted_stays :
      (now : ℕ) (k : Key) (keys : List Key) (s : redis.Store)
      → redis.get now k s ≡ none
      → redis.get now k (delete_keys redis keys s) ≡ none
  unfolding delete_keys
  deleted_stays now k [] s h = h
  deleted_stays now k (j ∷ keys) s h = deleted_stays now k keys (redis.delete j s) (
      rw (laws.get-delete now j k s)
        (elim (Bool-cases (same_key j k)) [ inl same ↦ rw same refl | inr other ↦ rw other h ]))

  pub same_key_refl : (k : Key) → same_key k k ≡ true
  same_key_refl k = ground (arith, eq_iff k.user k.user, eq_iff k.session k.session)

  get-delete_keys :
      (now : ℕ) (k : Key) (keys : List Key) (s : redis.Store)
      → Member k keys
      → redis.get now k (delete_keys redis keys s) ≡ none
  unfolding delete_keys
  get-delete_keys now k [] s m = absurd m
  get-delete_keys now k (j ∷ keys) s (inl e) =
      deleted_stays now k keys (redis.delete j s)
        (laws.get-delete now j k s ∙ (rw e (rw (same_key_refl j) refl)))
  get-delete_keys now k (j ∷ keys) s (inr m) = get-delete_keys now k keys (redis.delete j s) m

  -- After the keys of a user are scanned and deleted, none of them is there at any later time.
  pub get-delete_scan :
      (now later : ℕ) (k : Key) (s : redis.Store)
      → now ≤ later
      → redis.get later k (delete_keys redis (redis.scan now k.user s) s) ≡ none
  get-delete_scan now later k s le = elim (Option-cases (redis.get now k s)) [
    | inl absent ↦
        deleted_stays later k (redis.scan now k.user s) s (laws.gone now later k s le absent)
    | inr (value, there) ↦
        get-delete_keys later k (redis.scan now k.user s) s (laws.scanned now k s value there)
  ]
