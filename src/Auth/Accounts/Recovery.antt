-- ===== src/Auth/Accounts/Recovery.antt =====
-- The way from `forgot_password` through `reset_password` to the next login, in
-- backend/app/modules/auth/service.py.
use ai_business_automation.Prelude.{
  ℕ, ◌+◌, ◌≤◌, String, Option, none, some, Bool-cases, true, false, List, [], ◌∷◌, ◌++◌, ◌≡◌, refl,
  ap, ◌∙◌, inl, inr, arith, ◌==◌, ==_iff, ltb, eq_iff, select, select-append, any,
}
use ai_business_automation.Errors.{Result, ok, ◌>>=◌, scalar_one_or_none, >>=-eq-ok, scalar-eq-some}
use ai_business_automation.Database.{change_row, UniqueKeys, select_again, select-change_row}
use ai_business_automation.Workflows.Graph.{Values}
use ai_business_automation.Auth.Models.{User, TokenRow, AuthDb, user_key, row_key, token_clashes}
use ai_business_automation.Auth.Platform.{Platform, IsLawful}
use ai_business_automation.Auth.OneTime.{redeems, used, redeem, retire, new_row, reissue}
use ai_business_automation.Auth.OneTime.Laws.{count_open, count_open-reissue}
use ai_business_automation.Auth.Accounts.{
  Mail, with_password, user_of, has_email, reset_mail, get_user_by_email, forgot_password,
  change_password,
}
use ai_business_automation.Auth.Sessions.{candidate_hash, with_id}

-- A hash that no row has redeems none.
redeems-unused :
    (new : TokenRow) (rows : List TokenRow)
    → any (token_clashes new) rows ≡ false
    → select (redeems new.token_hash) rows ≡ []
redeems-unused new [] h = refl
redeems-unused new (r ∷ rows) h = ground (arith, redeems-unused new rows (ground arith))

-- The row that an unused hash was added with is redeemed until it expires.
redeem-reissue :
    (now later : ℕ) (new : TokenRow) (rows : List TokenRow) {rows' : List TokenRow}
    → new.used_at ≡ none
    → later ≤ new.expires_at
    → reissue now new rows ≡ ok rows'
    → redeem new.token_hash later rows' ≡ ok new
unfolding reissue redeem scalar_one_or_none
redeem-reissue now later new rows {rows'} fresh early h =
    let apart : any (token_clashes new) (retire now new.user_id rows) ≡ false = ground arith in
    let same : rows' ≡ retire now new.user_id rows ++ new ∷ [] = ground arith in
    let own : redeems new.token_hash new ≡ true =
      rw fresh (rw ((eq_iff new.token_hash new.token_hash).1 refl) refl) in
    let one : select (redeems new.token_hash) rows' ≡ new ∷ [] = rw same (
      rw (select-append (redeems new.token_hash) (retire now new.user_id rows) (new ∷ []))
        (rw (redeems-unused new (retire now new.user_id rows) apart) (rw own refl))) in
    let valid : ltb new.expires_at later ≡ false = ground (arith, early) in rw one (rw valid refl)

-- The lookup through a foreign key, where the key is there.
user_of-select :
    (id : ℕ) (users : List User) {u : User}
    → select (λ x. x.id == id) users ≡ u ∷ []
    → user_of id users ≡ ok u
user_of-select id [] h = cc
user_of-select id (x ∷ users) {u = u} h = elim (Bool-cases (x.id == id)) [
  | inl at ↦ ground arith
  | inr off ↦ let rest = user_of-select id users {u = u} (ground arith) in ground arith
]

module _ (p : Platform) {v : Values} where
  reset_mail-eq-some :
      (id : ℕ) (plain : String) (now : ℕ) (db : AuthDb v) (found : Option User) {mail : Mail}
      {db' : AuthDb v}
      → reset_mail p id plain now db found ≡ ok (some mail, db')
      → (user : User) × (rows : List TokenRow) × (found ≡ some user)
        × (user.is_active ≡ true)
        × (mail ≡ record { to = user.email; token = plain })
        × (reissue now
              (new_row id user.id (p.hash_token plain) (now + 3600))
              db.password_reset_tokens
            ≡ ok rows)
        × (db' ≡ record db { password_reset_tokens = rows })
  reset_mail-eq-some id plain now db none h = cc
  reset_mail-eq-some id plain now db (some user) {mail} {db'} h = elim (Bool-cases user.is_active) [
    | inr off ↦ cc (h, off)
    | inl on ↦
        let issue =
          reissue now (new_row id user.id (p.hash_token plain) (now + 3600))
            db.password_reset_tokens in
        let sent : List TokenRow → Result (Option Mail × AuthDb v) = λ rows. ok (
          some (record { to = user.email; token = plain }),
          record db { password_reset_tokens = rows },
        ) in
        let h0 : (issue >>= sent) ≡ ok (some mail, db') = rw on at h in
        let (rows, e, h1) = >>=-eq-ok issue sent h0 in
        (user, rows, refl, on, ground arith, e, ground arith)
  ]

  recovered :
      (id : ℕ) (plain : String) (now : ℕ) (email : String) (db : AuthDb v) (user : User)
      (rows : List TokenRow) (salt later : ℕ) (new_password : String)
      → IsLawful p
      → UniqueKeys user_key db.users
      → select (has_email p email) db.users ≡ user ∷ []
      → reissue now (new_row id user.id (p.hash_token plain) (now + 3600)) db.password_reset_tokens
        ≡ ok rows
      → later ≤ now + 3600
      → (after : AuthDb v) × (change_password p salt later plain new_password
            (record db { password_reset_tokens = rows })
          ≡ ok (user.id, after))
        × (select (has_email p email) after.users
            ≡ with_password (p.hash_password salt new_password) user ∷ [])
  unfolding change_password change_row
  recovered id plain now email db user rows salt later new_password laws unique one issued early =
      let new = new_row id user.id (p.hash_token plain) (now + 3600) in
      let hash = p.hash_password salt new_password in
      let by_key : with_id user.id db.users ≡ user ∷ [] =
        select_again user_key (has_email p email) user db.users unique one in
      let redeemed : redeem (p.hash_token plain) later rows ≡ ok new =
        redeem-reissue now later new db.password_reset_tokens refl early issued in
      let owner : user_of user.id db.users ≡ ok user = user_of-select user.id db.users by_key in
      (
        record db {
          users = change_row user_key user.id (with_password hash) db.users;
          password_reset_tokens = change_row row_key id (used later) rows;
        },
        rw redeemed (rw owner refl),
        select-change_row user_key (has_email p email) (with_password hash) user.id db.users
              (λ u. refl)
            ∙ rw one (rw ((==_iff user.id user.id).1 refl) refl),
      )

  -- When `forgot_password` sent a mail, in tables where the keys of users are unique, it goes to the one user of that address, who is
  -- active, and in the tables as that call leaves them no earlier reset token of his is left and
  -- the token of the mail works for an hour: given these tables, the tables' part of
  -- `reset_password` returns, it is for him, he is found by the same address afterwards, and the
  -- new password is his.
  pub change_password-forgot_password :
      (id : ℕ) (plain : String) (now : ℕ) (email : String) (db : AuthDb v) {mail : Mail}
      {db' : AuthDb v} (salt later : ℕ) (new_password : String)
      → IsLawful p
      → UniqueKeys user_key db.users
      → forgot_password p id plain now email db ≡ ok (some mail, db')
      → later ≤ now + 3600
      → (user : User) × (after : AuthDb v) × (mail.to ≡ user.email)
        × (user.is_active ≡ true)
        × (count_open user.id db'.password_reset_tokens ≡ 1)
        × (change_password p salt later mail.token new_password db' ≡ ok (user.id, after))
        × (select (has_email p email) after.users
            ≡ with_password (p.hash_password salt new_password) user ∷ [])
        × (p.verify_password new_password
              (candidate_hash (some (with_password (p.hash_password salt new_password) user)))
            ≡ true)
  unfolding forgot_password get_user_by_email change_password
  change_password-forgot_password id plain now email db salt later new_password laws unique h
        early =
      let (found, e, h1) =
        >>=-eq-ok (scalar_one_or_none (select (has_email p email) db.users)) _ h in
      let (user, rows, f, on, m, issued, same) = reset_mail-eq-some id plain now db found h1 in
      let one : select (has_email p email) db.users ≡ user ∷ [] =
        scalar-eq-some (select (has_email p email) db.users) (e ∙ ap ok f) in
      let (after, changed, there) =
        recovered id plain now email db user rows salt later new_password laws unique one issued
          early in
      let hash = p.hash_password salt new_password in
      (
        user,
        after,
        ap (λ (x : Mail). x.to) m,
        on,
        rw same (
            count_open-reissue now (new_row id user.id (p.hash_token plain) (now + 3600))
              db.password_reset_tokens refl issued user.id
            ∙ rw ((==_iff user.id user.id).1 refl) refl),
        rw (same, m) changed,
        there,
        rw (laws.hash-filled salt new_password) (laws.verify-hash salt new_password),
      )
