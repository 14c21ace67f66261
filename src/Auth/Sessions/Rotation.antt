-- ===== src/Auth/Sessions/Rotation.antt =====
-- The rotation of refresh tokens in `refresh` of backend/app/modules/auth/service.py: what it
-- checks, and that a session that was rotated, left or reset never comes back.
use ai_business_automation.Prelude.{
  ℕ, String, Option, none, some, Bool-cases, [], ◌∷◌, ◌≡◌, refl, ◌∙◌, ap, inl, inr, arith, str_eq,
  eq_iff, select,
}
use ai_business_automation.Errors.{Result, ok, err}
use ai_business_automation.Workflows.Graph.{Values}
use ai_business_automation.Auth.Models.{User, TokenRow, AuthDb}
use ai_business_automation.Auth.Redis.{Key, IsRedis}
use ai_business_automation.Auth.Platform.{Platform}
use ai_business_automation.Auth.OneTime.{redeems}
use ai_business_automation.Auth.Accounts.{reset_password}
use ai_business_automation.Auth.Accounts.Laws.{
  same_key_refl, get-delete_scan, reset_password-eq-ok, change_password-eq-ok,
}
use ai_business_automation.Auth.Sessions.{session_key, store_refresh_token, access_for, refresh_for}
use ai_business_automation.Auth.Refresh.{
  refresh, rotated, compared, looked_up, refresh_key, session_user, reused, logout,
}
use ai_business_automation.Auth.Memberships.{first, get_user_memberships}
use ai_business_automation.Auth.Sessions.Runs.{
  IsOther, IsAbsent, Runs, Runs-IsAbsent, store-IsAbsent,
}

module _ (p : Platform) {v : Values} where
  rotated-eq-ok :
      (session_id drawn now : ℕ) (db : AuthDb v) (s : p.redis.Store) (r : Result User)
      {tokens : p.jwt.Token × p.jwt.Token} {s' : p.redis.Store}
      → rotated p session_id drawn now db s r ≡ (ok tokens, s')
      → (user : User) × (r ≡ ok user)
        × (tokens ≡ (
          access_for p now user.id session_id drawn (first (get_user_memberships user.id db.org)),
          refresh_for p now user.id session_id,
        ))
        × (s'
            ≡ store_refresh_token p now user.id session_id (refresh_for p now user.id session_id) s)
  rotated-eq-ok session_id drawn now db s (err e) h = cc
  rotated-eq-ok session_id drawn now db s (ok user) h = (user, refl, ground arith, ground arith)

  compared-eq-ok :
      (session_id drawn now : ℕ) (token : p.jwt.Token) (k : Key) (db : AuthDb v) (o : Option String)
      (s : p.redis.Store) {tokens : p.jwt.Token × p.jwt.Token} {s' : p.redis.Store}
      → compared p session_id drawn now token k db (o, s) ≡ (ok tokens, s')
      → (o ≡ some (p.hash_refresh token))
        × (rotated p session_id drawn now db s (session_user p k.user db) ≡ (ok tokens, s'))
  compared-eq-ok session_id drawn now token k db none s h = cc
  compared-eq-ok session_id drawn now token k db (some hash) s h =
      elim (Bool-cases (str_eq hash (p.hash_refresh token))) [
        | inl same ↦ (ap some ((eq_iff hash (p.hash_refresh token)).0 same), ground arith)
        | inr wrong ↦ ground arith
      ]

  looked_up-eq-ok :
      (session_id drawn now : ℕ) (token : p.jwt.Token) (db : AuthDb v) (s : p.redis.Store)
      (r : Result Key) {tokens : p.jwt.Token × p.jwt.Token} {s' : p.redis.Store}
      → looked_up p session_id drawn now token db s r ≡ (ok tokens, s')
      → (k : Key) × (r ≡ ok k)
        × (p.redis.get now k s ≡ some (p.hash_refresh token))
        × (rotated p session_id drawn now db (p.redis.delete k s) (session_user p k.user db)
            ≡ (ok tokens, s'))
  looked_up-eq-ok session_id drawn now token db s (err e) h = cc
  looked_up-eq-ok session_id drawn now token db s (ok k) h =
      let (there, next) =
        compared-eq-ok session_id drawn now token k db (p.redis.get now k s) (p.redis.delete k s)
          h in
      (k, refl, there, next)

  -- When `refresh` returns tokens, the store held the hash of the token under the key that the
  -- token names, the user that it names is there and active, the key is deleted, and the new
  -- tokens are for the first of his memberships and a new session, whose hash is stored.
  pub refresh-eq-ok :
      (session_id drawn now : ℕ) (token : p.jwt.Token) (db : AuthDb v) (s : p.redis.Store)
      {tokens : p.jwt.Token × p.jwt.Token} {s' : p.redis.Store}
      → refresh p session_id drawn now token db s ≡ (ok tokens, s')
      → (k : Key) × (user : User) × (refresh_key p now token ≡ ok k)
        × (p.redis.get now k s ≡ some (p.hash_refresh token))
        × (session_user p k.user db ≡ ok user)
        × (tokens ≡ (
          access_for p now user.id session_id drawn (first (get_user_memberships user.id db.org)),
          refresh_for p now user.id session_id,
        ))
        × (s'
            ≡ store_refresh_token p now user.id session_id
                (refresh_for p now user.id session_id)
                (p.redis.delete k s))
  unfolding refresh
  refresh-eq-ok session_id drawn now token db s h =
      let (k, named, there, next) =
        looked_up-eq-ok session_id drawn now token db s (refresh_key p now token) h in
      let (user, who, made, stored) =
        rotated-eq-ok session_id drawn now db (p.redis.delete k s) (session_user p k.user db)
          next in
      (k, user, named, there, who, made, stored)

  -- A token that names a key that is not there is refused.
  refresh-absent :
      (session_id drawn now : ℕ) (token : p.jwt.Token) (k : Key) (db : AuthDb v) (s : p.redis.Store)
      → refresh_key p now token ≡ ok k
      → IsAbsent p.redis now k s
      → refresh p session_id drawn now token db s ≡ (err (reused p), p.redis.delete k s)
  unfolding refresh
  refresh-absent session_id drawn now token k db s named gone =
      rw named (rw (gone now (omega arith)) refl)

module _ (p : Platform) (laws : IsRedis p.redis) where
  deleted-IsAbsent :
      (now : ℕ) (k : Key) (s : p.redis.Store) → IsAbsent p.redis now k (p.redis.delete k s)
  deleted-IsAbsent now k s later le =
      laws.get-delete later k k s ∙ rw (same_key_refl p.redis laws k) refl

module _ (p : Platform) (laws : IsRedis p.redis) {v : Values} where
  -- A refresh token works once: after `refresh` returned new tokens for the key that a token names,
  -- a token that names the same key is refused as reused, whatever operations of the service came
  -- between, as long as no new session is given the identifier of the old one.
  pub refresh_once :
      (session_id drawn now : ℕ) (token : p.jwt.Token) (db : AuthDb v) (s : p.redis.Store)
      {tokens : p.jwt.Token × p.jwt.Token} {s' : p.redis.Store} (k : Key) (later : ℕ)
      (t : p.redis.Store) (again again_drawn : ℕ) (replayed : p.jwt.Token) (db' : AuthDb v)
      → refresh p session_id drawn now token db s ≡ (ok tokens, s')
      → refresh_key p now token ≡ ok k
      → IsOther p k session_id
      → Runs p v k now s' later t
      → refresh_key p later replayed ≡ ok k
      → refresh p again again_drawn later replayed db' t ≡ (err (reused p), p.redis.delete k t)
  refresh_once session_id drawn now token db s k later t again again_drawn replayed db' h named
        other runs named' =
      let (j, user, named_j, _, _, _, stored) = refresh-eq-ok p session_id drawn now token db s h in
      let same : j ≡ k = ground arith in
      refresh-absent p again again_drawn later replayed k db' t named' (
        Runs-IsAbsent p laws runs (
          rw stored (
            store-IsAbsent p laws k session_id now user.id _ (p.redis.delete j s) other
              (rw same (deleted-IsAbsent p laws now k s)))))

  -- After `logout` of a session, its refresh token is refused, whatever operations came between.
  pub refresh-logout :
      (user_id session_id now : ℕ) (s : p.redis.Store) (later : ℕ) (t : p.redis.Store)
      (again drawn : ℕ) (token : p.jwt.Token) (db : AuthDb v)
      → Runs p v (session_key p user_id session_id) now (logout p user_id session_id s) later t
      → refresh_key p later token ≡ ok (session_key p user_id session_id)
      → refresh p again drawn later token db t
        ≡ (err (reused p), p.redis.delete (session_key p user_id session_id) t)
  unfolding logout
  refresh-logout user_id session_id now s later t again drawn token db runs named =
      refresh-absent p again drawn later token (session_key p user_id session_id) db t named (
        Runs-IsAbsent p laws runs
          (deleted-IsAbsent p laws now (session_key p user_id session_id) s))

  -- After `reset_password` returned, every refresh token that names the user of the reset token is
  -- refused, whatever operations came between, as long as no new session is given its identifier.
  pub refresh-reset_password :
      (salt now : ℕ) (reset_token new_password : String) (db : AuthDb v) (s : p.redis.Store)
      {db' : AuthDb v} {s' : p.redis.Store} (row : TokenRow) (k : Key) (later : ℕ)
      (t : p.redis.Store) (again drawn : ℕ) (token : p.jwt.Token) (db2 : AuthDb v)
      → reset_password p salt now reset_token new_password db s ≡ (ok db', s')
      → select (redeems (p.hash_token reset_token)) db.password_reset_tokens ≡ row ∷ []
      → k.user ≡ p.show_id row.user_id
      → Runs p v k now s' later t
      → refresh_key p later token ≡ ok k
      → refresh p again drawn later token db2 t ≡ (err (reused p), p.redis.delete k t)
  refresh-reset_password salt now reset_token new_password db s row k later t again drawn token db2
        h one of runs named =
      let (user_id, changed, ended) =
        reset_password-eq-ok p salt now reset_token new_password db s h in
      let (prt, user, one', _, _, whose, _) =
        change_password-eq-ok p salt now reset_token new_password db changed in
      let same : prt ≡ row = ground arith in
      let name : p.show_id user_id ≡ k.user = cc in
      refresh-absent p again drawn later token k db2 t named (
        Runs-IsAbsent p laws runs
          (rw ended (rw name (λ at le. get-delete_scan p.redis laws now at k s le))))
