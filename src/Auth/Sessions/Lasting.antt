-- ===== src/Auth/Sessions/Lasting.antt =====
-- How long a session of backend/app/modules/auth/service.py can be continued by `refresh`.
use ai_business_automation.Prelude.{
  ℕ, ◌+◌, ◌*◌, ◌<◌, Option, some, true, [], ◌∷◌, ◌≡◌, refl, ◌∙◌, ap, arith, eq_iff, select, List,
  inl, sym, subst, ◌==◌, ==_iff, mem-select,
}
use ai_business_automation.Errors.{ok, scalar_one_or_none}
use ai_business_automation.Workflows.Graph.{Values}
use ai_business_automation.Security.{create_refresh_token, refresh_claims, decode_refresh_token}
use ai_business_automation.Organizations.Roles.{Role}
use ai_business_automation.Organizations.Models.{Organization}
use ai_business_automation.Auth.Models.{User, AuthDb}
use ai_business_automation.Auth.Platform.{Platform, IsLawful}
use ai_business_automation.Auth.Accounts.{has_email}
use ai_business_automation.Auth.Accounts.Laws.{same_key_refl}
use ai_business_automation.Auth.Sessions.{
  session_key, with_id, store_refresh_token, access_for, refresh_for, session, login, LoginRequest,
}
use ai_business_automation.Auth.Refresh.{refresh, refresh_key, session_user}
use ai_business_automation.Auth.Memberships.{first, get_user_memberships}
use ai_business_automation.Auth.Sessions.Login.{login-Opened}

-- The row that is found by a key has it.
pub with_id-id : (id : ℕ) (users : List User) {u : User} → with_id id users ≡ u ∷ [] → u.id ≡ id
with_id-id id users {u} one =
    (==_iff u.id id).0 (((mem-select (λ x. x.id == id) u users).0 (rw one (inl refl))).1)

module _ (p : Platform) (laws : IsLawful p) where
  -- The key of a refresh token that has not expired.
  pub refresh_key-refresh_for :
      (made now user_id session_id : ℕ)
      → now < made + p.settings.refresh_days * 86400
      → refresh_key p now (refresh_for p made user_id session_id)
        ≡ ok (session_key p user_id session_id)
  unfolding refresh_key create_refresh_token decode_refresh_token
  refresh_key-refresh_for made now user_id session_id early =
      rw
        (
          refresh_key,
          decode_refresh_token,
          laws.faithful.returned
              (refresh_claims p.settings made (p.show_id user_id) (p.show_id session_id)) now early,
        )
        refl

  -- What `login` stores is there until the refresh token expires.
  get-store_refresh_token :
      (made now user_id session_id : ℕ) (s : p.redis.Store)
      → now < made + p.settings.refresh_days * 86400
      → p.redis.get now
          (session_key p user_id session_id)
          (store_refresh_token p made user_id session_id (refresh_for p made user_id session_id) s)
        ≡ some (p.hash_refresh (refresh_for p made user_id session_id))
  get-store_refresh_token made now user_id session_id s early =
      let k = session_key p user_id session_id in
      laws.stored.get-set made now k k (p.hash_refresh (refresh_for p made user_id session_id))
        (p.settings.refresh_days * 86400) s
      ∙ rw (same_key_refl p.redis laws.stored k) (ground (arith, early))

module _ (p : Platform) (laws : IsLawful p) {v : Values} where
  pub session_user-show_id :
      (user : User) (db : AuthDb v)
      → with_id user.id db.users ≡ user ∷ []
      → user.is_active ≡ true
      → session_user p (p.show_id user.id) db ≡ ok user
  unfolding session_user scalar_one_or_none
  session_user-show_id user db one active = rw (laws.parse-show user.id) (rw one (rw active refl))

  -- A refresh token works until it expires, while its hash is stored.
  stored_refresh :
      (made session_id now : ℕ) (user : User) (t : p.redis.Store) (again drawn : ℕ) (db : AuthDb v)
      → now < made + p.settings.refresh_days * 86400
      → p.redis.get now (session_key p user.id session_id) t
        ≡ some (p.hash_refresh (refresh_for p made user.id session_id))
      → with_id user.id db.users ≡ user ∷ []
      → user.is_active ≡ true
      → (refresh p again drawn now (refresh_for p made user.id session_id) db t).0
        ≡ ok (
          access_for p now user.id again drawn (first (get_user_memberships user.id db.org)),
          refresh_for p now user.id again,
        )
  unfolding refresh
  stored_refresh made session_id now user t again drawn db early got one active =
      let hash = p.hash_refresh (refresh_for p made user.id session_id) in
      rw (refresh_key-refresh_for p laws made now user.id session_id early) (
        rw got (rw ((eq_iff hash hash).1 refl) (rw (session_user-show_id user db one active) refl)))

  -- The session that `login` opens can be continued until its refresh token expires: `refresh`
  -- then returns new tokens for the same user, as long as his row is there and active, and what
  -- Redis has for the key of the session is what `login` stored, whatever else the tables and
  -- Redis have become. The tokens are for the first of the memberships that he has then, whichever
  -- organization he had logged in to.
  pub refresh-login :
      (session_id drawn now : ℕ) (body : LoginRequest) (db : AuthDb v) (s : p.redis.Store)
      {access fresh : p.jwt.Token} {organization : Option (Organization v × Role)}
      {s' : p.redis.Store} (again again_drawn later : ℕ) (user present : User) (db' : AuthDb v)
      (t : p.redis.Store)
      → login p session_id drawn now body db s ≡ (ok (session access fresh organization), s')
      → select (has_email p body.email) db.users ≡ user ∷ []
      → with_id user.id db'.users ≡ present ∷ []
      → present.is_active ≡ true
      → p.redis.get later (session_key p user.id session_id) t
        ≡ p.redis.get later (session_key p user.id session_id) s'
      → later < now + p.settings.refresh_days * 86400
      → (refresh p again again_drawn later fresh db' t).0
        ≡ ok (
          access_for p later user.id again again_drawn
              (first (get_user_memberships user.id db'.org)),
          refresh_for p later user.id again,
        )
  refresh-login session_id drawn now body db s {access} {fresh} {organization} {s'} again
        again_drawn later user present db' t h found one active kept early =
      let opened = login-Opened p session_id drawn now body db s h in
      let same : opened.user ≡ user = ground (arith, opened.found) in
      let key : present.id ≡ user.id = with_id-id user.id db'.users one in
      let is_fresh : fresh ≡ refresh_for p now user.id session_id =
        opened.is_refresh ∙ ap (λ (x : User). refresh_for p now x.id session_id) same in
      let is_store : s'
          ≡ store_refresh_token p now user.id session_id (refresh_for p now user.id session_id) s =
        opened.is_store
        ∙ ap (λ (x : User). store_refresh_token p now x.id session_id fresh s) same
        ∙ ap (λ f. store_refresh_token p now user.id session_id f s) is_fresh in
      let stored : p.redis.get later (session_key p user.id session_id) t
          ≡ some (p.hash_refresh (refresh_for p now user.id session_id)) =
        kept
        ∙ ap (p.redis.get later (session_key p user.id session_id)) is_store
        ∙ get-store_refresh_token p laws now later user.id session_id s early in
      ap (λ f. (refresh p again again_drawn later f db' t).0) is_fresh
      ∙ subst
          (λ i.
            (refresh p again again_drawn later (refresh_for p now i session_id) db' t).0
            ≡ ok (
              access_for p later i again again_drawn (first (get_user_memberships i db'.org)),
              refresh_for p later i again,
            ))
          key
          (stored_refresh now session_id later present t again again_drawn db' early
            (subst
              (λ i.
                p.redis.get later (session_key p i session_id) t
                ≡ some (p.hash_refresh (refresh_for p now i session_id)))
              (sym key) stored)
            (subst (λ i. with_id i db'.users ≡ present ∷ []) (sym key) one) active)
