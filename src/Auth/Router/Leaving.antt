-- ===== src/Auth/Router/Leaving.antt =====
-- Leaving a session by the endpoint of backend/app/modules/auth/router.py.
use ai_business_automation.Prelude.{
  ℕ, ◌+◌, ◌*◌, ◌<◌, Option, true, subst, [], ◌∷◌, ◌≡◌, refl, ap, ◌∙◌, sym, arith, select,
}
use ai_business_automation.Errors.{ok, err}
use ai_business_automation.Workflows.Graph.{Values}
use ai_business_automation.Organizations.Roles.{Role}
use ai_business_automation.Organizations.Models.{Organization}
use ai_business_automation.Auth.Models.{User, AuthDb}
use ai_business_automation.Auth.Platform.{Platform, IsLawful}
use ai_business_automation.Auth.Accounts.{has_email}
use ai_business_automation.Auth.Sessions.{
  LoginRequest, session, session_key, login, with_id, access_for, refresh_for,
}
use ai_business_automation.Auth.Refresh.{refresh, reused, logout, refresh_key}
use ai_business_automation.Auth.Memberships.{Membership}
use ai_business_automation.Auth.Sessions.Login.{login-Opened}
use ai_business_automation.Auth.Sessions.Runs.{Runs}
use ai_business_automation.Auth.Sessions.Rotation.{refresh-logout}
use ai_business_automation.Auth.Sessions.Lasting.{with_id-id, refresh_key-refresh_for}
use ai_business_automation.Auth.Dependencies.Identity.{get_current_user-access_for}
use ai_business_automation.Auth.Router.{clear_refresh_cookie, logout_endpoint}

module _ (p : Platform) (laws : IsLawful p) {v : Values} where
  -- The access token of a session, given to the endpoint before it expires, leaves the session.
  logout_endpoint-access_for :
      (now left_at session_id drawn : ℕ) (user : User) (m : Option (Membership v)) (db : AuthDb v)
      (t : p.redis.Store)
      → with_id user.id db.users ≡ user ∷ []
      → user.is_active ≡ true
      → left_at < now + p.settings.access_minutes * 60
      → logout_endpoint p left_at (access_for p now user.id session_id drawn m) db t
        ≡ (ok clear_refresh_cookie, logout p user.id session_id t)
  unfolding logout_endpoint
  logout_endpoint-access_for now left_at session_id drawn user m db t one active early =
      rw
        (get_current_user-access_for p laws now left_at session_id drawn user m db one active early)
        (rw (laws.show-filled session_id) (rw (laws.parse-show session_id) refl))

  -- Whoever leaves the session that he logged in to, by the endpoint and with its access token
  -- while it is valid, has left it, if his row is still there and active when he leaves, whatever
  -- else the tables are then: the endpoint clears the cookie, and the session's refresh token,
  -- which is itself still valid, is refused as reused, whatever the service does in between and
  -- whatever the tables are at that time, as long as no new session is given the identifier.
  pub refresh-logout_endpoint :
      (session_id drawn now : ℕ) (body : LoginRequest) (db : AuthDb v) (s : p.redis.Store)
      {access fresh : p.jwt.Token} {organization : Option (Organization v × Role)}
      {s' : p.redis.Store} (left_at later again again_drawn : ℕ) (u t : p.redis.Store)
      (user present : User) (at_leaving db' : AuthDb v)
      → login p session_id drawn now body db s ≡ (ok (session access fresh organization), s')
      → select (has_email p body.email) db.users ≡ user ∷ []
      → with_id user.id at_leaving.users ≡ present ∷ []
      → present.is_active ≡ true
      → left_at < now + p.settings.access_minutes * 60
      → Runs p v
          (session_key p user.id session_id)
          left_at
          (logout_endpoint p left_at access at_leaving u).1
          later
          t
      → later < now + p.settings.refresh_days * 86400
      → ((logout_endpoint p left_at access at_leaving u).0 ≡ ok clear_refresh_cookie)
        × ((refresh p again again_drawn later fresh db' t).0 ≡ err (reused p))
  refresh-logout_endpoint session_id drawn now body db s {access} {fresh} left_at later again
        again_drawn u t user present at_leaving db' h found one active early runs valid =
      let opened = login-Opened p session_id drawn now body db s h in
      let same : opened.user ≡ user = ground (arith, opened.found) in
      let key : present.id ≡ user.id = with_id-id user.id at_leaving.users one in
      let is_access : access ≡ access_for p now present.id session_id drawn opened.chosen =
        opened.is_access
        ∙ ap (λ i. access_for p now i session_id drawn opened.chosen)
            (ap (λ (x : User). x.id) same ∙ sym key) in
      let is_fresh : fresh ≡ refresh_for p now user.id session_id =
        opened.is_refresh ∙ ap (λ (x : User). refresh_for p now x.id session_id) same in
      let leaves : logout_endpoint p left_at access at_leaving u
          ≡ (ok clear_refresh_cookie, logout p user.id session_id u) =
        ap (λ a. logout_endpoint p left_at a at_leaving u) is_access
        ∙ logout_endpoint-access_for now left_at session_id drawn present opened.chosen at_leaving u
            (subst (λ i. with_id i at_leaving.users ≡ present ∷ []) (sym key) one) active early
        ∙ ap (λ i. (ok clear_refresh_cookie, logout p i session_id u)) key in
      (
        ap (λ r. r.0) leaves,
        ap (λ r. r.0)
            (refresh-logout p laws.stored user.id session_id left_at u later t again again_drawn
              fresh db'
              (subst (λ r. Runs p v (session_key p user.id session_id) left_at r.1 later t) leaves
                runs)
              (ap (refresh_key p later) is_fresh
                ∙ refresh_key-refresh_for p laws now later user.id session_id valid)),
      )
