-- ===== src/Auth/Dependencies/Identity.antt =====
-- What an access token of `login` says to the dependencies of the endpoints.
use ai_business_automation.Prelude.{
  ℕ, ◌+◌, ◌*◌, ◌<◌, String, Option, none, some, true, [], ◌∷◌, ◌≡◌, refl, ap, ◌∙◌, sym, subst,
  arith, select,
}
use ai_business_automation.Errors.{ok, scalar_one_or_none}
use ai_business_automation.Workflows.Graph.{Values}
use ai_business_automation.Security.{Claims, access_claims, decode_access_token}
use ai_business_automation.Security.Tokens.{IsFaithful, decode_access_token-create_access_token}
use ai_business_automation.Organizations.Roles.{Role, role_text}
use ai_business_automation.Organizations.Members.{is_member}
use ai_business_automation.Organizations.Orgs.{OrgDb, get_by_id}
use ai_business_automation.Organizations.Dependencies.{require_org_member}
use ai_business_automation.Organizations.Models.{Organization, OrgMember}
use ai_business_automation.Auth.Models.{User, AuthDb}
use ai_business_automation.Auth.Platform.{Platform, IsLawful}
use ai_business_automation.Auth.Accounts.{has_email}
use ai_business_automation.Auth.Sessions.{
  LoginRequest, session, login, with_id, access_for, organization_of,
}
use ai_business_automation.Auth.Memberships.{Membership, join_rows, get_user_memberships}
use ai_business_automation.Auth.Sessions.Login.{IsChosen, Opened, login-Opened}
use ai_business_automation.Auth.Sessions.Lasting.{with_id-id, session_user-show_id}
use ai_business_automation.Auth.Dependencies.Memberships.{Joined, join_rows-Joined, IsChosen-mem}
use ai_business_automation.Auth.Dependencies.{claim_or_empty, get_current_user}

module _ (p : Platform) {v : Values} where
  -- What an access token says for the organization that was answered with it.
  abbrev pub IsClaimed : Option (Organization v × Role) → Claims → Type 0
  IsClaimed none payload = payload.role ≡ some "owner"
  IsClaimed (some (org, role)) payload =
      (payload.org_id ≡ some (p.show_id org.id)) × (payload.role ≡ some (role_text role))

  abbrev pub claimed_org : ℕ → Option (Membership v) → ℕ
  claimed_org drawn none = drawn
  claimed_org drawn (some m) = m.org_id

  abbrev pub claimed_role : Option (Membership v) → String
  claimed_role none = "owner"
  claimed_role (some m) = role_text m.role

  abbrev pub claims_for : ℕ → ℕ → ℕ → ℕ → Option (Membership v) → Claims
  claims_for now user_id session_id drawn m =
      access_claims p.settings now (p.show_id user_id) (p.show_id (claimed_org drawn m))
        (p.show_id session_id) (claimed_role m) "org"

  decode_access_token-access_for :
      (faithful : IsFaithful p.jwt) (now later user_id session_id drawn : ℕ)
      (m : Option (Membership v))
      → later < now + p.settings.access_minutes * 60
      → decode_access_token p.jwt later (access_for p now user_id session_id drawn m)
        ≡ ok (claims_for now user_id session_id drawn m)
  decode_access_token-access_for faithful now later user_id session_id drawn none early =
      decode_access_token-create_access_token p.jwt faithful p.settings now later
        (p.show_id user_id) (p.show_id drawn) (p.show_id session_id) "owner" "org" early
  decode_access_token-access_for faithful now later user_id session_id drawn (some m) early =
      decode_access_token-create_access_token p.jwt faithful p.settings now later
        (p.show_id user_id) (p.show_id m.org_id) (p.show_id session_id) (role_text m.role) "org"
        early

  pub get_current_user-access_for :
      (laws : IsLawful p) (now later session_id drawn : ℕ) (user : User) (m : Option (Membership v))
      (db : AuthDb v)
      → with_id user.id db.users ≡ user ∷ []
      → user.is_active ≡ true
      → later < now + p.settings.access_minutes * 60
      → get_current_user p later (access_for p now user.id session_id drawn m) db
        ≡ ok (user, claims_for now user.id session_id drawn m)
  unfolding get_current_user
  get_current_user-access_for laws now later session_id drawn user m db one active early =
      rw (decode_access_token-access_for laws.faithful now later user.id session_id drawn m early)
        (rw (session_user-show_id p laws user db one active) refl)

  chosen-Joined :
      (org_id : Option ℕ) (user_id : ℕ) (org : OrgDb v) (m : Membership v)
      → IsChosen org_id (get_user_memberships user_id org) (some m)
      → Joined user_id org.members org.organizations m
  unfolding get_user_memberships
  chosen-Joined org_id user_id org m chosen =
      join_rows-Joined user_id org.members org.organizations m
        (IsChosen-mem org_id (join_rows user_id org.members org.organizations) m chosen)

  chosen-IsClaimed :
      (org_id : Option ℕ) (now user_id claimed session_id drawn : ℕ) (org : OrgDb v)
      (m : Option (Membership v))
      → IsChosen org_id (get_user_memberships user_id org) m
      → IsClaimed (organization_of p m) (claims_for now claimed session_id drawn m)
  chosen-IsClaimed org_id now user_id claimed session_id drawn org none chosen = refl
  chosen-IsClaimed org_id now user_id claimed session_id drawn org (some m) chosen =
      (ap (λ x. some (p.show_id x)) (sym (chosen-Joined org_id user_id org m chosen).has_id), refl)

  -- The access token of a login, with the tables as they are later.
  token-login :
      (laws : IsLawful p) (session_id drawn now : ℕ) (body : LoginRequest) (db : AuthDb v)
      (s : p.redis.Store) {access fresh : p.jwt.Token}
      {organization : Option (Organization v × Role)} {s' : p.redis.Store} (later : ℕ)
      (user present : User) (db' : AuthDb v)
      → (opened : Opened p session_id drawn now body db s access fresh organization s')
      → select (has_email p body.email) db.users ≡ user ∷ []
      → with_id user.id db'.users ≡ present ∷ []
      → present.is_active ≡ true
      → later < now + p.settings.access_minutes * 60
      → get_current_user p later access db'
        ≡ ok (present, claims_for now present.id session_id drawn opened.chosen)
  token-login laws session_id drawn now body db s later user present db' opened found one active
        early =
      let same : opened.user ≡ user = ground (arith, opened.found) in
      let key : present.id ≡ user.id = with_id-id user.id db'.users one in
      let is_access =
        opened.is_access
        ∙ ap (λ i. access_for p now i session_id drawn opened.chosen)
            (ap (λ (x : User). x.id) same ∙ sym key) in
      ap (λ a. get_current_user p later a db') is_access
      ∙ get_current_user-access_for laws now later session_id drawn present opened.chosen db'
          (subst (λ i. with_id i db'.users ≡ present ∷ []) (sym key) one) active early

  -- Until the access token of a login expires, the endpoints' dependencies take its bearer for the
  -- user who logged in, as long as his row is there and active, whatever else the tables have
  -- become: in the session that was opened, and the token names the organization that was
  -- answered and the role that the user had in it; with no organization it says the role "owner".
  pub get_current_user-login :
      (laws : IsLawful p) (session_id drawn now : ℕ) (body : LoginRequest) (db : AuthDb v)
      (s : p.redis.Store) {access fresh : p.jwt.Token}
      {organization : Option (Organization v × Role)} {s' : p.redis.Store} (later : ℕ)
      (user present : User) (db' : AuthDb v)
      → login p session_id drawn now body db s ≡ (ok (session access fresh organization), s')
      → select (has_email p body.email) db.users ≡ user ∷ []
      → with_id user.id db'.users ≡ present ∷ []
      → present.is_active ≡ true
      → later < now + p.settings.access_minutes * 60
      → (payload : Claims) × (get_current_user p later access db' ≡ ok (present, payload))
        × (present.id ≡ user.id)
        × (payload.session_id ≡ some (p.show_id session_id))
        × IsClaimed organization payload
  get_current_user-login laws session_id drawn now body db s later user present db' h found one
        active early =
      let opened = login-Opened p session_id drawn now body db s h in
      (
        claims_for now present.id session_id drawn opened.chosen,
        token-login laws session_id drawn now body db s later user present db' opened found one
            active early,
        with_id-id user.id db'.users one,
        refl,
        subst (λ o. IsClaimed o (claims_for now present.id session_id drawn opened.chosen))
            (sym opened.is_organization)
            (chosen-IsClaimed body.org_id now opened.user.id present.id session_id drawn db.org
              opened.chosen opened.membership),
      )

  -- The bearer of the access token of a login for an organization passes `require_org_member`
  -- until the token expires, whatever the tables have become, as long as his row and the
  -- organization's are there and active and he has one member row in it: he is let in as that
  -- row, with the role that it has then, while the token still says the role of the login.
  pub require_org_member-login :
      (laws : IsLawful p) (session_id drawn now : ℕ) (body : LoginRequest) (db : AuthDb v)
      (s : p.redis.Store) {access fresh : p.jwt.Token} {o : Organization v} {role : Role}
      {s' : p.redis.Store} (later : ℕ) (user present : User) (db' : AuthDb v) (o' : Organization v)
      (row : OrgMember)
      → login p session_id drawn now body db s ≡ (ok (session access fresh (some (o, role))), s')
      → select (has_email p body.email) db.users ≡ user ∷ []
      → with_id user.id db'.users ≡ present ∷ []
      → present.is_active ≡ true
      → get_by_id o.id db'.org.organizations ≡ some o'
      → o'.is_active ≡ true
      → select (is_member o.id user.id) db'.org.members ≡ row ∷ []
      → later < now + p.settings.access_minutes * 60
      → (payload : Claims) × (get_current_user p later access db' ≡ ok (present, payload))
        × (payload.role ≡ some (role_text role))
        × (require_org_member p.parse_id
              (claim_or_empty payload.org_id)
              present.id
              db'.org.organizations
              db'.org.members
            ≡ ok row)
  unfolding require_org_member scalar_one_or_none
  require_org_member-login laws session_id drawn now body db s {o = o} later user present db' o' row
        h found one active there open_ joined early =
      let (payload, current, key, _, (in_org, in_role)) =
        get_current_user-login laws session_id drawn now body db s later user present db' h found
          one active early in
      (
        payload,
        current,
        in_role,
        rw in_org (rw (laws.parse-show o.id) (rw there (rw open_ (rw key (rw joined refl))))),
      )
