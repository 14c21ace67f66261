-- ===== src/Auth/Sessions/Login.antt =====
-- What `login` of backend/app/modules/auth/service.py checks before it opens a session.
use ai_business_automation.Prelude.{
  ℕ, Option, none, some, Bool, Bool-cases, true, false, not, List, [], ◌∷◌, ◌≡◌, refl, ap, ◌∙◌, sym,
  subst, ◌⊎◌, inl, inr, arith, ◌==◌, ==_iff, select, Member,
}
use ai_business_automation.Errors.{
  Result, ok, err, unauthorized, or_raise, scalar_one_or_none, >>=-eq-ok, or_raise-eq-ok,
  scalar-eq-some, raise_if->>,
}
use ai_business_automation.Workflows.Graph.{Values}
use ai_business_automation.Organizations.Roles.{Role}
use ai_business_automation.Organizations.Models.{Organization}
use ai_business_automation.Auth.Models.{User, AuthDb}
use ai_business_automation.Auth.Platform.{Platform}
use ai_business_automation.Auth.Accounts.{has_email, get_user_by_email}
use ai_business_automation.Auth.Sessions.{
  LoginRequest, session, candidate_hash, store_refresh_token, access_for, refresh_for, check_user,
  pick, check_org, resolve, organization_of, answered, logged_in, login,
}
use ai_business_automation.Auth.Memberships.{Membership, get_user_memberships, membership_in}

not-eq-false : (b : Bool) → not b ≡ false → b ≡ true
not-eq-false true h = refl
not-eq-false false h = cc

module _ {v : Values} where
  membership_in-mem :
      (o : ℕ) (ms : List (Membership v)) {m : Membership v}
      → membership_in o ms ≡ some m
      → Member m ms × (m.org_id ≡ o)
  membership_in-mem o [] h = cc
  membership_in-mem o (k ∷ ms) {m} h = elim (Bool-cases (k.org_id == o)) [
    | inl at ↦
        let same : k ≡ m = ground arith in
        (inl (sym same), subst (λ (x : Membership v). x.org_id ≡ o) same ((==_iff k.org_id o).0 at))
    | inr off ↦ let (l, e) = membership_in-mem o ms (ground arith) in (inr l, e)
  ]

  -- The membership that a login is for.
  abbrev pub IsChosen : Option ℕ → List (Membership v) → Option (Membership v) → Type 0
  IsChosen org_id ms none = (org_id ≡ none) × (ms ≡ [])
  IsChosen none ms (some m) = (ms ≡ m ∷ []) × (m.org.is_active ≡ true)
  IsChosen (some o) ms (some m) = Member m ms × (m.org_id ≡ o) × (m.org.is_active ≡ true)

module _ (p : Platform) {v : Values} where
  check_org-eq-ok :
      (x : List (Organization v) ⊎ Option (Membership v)) {m : Option (Membership v)}
      → check_org p x ≡ ok (inr m)
      → (x ≡ inr m) × ((k : Membership v) → m ≡ some k → k.org.is_active ≡ true)
  check_org-eq-ok (inl os) h = cc
  check_org-eq-ok (inr none) h = (ground arith, λ k e. cc)
  check_org-eq-ok (inr (some n)) h = (ground arith, λ k e. ground arith)

  resolve-eq-ok :
      (org_id : Option ℕ) (ms : List (Membership v)) (m : Option (Membership v))
      → resolve p org_id ms ≡ ok (inr m)
      → IsChosen org_id ms m
  unfolding resolve
  resolve-eq-ok none [] none h = (refl, refl)
  resolve-eq-ok none [] (some m) h = cc
  resolve-eq-ok none (k ∷ []) none h = ground arith
  resolve-eq-ok none (k ∷ []) (some m) h = ground arith
  resolve-eq-ok none (k ∷ n ∷ ms) none h = cc
  resolve-eq-ok none (k ∷ n ∷ ms) (some m) h = cc
  resolve-eq-ok (some o) ms m h =
      let (x, e, h1) = >>=-eq-ok (pick p (some o) ms) (check_org p) h in
      let (found, active) = check_org-eq-ok x h1 in
      let (k, e2, h2) =
        >>=-eq-ok (or_raise (membership_in o ms) (unauthorized "INVALID_CREDENTIALS")) _ e in
      let (l, at) =
        membership_in-mem o ms
          (or_raise-eq-ok (membership_in o ms) (unauthorized "INVALID_CREDENTIALS") e2) in
      let same : m ≡ some k = ground arith in rw same (l, at, active k same)

  pub check_user-eq-ok :
      (body : LoginRequest) (db : AuthDb v) {user : User}
      → check_user p body db ≡ ok user
      → (select (has_email p body.email) db.users ≡ user ∷ [])
        × (p.verify_password body.password (candidate_hash (some user)) ≡ true)
        × (user.is_active ≡ true)
        × (user.is_verified ≡ true)
  unfolding check_user get_user_by_email
  check_user-eq-ok body db {user} h =
      let (found, e, h1) =
        >>=-eq-ok (scalar_one_or_none (select (has_email p body.email) db.users)) _ h in
      let (good, h2) =
        raise_if->> (not (p.verify_password body.password (candidate_hash found)))
          (unauthorized "INVALID_CREDENTIALS") _ h1 in
      let (u, e2, h3) = >>=-eq-ok (or_raise found (unauthorized "INVALID_CREDENTIALS")) _ h2 in
      let (active, h4) = raise_if->> (not u.is_active) (unauthorized "ACCOUNT_DISABLED") _ h3 in
      let (verified, h5) =
        raise_if->> (not u.is_verified) (unauthorized "EMAIL_NOT_VERIFIED") _ h4 in
      let same : u ≡ user = ground arith in
      let it : found ≡ some user =
        or_raise-eq-ok found (unauthorized "INVALID_CREDENTIALS") e2 ∙ ap some same in
      (
        scalar-eq-some (select (has_email p body.email) db.users) (e ∙ ap ok it),
        not-eq-false _
            (subst (λ o. not (p.verify_password body.password (candidate_hash o)) ≡ false) it good),
        subst (λ (x : User). x.is_active ≡ true) same (not-eq-false _ active),
        subst (λ (x : User). x.is_verified ≡ true) same (not-eq-false _ verified),
      )

  -- A session that `login` opened: the user, the membership, and what was written.
  pub record Opened (session_id drawn now : ℕ) (body : LoginRequest) (db : AuthDb v)
      (s : p.redis.Store) (access fresh : p.jwt.Token)
      (organization : Option (Organization v × Role)) (s' : p.redis.Store) : Type 0 where
    pub user : User
    pub chosen : Option (Membership v)
    pub found : select (has_email p body.email) db.users ≡ user ∷ []
    pub password : p.verify_password body.password (candidate_hash (some user)) ≡ true
    pub active : user.is_active ≡ true
    pub verified : user.is_verified ≡ true
    pub membership : IsChosen body.org_id (get_user_memberships user.id db.org) chosen
    pub is_access : access ≡ access_for p now user.id session_id drawn chosen
    pub is_refresh : fresh ≡ refresh_for p now user.id session_id
    pub is_organization : organization ≡ organization_of p chosen
    pub is_store : s' ≡ store_refresh_token p now user.id session_id fresh s

  answered-eq-ok :
      (session_id drawn now : ℕ) (s : p.redis.Store) (user : User)
      (r : Result (List (Organization v) ⊎ Option (Membership v))) {access fresh : p.jwt.Token}
      {organization : Option (Organization v × Role)} {s' : p.redis.Store}
      → answered p session_id drawn now s user r ≡ (ok (session access fresh organization), s')
      → (m : Option (Membership v)) × (r ≡ ok (inr m))
        × (access ≡ access_for p now user.id session_id drawn m)
        × (fresh ≡ refresh_for p now user.id session_id)
        × (organization ≡ organization_of p m)
        × (s' ≡ store_refresh_token p now user.id session_id fresh s)
  answered-eq-ok session_id drawn now s user (err e) h = cc
  answered-eq-ok session_id drawn now s user (ok (inl os)) h = cc
  answered-eq-ok session_id drawn now s user (ok (inr m)) h =
      (m, refl, ground arith, ground arith, ground arith, ground arith)

  logged_in-Opened :
      (session_id drawn now : ℕ) (body : LoginRequest) (db : AuthDb v) (s : p.redis.Store)
      (r : Result User) {access fresh : p.jwt.Token} {organization : Option (Organization v × Role)}
      {s' : p.redis.Store}
      → check_user p body db ≡ r
      → logged_in p session_id drawn now body db s r ≡ (ok (session access fresh organization), s')
      → Opened session_id drawn now body db s access fresh organization s'
  logged_in-Opened session_id drawn now body db s (err e) q h = cc
  logged_in-Opened session_id drawn now body db s (ok user) q h =
      let (m, resolved, a, f, o, w) =
        answered-eq-ok session_id drawn now s user
          (resolve p body.org_id (get_user_memberships user.id db.org)) h in
      let (one, pw, act, ver) = check_user-eq-ok body db q in
      record {
        user = user;
        chosen = m;
        found = one;
        password = pw;
        active = act;
        verified = ver;
        membership = resolve-eq-ok body.org_id (get_user_memberships user.id db.org) m resolved;
        is_access = a;
        is_refresh = f;
        is_organization = o;
        is_store = w;
      }

  -- When `login` opens a session, the address is that of exactly one user, the password is his, he
  -- is active and verified, and the session is for the organization that was asked for, or else for
  -- his only one, or for none where he has none; the organization is active. The tokens name the
  -- user, the organization and his role in it, and the hash of the refresh token is stored.
  pub login-Opened :
      (session_id drawn now : ℕ) (body : LoginRequest) (db : AuthDb v) (s : p.redis.Store)
      {access fresh : p.jwt.Token} {organization : Option (Organization v × Role)}
      {s' : p.redis.Store}
      → login p session_id drawn now body db s ≡ (ok (session access fresh organization), s')
      → Opened session_id drawn now body db s access fresh organization s'
  unfolding login
  login-Opened session_id drawn now body db s h =
      logged_in-Opened session_id drawn now body db s (check_user p body db) refl h
