-- ===== src/Auth/Sessions.antt =====
-- Login and sessions in backend/app/modules/auth/service.py. What a function does to Redis stays,
-- also where it raises afterwards, so each returns its result and the store.
pub mod Login
pub mod Runs
pub mod Rotation
pub mod Lasting
use ai_business_automation.Prelude.{
  ℕ, ◌*◌, String, Option, none, some, Bool, not, List, [], ◌∷◌, ◌++◌, ◌==◌, ◌&&◌, str_eq, ◌⊎◌, inl,
  inr, if◌then◌else◌, select, map,
}
use ai_business_automation.Errors.{
  Error, Result, ok, err, app, uncaught, ◌>>=◌, ◌>>◌, unauthorized, scalar_one_or_none, or_raise,
  raise_if,
}
use ai_business_automation.Workflows.Graph.{Values}
use ai_business_automation.Security.{
  Claims, Jwt, create_access_token, create_refresh_token, decode_refresh_token,
}
use ai_business_automation.Organizations.Roles.{Role, owner, role_text}
use ai_business_automation.Organizations.Models.{Organization, OrgMember}
use ai_business_automation.Organizations.Orgs.{OrgDb}
use ai_business_automation.Auth.Models.{User, AuthDb}
use ai_business_automation.Auth.Redis.{Key, Redis}
use ai_business_automation.Auth.Platform.{Platform}
use ai_business_automation.Auth.Memberships.{Membership, get_user_memberships, membership_in, first}
use ai_business_automation.Auth.Accounts.{get_user_by_email}

pub record LoginRequest : Type 0 where
  pub email : String
  pub password : String
  pub org_id : Option ℕ

-- `LoginResponse`: the organizations to choose from, or the tokens of a session.
pub data LoginAnswer (Token : Type 0) (v : Values) : Type 0 where
  choose : List (Organization v) → LoginAnswer Token v
  session : Token → Token → Option (Organization v × Role) → LoginAnswer Token v

-- "$2b$12$" and 53 times "x"
abbrev pub dummy_hash : String
dummy_hash = "$2b$12$xxxxxxxxxxxxxxxxxxxxxxxxxxxxxxxxxxxxxxxxxxxxxxxxxxxxx"

-- `user.hashed_password if (user and user.hashed_password) else dummy_hash`
abbrev pub candidate_hash : Option User → String
candidate_hash none = dummy_hash
candidate_hash (some user) = elim user.hashed_password [
  | none ↦ dummy_hash
  | some hash ↦ if str_eq hash "" then dummy_hash else hash
]

-- The row of a primary key.
abbrev pub with_id : ℕ → List User → List User
with_id id = select (λ u. u.id == id)

module _ (p : Platform) where
  abbrev pub session_key : ℕ → ℕ → Key
  session_key user_id session_id = record {
    user = p.show_id user_id;
    session = p.show_id session_id;
  }

  -- `_store_refresh_token`
  abbrev pub store_refresh_token : ℕ → ℕ → ℕ → p.jwt.Token → p.redis.Store → p.redis.Store
  store_refresh_token now user_id session_id token s =
      p.redis.set now (session_key user_id session_id) (p.hash_refresh token)
        (p.settings.refresh_days * 86400) s

  -- The access token of a session; with no membership the organization is a drawn identifier.
  abbrev pub access_for : {v : Values} → ℕ → ℕ → ℕ → ℕ → Option (Membership v) → p.jwt.Token
  access_for now user_id session_id drawn none =
      create_access_token p.jwt p.settings now (p.show_id user_id) (p.show_id drawn)
        (p.show_id session_id) "owner" "org"
  access_for now user_id session_id drawn (some m) =
      create_access_token p.jwt p.settings now (p.show_id user_id) (p.show_id m.org_id)
        (p.show_id session_id) (role_text m.role) "org"

  abbrev pub refresh_for : ℕ → ℕ → ℕ → p.jwt.Token
  refresh_for now user_id session_id =
      create_refresh_token p.jwt p.settings now (p.show_id user_id) (p.show_id session_id)

  module _ {v : Values} where
    -- The checks of `login` on the user.
    unfoldable pub check_user : LoginRequest → AuthDb v → Result User
    check_user body db = do
      found ← get_user_by_email p body.email db.users
      raise_if (not (p.verify_password body.password (candidate_hash found)))
          (unauthorized "INVALID_CREDENTIALS")
      user ← or_raise found (unauthorized "INVALID_CREDENTIALS")
      raise_if (not user.is_active) (unauthorized "ACCOUNT_DISABLED")
      raise_if (not user.is_verified) (unauthorized "EMAIL_NOT_VERIFIED")
      ok user

    -- Which membership `login` takes: it asks for a choice, or it takes one or none.
    abbrev pub pick :
        Option ℕ → List (Membership v) → Result (List (Organization v) ⊎ Option (Membership v))
    pick none [] = ok (inr none)
    pick none (m ∷ []) = ok (inr (some m))
    pick none (m ∷ n ∷ rest) = ok (inl (map (λ k. k.org) (m ∷ n ∷ rest)))
    pick (some org_id) memberships =
        or_raise (membership_in org_id memberships) (unauthorized "INVALID_CREDENTIALS") >>= λ m.
        ok (inr (some m))

    -- The organization of the membership must be active.
    abbrev pub check_org :
        List (Organization v) ⊎ Option (Membership v)
        → Result (List (Organization v) ⊎ Option (Membership v))
    check_org (inl organizations) = ok (inl organizations)
    check_org (inr none) = ok (inr none)
    check_org (inr (some m)) =
        raise_if (not m.org.is_active) (unauthorized "ORG_SUSPENDED") >> ok (inr (some m))

    unfoldable pub resolve :
        Option ℕ → List (Membership v) → Result (List (Organization v) ⊎ Option (Membership v))
    resolve org_id memberships = pick org_id memberships >>= check_org

    abbrev pub organization_of : Option (Membership v) → Option (Organization v × Role)
    organization_of none = none
    organization_of (some m) = some (m.org, m.role)

    -- A new session under the drawn identifiers.
    abbrev pub open_session :
        ℕ
        → ℕ
        → ℕ
        → ℕ
        → Option (Membership v)
        → p.redis.Store
        → Result (LoginAnswer p.jwt.Token v) × p.redis.Store
    open_session now user_id session_id drawn m s =
        let refresh_token = refresh_for now user_id session_id in
        (
          ok (
              session (access_for now user_id session_id drawn m) refresh_token
                (organization_of m)),
          store_refresh_token now user_id session_id refresh_token s,
        )

    -- What follows the choice of a membership, and what follows the checks of the user.
    abbrev pub answered :
        ℕ
        → ℕ
        → ℕ
        → p.redis.Store
        → User
        → Result (List (Organization v) ⊎ Option (Membership v))
        → Result (LoginAnswer p.jwt.Token v) × p.redis.Store
    answered session_id drawn now s user (err e) = (err e, s)
    answered session_id drawn now s user (ok (inl organizations)) = (ok (choose organizations), s)
    answered session_id drawn now s user (ok (inr m)) =
        open_session now user.id session_id drawn m s

    abbrev pub logged_in :
        ℕ
        → ℕ
        → ℕ
        → LoginRequest
        → AuthDb v
        → p.redis.Store
        → Result User
        → Result (LoginAnswer p.jwt.Token v) × p.redis.Store
    logged_in session_id drawn now body db s (err e) = (err e, s)
    logged_in session_id drawn now body db s (ok user) =
        answered session_id drawn now s user
          (resolve body.org_id (get_user_memberships user.id db.org))

    unfoldable pub login :
        ℕ
        → ℕ
        → ℕ
        → LoginRequest
        → AuthDb v
        → p.redis.Store
        → Result (LoginAnswer p.jwt.Token v) × p.redis.Store
    login session_id drawn now body db s =
        logged_in session_id drawn now body db s (check_user body db)
