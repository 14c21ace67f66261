-- ===== src/Auth/Refresh.antt =====
-- The rotation and the end of sessions in backend/app/modules/auth/service.py, and `me`.
use ai_business_automation.Prelude.{ℕ, String, Option, none, some, not, str_eq, if◌then◌else◌}
use ai_business_automation.Errors.{
  Error, Result, ok, err, app, uncaught, ◌>>=◌, ◌>>◌, unauthorized, scalar_one_or_none, or_raise,
  raise_if,
}
use ai_business_automation.Workflows.Graph.{Values}
use ai_business_automation.Security.{decode_refresh_token}
use ai_business_automation.Organizations.Roles.{Role}
use ai_business_automation.Organizations.Models.{Organization}
use ai_business_automation.Auth.Models.{User, AuthDb}
use ai_business_automation.Auth.Redis.{Key}
use ai_business_automation.Auth.Platform.{Platform}
use ai_business_automation.Auth.Memberships.{Membership, get_user_memberships, membership_in, first}
use ai_business_automation.Auth.Sessions.{
  session_key, with_id, store_refresh_token, access_for, refresh_for,
}

pub record MeResponse (v : Values) : Type 0 where
  pub user : User
  pub organization : Option (Organization v)
  pub role : Option Role

module _ (p : Platform) where
  -- `redis.getdel(key)`: the value, and the store without the key.
  abbrev pub getdel : ℕ → Key → p.redis.Store → Option String × p.redis.Store
  getdel now k s = (p.redis.get now k s, p.redis.delete k s)

  abbrev pub reused : Error
  reused = app (unauthorized "REFRESH_TOKEN_REUSED")

  -- The key that a refresh token names; a claim that is missing is a `KeyError`.
  unfoldable pub refresh_key : ℕ → p.jwt.Token → Result Key
  refresh_key now token = do
    payload ← decode_refresh_token p.jwt now token
    elim payload.user_id [
      | none ↦ err uncaught
      | some user_id ↦ elim payload.session_id [
        | none ↦ err uncaught
        | some session_id ↦ ok (record { user = user_id; session = session_id })
      ]
    ]

  module _ {v : Values} where
    -- The user of a session, who must still be active.
    unfoldable pub session_user : String → AuthDb v → Result User
    session_user user_id db = do
      id ← elim (p.parse_id user_id) [ none ↦ err uncaught | some id ↦ ok id ]
      found ← scalar_one_or_none (with_id id db.users)
      user ← or_raise found (unauthorized "ACCOUNT_DISABLED")
      raise_if (not user.is_active) (unauthorized "ACCOUNT_DISABLED")
      ok user

    -- The new tokens, for the first of the user's memberships.
    abbrev pub rotated :
        ℕ
        → ℕ
        → ℕ
        → AuthDb v
        → p.redis.Store
        → Result User
        → Result (p.jwt.Token × p.jwt.Token) × p.redis.Store
    rotated session_id drawn now db s (err e) = (err e, s)
    rotated session_id drawn now db s (ok user) = (
      ok (
        access_for p now user.id session_id drawn (first (get_user_memberships user.id db.org)),
        refresh_for p now user.id session_id,
      ),
      store_refresh_token p now user.id session_id (refresh_for p now user.id session_id) s,
    )

    -- What follows the lookup of the stored hash, which has deleted it.
    abbrev pub compared :
        ℕ
        → ℕ
        → ℕ
        → p.jwt.Token
        → Key
        → AuthDb v
        → Option String × p.redis.Store
        → Result (p.jwt.Token × p.jwt.Token) × p.redis.Store
    compared session_id drawn now token k db (none, s) = (err reused, s)
    compared session_id drawn now token k db (some hash, s) =
        if str_eq hash (p.hash_refresh token)
        then rotated session_id drawn now db s (session_user k.user db)
        else (err reused, s)

    abbrev pub looked_up :
        ℕ
        → ℕ
        → ℕ
        → p.jwt.Token
        → AuthDb v
        → p.redis.Store
        → Result Key
        → Result (p.jwt.Token × p.jwt.Token) × p.redis.Store
    looked_up session_id drawn now token db s (err e) = (err e, s)
    looked_up session_id drawn now token db s (ok k) =
        compared session_id drawn now token k db (getdel now k s)

    unfoldable pub refresh :
        ℕ
        → ℕ
        → ℕ
        → p.jwt.Token
        → AuthDb v
        → p.redis.Store
        → Result (p.jwt.Token × p.jwt.Token) × p.redis.Store
    refresh session_id drawn now token db s =
        looked_up session_id drawn now token db s (refresh_key now token)

  unfoldable pub logout : ℕ → ℕ → p.redis.Store → p.redis.Store
  logout user_id session_id s = p.redis.delete (session_key p user_id session_id) s

module _ {v : Values} where
  unfoldable pub me : ℕ → Option ℕ → AuthDb v → Result (MeResponse v)
  me user_id org_id db = do
    found ← scalar_one_or_none (with_id user_id db.users)
    user ← or_raise found (unauthorized "ACCOUNT_DISABLED")
    raise_if (not user.is_active) (unauthorized "ACCOUNT_DISABLED")
    let m : Option (Membership v) = elim org_id [
      | none ↦ none
      | some id ↦ membership_in id (get_user_memberships user_id db.org)
    ]
    ok (elim m [
      | none ↦ record { user = user; organization = none; role = none }
      | some k ↦ record { user = user; organization = some k.org; role = some k.role }
    ])
