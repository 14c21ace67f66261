-- ===== src/Security/Tokens.antt =====
-- What a token of backend/app/core/security.py is good for, and for how long.
use ai_business_automation.Prelude.{
  Bool-cases, ltb, inl, inr, arith, ℕ, ◌+◌, ◌*◌, ◌<◌, ◌≤◌, String, some, ◌≡◌, refl,
}
use ai_business_automation.Errors.{AppException, Result, ok, err, app, unauthorized}
use ai_business_automation.Security.{
  Claims, decoded, expired_signature, Jwt, Lifetimes, access_claims, refresh_claims,
  create_access_token, create_refresh_token, decode_access_token, decode_refresh_token,
}

-- What the documentation of `jwt.decode` says of a token of `jwt.encode`: the payload comes back
-- until the time of `exp`, and from then on the token has expired.
pub record IsFaithful (jwt : Jwt) : Type 0 where
  pub returned : (c : Claims) (now : ℕ) → now < c.exp → jwt.decode now (jwt.encode c) ≡ decoded c
  pub expired :
      (c : Claims) (now : ℕ) → c.exp ≤ now → jwt.decode now (jwt.encode c) ≡ expired_signature

-- An exception of status 401.
abbrev pub IsRefused : {A : Type 0} → Result A → Type 0
IsRefused r = (e : AppException) × (e.status_code ≡ 401) × (r ≡ err (app e))

module _ (jwt : Jwt) (faithful : IsFaithful jwt) where
  -- Until it expires, an access token gives back the claims that it was made with.
  pub decode_access_token-create_access_token :
      (settings : Lifetimes) (made now : ℕ) (user_id org_id session_id role scope : String)
      → now < made + settings.access_minutes * 60
      → decode_access_token jwt now
          (create_access_token jwt settings made user_id org_id session_id role scope)
        ≡ ok (access_claims settings made user_id org_id session_id role scope)
  unfolding create_access_token decode_access_token
  decode_access_token-create_access_token settings made now user_id org_id session_id role scope
        early =
      rw
        (
          decode_access_token,
          faithful.returned (access_claims settings made user_id org_id session_id role scope) now
              early,
        )
        refl

  IsRefused-as_refresh :
      (c : Claims) (now : ℕ)
      → c.type_ ≡ some "access"
      → IsRefused (decode_refresh_token jwt now (jwt.encode c))
  unfolding decode_refresh_token
  IsRefused-as_refresh c now t = elim (Bool-cases (ltb now c.exp)) [
    | inl early ↦ (
      unauthorized "INVALID_TOKEN",
      refl,
      rw (decode_refresh_token, faithful.returned c now (ground arith), t) refl,
    )
    | inr late ↦ (
      unauthorized "REFRESH_TOKEN_EXPIRED",
      refl,
      rw (decode_refresh_token, faithful.expired c now (ground arith)) refl,
    )
  ]

  IsRefused-as_access :
      (c : Claims) (now : ℕ)
      → c.type_ ≡ some "refresh"
      → IsRefused (decode_access_token jwt now (jwt.encode c))
  unfolding decode_access_token
  IsRefused-as_access c now t = elim (Bool-cases (ltb now c.exp)) [
    | inl early ↦ (
      unauthorized "INVALID_TOKEN",
      refl,
      rw (decode_access_token, faithful.returned c now (ground arith), t) refl,
    )
    | inr late ↦ (
      unauthorized "TOKEN_EXPIRED",
      refl,
      rw (decode_access_token, faithful.expired c now (ground arith)) refl,
    )
  ]

  -- At no time is an access token accepted as a refresh token or a refresh token as an access
  -- token: both calls raise an exception of status 401.
  pub decode_other_type :
      (settings : Lifetimes) (made now : ℕ) (user_id org_id session_id role scope : String)
      → IsRefused (
          decode_refresh_token jwt now
            (create_access_token jwt settings made user_id org_id session_id role scope))
        × IsRefused (
            decode_access_token jwt now (create_refresh_token jwt settings made user_id session_id))
  unfolding create_access_token create_refresh_token
  decode_other_type settings made now user_id org_id session_id role scope = (
    IsRefused-as_refresh (access_claims settings made user_id org_id session_id role scope) now
        refl,
    IsRefused-as_access (refresh_claims settings made user_id session_id) now refl,
  )
