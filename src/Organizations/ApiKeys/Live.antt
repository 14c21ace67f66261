-- ===== src/Organizations/ApiKeys/Live.antt =====
-- A key of backend/app/modules/organizations/service.py that is there and not revoked, under one
-- change of the table.
use ai_business_automation.Prelude.{
  ℕ, Bool-cases, true, false, List, [], ◌∷◌, ◌++◌, ◌≡◌, ◌≢◌, refl, sym, ap, ◌∙◌, subst, inl, inr,
  arith, ◌==◌, ◌&&◌, not, eq_iff, any, any-mem, select, select-append, mem-select, Member, some,
  if◌then◌else◌,
}
use ai_business_automation.Errors.{
  ok, >>=-eq-ok, or_raise-eq-ok, scalar-eq-some, raise_if->>, scalar_one_or_none, or_raise,
  not_found,
}
use ai_business_automation.Database.{change_row, select-change_row, select-change_row_off}
use ai_business_automation.Organizations.Models.{ApiKey}
use ai_business_automation.Organizations.ApiKeys.{key_id, matches, key_clashes, revoke_api_key}

-- The hash finds one row, which differs from the key in the time of its last use at most.
pub record IsLive (key : ApiKey) (keys : List ApiKey) : Type 0 where
  pub row : ApiKey
  pub found : select (matches key.key_hash) keys ≡ row ∷ []
  pub same_id : row.id ≡ key.id
  pub same_org : row.organization_id ≡ key.organization_id
  pub same_scopes : row.scopes ≡ key.scopes
  pub same_expiry : row.expires_at ≡ key.expires_at

abbrev pub with_use : ℕ → ApiKey → ApiKey
with_use now k = record k { last_used_at = some now }

abbrev pub with_revocation : ℕ → ApiKey → ApiKey
with_revocation now k = record k { revoked_at = some now }

live_row :
    (key : ApiKey) (keys : List ApiKey) (live : IsLive key keys)
    → Member live.row keys × (live.row.key_hash ≡ key.key_hash)
live_row key keys live =
    let (m, h) = (mem-select (matches key.key_hash) live.row keys).0 (rw live.found (inl refl)) in
    (m, ground (arith, h, eq_iff live.row.key_hash key.key_hash))

pub append-IsLive :
    (key new : ApiKey) (keys : List ApiKey)
    → any (key_clashes new) keys ≡ false
    → IsLive key keys
    → IsLive key (keys ++ new ∷ [])
append-IsLive key new keys apart live =
    let (m, hash) = live_row key keys live in
    let other : matches key.key_hash new ≡ false = elim (Bool-cases (matches key.key_hash new)) [
      | inr off ↦ off
      | inl on ↦
          let clash : any (key_clashes new) keys ≡ true =
            any-mem (key_clashes new) live.row keys m (
              ground (
                arith,
                on,
                hash,
                eq_iff live.row.key_hash new.key_hash,
                eq_iff new.key_hash key.key_hash,
              )) in
          cc
    ] in
    record {
      row = live.row;
      found = select-append (matches key.key_hash) keys (new ∷ []) ∙ rw (live.found, other) refl;
      same_id = live.same_id;
      same_org = live.same_org;
      same_scopes = live.same_scopes;
      same_expiry = live.same_expiry;
    }

pub use-IsLive :
    (key : ApiKey) (now id : ℕ) (keys : List ApiKey)
    → IsLive key keys
    → IsLive key (change_row key_id id (with_use now) keys)
unfolding change_row
use-IsLive key now id keys live =
    let row' = if live.row.id == id then with_use now live.row else live.row in
    record {
      row = row';
      found =
          select-change_row key_id (matches key.key_hash) (with_use now) id keys (λ r. refl)
          ∙ rw live.found refl;
      same_id = ground (arith, live.same_id);
      same_org = ground (arith, live.same_org);
      same_scopes = ground (arith, live.same_scopes);
      same_expiry = ground (arith, live.same_expiry);
    }

pub revoke-IsLive :
    (key : ApiKey) (now id : ℕ) (keys : List ApiKey)
    → id ≢ key.id
    → IsLive key keys
    → IsLive key (change_row key_id id (with_revocation now) keys)
revoke-IsLive key now id keys differ live =
    let off : (r : ApiKey) → Member r keys → matches key.key_hash r ≡ true → r.id ≢ id = λ r m h e.
      elim (rw live.found at ((mem-select (matches key.key_hash) r keys).1 (m, h))) [
        | inl at ↦ differ (sym e ∙ ap key_id at ∙ live.same_id)
        | inr no_more ↦ absurd no_more
      ] in
    record {
      row = live.row;
      found =
          select-change_row_off key_id (matches key.key_hash) (with_revocation now) id keys
            (λ r. ground arith) off
          ∙ live.found;
      same_id = live.same_id;
      same_org = live.same_org;
      same_scopes = live.same_scopes;
      same_expiry = live.same_expiry;
    }

pub revoke_api_key-eq-ok :
    (now org_id id requesting_org_id : ℕ) (keys : List ApiKey) {keys' : List ApiKey}
    → revoke_api_key now org_id id requesting_org_id keys ≡ ok keys'
    → keys' ≡ change_row key_id id (with_revocation now) keys
unfolding revoke_api_key
revoke_api_key-eq-ok now org_id id requesting_org_id keys {keys'} h =
    let (_, h1) = raise_if->> (not (org_id == requesting_org_id)) not_found _ h in
    let query = λ (k : ApiKey). k.id == id && k.organization_id == org_id in
    let (found, e, h2) = >>=-eq-ok (scalar_one_or_none (select query keys)) _ h1 in
    let (key, k, h3) = >>=-eq-ok (or_raise found not_found) _ h2 in
    let one = scalar-eq-some (select query keys) (e ∙ ap ok (or_raise-eq-ok found not_found k)) in
    let (_, hit) = (mem-select query key keys).0 (rw one (inl refl)) in
    let at : key.id ≡ id = ground (arith, hit) in
    subst (λ i. keys' ≡ change_row key_id i (with_revocation now) keys) at (ground (arith, h3))
