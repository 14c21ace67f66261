-- ===== src/Organizations/ApiKeys/Revoked.antt =====
-- A revoked API key of backend/app/modules/organizations/service.py, while other keys are made,
-- used and revoked.
use ai_business_automation.Prelude.{
  ℕ, String, Bool, Bool-cases, true, false, List, [], ◌∷◌, ◌++◌, ◌≡◌, refl, sym, ◌∙◌, subst, inl,
  inr, arith, str_eq, eq_iff, any, any-mem, any-append, select, select-append, mem-select,
}
use ai_business_automation.Errors.{app, ok, err, scalar_one_or_none, not_found}
use ai_business_automation.Database.{
  change_row, select-change_row, select-change_row_off, select-change_row_nil,
}
use ai_business_automation.Workflows.Graph.{Values}
use ai_business_automation.Organizations.Models.{Organization, ApiKey}
use ai_business_automation.Organizations.ApiKeys.{
  key_id, matches, key_clashes, new_key, revoke_api_key, get_org_by_api_key,
}
use ai_business_automation.Organizations.ApiKeys.Laws.{create_api_key-eq-ok}
use ai_business_automation.Organizations.ApiKeys.Live.{
  with_use, with_revocation, revoke_api_key-eq-ok,
}
use ai_business_automation.Organizations.ApiKeys.Life.{
  KeyRuns, done, create_step, use_step, revoke_step, get_org_by_api_key-eq-ok,
}

abbrev has_hash : String → ApiKey → Bool
has_hash key_hash k = str_eq k.key_hash key_hash

-- A row has the hash, so no other can get it, and the hash finds none.
record IsDead (key_hash : String) (keys : List ApiKey) : Type 0 where
  none_found : select (matches key_hash) keys ≡ []
  kept : any (has_hash key_hash) keys ≡ true

any-change_row :
    (q : ApiKey → Bool) (f : ApiKey → ApiKey) (id : ℕ) (keys : List ApiKey)
    → ((k : ApiKey) → q (f k) ≡ q k)
    → any q (change_row key_id id f keys) ≡ any q keys
unfolding change_row
any-change_row q f id [] same = refl
any-change_row q f id (k ∷ keys) same = ground (arith, same k, any-change_row q f id keys same)

any-key_clashes :
    (key_hash : String) (new : ApiKey) (keys : List ApiKey)
    → has_hash key_hash new ≡ true
    → any (has_hash key_hash) keys ≡ true
    → any (key_clashes new) keys ≡ true
any-key_clashes key_hash new [] h k = cc
any-key_clashes key_hash new (x ∷ keys) h k = ground (
  arith,
  eq_iff new.key_hash key_hash,
  eq_iff x.key_hash key_hash,
  eq_iff x.key_hash new.key_hash,
  any-key_clashes key_hash new keys h,
)

append-IsDead :
    (key_hash : String) (new : ApiKey) (keys : List ApiKey)
    → any (key_clashes new) keys ≡ false
    → IsDead key_hash keys
    → IsDead key_hash (keys ++ new ∷ [])
append-IsDead key_hash new keys apart dead =
    let other : matches key_hash new ≡ false = elim (Bool-cases (has_hash key_hash new)) [
      | inl own ↦ cc (any-key_clashes key_hash new keys own dead.kept, apart)
      | inr off ↦ ground (arith, off)
    ] in
    record {
      none_found =
          select-append (matches key_hash) keys (new ∷ []) ∙ rw (dead.none_found, other) refl;
      kept = any-append (has_hash key_hash) keys (new ∷ []) ∙ rw dead.kept refl;
    }

use-IsDead :
    (key_hash : String) (now id : ℕ) (keys : List ApiKey)
    → IsDead key_hash keys
    → IsDead key_hash (change_row key_id id (with_use now) keys)
unfolding change_row
use-IsDead key_hash now id keys dead = record {
  none_found =
      select-change_row key_id (matches key_hash) (with_use now) id keys (λ k. refl)
      ∙ rw dead.none_found refl;
  kept = any-change_row (has_hash key_hash) (with_use now) id keys (λ k. refl) ∙ dead.kept;
}

revoke-IsDead :
    (key_hash : String) (now id : ℕ) (keys : List ApiKey)
    → IsDead key_hash keys
    → IsDead key_hash (change_row key_id id (with_revocation now) keys)
revoke-IsDead key_hash now id keys dead = record {
  none_found =
      select-change_row_off key_id (matches key_hash) (with_revocation now) id keys
        (λ k. ground arith)
        (λ k m h. absurd (rw dead.none_found at ((mem-select (matches key_hash) k keys).1 (m, h))))
      ∙ dead.none_found;
  kept = any-change_row (has_hash key_hash) (with_revocation now) id keys (λ k. refl) ∙ dead.kept;
}

module _ (hash_token : String → String) {v : Values} where
  KeyRuns-IsDead :
      (key_hash : String) {keys end : List ApiKey}
      → KeyRuns hash_token v (λ i. Unit {0}) keys end
      → IsDead key_hash keys
      → IsDead key_hash end
  KeyRuns-IsDead key_hash done dead = dead
  KeyRuns-IsDead key_hash {keys = keys}
        (create_step {keys' = keys'} other raw org_id created_by payload h rest) dead =
      let (apart, _, _, same) =
        create_api_key-eq-ok hash_token other raw org_id created_by payload keys keys' _ _ h in
      KeyRuns-IsDead key_hash rest (
        subst (IsDead key_hash) (sym same) (
          append-IsDead key_hash (new_key hash_token other raw org_id created_by payload) keys apart
            dead))
  KeyRuns-IsDead key_hash {keys = keys} (use_step now plaintext organizations h rest) dead =
      let (id, same) = get_org_by_api_key-eq-ok hash_token now plaintext organizations keys h in
      KeyRuns-IsDead key_hash rest
        (subst (IsDead key_hash) (sym same) (use-IsDead key_hash now id keys dead))
  KeyRuns-IsDead key_hash {keys = keys}
        (revoke_step now org_id other requesting_org_id allowed h rest) dead =
      let same = revoke_api_key-eq-ok now org_id other requesting_org_id keys h in
      KeyRuns-IsDead key_hash rest
        (subst (IsDead key_hash) (sym same) (revoke-IsDead key_hash now other keys dead))

  -- Once the one key that a plaintext finds is revoked, the plaintext opens nothing: it is refused
  -- with 404 at any time, whatever the organizations are and whatever keys were made, used and
  -- revoked in between.
  pub get_org_by_api_key-revoke_api_key :
      (revoked_at org_id requesting_org_id : ℕ) (keys keys' later : List ApiKey) (key : ApiKey)
      (plaintext : String) (now : ℕ) (organizations : List (Organization v))
      → select (matches (hash_token plaintext)) keys ≡ key ∷ []
      → revoke_api_key revoked_at org_id key.id requesting_org_id keys ≡ ok keys'
      → KeyRuns hash_token v (λ i. Unit {0}) keys' later
      → get_org_by_api_key hash_token now plaintext organizations later ≡ err (app not_found)
  unfolding get_org_by_api_key scalar_one_or_none
  get_org_by_api_key-revoke_api_key revoked_at org_id requesting_org_id keys keys' later key
        plaintext now organizations one h runs =
      let key_hash = hash_token plaintext in
      let revoke = with_revocation revoked_at in
      let (m, hit) = (mem-select (matches key_hash) key keys).0 (rw one (inl refl)) in
      let closed : select (matches key_hash) (change_row key_id key.id revoke keys) ≡ [] =
        select-change_row_nil key_id (matches key_hash) revoke key keys
          (λ r k p. elim (rw one at ((mem-select (matches key_hash) r keys).1 (k, p))) [
            | inl e ↦ e
            | inr e ↦ absurd e
          ])
          (λ r. ground arith) in
      let start : IsDead key_hash (change_row key_id key.id revoke keys) = record {
        none_found = closed;
        kept =
            any-change_row (has_hash key_hash) revoke key.id keys (λ k. refl)
            ∙ any-mem (has_hash key_hash) key keys m (ground (arith, hit));
      } in
      let same = revoke_api_key-eq-ok revoked_at org_id key.id requesting_org_id keys h in
      let dead = KeyRuns-IsDead key_hash runs (subst (IsDead key_hash) (sym same) start) in
      rw dead.none_found refl
