-- ===== src/Organizations/ApiKeys/Life.antt =====
-- An API key of backend/app/modules/organizations/service.py over time, while other keys are made,
-- used and revoked.
use ai_business_automation.Prelude.{
  ℕ, String, true, false, List, [], ◌∷◌, ◌++◌, ◌≡◌, ◌≢◌, refl, sym, ap, ◌∙◌, subst, arith, not,
  eq_refl, select, select-append, some,
}
use ai_business_automation.Errors.{
  ok, >>=-eq-ok, raise_if->>, scalar_one_or_none, or_raise, not_found,
}
use ai_business_automation.Database.{change_row}
use ai_business_automation.Workflows.Graph.{Values}
use ai_business_automation.Organizations.Models.{Organization, ApiKey}
use ai_business_automation.Organizations.Orgs.{get_by_id}
use ai_business_automation.Organizations.ApiKeys.{
  ApiKeyCreate, key_id, matches, has_expired, plaintext_key, new_key, create_api_key,
  revoke_api_key, get_org_by_api_key,
}
use ai_business_automation.Organizations.ApiKeys.Live.{
  IsLive, with_use, append-IsLive, use-IsLive, revoke-IsLive, revoke_api_key-eq-ok,
}
use ai_business_automation.Organizations.ApiKeys.Laws.{no_match, create_api_key-eq-ok, opened}

module _ (hash_token : String → String) (v : Values) where
  -- Calls of the functions on keys, one after another, that revoke allowed keys only.
  pub data KeyRuns (IsAllowed : ℕ → Type 0) : List ApiKey → List ApiKey → Type 0 where
    done : {keys : List ApiKey} → KeyRuns IsAllowed keys keys
    create_step :
        {keys keys' end : List ApiKey} {r : ApiKey × String} (other : ℕ) (raw : String)
        (org_id created_by : ℕ) (payload : ApiKeyCreate)
        → create_api_key hash_token other raw org_id created_by payload keys ≡ ok (r, keys')
        → KeyRuns IsAllowed keys' end
        → KeyRuns IsAllowed keys end
    use_step :
        {keys keys' end : List ApiKey} {r : ApiKey × Organization v} (now : ℕ) (plaintext : String)
        (organizations : List (Organization v))
        → get_org_by_api_key hash_token now plaintext organizations keys ≡ ok (r, keys')
        → KeyRuns IsAllowed keys' end
        → KeyRuns IsAllowed keys end
    revoke_step :
        {keys keys' end : List ApiKey} (now org_id other requesting_org_id : ℕ)
        → IsAllowed other
        → revoke_api_key now org_id other requesting_org_id keys ≡ ok keys'
        → KeyRuns IsAllowed keys' end
        → KeyRuns IsAllowed keys end

module _ (hash_token : String → String) {v : Values} where
  pub get_org_by_api_key-eq-ok :
      (now : ℕ) (plaintext : String) (organizations : List (Organization v)) (keys : List ApiKey)
      {r : ApiKey × Organization v} {keys' : List ApiKey}
      → get_org_by_api_key hash_token now plaintext organizations keys ≡ ok (r, keys')
      → (id : ℕ) × (keys' ≡ change_row key_id id (with_use now) keys)
  unfolding get_org_by_api_key
  get_org_by_api_key-eq-ok now plaintext organizations keys h =
      let (found, e, h1) =
        >>=-eq-ok (scalar_one_or_none (select (matches (hash_token plaintext)) keys)) _ h in
      let (key, k, h2) = >>=-eq-ok (or_raise found not_found) _ h1 in
      let (_, h3) = raise_if->> (has_expired now key) not_found _ h2 in
      let (org, o, h4) =
        >>=-eq-ok (or_raise (get_by_id key.organization_id organizations) not_found) _ h3 in
      let (_, h5) = raise_if->> (not org.is_active) not_found _ h4 in (key.id, ground (arith, h5))

  KeyRuns-IsLive :
      (key : ApiKey) {keys end : List ApiKey}
      → KeyRuns hash_token v (λ i. i ≢ key.id) keys end
      → IsLive key keys
      → IsLive key end
  KeyRuns-IsLive key done live = live
  KeyRuns-IsLive key {keys = keys}
        (create_step {keys' = keys'} other raw org_id created_by payload h rest) live =
      let (apart, _, _, same) =
        create_api_key-eq-ok hash_token other raw org_id created_by payload keys keys' _ _ h in
      KeyRuns-IsLive key rest (
        subst (IsLive key) (sym same) (
          append-IsLive key (new_key hash_token other raw org_id created_by payload) keys apart
            live))
  KeyRuns-IsLive key {keys = keys} (use_step now plaintext organizations h rest) live =
      let (id, same) = get_org_by_api_key-eq-ok now plaintext organizations keys h in
      KeyRuns-IsLive key rest (subst (IsLive key) (sym same) (use-IsLive key now id keys live))
  KeyRuns-IsLive key {keys = keys} (revoke_step now org_id other requesting_org_id differ h rest)
        live =
      let same = revoke_api_key-eq-ok now org_id other requesting_org_id keys h in
      KeyRuns-IsLive key rest
        (subst (IsLive key) (sym same) (revoke-IsLive key now other keys differ live))

  -- The plaintext that `create_api_key` returns opens the organization that the key was made for,
  -- at any time before the key expires and however many keys were made, used and revoked in
  -- between, as long as this one was not revoked, and that organization exists and is active: the
  -- call answers with that organization and the key's identifier and scopes.
  pub get_org_by_api_key-create_api_key :
      (id : ℕ) (raw : String) (org_id created_by : ℕ) (payload : ApiKeyCreate)
      (keys keys' later : List ApiKey) (key : ApiKey) (plaintext : String) (now : ℕ)
      (organizations : List (Organization v)) (org : Organization v)
      → create_api_key hash_token id raw org_id created_by payload keys
        ≡ ok ((key, plaintext), keys')
      → KeyRuns hash_token v (λ i. i ≢ key.id) keys' later
      → has_expired now key ≡ false
      → get_by_id org_id organizations ≡ some org
      → org.is_active ≡ true
      → (used : ApiKey) × (end : List ApiKey) × (get_org_by_api_key hash_token now plaintext
            organizations later
          ≡ ok ((used, org), end))
        × (used.id ≡ id)
        × (used.scopes ≡ payload.scopes)
  get_org_by_api_key-create_api_key id raw org_id created_by payload keys keys' later key plaintext
        now organizations org h runs live got active =
      let (free, is_key, is_text, is_rows) =
        create_api_key-eq-ok hash_token id raw org_id created_by payload keys keys' key plaintext
          h in
      let made = new_key hash_token id raw org_id created_by payload in
      let found : select (matches made.key_hash) (keys ++ made ∷ []) ≡ made ∷ [] =
        rw (select-append (matches made.key_hash) keys (made ∷ []))
          (rw (no_match made keys free) (rw (eq_refl made.key_hash) refl)) in
      let start : IsLive made (keys ++ made ∷ []) = record {
        row = made;
        found = found;
        same_id = refl;
        same_org = refl;
        same_scopes = refl;
        same_expiry = refl;
      } in
      let runs' : KeyRuns hash_token v (λ i. i ≢ made.id) (keys ++ made ∷ []) later =
        subst (λ (k : ApiKey). KeyRuns hash_token v (λ i. i ≢ k.id) (keys ++ made ∷ []) later)
          is_key (subst (λ ks. KeyRuns hash_token v (λ i. i ≢ key.id) ks later) is_rows runs) in
      let at_end = KeyRuns-IsLive made runs' start in
      let row = at_end.row in
      let expiry : has_expired now row ≡ false = ground (arith, at_end.same_expiry, is_key, live) in
      let there : get_by_id row.organization_id organizations ≡ some org = rw at_end.same_org got in
      (
        with_use now row,
        change_row key_id row.id (with_use now) later,
        ap (λ t. get_org_by_api_key hash_token now t organizations later) is_text
            ∙ (opened hash_token now (plaintext_key raw) organizations later row org at_end.found
                expiry there active),
        at_end.same_id,
        at_end.same_scopes,
      )
