-- ===== src/Organizations/ApiKeys/Laws.antt =====
-- How an API key of backend/app/modules/organizations/service.py is made and found.
use ai_business_automation.Prelude.{
  ℕ, String, some, Bool-cases, true, false, List, [], ◌∷◌, ◌++◌, ◌≡◌, refl, inl, inr, arith, any,
  select,
}
use ai_business_automation.Errors.{ok, scalar_one_or_none}
use ai_business_automation.Database.{change_row}
use ai_business_automation.Workflows.Graph.{Values}
use ai_business_automation.Organizations.Models.{Organization, ApiKey}
use ai_business_automation.Organizations.Orgs.{get_by_id}
use ai_business_automation.Organizations.ApiKeys.{
  ApiKeyCreate, key_id, matches, key_clashes, has_expired, plaintext_key, new_key, create_api_key,
  get_org_by_api_key,
}

pub no_match :
    (new : ApiKey) (keys : List ApiKey)
    → any (key_clashes new) keys ≡ false
    → select (matches new.key_hash) keys ≡ []
no_match new [] h = refl
no_match new (k ∷ keys) h = ground (arith, no_match new keys)

module _ (hash_token : String → String) where
  pub create_api_key-eq-ok :
      (id : ℕ) (raw : String) (org_id created_by : ℕ) (payload : ApiKeyCreate)
      (keys keys' : List ApiKey) (key : ApiKey) (plaintext : String)
      → create_api_key hash_token id raw org_id created_by payload keys
        ≡ ok ((key, plaintext), keys')
      → (any (key_clashes (new_key hash_token id raw org_id created_by payload)) keys ≡ false)
        × (key ≡ new_key hash_token id raw org_id created_by payload)
        × (plaintext ≡ plaintext_key raw)
        × (keys' ≡ keys ++ new_key hash_token id raw org_id created_by payload ∷ [])
  unfolding create_api_key
  create_api_key-eq-ok id raw org_id created_by payload keys keys' key plaintext h =
      elim (Bool-cases
        (any (key_clashes (new_key hash_token id raw org_id created_by payload)) keys)) [
          | inl clash ↦ ground arith
          | inr free ↦ ground arith
        ]

module _ (hash_token : String → String) {v : Values} where
  pub opened :
      (now : ℕ) (plaintext : String) (organizations : List (Organization v)) (keys : List ApiKey)
      (key : ApiKey) (org : Organization v)
      → select (matches (hash_token plaintext)) keys ≡ key ∷ []
      → has_expired now key ≡ false
      → get_by_id key.organization_id organizations ≡ some org
      → org.is_active ≡ true
      → get_org_by_api_key hash_token now plaintext organizations keys
        ≡ ok (
          (record key { last_used_at = some now }, org),
          change_row key_id key.id (λ k. record k { last_used_at = some now }) keys,
        )
  unfolding get_org_by_api_key scalar_one_or_none
  opened now plaintext organizations keys key org found live got active =
      rw (found, live, got, active) refl
