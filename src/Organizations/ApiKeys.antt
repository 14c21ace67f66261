-- ===== src/Organizations/ApiKeys.antt =====
-- The API keys of backend/app/modules/organizations/service.py, and the scope check of
-- `APIKeyContext` in dependencies.py. `hash_token` (SHA-256) and the random text are parameters.
pub mod Laws
pub mod Live
pub mod Life
pub mod Revoked
use Prim.Native.String.{slice, ◌++◌ as text_append}
use ai_business_automation.Prelude.{
  ℕ, String, Option, none, some, Bool, true, false, not, List, [], ◌∷◌, ◌==◌, ◌&&◌, ◌||◌, str_eq,
  ltb, is_some, if◌then◌else◌, select,
}
use ai_business_automation.Prelude.Sets.{contains}
use ai_business_automation.Errors.{
  Result, ok, ◌>>=◌, ◌>>◌, not_found, forbidden, scalar_one_or_none, or_raise, raise_if,
}
use ai_business_automation.Database.{add_row, change_row}
use ai_business_automation.Workflows.Graph.{Values}
use ai_business_automation.Organizations.Models.{Organization, ApiKey}
use ai_business_automation.Organizations.Orgs.{get_by_id}

pub record ApiKeyCreate : Type 0 where
  pub label : String
  pub scopes : List String
  pub expires_at : Option ℕ

abbrev pub key_id : ApiKey → ℕ
key_id k = k.id

-- `revoked_at.is_(None)`
abbrev pub is_live : ApiKey → Bool
is_live k = not (is_some k.revoked_at)

-- The query of `get_org_by_api_key`.
abbrev pub matches : String → ApiKey → Bool
matches key_hash k = str_eq k.key_hash key_hash && is_live k

-- `primary_key` and the unique hash
abbrev pub key_clashes : ApiKey → ApiKey → Bool
key_clashes new k = k.id == new.id || str_eq k.key_hash new.key_hash

-- `expires_at and expires_at < now`
abbrev pub has_expired : ℕ → ApiKey → Bool
has_expired now k = elim k.expires_at [ none ↦ false | some t ↦ ltb t now ]

unfoldable pub list_api_keys : ℕ → ℕ → List ApiKey → Result (List ApiKey)
list_api_keys org_id requesting_org_id keys = do
  raise_if (not (org_id == requesting_org_id)) not_found
  ok (select (λ k. k.organization_id == org_id && is_live k) keys)

abbrev pub plaintext_key : String → String
plaintext_key raw = text_append "bpa_sk_" raw

unfoldable pub revoke_api_key : ℕ → ℕ → ℕ → ℕ → List ApiKey → Result (List ApiKey)
revoke_api_key now org_id id requesting_org_id keys = do
  raise_if (not (org_id == requesting_org_id)) not_found
  found ← scalar_one_or_none (select (λ k. k.id == id && k.organization_id == org_id) keys)
  key ← or_raise found not_found
  ok (change_row key_id key.id (λ k. record k { revoked_at = some now }) keys)

module _ (hash_token : String → String) where
  abbrev pub new_key : ℕ → String → ℕ → ℕ → ApiKeyCreate → ApiKey
  new_key id raw org_id created_by payload = record {
    id = id;
    organization_id = org_id;
    created_by = created_by;
    label = payload.label;
    key_hash = hash_token (plaintext_key raw);
    key_prefix = slice (plaintext_key raw) 0 10;
    scopes = payload.scopes;
    last_used_at = none;
    expires_at = payload.expires_at;
    revoked_at = none;
  }

  -- `raw` is the result of `secrets.token_urlsafe`; the plaintext is returned and not stored.
  unfoldable pub create_api_key :
      ℕ → String → ℕ → ℕ → ApiKeyCreate → List ApiKey → Result ((ApiKey × String) × List ApiKey)
  create_api_key id raw org_id created_by payload keys = do
    let key = new_key id raw org_id created_by payload
    rows ← add_row (key_clashes key) key keys
    ok ((key, plaintext_key raw), rows)

  module _ {v : Values} where
    unfoldable pub get_org_by_api_key :
        ℕ
        → String
        → List (Organization v)
        → List ApiKey
        → Result ((ApiKey × Organization v) × List ApiKey)
    get_org_by_api_key now plaintext organizations keys = do
      found ← scalar_one_or_none (select (matches (hash_token plaintext)) keys)
      key ← or_raise found not_found
      raise_if (has_expired now key) not_found
      org ← or_raise (get_by_id key.organization_id organizations) not_found
      raise_if (not org.is_active) not_found
      let used = λ (k : ApiKey). record k { last_used_at = some now }
      ok ((used key, org), change_row key_id key.id used keys)

-- `APIKeyContext.require_scope`
unfoldable pub require_scope : String → ApiKey → Result (Unit {0})
require_scope scope key =
    raise_if (not (contains scope key.scopes)) (forbidden "INSUFFICIENT_SCOPE")
