-- ===== src/Organizations/Dependencies.antt =====
-- backend/app/modules/organizations/dependencies.py: who the caller of an endpoint is. `parse` is
-- `UUID(text)`, which raises for a text that is none.
use Prim.Native.String.{slice, len}
use ai_business_automation.Prelude.{
  ℕ, String, Option, some, true, not, List, [], ◌∷◌, ◌≡◌, ap, ◌∙◌, arith, select, starts_with,
  Member, mem-select, inl, refl,
}
use ai_business_automation.Errors.{
  Result, ok, ◌>>=◌, ◌>>◌, unauthorized, forbidden, scalar_one_or_none, or_raise, raise_if,
  >>=-eq-ok, or_raise-eq-ok, raise_if->>, scalar-eq-some,
}
use ai_business_automation.Workflows.Graph.{Values}
use ai_business_automation.Organizations.Models.{Organization, OrgMember, ApiKey}
use ai_business_automation.Organizations.Members.{is_member}
use ai_business_automation.Organizations.Orgs.{get_by_id}
use ai_business_automation.Organizations.ApiKeys.{get_org_by_api_key}

module _ (parse : String → Option ℕ) {v : Values} where
  -- `org_id_str` is the claim `org_id` of the caller's token, "" where it has none.
  unfoldable pub require_org_member :
      String → ℕ → List (Organization v) → List OrgMember → Result OrgMember
  require_org_member org_id_str user_id organizations members = do
    org_id ← or_raise (parse org_id_str) (unauthorized "INVALID_TOKEN")
    org ← or_raise (get_by_id org_id organizations) (unauthorized "ORG_NOT_FOUND")
    raise_if (not org.is_active) (unauthorized "ORG_SUSPENDED")
    found ← scalar_one_or_none (select (is_member org_id user_id) members)
    or_raise found (forbidden "NOT_A_MEMBER")

  -- Whoever gets past `require_org_member` is a row of the members, the only one of this user in
  -- the organization of the token, and that organization exists and is active.
  pub require_org_member-eq-ok :
      (org_id_str : String) (user_id : ℕ) (organizations : List (Organization v))
      (members : List OrgMember) {m : OrgMember}
      → require_org_member org_id_str user_id organizations members ≡ ok m
      → (org_id : ℕ) × (org : Organization v) × (parse org_id_str ≡ some org_id)
        × (get_by_id org_id organizations ≡ some org)
        × (org.is_active ≡ true)
        × (select (is_member org_id user_id) members ≡ m ∷ [])
        × Member m members
        × (m.organization_id ≡ org_id)
        × (m.user_id ≡ user_id)
  unfolding require_org_member
  require_org_member-eq-ok org_id_str user_id organizations members {m} h =
      let (org_id, p, h1) =
        >>=-eq-ok (or_raise (parse org_id_str) (unauthorized "INVALID_TOKEN")) _ h in
      let (org, g, h2) =
        >>=-eq-ok (or_raise (get_by_id org_id organizations) (unauthorized "ORG_NOT_FOUND")) _ h1 in
      let (active, h3) = raise_if->> (not org.is_active) (unauthorized "ORG_SUSPENDED") _ h2 in
      let (found, e, h4) =
        >>=-eq-ok (scalar_one_or_none (select (is_member org_id user_id) members)) _ h3 in
      let one =
        scalar-eq-some (select (is_member org_id user_id) members)
          (e ∙ ap ok (or_raise-eq-ok found (forbidden "NOT_A_MEMBER") h4)) in
      let (there, his) = (mem-select (is_member org_id user_id) m members).0 (rw one (inl refl)) in
      (
        org_id,
        org,
        or_raise-eq-ok (parse org_id_str) (unauthorized "INVALID_TOKEN") p,
        or_raise-eq-ok (get_by_id org_id organizations) (unauthorized "ORG_NOT_FOUND") g,
        ground arith,
        one,
        there,
        ground (arith, his),
        ground (arith, his),
      )

module _ (hash_token : String → String) {v : Values} where
  -- `authorization` is the header; the key is what follows "Bearer ".
  unfoldable pub get_api_key_context :
      ℕ
      → String
      → List (Organization v)
      → List ApiKey
      → Result ((ApiKey × Organization v) × List ApiKey)
  get_api_key_context now authorization organizations keys = do
    raise_if (not (starts_with authorization "Bearer bpa_sk_")) (unauthorized "UNAUTHORIZED")
    get_org_by_api_key hash_token now (slice authorization 7 (len authorization)) organizations keys
