-- ===== src/Auth/Memberships.antt =====
-- `_get_user_memberships` of backend/app/modules/auth/service.py.
use ai_business_automation.Prelude.{
  ℕ, Option, none, some, List, [], ◌∷◌, ◌++◌, ◌==◌, ◌&&◌, if◌then◌else◌, select, map,
}
use ai_business_automation.Workflows.Graph.{Values}
use ai_business_automation.Organizations.Roles.{Role}
use ai_business_automation.Organizations.Models.{Organization, OrgMember}
use ai_business_automation.Organizations.Orgs.{OrgDb}

-- The dict of `_get_user_memberships`.
pub record Membership (v : Values) : Type 0 where
  pub org_id : ℕ
  pub role : Role
  pub org : Organization v

module _ {v : Values} where
  -- The active organizations of one membership, by the join.
  abbrev pub joined : OrgMember → List (Organization v) → List (Membership v)
  joined m organizations =
      map (λ o. record { org_id = m.organization_id; role = m.role; org = o })
        (select (λ o. (o.id == m.organization_id) && o.is_active) organizations)

  abbrev pub join_rows : ℕ → List OrgMember → List (Organization v) → List (Membership v)
  join_rows user_id [] organizations = []
  join_rows user_id (m ∷ members) organizations =
      let rest = join_rows user_id members organizations in
      if m.user_id == user_id then joined m organizations ++ rest else rest

  -- `_get_user_memberships`
  unfoldable pub get_user_memberships : ℕ → OrgDb v → List (Membership v)
  get_user_memberships user_id org = join_rows user_id org.members org.organizations

  -- `next((m for m in memberships if m["org_id"] == org_id), None)`
  abbrev pub membership_in : ℕ → List (Membership v) → Option (Membership v)
  membership_in org_id [] = none
  membership_in org_id (m ∷ rest) = if m.org_id == org_id then some m else membership_in org_id rest

  abbrev pub first : List (Membership v) → Option (Membership v)
  first [] = none
  first (m ∷ rest) = some m
