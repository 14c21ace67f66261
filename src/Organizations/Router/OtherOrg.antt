-- ===== src/Organizations/Router/OtherOrg.antt =====
-- Requests of backend/app/modules/organizations/router.py whose path names an organization other
-- than that of the caller's membership.
use ai_business_automation.Prelude.{ℕ, String, Bool, true, false, ◌≡◌, ◌≤◌, refl, ◌==◌}
use ai_business_automation.Errors.{err, app, not_found}
use ai_business_automation.Workflows.Graph.{Values}
use ai_business_automation.Organizations.Roles.{role_rank, require_org_role-eq-ok}
use ai_business_automation.Organizations.Models.{OrgMember}
use ai_business_automation.Organizations.Invitations.{revoke_invitation}
use ai_business_automation.Organizations.Orgs.{
  OrgDb, get_org, update_org, delete_org, create_department, update_department, delete_department,
}
use ai_business_automation.Organizations.ApiKeys.{revoke_api_key}
use ai_business_automation.Organizations.Router.{
  OrgRequest, patch_org, delete_organization, post_transfer, patch_member, delete_member,
  post_invitation, delete_invitation, post_department, patch_department, delete_dept, post_key,
  delete_key, required_role, endpoint, respond,
}

module _ {v : Values} where
  abbrev pub is_transfer : OrgRequest v → Bool
  is_transfer (post_transfer heir) = true
  is_transfer _ = false

module _ {v : Values} (hash_token : String → String) (now : ℕ) where
  endpoint_other_org :
      (caller : OrgMember) (org_id : ℕ) (request : OrgRequest v) (db : OrgDb v)
      → (org_id == caller.organization_id) ≡ false
      → is_transfer request ≡ false
      → endpoint hash_token now caller org_id request db ≡ (err (app not_found), db)
  unfolding endpoint get_org update_org delete_org create_department update_department
      delete_department revoke_invitation revoke_api_key
  endpoint_other_org caller org_id (patch_org payload) db other t = rw other refl
  endpoint_other_org caller org_id (delete_organization confirmation) db other t = rw other refl
  endpoint_other_org caller org_id (post_transfer heir) db other t = cc
  endpoint_other_org caller org_id (patch_member user_id payload) db other t = rw other refl
  endpoint_other_org caller org_id (delete_member user_id) db other t = rw other refl
  endpoint_other_org caller org_id (post_invitation id token payload) db other t = rw other refl
  endpoint_other_org caller org_id (delete_invitation id) db other t = rw other refl
  endpoint_other_org caller org_id (post_department id name) db other t = rw other refl
  endpoint_other_org caller org_id (patch_department id name) db other t = rw other refl
  endpoint_other_org caller org_id (delete_dept id) db other t = rw other refl
  endpoint_other_org caller org_id (post_key id raw payload) db other t = rw other refl
  endpoint_other_org caller org_id (delete_key id) db other t = rw other refl

  -- A request whose path names an organization other than the caller's, except for the transfer of
  -- ownership, is answered 404 and changes nothing, if the caller ranks at least as high as the
  -- role that the endpoint asks for.
  pub respond_other_org :
      (caller : OrgMember) (org_id : ℕ) (request : OrgRequest v) (db : OrgDb v)
      → role_rank (required_role request) ≤ role_rank caller.role
      → (org_id == caller.organization_id) ≡ false
      → is_transfer request ≡ false
      → respond hash_token now caller org_id request db ≡ (err (app not_found), db)
  unfolding respond
  respond_other_org caller org_id request db ranks other t =
      rw (respond, require_org_role-eq-ok (required_role request) caller.role ranks)
        (endpoint_other_org caller org_id request db other t)
