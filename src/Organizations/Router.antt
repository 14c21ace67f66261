-- ===== src/Organizations/Router.antt =====
-- The endpoints of backend/app/modules/organizations/router.py that change the tables and ask for
-- a membership. `org_id` is the identifier in the path, and the caller is the member row of
-- the token's organization.
pub mod OtherOrg
use ai_business_automation.Prelude.{ℕ, String, Option, Bool, not, List, ◌==◌}
use ai_business_automation.Errors.{Result, ok, err, ◌>>=◌, ◌>>◌, not_found, raise_if}
use ai_business_automation.Workflows.Graph.{Values}
use ai_business_automation.Organizations.Roles.{Role, owner, admin, manager, require_org_role}
use ai_business_automation.Organizations.Models.{OrgMember}
use ai_business_automation.Organizations.Members.{
  MemberUpdate, update_member, remove_member, transfer_ownership,
}
use ai_business_automation.Organizations.Invitations.{
  InvitationCreate, invite_member, revoke_invitation,
}
use ai_business_automation.Organizations.Orgs.{
  OrgDb, OrgUpdate, get_org, update_org, delete_org, create_department, update_department,
  delete_department,
}
use ai_business_automation.Organizations.ApiKeys.{ApiKeyCreate, create_api_key, revoke_api_key}

-- A request, with the rest of the path, the body and what it draws.
pub data OrgRequest (v : Values) : Type 0 where
  patch_org : OrgUpdate v → OrgRequest v
  delete_organization : String → OrgRequest v
  post_transfer : ℕ → OrgRequest v
  patch_member : ℕ → MemberUpdate → OrgRequest v
  delete_member : ℕ → OrgRequest v
  post_invitation : ℕ → String → InvitationCreate → OrgRequest v
  delete_invitation : ℕ → OrgRequest v
  post_department : ℕ → String → OrgRequest v
  patch_department : ℕ → String → OrgRequest v
  delete_dept : ℕ → OrgRequest v
  post_key : ℕ → String → ApiKeyCreate → OrgRequest v
  delete_key : ℕ → OrgRequest v

-- `if org_id != _org_id_from_member(caller): raise NotFoundError`
abbrev pub require_own : ℕ → OrgMember → Result (Unit {0})
require_own org_id caller = raise_if (not (org_id == caller.organization_id)) not_found

module _ {v : Values} where
  -- `require_org_role(...)` of each endpoint
  unfoldable pub required_role : OrgRequest v → Role
  required_role (patch_org payload) = admin
  required_role (delete_organization confirmation) = owner
  required_role (post_transfer heir) = owner
  required_role (post_key id raw payload) = admin
  required_role (delete_key id) = admin
  required_role _ = manager

  -- The answer, and the tables afterwards: `db.commit()` follows the service's return.
  abbrev pub commit : Result (OrgDb v) → OrgDb v → Result (Unit {0}) × OrgDb v
  commit (ok db') db = (ok tt, db')
  commit (err e) db = (err e, db)

  -- The transfer is committed before the organization of the path is looked at.
  unfoldable pub transfer_endpoint : OrgMember → ℕ → ℕ → OrgDb v → Result (Unit {0}) × OrgDb v
  transfer_endpoint caller org_id heir db =
      elim (transfer_ownership caller.organization_id heir caller.user_id db.members) [
        | err e ↦ (err e, db)
        | ok members ↦
            let db' = record db { members = members } in
            (get_org org_id caller.organization_id db' >>= λ org. ok tt, db')
      ]

  module _ (hash_token : String → String) (now : ℕ) where
    -- The body of the endpoint.
    unfoldable pub endpoint : OrgMember → ℕ → OrgRequest v → OrgDb v → Result (Unit {0}) × OrgDb v
    endpoint caller org_id (patch_org payload) db =
        commit (update_org org_id caller.organization_id payload db) db
    endpoint caller org_id (delete_organization confirmation) db =
        commit (delete_org org_id caller.organization_id confirmation db) db
    endpoint caller org_id (post_transfer heir) db = transfer_endpoint caller org_id heir db
    endpoint caller org_id (patch_member user_id payload) db =
        commit
          (require_own org_id caller
            >> (update_member org_id user_id payload caller db.members >>= λ rows.
                ok (record db { members = rows })))
          db
    endpoint caller org_id (delete_member user_id) db =
        commit
          (require_own org_id caller
            >> (remove_member org_id user_id db.members >>= λ rows.
                ok (record db { members = rows })))
          db
    endpoint caller org_id (post_invitation id token payload) db =
        commit
          (require_own org_id caller
            >> (invite_member hash_token id token now org_id caller.user_id payload db.invitations
                >>= λ r. ok (record db { invitations = r.1 })))
          db
    endpoint caller org_id (delete_invitation id) db =
        commit
          (revoke_invitation org_id id caller.organization_id db.invitations >>= λ rows.
            ok (record db { invitations = rows }))
          db
    endpoint caller org_id (post_department id name) db =
        commit
          (create_department id org_id caller.organization_id name db.departments >>= λ r.
            ok (record db { departments = r.1 }))
          db
    endpoint caller org_id (patch_department id name) db =
        commit
          (update_department org_id id caller.organization_id name db.departments >>= λ rows.
            ok (record db { departments = rows }))
          db
    endpoint caller org_id (delete_dept id) db =
        commit
          (delete_department org_id id caller.organization_id db.departments >>= λ rows.
            ok (record db { departments = rows }))
          db
    endpoint caller org_id (post_key id raw payload) db =
        commit
          (require_own org_id caller
            >> (create_api_key hash_token id raw org_id caller.user_id payload db.api_keys >>= λ r.
                ok (record db { api_keys = r.1 })))
          db
    endpoint caller org_id (delete_key id) db =
        commit
          (revoke_api_key now org_id id caller.organization_id db.api_keys >>= λ rows.
            ok (record db { api_keys = rows }))
          db

    -- The endpoint behind its dependency `require_org_role`.
    unfoldable pub respond : OrgMember → ℕ → OrgRequest v → OrgDb v → Result (Unit {0}) × OrgDb v
    respond caller org_id request db = elim (require_org_role (required_role request) caller.role) [
      | err e ↦ (err e, db)
      | ok _ ↦ endpoint caller org_id request db
    ]
