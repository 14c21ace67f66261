-- ===== src/Workflows/Router/Tenant.antt =====
-- Tenant isolation of backend/app/modules/workflows/router.py, over all its endpoints.
use ai_business_automation.Prelude.{ℕ, String, Option, ◌≡◌, Member}
use ai_business_automation.Errors.{ok, >>=-eq-ok, returned_second}
use ai_business_automation.Organizations.Roles.{require_org_role}
use ai_business_automation.Organizations.Models.{OrgMember}
use ai_business_automation.Workflows.Graph.{Values}
use ai_business_automation.Workflows.Models.{Db}
use ai_business_automation.Workflows.Service.{
  create_workflow, update_workflow, publish_workflow, revert_workflow, duplicate_workflow,
  archive_workflow,
}
use ai_business_automation.Workflows.Service.Tenant.{
  Untouched, create_workflow-Untouched, update_workflow-Untouched, delete_workflow-Untouched,
  publish_workflow-Untouched, revert_workflow-Untouched, duplicate_workflow-Untouched,
  archive_workflow-Untouched,
}
use ai_business_automation.Workflows.Router.Permitted.{roles_for, require_org_role-Member}
use ai_business_automation.Workflows.Router.{
  Request, create, update, delete, publish, revert, duplicate, archive, path_id, min_role, call,
  handle,
}

module _ {v : Values} where
  call-Untouched :
      (as_uuid : String → Option ℕ) (org_id user_id : ℕ) (request : Request v) (db : Db v)
      {db' : Db v}
      → call as_uuid org_id user_id request db ≡ ok db'
      → Untouched org_id db db'
  unfolding call
  call-Untouched as_uuid org_id user_id (create uuid payload) db h =
      create_workflow-Untouched org_id uuid payload db
        (returned_second (create_workflow uuid org_id payload db) h).1
  call-Untouched as_uuid org_id user_id (update wf_id payload) db h =
      let (i, _, k) = >>=-eq-ok (path_id as_uuid wf_id) _ h in
      update_workflow-Untouched org_id i payload db
        (returned_second (update_workflow org_id i payload db) k).1
  call-Untouched as_uuid org_id user_id (delete wf_id) db h =
      let (i, _, k) = >>=-eq-ok (path_id as_uuid wf_id) _ h in
      delete_workflow-Untouched org_id i db k
  call-Untouched as_uuid org_id user_id (publish uuid wf_id payload) db h =
      let (i, _, k) = >>=-eq-ok (path_id as_uuid wf_id) _ h in
      publish_workflow-Untouched org_id uuid user_id i payload db
        (returned_second (publish_workflow uuid org_id user_id i payload db) k).1
  call-Untouched as_uuid org_id user_id (revert uuid wf_id n) db h =
      let (i, _, k) = >>=-eq-ok (path_id as_uuid wf_id) _ h in
      revert_workflow-Untouched org_id uuid user_id i n db
        (returned_second (revert_workflow uuid org_id user_id i n db) k).1
  call-Untouched as_uuid org_id user_id (duplicate uuid wf_id name) db h =
      let (i, _, k) = >>=-eq-ok (path_id as_uuid wf_id) _ h in
      duplicate_workflow-Untouched org_id uuid i name db
        (returned_second (duplicate_workflow uuid org_id i name db) k).1
  call-Untouched as_uuid org_id user_id (archive wf_id) db h =
      let (i, _, k) = >>=-eq-ok (path_id as_uuid wf_id) _ h in
      archive_workflow-Untouched org_id i db (returned_second (archive_workflow org_id i db) k).1

  -- A request that returns was made by an owner or an admin, or by a manager who did not ask to
  -- delete, revert or archive, and it leaves every workflow of every other organization, and that
  -- workflow's version history, unchanged.
  pub handle-Untouched :
      (as_uuid : String → Option ℕ) (member : OrgMember) (request : Request v) (db : Db v)
      {db' : Db v}
      → handle as_uuid member request db ≡ ok db'
      → Member member.role (roles_for request) × Untouched member.organization_id db db'
  unfolding handle
  handle-Untouched as_uuid member request db h =
      let (u, passed, k) = >>=-eq-ok (require_org_role (min_role request) member.role) _ h in
      (
        require_org_role-Member request member.role passed,
        call-Untouched as_uuid member.organization_id member.user_id request db k,
      )
