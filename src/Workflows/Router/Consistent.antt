-- ===== src/Workflows/Router/Consistent.antt =====
-- The endpoints of backend/app/modules/workflows/router.py keep the tables of their session
-- consistent.
use ai_business_automation.Prelude.{ℕ, String, Option, ◌≡◌}
use ai_business_automation.Errors.{ok, >>=-eq-ok, returned_second}
use ai_business_automation.Organizations.Roles.{require_org_role}
use ai_business_automation.Organizations.Models.{OrgMember}
use ai_business_automation.Workflows.Graph.{Values}
use ai_business_automation.Workflows.Models.{Db}
use ai_business_automation.Workflows.Service.{
  create_workflow, update_workflow, publish_workflow, revert_workflow, duplicate_workflow,
  archive_workflow,
}
use ai_business_automation.Workflows.Service.Invariant.{IsConsistent}
use ai_business_automation.Workflows.Service.Invariant.Kept.{
  create_workflow-IsConsistent, update_workflow-IsConsistent, delete_workflow-IsConsistent,
  duplicate_workflow-IsConsistent, archive_workflow-IsConsistent,
}
use ai_business_automation.Workflows.Service.Invariant.Publication.{
  publish_workflow-IsConsistent, revert_workflow-IsConsistent,
}
use ai_business_automation.Workflows.Router.{
  Request, create, update, delete, publish, revert, duplicate, archive, path_id, min_role, call,
  handle,
}

module _ {v : Values} where
  call-IsConsistent :
      (as_uuid : String → Option ℕ) (org_id user_id : ℕ) (request : Request v) (db : Db v)
      {db' : Db v}
      → call as_uuid org_id user_id request db ≡ ok db'
      → IsConsistent db
      → IsConsistent db'
  unfolding call
  call-IsConsistent as_uuid org_id user_id (create uuid payload) db h c =
      create_workflow-IsConsistent uuid org_id payload db
        (returned_second (create_workflow uuid org_id payload db) h).1 c
  call-IsConsistent as_uuid org_id user_id (update wf_id payload) db h c =
      let (i, _, k) = >>=-eq-ok (path_id as_uuid wf_id) _ h in
      update_workflow-IsConsistent org_id i payload db
        (returned_second (update_workflow org_id i payload db) k).1 c
  call-IsConsistent as_uuid org_id user_id (delete wf_id) db h c =
      let (i, _, k) = >>=-eq-ok (path_id as_uuid wf_id) _ h in
      delete_workflow-IsConsistent org_id i db k c
  call-IsConsistent as_uuid org_id user_id (publish uuid wf_id payload) db h c =
      let (i, _, k) = >>=-eq-ok (path_id as_uuid wf_id) _ h in
      publish_workflow-IsConsistent uuid org_id user_id i payload db
        (returned_second (publish_workflow uuid org_id user_id i payload db) k).1 c
  call-IsConsistent as_uuid org_id user_id (revert uuid wf_id n) db h c =
      let (i, _, k) = >>=-eq-ok (path_id as_uuid wf_id) _ h in
      revert_workflow-IsConsistent uuid org_id user_id i n db
        (returned_second (revert_workflow uuid org_id user_id i n db) k).1 c
  call-IsConsistent as_uuid org_id user_id (duplicate uuid wf_id name) db h c =
      let (i, _, k) = >>=-eq-ok (path_id as_uuid wf_id) _ h in
      duplicate_workflow-IsConsistent uuid org_id i name db
        (returned_second (duplicate_workflow uuid org_id i name db) k).1 c
  call-IsConsistent as_uuid org_id user_id (archive wf_id) db h c =
      let (i, _, k) = >>=-eq-ok (path_id as_uuid wf_id) _ h in
      archive_workflow-IsConsistent org_id i db (returned_second (archive_workflow org_id i db) k).1
        c

  -- An endpoint that returns, whoever called it, leaves the tables of its session consistent if
  -- they were: workflow identifiers are unique, the versions of each workflow are numbered 1 to
  -- `current_version` in the order of publication, its `active_version_id` is that of a version
  -- with that number, no version is without its workflow, and each stored definition has passed
  -- the validator.
  pub handle-IsConsistent :
      (as_uuid : String → Option ℕ) (member : OrgMember) (request : Request v) (db : Db v)
      {db' : Db v}
      → handle as_uuid member request db ≡ ok db'
      → IsConsistent db
      → IsConsistent db'
  unfolding handle
  handle-IsConsistent as_uuid member request db h c =
      let (u, _, k) = >>=-eq-ok (require_org_role (min_role request) member.role) _ h in
      call-IsConsistent as_uuid member.organization_id member.user_id request db k c
