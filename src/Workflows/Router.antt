-- ===== src/Workflows/Router.antt =====
-- The endpoints of backend/app/modules/workflows/router.py that change the tables: the role that
-- each asks for, and the call of the service with the organization of the caller's membership.
pub mod Permitted
pub mod Tenant
pub mod Foreign
pub mod Consistent
use ai_business_automation.Prelude.{ℕ, String, Option, none, some}
use ai_business_automation.Errors.{uncaught, Result, ok, err, ◌>>=◌, ◌>>◌}
use ai_business_automation.Organizations.Roles.{Role, manager, admin, require_org_role}
use ai_business_automation.Organizations.Models.{OrgMember}
use ai_business_automation.Workflows.Graph.{Values}
use ai_business_automation.Workflows.Models.{Db}
use ai_business_automation.Workflows.Service.{
  Uuids, WorkflowCreate, WorkflowUpdate, PublishRequest, create_workflow, update_workflow,
  delete_workflow, publish_workflow, revert_workflow, duplicate_workflow, archive_workflow,
}

-- A request, with the path's texts, the body and the identifiers that it draws.
pub data Request (v : Values) : Type 0 where
  create : Uuids → WorkflowCreate → Request v
  update : String → WorkflowUpdate v → Request v
  delete : String → Request v
  publish : Uuids → String → PublishRequest v → Request v
  revert : Uuids → String → ℕ → Request v
  duplicate : Uuids → String → String → Request v
  archive : String → Request v

-- A path's `wf_id` is any text. Each function starts with a query by it, and the database refuses
-- a text that is no UUID, which nothing catches. `as_uuid` is how the database reads the text.
unfoldable pub path_id : (String → Option ℕ) → String → Result ℕ
path_id as_uuid wf_id = elim (as_uuid wf_id) [ none ↦ err uncaught | some i ↦ ok i ]

module _ {v : Values} where
  unfoldable pub min_role : Request v → Role
  min_role (create uuid payload) = manager
  min_role (update wf_id payload) = manager
  min_role (delete wf_id) = admin
  min_role (publish uuid wf_id payload) = manager
  min_role (revert uuid wf_id version_number) = admin
  min_role (duplicate uuid wf_id name) = manager
  min_role (archive wf_id) = admin

  -- The body of the endpoint, for the organization `org_id` and the user `user_id`.
  unfoldable pub call : (String → Option ℕ) → ℕ → ℕ → Request v → Db v → Result (Db v)
  call as_uuid org_id user_id (create uuid payload) db = do
    (wf, db') ← create_workflow uuid org_id payload db
    ok db'
  call as_uuid org_id user_id (update wf_id payload) db = do
    i ← path_id as_uuid wf_id
    (wf, db') ← update_workflow org_id i payload db
    ok db'
  call as_uuid org_id user_id (delete wf_id) db = do
    i ← path_id as_uuid wf_id
    delete_workflow org_id i db
  call as_uuid org_id user_id (publish uuid wf_id payload) db = do
    i ← path_id as_uuid wf_id
    (r, db') ← publish_workflow uuid org_id user_id i payload db
    ok db'
  call as_uuid org_id user_id (revert uuid wf_id version_number) db = do
    i ← path_id as_uuid wf_id
    (r, db') ← revert_workflow uuid org_id user_id i version_number db
    ok db'
  call as_uuid org_id user_id (duplicate uuid wf_id name) db = do
    i ← path_id as_uuid wf_id
    (wf, db') ← duplicate_workflow uuid org_id i name db
    ok db'
  call as_uuid org_id user_id (archive wf_id) db = do
    i ← path_id as_uuid wf_id
    (wf, db') ← archive_workflow org_id i db
    ok db'

  -- The endpoint behind its dependency `require_org_role`, with the tables as its session sees
  -- them. The endpoint commits nothing, and `get_db` only closes the session.
  unfoldable pub handle : (String → Option ℕ) → OrgMember → Request v → Db v → Result (Db v)
  handle as_uuid member request db = do
    require_org_role (min_role request) member.role
    call as_uuid member.organization_id member.user_id request db
