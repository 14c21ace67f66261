-- ===== src/Workflows/Router/Foreign.antt =====
-- Requests of backend/app/modules/workflows/router.py for a workflow of another organization.
use ai_business_automation.Prelude.{
  ℕ, String, Option, none, some, [], ◌∷◌, ◌≡◌, ◌≢◌, refl, ◌⊎◌, inl, inr, arith, Member,
}
use ai_business_automation.Errors.{app, not_found, ok, err, scalar_one_or_none}
use ai_business_automation.Workflows.Graph.{Values}
use ai_business_automation.Workflows.Models.{Workflow, Db, workflows_with}
use ai_business_automation.Workflows.Service.{
  find_workflow, update_workflow, delete_workflow, publish_workflow, revert_workflow,
  get_version_by_number, duplicate_workflow, archive_workflow,
}
use ai_business_automation.Workflows.Router.{
  Request, create, update, delete, publish, revert, duplicate, archive, path_id, call, handle,
}
use ai_business_automation.Workflows.Router.Permitted.{roles_for, require_org_role-permitted}
use ai_business_automation.Organizations.Models.{OrgMember}

path_id_lem :
    (as_uuid : String → Option ℕ) (w : String) (wf_id : ℕ) {text : String}
    → some w ≡ some text
    → as_uuid text ≡ some wf_id
    → path_id as_uuid w ≡ ok wf_id
unfolding path_id
path_id_lem as_uuid w wf_id {text} t r =
    let e : w ≡ text = ground arith in rw e (rw (path_id, r) refl)

module _ {v : Values} where
  -- The workflow that a request names.
  abbrev pub target : Request v → Option String
  target (create uuid payload) = none
  target (update wf_id payload) = some wf_id
  target (delete wf_id) = some wf_id
  target (publish uuid wf_id payload) = some wf_id
  target (revert uuid wf_id version_number) = some wf_id
  target (duplicate uuid wf_id name) = some wf_id
  target (archive wf_id) = some wf_id

  -- No row has the identifier, or the one that has it belongs to another organization.
  abbrev pub IsForeign : ℕ → ℕ → Db v → Type 0
  IsForeign org_id wf_id db =
      (workflows_with wf_id db.workflows ≡ [])
      ⊎ ((w : Workflow v) × (workflows_with wf_id db.workflows ≡ w ∷ [])
          × (w.organization_id ≢ org_id))

  find_workflow_foreign :
      (org_id wf_id : ℕ) (db : Db v)
      → IsForeign org_id wf_id db
      → find_workflow db wf_id org_id ≡ err (app not_found)
  unfolding find_workflow scalar_one_or_none
  find_workflow_foreign org_id wf_id db (inl e) = rw e refl
  find_workflow_foreign org_id wf_id db (inr (w, e, ne)) = rw e (ground arith)

  call_foreign :
      (as_uuid : String → Option ℕ) (org_id user_id wf_id : ℕ) (request : Request v) (db : Db v)
      {text : String}
      → target request ≡ some text
      → as_uuid text ≡ some wf_id
      → IsForeign org_id wf_id db
      → call as_uuid org_id user_id request db ≡ err (app not_found)
  unfolding call update_workflow delete_workflow publish_workflow revert_workflow
      get_version_by_number duplicate_workflow archive_workflow
  call_foreign as_uuid org_id user_id wf_id (create uuid payload) db t r f = cc
  call_foreign as_uuid org_id user_id wf_id (update w payload) db t r f =
      rw (path_id_lem as_uuid w wf_id t r) (rw (find_workflow_foreign org_id wf_id db f) refl)
  call_foreign as_uuid org_id user_id wf_id (delete w) db t r f =
      rw (path_id_lem as_uuid w wf_id t r) (rw (find_workflow_foreign org_id wf_id db f) refl)
  call_foreign as_uuid org_id user_id wf_id (publish uuid w payload) db t r f =
      rw (path_id_lem as_uuid w wf_id t r) (rw (find_workflow_foreign org_id wf_id db f) refl)
  call_foreign as_uuid org_id user_id wf_id (revert uuid w n) db t r f =
      rw (path_id_lem as_uuid w wf_id t r) (rw (find_workflow_foreign org_id wf_id db f) refl)
  call_foreign as_uuid org_id user_id wf_id (duplicate uuid w name) db t r f =
      rw (path_id_lem as_uuid w wf_id t r) (rw (find_workflow_foreign org_id wf_id db f) refl)
  call_foreign as_uuid org_id user_id wf_id (archive w) db t r f =
      rw (path_id_lem as_uuid w wf_id t r) (rw (find_workflow_foreign org_id wf_id db f) refl)

  -- A request whose path has the UUID of a workflow that does not exist or belongs to another
  -- organization gets the same 404 answer, if the role of the caller is one that the endpoint
  -- lets in: owner, admin, or manager where the request is not to delete, revert or archive.
  pub handle_foreign :
      (as_uuid : String → Option ℕ) (member : OrgMember) (wf_id : ℕ) (request : Request v)
      (db : Db v) {text : String}
      → Member member.role (roles_for request)
      → target request ≡ some text
      → as_uuid text ≡ some wf_id
      → IsForeign member.organization_id wf_id db
      → handle as_uuid member request db ≡ err (app not_found)
  unfolding handle
  handle_foreign as_uuid member wf_id request db m t r f =
      rw (require_org_role-permitted request member.role m)
        (call_foreign as_uuid member.organization_id member.user_id wf_id request db t r f)
