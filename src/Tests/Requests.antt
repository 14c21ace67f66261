-- ===== src/Tests/Requests.antt =====
-- Runs of the service and the endpoints of backend/app/modules/workflows.
use ai_business_automation.Prelude.{
  sym, ap, ◌∙◌, Member, Option, List, ℕ, none, some, [], ◌∷◌, ◌++◌, ◌≡◌, refl, inl, inr, arith, map,
}
use ai_business_automation.Prelude.Groups.{lookup, group, append_at, empty_groups, put_empty}
use ai_business_automation.Workflows.Registry.{node_registry}
use ai_business_automation.Workflows.Cycles.{dfs_all, dfs, visit}
use ai_business_automation.Workflows.Validator.{
  source_of, handle as handle_of, unknown_types, trigger_requirement, empty_graph, orphans,
  branches, validate_graph,
}
use ai_business_automation.Errors.{
  >>=-eq-ok, uncaught, scalar_one_or_none, Error, ok, err, app, not_found,
}
use ai_business_automation.Organizations.Roles.{owner, admin, require_org_role}
use ai_business_automation.Workflows.Graph.{
  GraphDict, EdgeDict, dump_edge, WorkflowGraph, GraphNode, GraphEdge, graph_to_dict,
  model_validate, validate_node, validate_edge, validate_all,
}
use ai_business_automation.Workflows.Models.{
  WorkflowEdge, archived, write_workflow, Workflow, WorkflowVersion, Db, published,
}
use ai_business_automation.Workflows.Service.{
  node_row, archive_workflow, find_workflow, create_workflow, add_workflow, update_workflow,
  add_version, max_version, persist_graph_rows, node_rows, edge_rows, choose_graph,
  next_version_number, publish_workflow, revert_workflow, get_version_by_number, with_version,
}
use ai_business_automation.Workflows.Service.Invariant.{IsConsistent}
use ai_business_automation.Workflows.Service.Tenant.{Untouched}
use ai_business_automation.Workflows.Service.Accepted.{
  Accepts, IsInvalidGraph, publish_workflow-Accepts, publish_workflow-IsInvalidGraph,
}
use ai_business_automation.Workflows.Service.Revert.{IsConvertible, revert_workflow_restores}
use ai_business_automation.Workflows.Router.{delete, archive, path_id, min_role, call, handle}
use ai_business_automation.Workflows.Router.Tenant.{handle-Untouched}
use ai_business_automation.Workflows.Router.Foreign.{handle_foreign}
use ai_business_automation.Workflows.Router.Consistent.{handle-IsConsistent}
use ai_business_automation.Tests.Samples.{
  sample_node, sample_edge, whole, invoice_flow, looping_flow, bob, ada, empty_db, uuids_from, eve,
  as_uuid, create_request, update_request, publish_request, served,
}

empty_db-IsConsistent : IsConsistent empty_db
empty_db-IsConsistent = record {
  unique = tt;
  numbered = λ w m. absurd m;
  pointing = λ w m. absurd m;
  owned = λ ver m. absurd m;
  validated = λ ver m. absurd m;
}

abbrev invoices : Workflow whole
invoices = record {
  id = 50;
  organization_id = 7;
  name = "Invoices";
  description = none;
  status = published;
  current_version = some 1;
  active_version_id = some 60;
  draft_definition = none;
}

abbrev first_version : WorkflowVersion whole
first_version = record {
  id = 60;
  workflow_id = 50;
  version_number = 1;
  definition = graph_to_dict invoice_flow;
  created_by = some 101;
}

abbrev sample_edge_row : ℕ → GraphEdge → WorkflowEdge
sample_edge_row id e = record {
  id = id;
  version_id = 60;
  edge_id = e.id;
  source = e.source;
  target = e.target;
  source_handle = e.source_handle;
  target_handle = e.target_handle;
}

abbrev published_db : Db whole
published_db = record {
  workflows = invoices ∷ [];
  versions = first_version ∷ [];
  nodes =
      node_row 61 60 (sample_node "start" "trigger.webhook") 10 20
      ∷ node_row 62 60 (sample_node "check" "action.condition") 10 20
      ∷ node_row 63 60 (sample_node "mail" "action.email") 10 20
      ∷ [];
  edges =
      sample_edge_row 64 (sample_edge "e1" "start" "check" "output")
      ∷ sample_edge_row 65 (sample_edge "e2" "check" "mail" "true")
      ∷ sample_edge_row 66 (sample_edge "e3" "check" "mail" "false")
      ∷ [];
}

-- What the session leaves.
served_lem : served ≡ ok published_db
unfolding handle call path_id min_role require_org_role create_workflow add_workflow update_workflow
    publish_workflow find_workflow scalar_one_or_none write_workflow choose_graph model_validate
    validate_node validate_edge validate_all validate_graph node_registry dfs_all dfs visit lookup
    group append_at empty_groups put_empty unknown_types trigger_requirement empty_graph orphans
    branches add_version next_version_number max_version persist_graph_rows node_rows edge_rows
served_lem = refl

published_db-IsConsistent : IsConsistent published_db
published_db-IsConsistent =
    let (created, e, h1) = >>=-eq-ok (handle as_uuid bob create_request empty_db) _ served_lem in
    let (drafted, f, h2) = >>=-eq-ok (handle as_uuid bob update_request created) _ h1 in
    handle-IsConsistent as_uuid bob publish_request drafted h2 (
      handle-IsConsistent as_uuid bob update_request created f
        (handle-IsConsistent as_uuid bob create_request empty_db e empty_db-IsConsistent))

-- A manager may not archive.
handle_forbidden :
    handle as_uuid bob (archive "i50") published_db
    ≡ err (app (record { status_code = 403; error_code = "INSUFFICIENT_ROLE"; details = [] }))
unfolding handle min_role require_org_role
handle_forbidden = refl

abbrev archived_db : Db whole
archived_db = record published_db { workflows = record invoices { status = archived } ∷ [] }

archived_lem : handle as_uuid ada (archive "i50") published_db ≡ ok archived_db
unfolding handle call path_id min_role require_org_role archive_workflow find_workflow
    scalar_one_or_none write_workflow
archived_lem = refl

handle-Untouched_example :
    Member ada.role (owner ∷ admin ∷ []) × Untouched 7 published_db archived_db
handle-Untouched_example = handle-Untouched as_uuid ada (archive "i50") published_db archived_lem

handle-IsConsistent_example : IsConsistent archived_db
handle-IsConsistent_example =
    handle-IsConsistent as_uuid ada (archive "i50") published_db archived_lem
      published_db-IsConsistent

handle_foreign_example : handle as_uuid eve (delete "i50") published_db ≡ err (app not_found)
handle_foreign_example =
    handle_foreign as_uuid eve 50 (delete "i50") published_db (inl refl) refl refl
      (inr (invoices, refl, λ e. cc e))

-- A path that has no UUID is an error of the database.
handle_malformed : handle as_uuid eve (delete "draft") published_db ≡ err uncaught
unfolding handle call path_id min_role require_org_role
handle_malformed = refl

found : find_workflow published_db 50 7 ≡ ok invoices
unfolding find_workflow scalar_one_or_none
found = refl

whole-IsConvertible : (nodes : List (GraphNode whole)) → IsConvertible nodes
whole-IsConvertible [] = tt
whole-IsConvertible (n ∷ nodes) =
    ((n.position.x, n.position.y, refl, refl), whole-IsConvertible nodes)

revert_workflow_restores_example :
    (old new : WorkflowVersion whole) × (db' : Db whole) × (get_version_by_number 7 50 1
        published_db
      ≡ ok old)
    × (revert_workflow (uuids_from 70) 7 100 50 1 published_db
        ≡ ok ((with_version new invoices, new), db'))
    × (new.definition ≡ old.definition)
    × (new.version_number ≡ 2)
revert_workflow_restores_example =
    revert_workflow_restores (uuids_from 70) 7 100 1 published_db invoices
      (λ old g got stored. whole-IsConvertible g.nodes) published_db-IsConsistent (inl refl) found
      (omega arith) (omega arith) refl

abbrev second_version : WorkflowVersion whole
second_version = record first_version { id = 70; version_number = 2; created_by = some 100 }

abbrev republished_db : Db whole
republished_db = record {
  workflows = with_version second_version invoices ∷ [];
  versions = first_version ∷ second_version ∷ [];
  nodes =
      published_db.nodes
      ++ node_row 71 70 (sample_node "start" "trigger.webhook") 10 20
        ∷ node_row 72 70 (sample_node "check" "action.condition") 10 20
        ∷ node_row 73 70 (sample_node "mail" "action.email") 10 20
        ∷ [];
  edges = published_db.edges ++ edge_rows (uuids_from 70) 4 70 invoice_flow.edges;
}

republished_lem :
    publish_workflow
      (uuids_from 70)
      7
      100
      50
      (record { definition = some invoice_flow })
      published_db
    ≡ ok ((with_version second_version invoices, second_version), republished_db)
unfolding publish_workflow find_workflow scalar_one_or_none write_workflow choose_graph
    model_validate validate_node validate_edge validate_all validate_graph node_registry dfs_all dfs
    visit lookup group append_at empty_groups put_empty unknown_types trigger_requirement
    empty_graph orphans branches add_version next_version_number max_version persist_graph_rows
    node_rows edge_rows
republished_lem = refl

abbrev no_draft : Option (GraphDict whole)
no_draft = none

publish_workflow-Accepts_example :
    (before : Workflow whole) × (g : WorkflowGraph whole) × (find_workflow published_db 50 7
      ≡ ok before)
    × (g ≡ invoice_flow)
    × Accepts g
    × (second_version.definition ≡ graph_to_dict g)
    × (second_version.version_number ≡ next_version_number published_db 50)
    × (published ≡ published)
    × (some 2 ≡ some second_version.version_number)
    × (some 70 ≡ some second_version.id)
    × (no_draft ≡ none)
    × (republished_db.versions ≡ published_db.versions ++ second_version ∷ [])
publish_workflow-Accepts_example =
    publish_workflow-Accepts (uuids_from 70) 7 100 50 (record { definition = some invoice_flow })
      published_db republished_lem

looping_flow_no_branch :
    (e : EdgeDict)
    → Member e (map dump_edge looping_flow.edges)
    → e.source ≡ "check"
    → handle_of e ≡ "false"
    → ⊥
looping_flow_no_branch e (inl q) from branch =
    let clash : "start" ≡ "check" = sym (ap source_of q) ∙ from in cc clash
looping_flow_no_branch e (inr (inl q)) from branch =
    let clash : "true" ≡ "false" = sym (ap handle_of q) ∙ branch in cc clash
looping_flow_no_branch e (inr (inr q)) from branch = absurd q

looping_flow_not-Accepts : ¬ Accepts looping_flow
looping_flow_not-Accepts p =
    let (_, (e, m, from, branch)) = p.branched _ (inr (inl refl)) refl in
    looping_flow_no_branch e m from branch

chosen : choose_graph {v = whole} (some looping_flow) none ≡ ok looping_flow
unfolding choose_graph
chosen = refl

publish_workflow-IsInvalidGraph_example :
    (e : Error) × (publish_workflow
        (uuids_from 70)
        7
        100
        50
        (record { definition = some looping_flow })
        published_db
      ≡ err e)
    × IsInvalidGraph e
publish_workflow-IsInvalidGraph_example =
    publish_workflow-IsInvalidGraph (uuids_from 70) 7 100 50
      (record { definition = some looping_flow }) published_db invoices looping_flow found chosen
      looping_flow_not-Accepts
