-- ===== src/Workflows/Service.antt =====
-- backend/app/modules/workflows/service.py. A function gets the database of its session and
-- returns the new one with its result; an exception discards what was written, because `get_db`
-- rolls the session back. `uuid k` is the k-th result of `uuid4()` in the call.
mod Queries
pub mod Publish
pub mod Invariant
pub mod Tenant
pub mod Revert
pub mod Accepted
unfoldable pub use Queries.*
use ai_business_automation.Prelude.{
  ℕ, String, Option, none, some, Bool, true, false, List, [], ◌∷◌, ◌==◌, ltb, if◌then◌else◌,
  get_or_else, select,
}
use ai_business_automation.Errors.{
  uncaught, Result, ok, err, ◌>>=◌, ◌>>◌, not_found, conflict, scalar_one_or_none, or_raise,
  raise_if,
}
use ai_business_automation.Workflows.Graph.{Values, WorkflowGraph, graph_to_dict, model_validate}
use ai_business_automation.Workflows.Registry.{node_registry}
use ai_business_automation.Workflows.Validator.{validate_graph}
use ai_business_automation.Workflows.Models.{
  Status, draft, published, archived, Workflow, WorkflowVersion, Db, versions_of, write_workflow,
  delete_rows,
}

-- The request bodies of schemas.py. `tags` and `change_summary` are accepted and not used.
pub record WorkflowCreate : Type 0 where
  pub name : String
  pub description : Option String

pub record WorkflowUpdate (v : Values) : Type 0 where
  pub name : Option String
  pub description : Option String
  pub definition : Option (WorkflowGraph v)

abbrev pub is_archived : Status → Bool
is_archived archived = true
is_archived _ = false

pub record PublishRequest (v : Values) : Type 0 where
  pub definition : Option (WorkflowGraph v)

module _ {v : Values} where
  unfoldable pub create_workflow : Uuids → ℕ → WorkflowCreate → Db v → Result (Workflow v × Db v)
  create_workflow uuid org_id payload db = do
    let wf : Workflow v = record {
      id = uuid 0;
      organization_id = org_id;
      name = payload.name;
      description = payload.description;
      status = draft;
      current_version = none;
      active_version_id = none;
      draft_definition = none;
    }
    db' ← add_workflow wf db
    ok (wf, db')

  unfoldable pub list_workflows : ℕ → Db v → List (Workflow v)
  list_workflows org_id db = select (λ w. w.organization_id == org_id) db.workflows

  unfoldable pub get_workflow : ℕ → ℕ → Db v → Result (Workflow v)
  get_workflow org_id workflow_id db = find_workflow db workflow_id org_id

  -- A field that the body leaves out keeps its value.
  abbrev pub updated : WorkflowUpdate v → Workflow v → Workflow v
  updated payload wf = record wf {
    name = get_or_else payload.name wf.name;
    description = elim payload.description [ none ↦ wf.description | some d ↦ some d ];
    draft_definition = elim payload.definition [
      | none ↦ wf.draft_definition
      | some g ↦ some (graph_to_dict g)
    ];
  }

  unfoldable pub update_workflow : ℕ → ℕ → WorkflowUpdate v → Db v → Result (Workflow v × Db v)
  update_workflow org_id workflow_id payload db = do
    wf ← find_workflow db workflow_id org_id
    let wf' = updated payload wf
    ok (wf', record db { workflows = write_workflow wf' db.workflows })

  unfoldable pub delete_workflow : ℕ → ℕ → Db v → Result (Db v)
  delete_workflow org_id workflow_id db = do
    wf ← find_workflow db workflow_id org_id
    ok (delete_rows wf.id db)

  -- The version that a publication adds.
  abbrev pub new_version : Uuids → ℕ → ℕ → WorkflowGraph v → Db v → WorkflowVersion v
  new_version uuid user_id workflow_id graph db = record {
    id = uuid 0;
    workflow_id = workflow_id;
    version_number = next_version_number db workflow_id;
    definition = graph_to_dict graph;
    created_by = some user_id;
  }

  -- What a publication writes into the workflow.
  abbrev pub with_version : WorkflowVersion v → Workflow v → Workflow v
  with_version version wf = record wf {
    current_version = some version.version_number;
    active_version_id = some version.id;
    status = published;
    draft_definition = none;
  }

  unfoldable pub publish_workflow :
      Uuids → ℕ → ℕ → ℕ → PublishRequest v → Db v → Result ((Workflow v × WorkflowVersion v) × Db v)
  publish_workflow uuid org_id user_id workflow_id payload db = do
    wf ← find_workflow db workflow_id org_id
    graph ← choose_graph payload.definition wf.draft_definition
    errors ← validate_graph node_registry (graph_to_dict graph)
    reject_issues errors
    let version = new_version uuid user_id workflow_id graph db
    added ← add_version version db
    stored ← persist_graph_rows uuid version.id graph added
    let wf' = with_version version wf
    ok ((wf', version), record stored { workflows = write_workflow wf' stored.workflows })

  -- `order_by(version_number.asc())`
  unfoldable insert_ordered :
      WorkflowVersion v → List (WorkflowVersion v) → List (WorkflowVersion v)
  insert_ordered ver [] = ver ∷ []
  insert_ordered ver (w ∷ vers) =
      if ltb w.version_number ver.version_number
      then w ∷ insert_ordered ver vers
      else ver ∷ w ∷ vers

  unfoldable pub order_by_number : List (WorkflowVersion v) → List (WorkflowVersion v)
  unfolding insert_ordered
  order_by_number [] = []
  order_by_number (ver ∷ vers) = insert_ordered ver (order_by_number vers)

  unfoldable pub list_versions : ℕ → ℕ → Db v → Result (List (WorkflowVersion v))
  list_versions org_id workflow_id db = do
    wf ← find_workflow db workflow_id org_id
    ok (order_by_number (versions_of workflow_id db.versions))

  unfoldable pub get_version_by_number : ℕ → ℕ → ℕ → Db v → Result (WorkflowVersion v)
  get_version_by_number org_id workflow_id version_number db = do
    wf ← find_workflow db workflow_id org_id
    found ←
        scalar_one_or_none (
          select (λ ver. ver.version_number == version_number)
            (versions_of workflow_id db.versions))
    or_raise found not_found

  -- Republishes the graph of an earlier version under the next number.
  unfoldable pub revert_workflow :
      Uuids → ℕ → ℕ → ℕ → ℕ → Db v → Result ((Workflow v × WorkflowVersion v) × Db v)
  revert_workflow uuid org_id user_id workflow_id version_number db = do
    source ← get_version_by_number org_id workflow_id version_number db
    elim (model_validate source.definition) [
      | none ↦ err uncaught
      | some graph ↦
          publish_workflow uuid org_id user_id workflow_id (record { definition = some graph }) db
    ]

  unfoldable pub duplicate_workflow : Uuids → ℕ → ℕ → String → Db v → Result (Workflow v × Db v)
  duplicate_workflow uuid org_id workflow_id name db = do
    source ← find_workflow db workflow_id org_id
    let new_wf : Workflow v = record {
      id = uuid 0;
      organization_id = org_id;
      name = name;
      description = source.description;
      status = draft;
      current_version = none;
      active_version_id = none;
      draft_definition = source.draft_definition;
    }
    db' ← add_workflow new_wf db
    ok (new_wf, db')

  unfoldable pub archive_workflow : ℕ → ℕ → Db v → Result (Workflow v × Db v)
  archive_workflow org_id workflow_id db = do
    wf ← find_workflow db workflow_id org_id
    raise_if (is_archived wf.status) conflict
    let wf' = record wf { status = archived }
    ok (wf', record db { workflows = write_workflow wf' db.workflows })
