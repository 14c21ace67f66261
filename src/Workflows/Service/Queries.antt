-- ===== src/Workflows/Service/Queries.antt =====
-- The helpers of backend/app/modules/workflows/service.py: the lookup of a workflow for a tenant,
-- the next version number, and the rows that a published graph is stored as.
use ai_business_automation.Prelude.{
  ℕ, suc, ◌+◌, max, Option, none, some, ◌||◌, List, [], ◌∷◌, ◌++◌, ◌==◌, if◌then◌else◌, get_or_else,
  length, any,
}
use ai_business_automation.Errors.{
  Issue, app, uncaught, AppException, Result, ok, err, ◌>>=◌, not_found, scalar_one_or_none,
  or_raise,
}
use ai_business_automation.Workflows.Graph.{
  Values, GraphNode, GraphEdge, WorkflowGraph, GraphDict, model_validate,
}
use ai_business_automation.Workflows.Models.{
  Workflow, WorkflowVersion, WorkflowNode, WorkflowEdge, Db, versions_of, workflows_with,
  number_taken,
}

-- The results of `uuid4()`, in the order of the calls.
abbrev pub Uuids : Type 0
Uuids = ℕ → ℕ

module _ {v : Values} where
  -- `_get_workflow`
  unfoldable pub find_workflow : Db v → ℕ → ℕ → Result (Workflow v)
  find_workflow db workflow_id org_id = do
    found ← scalar_one_or_none (workflows_with workflow_id db.workflows)
    wf ← or_raise found not_found
    if wf.organization_id == org_id then ok wf else err (app not_found)

  -- `select(func.max(...))`
  unfoldable pub max_version : List (WorkflowVersion v) → Option ℕ
  max_version [] = none
  max_version (ver ∷ vers) = some (max ver.version_number (get_or_else (max_version vers) 0))

  -- `_next_version_number`
  unfoldable pub next_version_number : Db v → ℕ → ℕ
  unfolding max_version
  next_version_number db workflow_id =
      get_or_else (max_version (versions_of workflow_id db.versions)) 0 + 1

  abbrev pub node_row : ℕ → ℕ → GraphNode v → v.Int → v.Int → WorkflowNode v
  node_row id version_id n x y = record {
    id = id;
    version_id = version_id;
    node_id = n.id;
    node_type = n.type_;
    label = n.label;
    position_x = x;
    position_y = y;
    config = n.config;
  }

  -- The rows that `_persist_graph_rows` adds; converting a position may raise.
  unfoldable pub node_rows : Uuids → ℕ → ℕ → List (GraphNode v) → Result (List (WorkflowNode v))
  node_rows uuid k version_id [] = ok []
  node_rows uuid k version_id (n ∷ nodes) =
      let rest = node_rows uuid (suc k) version_id nodes in
      elim (v.int n.position.x) [
        | none ↦ err uncaught
        | some x ↦ elim (v.int n.position.y) [
          | none ↦ err uncaught
          | some y ↦ elim rest [
            | err e ↦ err e
            | ok rows ↦ ok (node_row (uuid k) version_id n x y ∷ rows)
          ]
        ]
      ]

unfoldable pub edge_rows : Uuids → ℕ → ℕ → List GraphEdge → List WorkflowEdge
edge_rows uuid k version_id [] = []
edge_rows uuid k version_id (e ∷ edges) =
    record {
      id = uuid k;
      version_id = version_id;
      edge_id = e.id;
      source = e.source;
      target = e.target;
      source_handle = e.source_handle;
      target_handle = e.target_handle;
    }
    ∷ edge_rows uuid (suc k) version_id edges

-- `if errors: raise AppException(422, "INVALID_GRAPH", ..., {"errors": errors})`
abbrev pub reject_issues : List Issue → Result (Unit {0})
reject_issues [] = ok tt
reject_issues (i ∷ is) =
    err (app (record { status_code = 422; error_code = "INVALID_GRAPH"; details = i ∷ is }))

abbrev pub no_definition : AppException
no_definition = record { status_code = 422; error_code = "NO_DEFINITION"; details = [] }

module _ {v : Values} where
  -- The definition of the request's body comes before the stored draft.
  unfoldable pub choose_graph :
      Option (WorkflowGraph v) → Option (GraphDict v) → Result (WorkflowGraph v)
  choose_graph (some graph) draft = ok graph
  choose_graph none none = err (app no_definition)
  choose_graph none (some d) = elim (model_validate d) [
    | none ↦ err uncaught
    | some graph ↦ ok graph
  ]

  -- Adding a row whose primary key is taken is an `IntegrityError` at the flush.
  unfoldable pub add_workflow : Workflow v → Db v → Result (Db v)
  add_workflow w db =
      if any (λ row. row.id == w.id) db.workflows
      then err uncaught
      else ok (record db { workflows = db.workflows ++ w ∷ [] })

  -- So is one that breaks the unique constraint on workflow and number.
  unfoldable pub add_version : WorkflowVersion v → Db v → Result (Db v)
  add_version ver db =
      if any (λ row. row.id == ver.id) db.versions
        || number_taken ver.workflow_id ver.version_number db.versions
      then err uncaught
      else ok (record db { versions = db.versions ++ ver ∷ [] })

  -- `_persist_graph_rows`; the version took the first identifier.
  unfoldable pub persist_graph_rows : Uuids → ℕ → WorkflowGraph v → Db v → Result (Db v)
  persist_graph_rows uuid version_id graph db = do
    rows ← node_rows uuid 1 version_id graph.nodes
    ok (record db {
      nodes = db.nodes ++ rows;
      edges = db.edges ++ edge_rows uuid (1 + length graph.nodes) version_id graph.edges;
    })
