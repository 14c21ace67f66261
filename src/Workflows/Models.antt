-- ===== src/Workflows/Models.antt =====
-- backend/app/modules/workflows/models.py: the four tables. A table is the list of its rows, in
-- the order in which they were added; identifiers are only compared, so they are numbers. The
-- time stamps, which nothing reads, are left out.
use ai_business_automation.Prelude.{
  ℕ, String, Option, Bool, List, ◌==◌, ◌&&◌, not, if◌then◌else◌, select, any, map,
}
use ai_business_automation.Workflows.Graph.{Values, GraphDict}

pub data Status : Type 0 where
  draft published archived : Status

pub record Workflow (v : Values) : Type 0 where
  pub id : ℕ
  pub organization_id : ℕ
  pub name : String
  pub description : Option String
  pub status : Status
  pub current_version : Option ℕ
  pub active_version_id : Option ℕ
  pub draft_definition : Option (GraphDict v)

pub record WorkflowVersion (v : Values) : Type 0 where
  pub id : ℕ
  pub workflow_id : ℕ
  pub version_number : ℕ
  pub definition : GraphDict v
  pub created_by : Option ℕ

pub record WorkflowNode (v : Values) : Type 0 where
  pub id : ℕ
  pub version_id : ℕ
  pub node_id : String
  pub node_type : String
  pub label : String
  pub position_x : v.Int
  pub position_y : v.Int
  pub config : v.Config

pub record WorkflowEdge : Type 0 where
  pub id : ℕ
  pub version_id : ℕ
  pub edge_id : String
  pub source : String
  pub target : String
  pub source_handle : String
  pub target_handle : String

pub record Db (v : Values) : Type 0 where
  pub workflows : List (Workflow v)
  pub versions : List (WorkflowVersion v)
  pub nodes : List (WorkflowNode v)
  pub edges : List WorkflowEdge

module _ {v : Values} where
  -- The rows of `workflow_versions` of one workflow.
  abbrev pub versions_of : ℕ → List (WorkflowVersion v) → List (WorkflowVersion v)
  versions_of workflow_id = select (λ ver. ver.workflow_id == workflow_id)

  abbrev pub workflows_with : ℕ → List (Workflow v) → List (Workflow v)
  workflows_with workflow_id = select (λ w. w.id == workflow_id)

  -- Flushing a changed object writes the row that has its primary key.
  unfoldable pub write_workflow : Workflow v → List (Workflow v) → List (Workflow v)
  write_workflow w = map (λ row. if row.id == w.id then w else row)

  -- Deleting a workflow deletes its versions, and their nodes and edges (`delete-orphan`).
  unfoldable pub delete_rows : ℕ → Db v → Db v
  delete_rows workflow_id db =
      let gone = λ (version_id : ℕ).
        any (λ ver. ver.id == version_id) (versions_of workflow_id db.versions) in
      record {
        workflows = select (λ w. not (w.id == workflow_id)) db.workflows;
        versions = select (λ ver. not (ver.workflow_id == workflow_id)) db.versions;
        nodes = select (λ n. not (gone n.version_id)) db.nodes;
        edges = select (λ e. not (gone e.version_id)) db.edges;
      }

  -- `uq_workflow_versions`: no two rows have the same workflow and number.
  abbrev pub number_taken : ℕ → ℕ → List (WorkflowVersion v) → Bool
  number_taken workflow_id n =
      any (λ ver. ver.workflow_id == workflow_id && ver.version_number == n)
