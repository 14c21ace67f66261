-- ===== src/Workflows/Service/Publish.antt =====
-- What `publish_workflow` of backend/app/modules/workflows/service.py has done when it returns.
use ai_business_automation.Prelude.{
  ℕ, ◌+◌, some, false, List, [], ◌∷◌, ◌++◌, ◌≡◌, refl, arith, ◌==◌, length, any,
}
use ai_business_automation.Errors.{
  Issue, ok, >>=-eq-ok, or_raise-eq-ok, scalar-eq-some, scalar_one_or_none, or_raise, not_found,
}
use ai_business_automation.Workflows.Graph.{Values, WorkflowGraph, graph_to_dict}
use ai_business_automation.Workflows.Registry.{node_registry}
use ai_business_automation.Workflows.Validator.{validate_graph}
use ai_business_automation.Workflows.Models.{
  Workflow, WorkflowVersion, WorkflowNode, Db, write_workflow, workflows_with, number_taken,
}
use ai_business_automation.Workflows.Service.{
  Uuids, find_workflow, next_version_number, node_rows, edge_rows, choose_graph, add_workflow,
  add_version, persist_graph_rows, reject_issues, PublishRequest, publish_workflow, new_version,
  with_version,
}

reject_issues-eq-ok : (found : List Issue) {u : Unit {0}} → reject_issues found ≡ ok u → found ≡ []
reject_issues-eq-ok [] h = refl
reject_issues-eq-ok (i ∷ is) h = cc

module _ {v : Values} where
  pub find_workflow-eq-ok :
      (db : Db v) (workflow_id org_id : ℕ) {wf : Workflow v}
      → find_workflow db workflow_id org_id ≡ ok wf
      → (workflows_with workflow_id db.workflows ≡ wf ∷ []) × (wf.organization_id ≡ org_id)
  unfolding find_workflow
  find_workflow-eq-ok db workflow_id org_id {wf} h =
      let (found, e, h1) =
        >>=-eq-ok (scalar_one_or_none (workflows_with workflow_id db.workflows)) _ h in
      let (w, e1, h2) = >>=-eq-ok (or_raise found not_found) _ h1 in
      let q = or_raise-eq-ok found not_found e1 in
      let e2 : scalar_one_or_none (workflows_with workflow_id db.workflows) ≡ ok (some w) = cc in
      let one = scalar-eq-some (workflows_with workflow_id db.workflows) e2 in
      let both : (w ≡ wf) × (wf.organization_id ≡ org_id) = ground arith in
      (rw (← both.0) one, both.1)

  pub add_workflow-eq-ok :
      (w : Workflow v) (db : Db v) {db' : Db v}
      → add_workflow w db ≡ ok db'
      → (any (λ row. row.id == w.id) db.workflows ≡ false)
        × (db' ≡ record db { workflows = db.workflows ++ w ∷ [] })
  unfolding add_workflow
  add_workflow-eq-ok w db h = ground arith

  pub add_version-eq-ok :
      (ver : WorkflowVersion v) (db : Db v) {db' : Db v}
      → add_version ver db ≡ ok db'
      → (number_taken ver.workflow_id ver.version_number db.versions ≡ false)
        × (db' ≡ record db { versions = db.versions ++ ver ∷ [] })
  unfolding add_version
  add_version-eq-ok ver db h = ground arith

module _ {v : Values} (uuid : Uuids) (org_id user_id workflow_id : ℕ) (payload : PublishRequest v)
    (db : Db v) where
  -- The trace of a publication that went through.
  pub record Published (wf' : Workflow v) (ver : WorkflowVersion v) (db' : Db v) : Type 0 where
    pub before : Workflow v
    pub graph : WorkflowGraph v
    pub rows : List (WorkflowNode v)
    pub found : find_workflow db workflow_id org_id ≡ ok before
    pub chosen : choose_graph payload.definition before.draft_definition ≡ ok graph
    pub valid : validate_graph node_registry (graph_to_dict graph) ≡ ok []
    pub version : ver ≡ new_version uuid user_id workflow_id graph db
    pub free : number_taken workflow_id (next_version_number db workflow_id) db.versions ≡ false
    pub stored : node_rows uuid 1 (uuid 0) graph.nodes ≡ ok rows
    pub after : wf' ≡ with_version ver before
    pub result : db' ≡ record {
      workflows = write_workflow wf' db.workflows;
      versions = db.versions ++ ver ∷ [];
      nodes = db.nodes ++ rows;
      edges = db.edges ++ edge_rows uuid (1 + length graph.nodes) (uuid 0) graph.edges;
    }

  pub publish_workflow-eq-ok :
      {wf' : Workflow v} {ver : WorkflowVersion v} {db' : Db v}
      → publish_workflow uuid org_id user_id workflow_id payload db ≡ ok ((wf', ver), db')
      → Published wf' ver db'
  unfolding publish_workflow persist_graph_rows
  publish_workflow-eq-ok {wf'} {ver} {db'} h =
      let (wf, found, h1) = >>=-eq-ok (find_workflow db workflow_id org_id) _ h in
      let (graph, chosen, h2) =
        >>=-eq-ok (choose_graph payload.definition wf.draft_definition) _ h1 in
      let (issues, checked, h3) =
        >>=-eq-ok (validate_graph node_registry (graph_to_dict graph)) _ h2 in
      let (u, passed, h4) = >>=-eq-ok (reject_issues issues) _ h3 in
      let version = new_version uuid user_id workflow_id graph db in
      let (added, e5, h5) = >>=-eq-ok (add_version version db) _ h4 in
      let (free, e6) = add_version-eq-ok version db e5 in
      let (stored, e7, h6) = >>=-eq-ok (persist_graph_rows uuid version.id graph added) _ h5 in
      let (rows, e8, h7) = >>=-eq-ok (node_rows uuid 1 version.id graph.nodes) _ e7 in
      record {
        before = wf;
        graph = graph;
        rows = rows;
        found = found;
        chosen = chosen;
        valid = rw (← reject_issues-eq-ok issues passed) checked;
        version = ground arith;
        free = free;
        stored = e8;
        after = ground arith;
        result = ground arith;
      }
