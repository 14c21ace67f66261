-- ===== src/Workflows/Service/Revert.antt =====
-- When `publish_workflow` and `revert_workflow` of backend/app/modules/workflows/service.py go
-- through, and what a revert restores.
use ai_business_automation.Prelude.{
  ℕ, zero, suc, ◌+◌, ◌≤◌, ◌<◌, some, Bool-cases, false, List, [], ◌∷◌, ◌++◌, ◌≡◌, refl, sym, ap,
  ◌∙◌, subst, inl, inr, arith, ◌==◌, get_or_else, map, select, any, any-append, select-append,
  Member, mem-select, length,
}
use ai_business_automation.Errors.{ok, scalar_one_or_none}
use ai_business_automation.Workflows.Graph.{
  Values, GraphNode, WorkflowGraph, graph_to_dict, model_validate,
}
use ai_business_automation.Workflows.Graph.RoundTrip.{model_validate-graph_to_dict}
use ai_business_automation.Workflows.Registry.{node_registry}
use ai_business_automation.Workflows.Validator.{validate_graph}
use ai_business_automation.Workflows.Models.{
  Workflow, WorkflowVersion, WorkflowNode, Db, versions_of, write_workflow, number_taken,
}
use ai_business_automation.Workflows.Service.{
  Uuids, find_workflow, choose_graph, next_version_number, node_row, node_rows, edge_rows,
  add_version, persist_graph_rows, PublishRequest, publish_workflow, revert_workflow,
  get_version_by_number, new_version, with_version,
}
use ai_business_automation.Workflows.Service.Invariant.{
  up_to, number, numbers, IsConsistent, IsNumbered, next_version_number-eq,
}

-- The conversions `int(node.position.x)` and `int(node.position.y)` raise for none of the nodes.
abbrev pub IsConvertible : {v : Values} → List (GraphNode v) → Type 0
IsConvertible [] = Unit
IsConvertible {v} (n ∷ nodes) =
    ((x y : v.Int) × (v.int n.position.x ≡ some x) × (v.int n.position.y ≡ some y))
    × IsConvertible nodes

any-up_to : (n m : ℕ) → m < n → any (λ k. k == n) (up_to m) ≡ false
unfolding up_to
any-up_to n zero h = refl
any-up_to n (suc m) h =
    any-append (λ k. k == n) (up_to m) (suc m ∷ [])
    ∙ rw (any-up_to n m (omega arith)) (ground arith)

select-up_to_lt : (n m : ℕ) → m < n → select (λ k. k == n) (up_to m) ≡ []
unfolding up_to
select-up_to_lt n zero h = refl
select-up_to_lt n (suc m) h =
    select-append (λ k. k == n) (up_to m) (suc m ∷ [])
    ∙ rw (select-up_to_lt n m (omega arith)) (ground arith)

select-up_to : (n m : ℕ) → 1 ≤ n → n ≤ m → select (λ k. k == n) (up_to m) ≡ n ∷ []
unfolding up_to
select-up_to n zero l h = absurd (omega arith)
select-up_to n (suc m) l h = elim (Bool-cases (suc m == n)) [
  | inl last ↦
      select-append (λ k. k == n) (up_to m) (suc m ∷ [])
      ∙ rw (select-up_to_lt n m (ground arith)) (ground arith)
  | inr before ↦
      select-append (λ k. k == n) (up_to m) (suc m ∷ [])
      ∙ rw (select-up_to n m l (ground arith)) (ground arith)
]

module _ {v : Values} where
  number_taken-numbers :
      (i n : ℕ) (vers : List (WorkflowVersion v))
      → number_taken i n vers ≡ any (λ k. k == n) (numbers i vers)
  number_taken-numbers i n [] = refl
  number_taken-numbers i n (ver ∷ vers) = ground (arith, number_taken-numbers i n vers)

  number-select :
      (n : ℕ) (vers : List (WorkflowVersion v))
      → map number (select (λ ver. ver.version_number == n) vers)
        ≡ select (λ k. k == n) (map number vers)
  number-select n [] = refl
  number-select n (ver ∷ vers) = ground (arith, number-select n vers)

  single :
      (n : ℕ) (vers : List (WorkflowVersion v))
      → map number vers ≡ n ∷ []
      → (ver : WorkflowVersion v) × (vers ≡ ver ∷ [])
  single n [] h = cc
  single n (ver ∷ []) h = (ver, refl)
  single n (ver ∷ w ∷ vers) h = cc

  -- Each number up to the current one is that of exactly one version.
  pub version_numbered :
      (db : Db v) (wf : Workflow v) (n : ℕ)
      → IsNumbered db.versions wf
      → 1 ≤ n
      → n ≤ get_or_else wf.current_version 0
      → (ver : WorkflowVersion v) × (select
            (λ x. x.version_number == n)
            (versions_of wf.id db.versions)
          ≡ ver ∷ [])
  version_numbered db wf n h l u = single n _ (
      number-select n (versions_of wf.id db.versions)
      ∙ ap (select (λ k. k == n)) h
      ∙ select-up_to n (get_or_else wf.current_version 0) l u)

  node_rows_ends :
      (uuid : Uuids) (k version_id : ℕ) (nodes : List (GraphNode v))
      → IsConvertible nodes
      → (rows : List (WorkflowNode v)) × (node_rows uuid k version_id nodes ≡ ok rows)
  unfolding node_rows
  node_rows_ends uuid k version_id [] c = ([], refl)
  node_rows_ends uuid k version_id (n ∷ nodes) ((x, y, ex, ey), c) =
      let (rows, e) = node_rows_ends uuid (suc k) version_id nodes c in
      (node_row (uuid k) version_id n x y ∷ rows, ground arith)

  free :
      (db : Db v) (wf : Workflow v)
      → IsNumbered db.versions wf
      → number_taken wf.id (next_version_number db wf.id) db.versions ≡ false
  free db wf h =
      number_taken-numbers wf.id (next_version_number db wf.id) db.versions
      ∙ ap (any (λ k. k == next_version_number db wf.id)) h
      ∙ any-up_to (next_version_number db wf.id) (get_or_else wf.current_version 0)
          (omega (arith, next_version_number-eq db wf h))

  -- A publication of a valid graph goes through.
  publish_workflow_returns :
      (uuid : Uuids) (org_id user_id workflow_id : ℕ) (payload : PublishRequest v) (db : Db v)
      (wf : Workflow v) (graph : WorkflowGraph v)
      → IsConvertible graph.nodes
      → find_workflow db workflow_id org_id ≡ ok wf
      → wf.id ≡ workflow_id
      → choose_graph payload.definition wf.draft_definition ≡ ok graph
      → validate_graph node_registry (graph_to_dict graph) ≡ ok []
      → IsNumbered db.versions wf
      → any (λ row. row.id == uuid 0) db.versions ≡ false
      → let ver = new_version uuid user_id workflow_id graph db in
        (db' : Db v) × (publish_workflow uuid org_id user_id workflow_id payload db
          ≡ ok ((with_version ver wf, ver), db'))
  unfolding publish_workflow add_version persist_graph_rows
  publish_workflow_returns uuid org_id user_id workflow_id payload db wf graph conv found id chosen
        valid num fresh =
      let (rows, e) = node_rows_ends uuid 1 (uuid 0) graph.nodes conv in
      let open_ : number_taken workflow_id (next_version_number db workflow_id) db.versions
          ≡ false =
        subst (λ i. number_taken i (next_version_number db i) db.versions ≡ false) id
          (free db wf num) in
      let ver = new_version uuid user_id workflow_id graph db in
      (
        record {
          workflows = write_workflow (with_version ver wf) db.workflows;
          versions = db.versions ++ ver ∷ [];
          nodes = db.nodes ++ rows;
          edges = db.edges ++ edge_rows uuid (1 + length graph.nodes) (uuid 0) graph.edges;
        },
        rw (found, chosen, valid, fresh, open_, e),
      )

  get_version_by_number_returns :
      (org_id workflow_id n : ℕ) (db : Db v) (wf : Workflow v) (ver : WorkflowVersion v)
      → find_workflow db workflow_id org_id ≡ ok wf
      → select (λ x. x.version_number == n) (versions_of workflow_id db.versions) ≡ ver ∷ []
      → get_version_by_number org_id workflow_id n db ≡ ok ver
  unfolding get_version_by_number scalar_one_or_none
  get_version_by_number_returns org_id workflow_id n db wf ver found one = rw (found, one)

  revert-eq-publish :
      (uuid : Uuids) (org_id user_id workflow_id n : ℕ) (db : Db v) (ver : WorkflowVersion v)
      (g : WorkflowGraph v)
      → get_version_by_number org_id workflow_id n db ≡ ok ver
      → ver.definition ≡ graph_to_dict g
      → revert_workflow uuid org_id user_id workflow_id n db
        ≡ publish_workflow uuid org_id user_id workflow_id (record { definition = some g }) db
  unfolding revert_workflow
  revert-eq-publish uuid org_id user_id workflow_id n db ver g got stored =
      rw got (ground (arith, ap model_validate stored ∙ model_validate-graph_to_dict g))

  -- In consistent tables, a revert of a workflow of the caller's organization to any number from
  -- 1 to `current_version` goes through, if the drawn identifier is new and the two coordinates of
  -- each node that the version of that number has convert to integers: that version is found, and
  -- the new version has its definition and the next number, and is the one that the workflow, now
  -- published, points to.
  pub revert_workflow_restores :
      (uuid : Uuids) (org_id user_id n : ℕ) (db : Db v) (wf : Workflow v)
      → ((old : WorkflowVersion v) (g : WorkflowGraph v)
          → get_version_by_number org_id wf.id n db ≡ ok old
          → old.definition ≡ graph_to_dict g
          → IsConvertible g.nodes)
      → IsConsistent db
      → Member wf db.workflows
      → find_workflow db wf.id org_id ≡ ok wf
      → 1 ≤ n
      → n ≤ get_or_else wf.current_version 0
      → any (λ row. row.id == uuid 0) db.versions ≡ false
      → (old new : WorkflowVersion v) × (db' : Db v) × (get_version_by_number org_id wf.id n db
          ≡ ok old)
        × (revert_workflow uuid org_id user_id wf.id n db ≡ ok ((with_version new wf, new), db'))
        × (new.definition ≡ old.definition)
        × (new.version_number ≡ suc (get_or_else wf.current_version 0))
  unfolding choose_graph
  revert_workflow_restores uuid org_id user_id n db wf conv c m found l u fresh =
      let num = c.numbered wf m in
      let (old, one) = version_numbered db wf n num l u in
      let (k, _) =
        (mem-select (λ x. x.version_number == n) old (versions_of wf.id db.versions)).0
          (rw one (inl refl)) in
      let (k', _) = (mem-select (λ x. x.workflow_id == wf.id) old db.versions).0 k in
      let ((g, stored), valid) = c.validated old k' in
      let got = get_version_by_number_returns org_id wf.id n db wf old found one in
      let (db', e) =
        publish_workflow_returns uuid org_id user_id wf.id (record { definition = some g }) db wf g
          (conv old g got stored) found refl refl (rw stored at valid) num fresh in
      (
        old,
        new_version uuid user_id wf.id g db,
        db',
        got,
        revert-eq-publish uuid org_id user_id wf.id n db old g got stored ∙ e,
        sym stored,
        next_version_number-eq db wf num,
      )
