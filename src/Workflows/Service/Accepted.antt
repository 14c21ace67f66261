-- ===== src/Workflows/Service/Accepted.antt =====
-- Which graphs `publish_workflow` of backend/app/modules/workflows/service.py lets through.
use ai_business_automation.Prelude.{
  ℕ, Option, none, some, List, [], ◌∷◌, ◌++◌, ◌≡◌, refl, ap, map, arith,
}
use ai_business_automation.Errors.{Issue, app, Error, Result, ok, err, ◌>>◌}
use ai_business_automation.Workflows.Graph.{
  Values, WorkflowGraph, GraphDict, dump_node, dump_edge, graph_to_dict, model_validate,
}
use ai_business_automation.Workflows.Registry.{node_registry}
use ai_business_automation.Workflows.Validator.{validate_graph}
use ai_business_automation.Workflows.Validator.Publishable.{IsPublishable}
use ai_business_automation.Workflows.Validator.Correct.{validate_graph-nil_iff}
use ai_business_automation.Workflows.Models.{published, Workflow, WorkflowVersion, Db}
use ai_business_automation.Workflows.Service.{
  Uuids, find_workflow, choose_graph, next_version_number, reject_issues, PublishRequest,
  publish_workflow,
}
use ai_business_automation.Workflows.Service.Publish.{publish_workflow-eq-ok}

abbrev pub IsInvalidGraph : Error → Type 0
IsInvalidGraph e =
    (i : Issue) × (is : List Issue) × (e
      ≡ app (record { status_code = 422; error_code = "INVALID_GRAPH"; details = i ∷ is }))

rejected :
    (found : List Issue) {B : Type 0} (k : Result B)
    → (found ≡ [] → ⊥)
    → (e : Error) × ((reject_issues found >> k) ≡ err e) × IsInvalidGraph e
rejected [] k h = absurd (h refl)
rejected (i ∷ is) k h = (_, refl, (i, is, refl))

module _ {v : Values} where
  abbrev pub Accepts : WorkflowGraph v → Type 0
  Accepts g = IsPublishable node_registry (map dump_node g.nodes) (map dump_edge g.edges)

  validated-Accepts :
      (g : WorkflowGraph v) → validate_graph node_registry (graph_to_dict g) ≡ ok [] → Accepts g
  validated-Accepts g h =
      let (found, e, iff) =
        validate_graph-nil_iff node_registry (map dump_node g.nodes) (map dump_edge g.edges)
          (graph_to_dict g) refl refl in
      iff.0 (ground arith)

  -- Where the graph of a publication comes from: the body, or else the stored draft.
  abbrev pub IsFrom : Option (WorkflowGraph v) → Option (GraphDict v) → WorkflowGraph v → Type 0
  IsFrom (some graph) draft g = g ≡ graph
  IsFrom none draft g = (d : GraphDict v) × (draft ≡ some d) × (model_validate d ≡ some g)

  choose_graph-IsFrom :
      (body : Option (WorkflowGraph v)) (draft : Option (GraphDict v)) {g : WorkflowGraph v}
      → choose_graph body draft ≡ ok g
      → IsFrom body draft g
  unfolding choose_graph
  choose_graph-IsFrom (some graph) draft h = ground arith
  choose_graph-IsFrom none none h = cc
  choose_graph-IsFrom none (some d) {g} h = (d, refl, ground arith)

  -- A publication that goes through stored a graph that meets the description of the validator:
  -- the one of the request, or else the stored draft. It is version `next_version_number`, the
  -- workflow is published at it and keeps no draft, and the new row is added to the versions.
  pub publish_workflow-Accepts :
      (uuid : Uuids) (org_id user_id workflow_id : ℕ) (payload : PublishRequest v) (db : Db v)
      {wf : Workflow v} {ver : WorkflowVersion v} {db' : Db v}
      → publish_workflow uuid org_id user_id workflow_id payload db ≡ ok ((wf, ver), db')
      → (before : Workflow v) × (g : WorkflowGraph v) × (find_workflow db workflow_id org_id
          ≡ ok before)
        × IsFrom payload.definition before.draft_definition g
        × Accepts g
        × (ver.definition ≡ graph_to_dict g)
        × (ver.version_number ≡ next_version_number db workflow_id)
        × (wf.status ≡ published)
        × (wf.current_version ≡ some ver.version_number)
        × (wf.active_version_id ≡ some ver.id)
        × (wf.draft_definition ≡ none)
        × (db'.versions ≡ db.versions ++ ver ∷ [])
  publish_workflow-Accepts uuid org_id user_id workflow_id payload db h =
      let p = publish_workflow-eq-ok uuid org_id user_id workflow_id payload db h in
      (
        p.before,
        p.graph,
        p.found,
        choose_graph-IsFrom payload.definition p.before.draft_definition p.chosen,
        validated-Accepts p.graph p.valid,
        ap (λ (x : WorkflowVersion v). x.definition) p.version,
        ap (λ (x : WorkflowVersion v). x.version_number) p.version,
        ap (λ (x : Workflow v). x.status) p.after,
        ap (λ (x : Workflow v). x.current_version) p.after,
        ap (λ (x : Workflow v). x.active_version_id) p.after,
        ap (λ (x : Workflow v). x.draft_definition) p.after,
        ap (λ (x : Db v). x.versions) p.result,
      )

  -- A graph that does not meet the description is refused with 422 INVALID_GRAPH and at least one
  -- issue, whoever of the organization publishes it.
  pub publish_workflow-IsInvalidGraph :
      (uuid : Uuids) (org_id user_id workflow_id : ℕ) (payload : PublishRequest v) (db : Db v)
      (before : Workflow v) (g : WorkflowGraph v)
      → find_workflow db workflow_id org_id ≡ ok before
      → choose_graph payload.definition before.draft_definition ≡ ok g
      → ¬ Accepts g
      → (e : Error) × (publish_workflow uuid org_id user_id workflow_id payload db ≡ err e)
        × IsInvalidGraph e
  unfolding publish_workflow
  publish_workflow-IsInvalidGraph uuid org_id user_id workflow_id payload db before g found chosen
        bad =
      let (issues, e, iff) =
        validate_graph-nil_iff node_registry (map dump_node g.nodes) (map dump_edge g.edges)
          (graph_to_dict g) refl refl in
      rw (found, chosen, e) (rejected issues _ (λ none_found. bad (iff.0 none_found)))
