-- ===== src/Workflows/Service/Invariant/Publication.antt =====
-- Publishing and reverting in backend/app/modules/workflows/service.py keep the tables consistent.
use ai_business_automation.Prelude.{
  ℕ, ◌+◌, Option-cases, some, false, List, [], ◌∷◌, ◌++◌, ◌≡◌, refl, sym, ap, ◌∙◌, subst, inl, inr,
  arith, ◌==◌, ==_iff, Member, mem-append, any-mem, length,
}
use ai_business_automation.Errors.{ok, >>=-eq-ok}
use ai_business_automation.Workflows.Graph.{Values, model_validate}
use ai_business_automation.Workflows.Models.{
  Workflow, WorkflowVersion, WorkflowNode, WorkflowEdge, Db, write_workflow,
}
use ai_business_automation.Workflows.Service.{
  Uuids, PublishRequest, publish_workflow, revert_workflow, next_version_number, with_version,
  new_version, get_version_by_number, edge_rows,
}
use ai_business_automation.Workflows.Service.Publish.{publish_workflow-eq-ok}
use ai_business_automation.Workflows.Service.Invariant.History.{
  up_to, PointsTo, IsNumbered, IsValidated, IsConsistent, mem-write_workflow, has_id-write_workflow,
  UniqueIds-write_workflow, next_version_number-eq, numbers-append,
}
use ai_business_automation.Workflows.Service.Invariant.Kept.{found}

module _ {v : Values} where
  PointsTo-append :
      (versions : List (WorkflowVersion v)) (ver : WorkflowVersion v) (w : Workflow v)
      → PointsTo versions w
      → PointsTo (versions ++ ver ∷ []) w
  PointsTo-append versions ver w (inl p) = inl p
  PointsTo-append versions ver w (inr (x, m, own, cur, act)) =
      inr (x, (mem-append x versions (ver ∷ [])).1 (inl m), own, cur, act)

  IsNumbered-append_ne :
      (versions : List (WorkflowVersion v)) (ver : WorkflowVersion v) (w : Workflow v)
      → ((w.id == ver.workflow_id) ≡ false)
      → IsNumbered versions w
      → IsNumbered (versions ++ ver ∷ []) w
  IsNumbered-append_ne versions ver w ne h =
      numbers-append w.id versions ver
      ∙ rw (let off : (ver.workflow_id == w.id) ≡ false = ground arith in off) h

  IsNumbered-append_self :
      (db : Db v) (ver : WorkflowVersion v) (w : Workflow v)
      → ver.workflow_id ≡ w.id
      → ver.version_number ≡ next_version_number db w.id
      → IsNumbered db.versions w
      → IsNumbered (db.versions ++ ver ∷ []) (with_version ver w)
  unfolding up_to
  IsNumbered-append_self db ver w own num h =
      let next = num ∙ next_version_number-eq db w h in
      numbers-append w.id db.versions ver ∙ rw ((==_iff ver.workflow_id w.id).1 own) (rw (next, h))

  -- A publication of the next number.
  publish-IsConsistent :
      (db : Db v) (w : Workflow v) (ver : WorkflowVersion v) (nodes : List (WorkflowNode v))
      (edges : List WorkflowEdge)
      → IsConsistent db
      → Member w db.workflows
      → ver.workflow_id ≡ w.id
      → ver.version_number ≡ next_version_number db w.id
      → IsValidated ver
      → IsConsistent (record {
        workflows = write_workflow (with_version ver w) db.workflows;
        versions = db.versions ++ ver ∷ [];
        nodes = nodes;
        edges = edges;
      })
  publish-IsConsistent db w ver nodes edges c m own num ok_ver = record {
    unique = UniqueIds-write_workflow (with_version ver w) db.workflows c.unique;
    numbered = λ x k. elim (mem-write_workflow x (with_version ver w) db.workflows k) [
      | inl e ↦
          subst (IsNumbered (db.versions ++ ver ∷ [])) (sym e)
            (IsNumbered-append_self db ver w own num (c.numbered w m))
      | inr (l, ne) ↦ IsNumbered-append_ne db.versions ver x (rw own ne) (c.numbered x l)
    ];
    pointing = λ x k. elim (mem-write_workflow x (with_version ver w) db.workflows k) [
      | inl e ↦
          subst (PointsTo (db.versions ++ ver ∷ [])) (sym e)
            (inr (ver, (mem-append ver db.versions (ver ∷ [])).1 (inr (inl refl)), own, refl, refl))
      | inr (l, _) ↦ PointsTo-append db.versions ver x (c.pointing x l)
    ];
    owned = λ x k.
        has_id-write_workflow x.workflow_id (with_version ver w) db.workflows
        ∙ elim ((mem-append x db.versions (ver ∷ [])).0 k) [
          | inl l ↦ c.owned x l
          | inr (inl e) ↦
              any-mem (λ (row : Workflow v). row.id == x.workflow_id) w db.workflows m
                ((==_iff w.id x.workflow_id).1
                  (sym (ap (λ (y : WorkflowVersion v). y.workflow_id) e ∙ own)))
          | inr (inr l) ↦ absurd l
        ];
    validated = λ x k. elim ((mem-append x db.versions (ver ∷ [])).0 k) [
      | inl l ↦ c.validated x l
      | inr (inl e) ↦ subst IsValidated (sym e) ok_ver
      | inr (inr l) ↦ absurd l
    ];
  }

  pub publish_workflow-IsConsistent :
      (uuid : Uuids) (org_id user_id workflow_id : ℕ) (payload : PublishRequest v) (db : Db v)
      {wf : Workflow v} {ver : WorkflowVersion v} {db' : Db v}
      → publish_workflow uuid org_id user_id workflow_id payload db ≡ ok ((wf, ver), db')
      → IsConsistent db
      → IsConsistent db'
  publish_workflow-IsConsistent uuid org_id user_id workflow_id payload db {wf} {ver} {db'} h c =
      let p = publish_workflow-eq-ok uuid org_id user_id workflow_id payload db h in
      let (m, id) = found db workflow_id org_id p.found in
      let edges = db.edges ++ edge_rows uuid (1 + length p.graph.nodes) (uuid 0) p.graph.edges in
      let version = new_version uuid user_id workflow_id p.graph db in
      let valid : IsValidated version = ((p.graph, refl), p.valid) in
      let same : db' ≡ record {
        workflows = write_workflow (with_version ver p.before) db.workflows;
        versions = db.versions ++ ver ∷ [];
        nodes = db.nodes ++ p.rows;
        edges = edges;
      } =
        rw (← p.after) p.result in
      subst IsConsistent (sym same) (
        publish-IsConsistent db p.before ver (db.nodes ++ p.rows) edges c m
          (ap (λ x. x.workflow_id) p.version ∙ sym id)
          (ap (λ x. x.version_number) p.version ∙ ap (next_version_number db) (sym id))
          (subst IsValidated (sym p.version) valid))

  pub revert_workflow-IsConsistent :
      (uuid : Uuids) (org_id user_id workflow_id version_number : ℕ) (db : Db v) {wf : Workflow v}
      {ver : WorkflowVersion v} {db' : Db v}
      → revert_workflow uuid org_id user_id workflow_id version_number db ≡ ok ((wf, ver), db')
      → IsConsistent db
      → IsConsistent db'
  unfolding revert_workflow
  revert_workflow-IsConsistent uuid org_id user_id workflow_id version_number db {wf} {ver} h c =
      let (source, _, h1) =
        >>=-eq-ok (get_version_by_number org_id workflow_id version_number db) _ h in
      elim (Option-cases (model_validate source.definition)) [
        | inl bad ↦ absurd (cc (rw bad at h1))
        | inr (graph, good) ↦
            publish_workflow-IsConsistent uuid org_id user_id workflow_id
              (record { definition = some graph }) db {wf = wf} {ver = ver} (ground arith) c
      ]
