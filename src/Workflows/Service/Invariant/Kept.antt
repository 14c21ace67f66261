-- ===== src/Workflows/Service/Invariant/Kept.antt =====
-- Creating, updating, duplicating, archiving and deleting a workflow in
-- backend/app/modules/workflows/service.py keep the tables consistent.
use ai_business_automation.Prelude.{
  ℕ, none, Bool, Bool-cases, true, false, not, List, [], ◌∷◌, ◌++◌, ◌≡◌, ◌≢◌, refl, sym, ap, ◌∙◌,
  subst, inl, inr, arith, ◌==◌, ==_iff, map, select, Member, mem-append, mem-select, select-select,
  any-select, any-append,
}
use ai_business_automation.Errors.{ok, >>=-eq-ok}
use ai_business_automation.Workflows.Graph.{Values}
use ai_business_automation.Workflows.Models.{
  published, archived, Workflow, WorkflowVersion, Db, versions_of, write_workflow, delete_rows,
}
use ai_business_automation.Workflows.Service.{
  Uuids, find_workflow, add_workflow, updated, WorkflowCreate, WorkflowUpdate, create_workflow,
  update_workflow, delete_workflow, duplicate_workflow, archive_workflow,
}
use ai_business_automation.Workflows.Service.Publish.{find_workflow-eq-ok, add_workflow-eq-ok}
use ai_business_automation.Workflows.Service.Invariant.History.{
  up_to, number, has_id, PointsTo, IsNumbered, IsConsistent, mem-write_workflow,
  has_id-write_workflow, UniqueIds-write_workflow, UniqueIds-append, UniqueIds-select,
}

module _ {v : Values} where
  -- Only the three tables that the invariant speaks of matter.
  pub write-IsConsistent :
      (db : Db v) (w : Workflow v)
      → IsConsistent db
      → IsNumbered db.versions w
      → PointsTo db.versions w
      → IsConsistent (record db { workflows = write_workflow w db.workflows })
  write-IsConsistent db w c num pt = record {
    unique = UniqueIds-write_workflow w db.workflows c.unique;
    numbered = λ x m. elim (mem-write_workflow x w db.workflows m) [
      | inl e ↦ subst (IsNumbered db.versions) (sym e) num
      | inr (k, _) ↦ c.numbered x k
    ];
    pointing = λ x m. elim (mem-write_workflow x w db.workflows m) [
      | inl e ↦ subst (PointsTo db.versions) (sym e) pt
      | inr (k, _) ↦ c.pointing x k
    ];
    owned = λ ver m. has_id-write_workflow ver.workflow_id w db.workflows ∙ c.owned ver m;
    validated = c.validated;
  }

  no_versions :
      (i : ℕ) (workflows : List (Workflow v)) (versions : List (WorkflowVersion v))
      → ((ver : WorkflowVersion v) → Member ver versions → has_id ver.workflow_id workflows ≡ true)
      → has_id i workflows ≡ false
      → versions_of i versions ≡ []
  no_versions i workflows [] owned fresh = refl
  no_versions i workflows (ver ∷ versions) owned fresh = elim (Bool-cases (ver.workflow_id == i)) [
    | inl at ↦ cc (
      owned ver (inl refl),
      fresh,
      ap (λ j. has_id j workflows) ((==_iff ver.workflow_id i).0 at),
    )
    | inr off ↦ rw off (no_versions i workflows versions (λ x m. owned x (inr m)) fresh)
  ]

  append-IsConsistent :
      (db : Db v) (w : Workflow v)
      → IsConsistent db
      → has_id w.id db.workflows ≡ false
      → w.current_version ≡ none
      → w.active_version_id ≡ none
      → w.status ≢ published
      → IsConsistent (record db { workflows = db.workflows ++ w ∷ [] })
  unfolding up_to
  append-IsConsistent db w c fresh cur act st = record {
    unique = UniqueIds-append w db.workflows c.unique fresh;
    numbered = λ x m. elim ((mem-append x db.workflows (w ∷ [])).0 m) [
      | inl k ↦ c.numbered x k
      | inr (inl e) ↦
          subst (IsNumbered db.versions) (sym e)
            (rw (cur, no_versions w.id db.workflows db.versions c.owned fresh))
      | inr (inr k) ↦ absurd k
    ];
    pointing = λ x m. elim ((mem-append x db.workflows (w ∷ [])).0 m) [
      | inl k ↦ c.pointing x k
      | inr (inl e) ↦ subst (PointsTo db.versions) (sym e) (inl (cur, act, st))
      | inr (inr k) ↦ absurd k
    ];
    owned = λ ver m.
        any-append (λ (row : Workflow v). row.id == ver.workflow_id) db.workflows (w ∷ [])
        ∙ rw (c.owned ver m);
    validated = c.validated;
  }

  pub found :
      (db : Db v) (workflow_id org_id : ℕ) {wf : Workflow v}
      → find_workflow db workflow_id org_id ≡ ok wf
      → Member wf db.workflows × (wf.id ≡ workflow_id)
  found db workflow_id org_id {wf} h =
      let (one, _) = find_workflow-eq-ok db workflow_id org_id h in
      let (m, e) = (mem-select (λ w. w.id == workflow_id) wf db.workflows).0 (rw one (inl refl)) in
      (m, (==_iff wf.id workflow_id).0 e)

  pub create_workflow-IsConsistent :
      (uuid : Uuids) (org_id : ℕ) (payload : WorkflowCreate) (db : Db v) {wf : Workflow v}
      {db' : Db v}
      → create_workflow uuid org_id payload db ≡ ok (wf, db')
      → IsConsistent db
      → IsConsistent db'
  unfolding create_workflow
  create_workflow-IsConsistent uuid org_id payload db {wf} {db'} h c =
      let (d, e, k) = >>=-eq-ok (add_workflow _ db) _ h in
      let (fresh, q) = add_workflow-eq-ok _ db e in
      let same : db' ≡ d = ground arith in
      subst IsConsistent (sym (same ∙ q)) (append-IsConsistent db _ c fresh refl refl (λ e. cc))

  pub update_workflow-IsConsistent :
      (org_id workflow_id : ℕ) (payload : WorkflowUpdate v) (db : Db v) {wf : Workflow v}
      {db' : Db v}
      → update_workflow org_id workflow_id payload db ≡ ok (wf, db')
      → IsConsistent db
      → IsConsistent db'
  unfolding update_workflow
  update_workflow-IsConsistent org_id workflow_id payload db {wf} {db'} h c =
      let (w, e, k) = >>=-eq-ok (find_workflow db workflow_id org_id) _ h in
      let (m, _) = found db workflow_id org_id e in
      let same : record db { workflows = write_workflow (updated payload w) db.workflows } ≡ db' =
        ground arith in
      subst IsConsistent same
        (write-IsConsistent db (updated payload w) c (c.numbered w m) (c.pointing w m))

  pub duplicate_workflow-IsConsistent :
      (uuid : Uuids) (org_id workflow_id : ℕ) (name : _) (db : Db v) {wf : Workflow v} {db' : Db v}
      → duplicate_workflow uuid org_id workflow_id name db ≡ ok (wf, db')
      → IsConsistent db
      → IsConsistent db'
  unfolding duplicate_workflow
  duplicate_workflow-IsConsistent uuid org_id workflow_id name db {wf} {db'} h c =
      let (source, _, h1) = >>=-eq-ok (find_workflow db workflow_id org_id) _ h in
      let (d, e, k) = >>=-eq-ok (add_workflow _ db) _ h1 in
      let (fresh, q) = add_workflow-eq-ok _ db e in
      let same : db' ≡ d = ground arith in
      subst IsConsistent (sym (same ∙ q)) (append-IsConsistent db _ c fresh refl refl (λ e. cc))

  PointsTo-archived :
      (versions : List (WorkflowVersion v)) (w : Workflow v)
      → PointsTo versions w
      → PointsTo versions (record w { status = archived })
  PointsTo-archived versions w (inl (cur, act, _)) = inl (cur, act, λ e. cc)
  PointsTo-archived versions w (inr p) = inr p

  pub archive_workflow-IsConsistent :
      (org_id workflow_id : ℕ) (db : Db v) {wf : Workflow v} {db' : Db v}
      → archive_workflow org_id workflow_id db ≡ ok (wf, db')
      → IsConsistent db
      → IsConsistent db'
  unfolding archive_workflow
  archive_workflow-IsConsistent org_id workflow_id db {wf} {db'} h c =
      let (w, e, h1) = >>=-eq-ok (find_workflow db workflow_id org_id) _ h in
      let (m, _) = found db workflow_id org_id e in
      let w' : Workflow v = record w { status = archived } in
      let same : record db { workflows = write_workflow w' db.workflows } ≡ db' = ground arith in
      subst IsConsistent same (
        write-IsConsistent db w' c (c.numbered w m)
          (PointsTo-archived db.versions w (c.pointing w m)))

  abbrev other_than : ℕ → Workflow v → Bool
  other_than i w = not (w.id == i)

  abbrev not_of : ℕ → WorkflowVersion v → Bool
  not_of i ver = not (ver.workflow_id == i)

  delete_rows-PointsTo :
      (i : ℕ) (versions : List (WorkflowVersion v)) (w : Workflow v)
      → other_than i w ≡ true
      → PointsTo versions w
      → PointsTo (select (not_of i) versions) w
  delete_rows-PointsTo i versions w ne (inl p) = inl p
  delete_rows-PointsTo i versions w ne (inr (ver, m, own, cur, act)) =
      inr (ver, (mem-select (not_of i) ver versions).1 (m, rw own ne), own, cur, act)

  pub delete_rows-IsConsistent :
      (i : ℕ) (db : Db v) → IsConsistent db → IsConsistent (delete_rows i db)
  unfolding delete_rows
  delete_rows-IsConsistent i db c = record {
    unique = UniqueIds-select (other_than i) db.workflows c.unique;
    numbered = λ w m.
        let (k, ne) = (mem-select (other_than i) w db.workflows).0 m in
        ap (map number) (
          select-select (λ ver. ver.workflow_id == w.id) (not_of i) db.versions
            (λ ver own. rw ((==_iff ver.workflow_id w.id).0 own) ne))
        ∙ c.numbered w k;
    pointing = λ w m.
        let (k, ne) = (mem-select (other_than i) w db.workflows).0 m in
        delete_rows-PointsTo i db.versions w ne (c.pointing w k);
    owned = λ ver m.
        let (k, ne) = (mem-select (not_of i) ver db.versions).0 m in
        any-select (λ (row : Workflow v). row.id == ver.workflow_id) (other_than i) db.workflows
          (λ w at. rw ((==_iff w.id ver.workflow_id).0 at) ne)
        ∙ c.owned ver k;
    validated = λ ver m. c.validated ver ((mem-select (not_of i) ver db.versions).0 m).0;
  }

  pub delete_workflow-IsConsistent :
      (org_id workflow_id : ℕ) (db : Db v) {db' : Db v}
      → delete_workflow org_id workflow_id db ≡ ok db'
      → IsConsistent db
      → IsConsistent db'
  unfolding delete_workflow
  delete_workflow-IsConsistent org_id workflow_id db {db'} h c =
      let (w, e, h1) = >>=-eq-ok (find_workflow db workflow_id org_id) _ h in
      let same : delete_rows w.id db ≡ db' = ground arith in
      subst IsConsistent same (delete_rows-IsConsistent w.id db c)
