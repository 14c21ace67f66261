-- ===== src/Workflows/Service/Tenant.antt =====
-- The tenants of backend/app/modules/workflows/service.py: what a call for one organization does
-- to the rows of the others.
use ai_business_automation.Prelude.{
  ℕ, Option-cases, some, Bool, Bool-cases, true, false, not, List, [], ◌∷◌, ◌++◌, ◌≡◌, refl, sym,
  ap, ◌∙◌, subst, inl, inr, arith, ◌==◌, ==_iff, select, Member, mem-select, select-append,
  select-select,
}
use mathlib.Core.List.{append-nil}
use ai_business_automation.Errors.{ok, >>=-eq-ok}
use ai_business_automation.Workflows.Graph.{Values, model_validate}
use ai_business_automation.Workflows.Models.{
  archived, Workflow, WorkflowVersion, Db, versions_of, write_workflow, delete_rows,
}
use ai_business_automation.Workflows.Service.{
  Uuids, find_workflow, add_workflow, updated, WorkflowCreate, WorkflowUpdate, PublishRequest,
  create_workflow, update_workflow, delete_workflow, publish_workflow, revert_workflow,
  duplicate_workflow, archive_workflow, get_version_by_number,
}
use ai_business_automation.Workflows.Service.Publish.{
  find_workflow-eq-ok, add_workflow-eq-ok, publish_workflow-eq-ok,
}

module _ {v : Values} (org_id : ℕ) where
  abbrev pub is_foreign : Workflow v → Bool
  is_foreign w = not (w.organization_id == org_id)

  -- The workflows of other organizations and their versions are the same rows as before.
  pub record Untouched (db db' : Db v) : Type 0 where
    pub rows : select is_foreign db'.workflows ≡ select is_foreign db.workflows
    pub histories :
        (w : Workflow v)
        → Member w db.workflows
        → is_foreign w ≡ true
        → versions_of w.id db'.versions ≡ versions_of w.id db.versions

  -- Every row with the identifier belongs to the organization.
  abbrev IsOurs : ℕ → List (Workflow v) → Type 0
  IsOurs i ws = (w : Workflow v) → Member w ws → (w.id == i) ≡ true → is_foreign w ≡ false

  found-IsOurs :
      (db : Db v) (workflow_id : ℕ) {wf : Workflow v}
      → find_workflow db workflow_id org_id ≡ ok wf
      → IsOurs workflow_id db.workflows × (is_foreign wf ≡ false) × ((wf.id == workflow_id) ≡ true)
  found-IsOurs db workflow_id {wf} h =
      let (one, org) = find_workflow-eq-ok db workflow_id org_id h in
      let ours : is_foreign wf ≡ false = rw ((==_iff wf.organization_id org_id).1 org) refl in
      let (m, at) = (mem-select (λ w. w.id == workflow_id) wf db.workflows).0 (rw one (inl refl)) in
      (
        λ w k e.
            elim (rw one at ((mem-select (λ x. x.id == workflow_id) w db.workflows).1 (k, e))) [
              | inl q ↦ rw q ours
              | inr no_more ↦ absurd no_more
            ],
        ours,
        at,
      )

  write-rows :
      (w : Workflow v) (ws : List (Workflow v))
      → IsOurs w.id ws
      → is_foreign w ≡ false
      → select is_foreign (write_workflow w ws) ≡ select is_foreign ws
  unfolding write_workflow
  write-rows w [] ours own = refl
  write-rows w (r ∷ ws) ours own =
      ground (arith, ours r (inl refl), write-rows w ws (λ x m. ours x (inr m)) own)

  append-rows :
      (w : Workflow v) (ws : List (Workflow v))
      → is_foreign w ≡ false
      → select is_foreign (ws ++ w ∷ []) ≡ select is_foreign ws
  append-rows w ws own = select-append is_foreign ws (w ∷ []) ∙ rw own (rw append-nil)

  -- A foreign row has another identifier than one of ours.
  foreign-ne :
      (i : ℕ) (ws : List (Workflow v)) (w : Workflow v)
      → IsOurs i ws
      → Member w ws
      → is_foreign w ≡ true
      → (w.id == i) ≡ false
  foreign-ne i ws w ours m f = elim (Bool-cases (w.id == i)) [
    | inl at ↦ cc (ours w m at, f)
    | inr off ↦ off
  ]

  write-Untouched :
      (db : Db v) (w : Workflow v)
      → IsOurs w.id db.workflows
      → is_foreign w ≡ false
      → Untouched db (record db { workflows = write_workflow w db.workflows })
  write-Untouched db w ours own = record {
    rows = write-rows w db.workflows ours own;
    histories = λ x m f. refl;
  }

  append-Untouched :
      (db : Db v) (w : Workflow v)
      → is_foreign w ≡ false
      → Untouched db (record db { workflows = db.workflows ++ w ∷ [] })
  append-Untouched db w own = record {
    rows = append-rows w db.workflows own;
    histories = λ x m f. refl;
  }

  delete_rows-Untouched :
      (i : ℕ) (db : Db v) → IsOurs i db.workflows → Untouched db (delete_rows i db)
  unfolding delete_rows
  delete_rows-Untouched i db ours = record {
    rows = kept db.workflows ours;
    histories = λ w m f.
        select-select (λ ver. ver.workflow_id == w.id) (λ ver. not (ver.workflow_id == i))
          db.versions
          (λ ver own.
            rw ((==_iff ver.workflow_id w.id).0 own, foreign-ne i db.workflows w ours m f) refl);
  }
    where
      kept :
          (ws : List (Workflow v))
          → IsOurs i ws
          → select is_foreign (select (λ w. not (w.id == i)) ws) ≡ select is_foreign ws
      kept [] ours = refl
      kept (r ∷ ws) ours = ground (arith, ours r (inl refl), kept ws (λ x m. ours x (inr m)))

  versions_of-append_ne :
      (i : ℕ) (vers : List (WorkflowVersion v)) (ver : WorkflowVersion v)
      → (ver.workflow_id == i) ≡ false
      → versions_of i (vers ++ ver ∷ []) ≡ versions_of i vers
  versions_of-append_ne i vers ver off =
      select-append (λ x. x.workflow_id == i) vers (ver ∷ []) ∙ rw off (rw append-nil)

  pub create_workflow-Untouched :
      (uuid : Uuids) (payload : WorkflowCreate) (db : Db v) {wf : Workflow v} {db' : Db v}
      → create_workflow uuid org_id payload db ≡ ok (wf, db')
      → Untouched db db'
  unfolding create_workflow
  create_workflow-Untouched uuid payload db {wf} {db'} h =
      let (d, e, k) = >>=-eq-ok (add_workflow _ db) _ h in
      let (_, q) = add_workflow-eq-ok _ db e in
      let same : db' ≡ d = ground arith in
      subst (Untouched db) (sym (same ∙ q))
        (append-Untouched db _ (rw ((==_iff org_id org_id).1 refl) refl))

  pub duplicate_workflow-Untouched :
      (uuid : Uuids) (workflow_id : ℕ) (name : _) (db : Db v) {wf : Workflow v} {db' : Db v}
      → duplicate_workflow uuid org_id workflow_id name db ≡ ok (wf, db')
      → Untouched db db'
  unfolding duplicate_workflow
  duplicate_workflow-Untouched uuid workflow_id name db {wf} {db'} h =
      let (source, _, h1) = >>=-eq-ok (find_workflow db workflow_id org_id) _ h in
      let (d, e, k) = >>=-eq-ok (add_workflow _ db) _ h1 in
      let (_, q) = add_workflow-eq-ok _ db e in
      let same : db' ≡ d = ground arith in
      subst (Untouched db) (sym (same ∙ q))
        (append-Untouched db _ (rw ((==_iff org_id org_id).1 refl) refl))

  -- Writing a row that `_get_workflow` returned, with its identifier and organization unchanged.
  rewrite-Untouched :
      (db : Db v) (workflow_id : ℕ) (w w' : Workflow v)
      → find_workflow db workflow_id org_id ≡ ok w
      → w'.id ≡ w.id
      → w'.organization_id ≡ w.organization_id
      → Untouched db (record db { workflows = write_workflow w' db.workflows })
  rewrite-Untouched db workflow_id w w' e same_id same_org =
      let (ours, own, at) = found-IsOurs db workflow_id e in
      let id = same_id ∙ (==_iff w.id workflow_id).0 at in
      write-Untouched db w' (subst (λ i. IsOurs i db.workflows) (sym id) ours) (rw same_org own)

  pub update_workflow-Untouched :
      (workflow_id : ℕ) (payload : WorkflowUpdate v) (db : Db v) {wf : Workflow v} {db' : Db v}
      → update_workflow org_id workflow_id payload db ≡ ok (wf, db')
      → Untouched db db'
  unfolding update_workflow
  update_workflow-Untouched workflow_id payload db {wf} {db'} h =
      let (w, e, h1) = >>=-eq-ok (find_workflow db workflow_id org_id) _ h in
      let same : record db { workflows = write_workflow (updated payload w) db.workflows } ≡ db' =
        ground arith in
      subst (Untouched db) same (rewrite-Untouched db workflow_id w (updated payload w) e refl refl)

  pub archive_workflow-Untouched :
      (workflow_id : ℕ) (db : Db v) {wf : Workflow v} {db' : Db v}
      → archive_workflow org_id workflow_id db ≡ ok (wf, db')
      → Untouched db db'
  unfolding archive_workflow
  archive_workflow-Untouched workflow_id db {wf} {db'} h =
      let (w, e, h1) = >>=-eq-ok (find_workflow db workflow_id org_id) _ h in
      let w' : Workflow v = record w { status = archived } in
      let same : record db { workflows = write_workflow w' db.workflows } ≡ db' = ground arith in
      subst (Untouched db) same (rewrite-Untouched db workflow_id w w' e refl refl)

  pub delete_workflow-Untouched :
      (workflow_id : ℕ) (db : Db v) {db' : Db v}
      → delete_workflow org_id workflow_id db ≡ ok db'
      → Untouched db db'
  unfolding delete_workflow
  delete_workflow-Untouched workflow_id db {db'} h =
      let (w, e, h1) = >>=-eq-ok (find_workflow db workflow_id org_id) _ h in
      let (ours, own, at) = found-IsOurs db workflow_id e in
      let same : delete_rows w.id db ≡ db' = ground arith in
      subst (Untouched db) same (
        delete_rows-Untouched w.id db
          (subst (λ i. IsOurs i db.workflows) (sym ((==_iff w.id workflow_id).0 at)) ours))

  pub publish_workflow-Untouched :
      (uuid : Uuids) (user_id workflow_id : ℕ) (payload : PublishRequest v) (db : Db v)
      {wf : Workflow v} {ver : WorkflowVersion v} {db' : Db v}
      → publish_workflow uuid org_id user_id workflow_id payload db ≡ ok ((wf, ver), db')
      → Untouched db db'
  publish_workflow-Untouched uuid user_id workflow_id payload db {wf} {ver} {db'} h =
      let p = publish_workflow-eq-ok uuid org_id user_id workflow_id payload db h in
      let (ours, own, at) = found-IsOurs db workflow_id p.found in
      let written =
        rewrite-Untouched db workflow_id p.before wf p.found (ap (λ (x : Workflow v). x.id) p.after)
          (ap (λ (x : Workflow v). x.organization_id) p.after) in
      let same_rows : db'.workflows ≡ write_workflow wf db.workflows =
        ap (λ (x : Db v). x.workflows) p.result in
      let same_versions : db'.versions ≡ db.versions ++ ver ∷ [] =
        ap (λ (x : Db v). x.versions) p.result in
      let ver_of : ver.workflow_id ≡ workflow_id =
        ap (λ (x : WorkflowVersion v). x.workflow_id) p.version in
      record {
        rows = ap (select is_foreign) same_rows ∙ written.rows;
        histories = λ w m f.
            let ne = foreign-ne workflow_id db.workflows w ours m f in
            ap (versions_of w.id) same_versions
            ∙ versions_of-append_ne w.id db.versions ver (rw ver_of (ground arith));
      }

  pub revert_workflow-Untouched :
      (uuid : Uuids) (user_id workflow_id version_number : ℕ) (db : Db v) {wf : Workflow v}
      {ver : WorkflowVersion v} {db' : Db v}
      → revert_workflow uuid org_id user_id workflow_id version_number db ≡ ok ((wf, ver), db')
      → Untouched db db'
  unfolding revert_workflow
  revert_workflow-Untouched uuid user_id workflow_id version_number db {wf} {ver} h =
      let (source, _, h1) =
        >>=-eq-ok (get_version_by_number org_id workflow_id version_number db) _ h in
      elim (Option-cases (model_validate source.definition)) [
        | inl bad ↦ absurd (cc (rw bad at h1))
        | inr (graph, good) ↦
            publish_workflow-Untouched uuid user_id workflow_id (record { definition = some graph })
              db {wf = wf} {ver = ver} (ground arith)
      ]
