-- ===== src/Workflows/Service/Invariant/History.antt =====
-- What backend/app/modules/workflows/service.py keeps true of the tables, and how the single
-- changes of a table act on it.
use ai_business_automation.Prelude.{
  ℕ, zero, suc, max, none, some, Bool, Bool-cases, true, false, List, [], ◌∷◌, ◌++◌, ◌≡◌, ◌≢◌, refl,
  ap, ◌∙◌, ◌⊎◌, inl, inr, arith, ◌==◌, if◌then◌else◌, get_or_else, map, select, any, Member,
  select-append, any-append,
}
use mathlib.Core.List.{map-append, append-nil}
use ai_business_automation.Errors.{ok}
use ai_business_automation.Workflows.Graph.{Values, WorkflowGraph, graph_to_dict}
use ai_business_automation.Workflows.Registry.{node_registry}
use ai_business_automation.Workflows.Validator.{validate_graph}
use ai_business_automation.Workflows.Models.{
  published, Workflow, WorkflowVersion, Db, versions_of, write_workflow,
}
use ai_business_automation.Workflows.Service.{max_version, next_version_number}

-- 1, 2, ..., n
unfoldable pub up_to : ℕ → List ℕ
up_to zero = []
up_to (suc n) = up_to n ++ suc n ∷ []

module _ {v : Values} where
  abbrev pub number : WorkflowVersion v → ℕ
  number ver = ver.version_number

  -- The version numbers of a workflow, in the order of publication.
  abbrev pub numbers : ℕ → List (WorkflowVersion v) → List ℕ
  numbers workflow_id versions = map number (versions_of workflow_id versions)

  abbrev pub has_id : ℕ → List (Workflow v) → Bool
  has_id workflow_id = any (λ row. row.id == workflow_id)

  abbrev pub UniqueIds : List (Workflow v) → Type 0
  UniqueIds [] = Unit
  UniqueIds (w ∷ ws) = (has_id w.id ws ≡ false) × UniqueIds ws

  -- The workflow was never published, or it points to a version of its own.
  abbrev pub PointsTo : List (WorkflowVersion v) → Workflow v → Type 0
  PointsTo versions w =
      ((w.current_version ≡ none) × (w.active_version_id ≡ none) × (w.status ≢ published))
      ⊎ ((ver : WorkflowVersion v) × Member ver versions
          × (ver.workflow_id ≡ w.id)
          × (w.current_version ≡ some ver.version_number)
          × (w.active_version_id ≡ some ver.id))

  -- The numbers are 1 to `current_version` without a gap.
  abbrev pub IsNumbered : List (WorkflowVersion v) → Workflow v → Type 0
  IsNumbered versions w = numbers w.id versions ≡ up_to (get_or_else w.current_version 0)

  -- The definition was stored by `_graph_to_dict` and has passed the validator.
  abbrev pub IsValidated : WorkflowVersion v → Type 0
  IsValidated ver =
      ((g : WorkflowGraph v) × (ver.definition ≡ graph_to_dict g))
      × (validate_graph node_registry ver.definition ≡ ok [])

  pub record IsConsistent (db : Db v) : Type 0 where
    pub unique : UniqueIds db.workflows
    pub numbered : (w : Workflow v) → Member w db.workflows → IsNumbered db.versions w
    pub pointing : (w : Workflow v) → Member w db.workflows → PointsTo db.versions w
    pub owned :
        (ver : WorkflowVersion v)
        → Member ver db.versions
        → has_id ver.workflow_id db.workflows ≡ true
    pub validated : (ver : WorkflowVersion v) → Member ver db.versions → IsValidated ver

  -- Writing one row.
  pub mem-write_workflow :
      (x w : Workflow v) (ws : List (Workflow v))
      → Member x (write_workflow w ws)
      → (x ≡ w) ⊎ (Member x ws × ((x.id == w.id) ≡ false))
  unfolding write_workflow
  mem-write_workflow x w [] m = absurd m
  mem-write_workflow x w (r ∷ ws) (inl e) = elim (Bool-cases (r.id == w.id)) [
    | inl at ↦ inl (rw at at e)
    | inr off ↦ let q = rw off at e in inr (inl q, rw q off)
  ]
  mem-write_workflow x w (r ∷ ws) (inr m) = elim (mem-write_workflow x w ws m) [
    | inl e ↦ inl e
    | inr (k, ne) ↦ inr (inr k, ne)
  ]

  pub has_id-write_workflow :
      (i : ℕ) (w : Workflow v) (ws : List (Workflow v))
      → has_id i (write_workflow w ws) ≡ has_id i ws
  unfolding write_workflow
  has_id-write_workflow i w [] = refl
  has_id-write_workflow i w (r ∷ ws) = ground (arith, has_id-write_workflow i w ws)

  pub UniqueIds-write_workflow :
      (w : Workflow v) (ws : List (Workflow v)) → UniqueIds ws → UniqueIds (write_workflow w ws)
  unfolding write_workflow
  UniqueIds-write_workflow w [] u = tt
  UniqueIds-write_workflow w (r ∷ ws) u = ground (
    arith,
    has_id-write_workflow r.id w ws,
    has_id-write_workflow w.id w ws,
    UniqueIds-write_workflow w ws u.1,
  )

  pub UniqueIds-append :
      (w : Workflow v) (ws : List (Workflow v))
      → UniqueIds ws
      → has_id w.id ws ≡ false
      → UniqueIds (ws ++ w ∷ [])
  UniqueIds-append w [] u h = (refl, tt)
  UniqueIds-append w (r ∷ ws) u h = ground (
    arith,
    any-append (λ (row : Workflow v). row.id == r.id) ws (w ∷ []),
    UniqueIds-append w ws u.1,
  )

  pub UniqueIds-select :
      (p : Workflow v → Bool) (ws : List (Workflow v)) → UniqueIds ws → UniqueIds (select p ws)
  UniqueIds-select p [] u = tt
  UniqueIds-select p (r ∷ ws) u = elim (Bool-cases (p r)) [
    | inl keep ↦ rw keep (fewer r.id ws u.0, UniqueIds-select p ws u.1)
    | inr drop ↦ rw drop (UniqueIds-select p ws u.1)
  ]
    where
      fewer :
          (i : ℕ) (ws : List (Workflow v)) → has_id i ws ≡ false → has_id i (select p ws) ≡ false
      fewer i [] h = refl
      fewer i (r ∷ ws) h = ground (arith, fewer i ws)

top : List ℕ → ℕ
top [] = 0
top (x ∷ xs) = max x (top xs)

top-append : (xs : List ℕ) (y : ℕ) → top (xs ++ y ∷ []) ≡ max (top xs) y
unfolding top
top-append [] y = omega arith
top-append (x ∷ xs) y = omega (arith, top-append xs y)

top-up_to : (n : ℕ) → top (up_to n) ≡ n
unfolding top up_to
top-up_to zero = refl
top-up_to (suc n) = omega (arith, top-append (up_to n) (suc n), top-up_to n)

module _ {v : Values} where
  max_version-top :
      (vers : List (WorkflowVersion v)) → get_or_else (max_version vers) 0 ≡ top (map number vers)
  unfolding max_version top
  max_version-top [] = refl
  max_version-top (ver ∷ vers) = ap (max ver.version_number) (max_version-top vers)

  -- The next number is one more than the current one.
  pub next_version_number-eq :
      (db : Db v) (w : Workflow v)
      → IsNumbered db.versions w
      → next_version_number db w.id ≡ suc (get_or_else w.current_version 0)
  unfolding next_version_number
  next_version_number-eq db w h = omega (
    arith,
    max_version-top (versions_of w.id db.versions) ∙ ap top h,
    top-up_to (get_or_else w.current_version 0),
  )

  pub numbers-append :
      (i : ℕ) (vers : List (WorkflowVersion v)) (ver : WorkflowVersion v)
      → numbers i (vers ++ ver ∷ []) ≡ (
          if ver.workflow_id == i
          then numbers i vers ++ ver.version_number ∷ []
          else numbers i vers)
  numbers-append i vers ver = elim (Bool-cases (ver.workflow_id == i)) [
    | inl at ↦ rw at (
        ap (map number) (select-append (λ x. x.workflow_id == i) vers (ver ∷ []))
        ∙ rw at (map-append number (versions_of i vers) (ver ∷ [])))
    | inr off ↦ rw off (
        ap (map number) (select-append (λ x. x.workflow_id == i) vers (ver ∷ []))
        ∙ rw off (rw append-nil))
  ]
