-- ===== src/Workflows/Validator/Checks.antt =====
-- The single checks of backend/app/modules/workflows/validator.py: each returns no issue exactly
-- if all nodes have the property that it is about.
use ai_business_automation.Prelude.{
  String, Bool-cases, true, false, List, [], ◌∷◌, ◌++◌, ◌≡◌, refl, sym, subst, ap, ◌∙◌, ◌↔◌, inl,
  inr, arith, map, str_eq, eq_iff, select, Member, append-eq-nil, mem-map, mem-select,
}
use ai_business_automation.Prelude.Sets.{contains, contains_iff}
use ai_business_automation.Prelude.Groups.{lookup, lookup-group, lookup-empty_groups}
use ai_business_automation.Workflows.Graph.{Values, NodeDict, EdgeDict}
use ai_business_automation.Workflows.Registry.{Registry, in_registry}
use ai_business_automation.Workflows.Validator.{
  handle, source_of, target_of, nodes_with_incoming, outgoing_handles, type_of, id_of, adjacency,
  is_trigger, unknown_types, trigger_requirement, empty_graph, orphans, missing_branch, branches,
}
use ai_business_automation.Workflows.Validator.Publishable.{successors, HasBranch}

module _ {v : Values} (registry : Registry) where
  pub known_iff :
      (nodes : List (NodeDict v))
      → (unknown_types registry nodes ≡ [])
        ↔ ((n : NodeDict v) → Member n nodes → in_registry (type_of n) registry ≡ true)
  unfolding unknown_types
  known_iff [] = (λ _ n m. absurd m, λ _. refl)
  known_iff (x ∷ nodes) = elim (Bool-cases (in_registry (type_of x) registry)) [
    | inl known ↦ (
      λ h n m. elim m [ inl e ↦ rw e known | inr k ↦ (known_iff nodes).0 (ground arith) n k ],
      λ all. rw known ((known_iff nodes).1 (λ n m. all n (inr m))),
    )
    | inr other ↦ (λ h. ground arith, λ all. cc (all x (inl refl)))
  ]

  triggers :
      (nodes found : List (NodeDict v))
      → select (is_trigger registry) nodes ≡ found
      → (trigger_requirement registry nodes ≡ [])
        ↔ ((n : NodeDict v) × Member n nodes × (is_trigger registry n ≡ true))
  unfolding trigger_requirement
  triggers nodes [] e = (
    λ h. ground arith,
    λ (n, m, t). absurd (subst (Member n) e ((mem-select _ n nodes).1 (m, t))),
  )
  triggers nodes (x ∷ found) e = (
    λ _. let (m, t) = (mem-select (is_trigger registry) x nodes).0 (rw e (inl refl)) in (x, m, t),
    λ _. ground arith,
  )

  empty_graph-nil :
      (n : NodeDict v) (nodes : List (NodeDict v)) → Member n nodes → empty_graph nodes ≡ []
  unfolding empty_graph
  empty_graph-nil n [] m = absurd m
  empty_graph-nil n (x ∷ nodes) m = refl

  pub triggered_iff :
      (nodes : List (NodeDict v))
      → (trigger_requirement registry nodes ++ empty_graph nodes ≡ [])
        ↔ ((n : NodeDict v) × Member n nodes × (is_trigger registry n ≡ true))
  triggered_iff nodes =
      let (to, from) = triggers nodes (select (is_trigger registry) nodes) refl in
      (
        λ h. to (append-eq-nil _ (empty_graph nodes) h).0,
        λ (n, m, t). rw (from (n, m, t)) (empty_graph-nil n nodes m),
      )

  pub fed_iff :
      (incoming : List String) (nodes : List (NodeDict v))
      → (orphans registry incoming nodes ≡ []) ↔ (
          (n : NodeDict v)
          → Member n nodes
          → is_trigger registry n ≡ false
          → contains n.id incoming ≡ true)
  unfolding orphans
  fed_iff incoming [] = (λ _ n m. absurd m, λ _. refl)
  fed_iff incoming (x ∷ nodes) = elim (Bool-cases (is_trigger registry x)) [
    | inl trigger ↦ (
      λ h n m. elim m [
        | inl e ↦ λ f. cc (trigger, f, ap (is_trigger registry) e)
        | inr k ↦ (fed_iff incoming nodes).0 (rw trigger at h) n k
      ],
      λ all. rw trigger ((fed_iff incoming nodes).1 (λ n m. all n (inr m))),
    )
    | inr other ↦ elim (Bool-cases (contains x.id incoming)) [
      | inl on ↦ (
        λ h n m. elim m [
          | inl e ↦ λ f. rw e on
          | inr k ↦ (fed_iff incoming nodes).0 (rw (other, on) at h) n k
        ],
        λ all. rw (other, on) ((fed_iff incoming nodes).1 (λ n m. all n (inr m))),
      )
      | inr off ↦ (λ h. absurd (cc (rw (other, off) at h)), λ all. cc (all x (inl refl) other, off))
    ]
  ]

missing_branch_iff :
    (id branch : String) (handles : List String)
    → (missing_branch id branch handles ≡ []) ↔ (contains branch handles ≡ true)
unfolding missing_branch
missing_branch_iff id branch handles = ground arith

HasBranch-iff :
    (edges : List EdgeDict) (id branch : String)
    → (contains branch (lookup id (outgoing_handles edges)) ≡ true) ↔ HasBranch edges id branch
unfolding lookup
HasBranch-iff edges id branch =
    let same : lookup id (outgoing_handles edges)
        ≡ map handle (select (λ e. str_eq e.source id) edges) =
      lookup-group source_of handle id edges [] in
    (
      λ h.
          let (e, m, b) =
            (mem-map handle branch _).0
              (subst (Member branch) same ((contains_iff branch _).0 h)) in
          let (k, s) = (mem-select _ e edges).0 m in (e, k, (eq_iff e.source id).0 s, b),
      λ (e, m, s, b). (contains_iff branch _).1 (
          subst (Member branch) (sym same) (
            (mem-map handle branch _).1
              (e, (mem-select _ e edges).1 (m, (eq_iff e.source id).1 s), b))),
    )

pub incoming_iff :
    (edges : List EdgeDict) (id : String)
    → (contains id (nodes_with_incoming edges) ≡ true)
      ↔ ((e : EdgeDict) × Member e edges × (e.target ≡ id))
incoming_iff edges id = (
  λ h. (mem-map target_of id edges).0 ((contains_iff id _).0 h),
  λ h. (contains_iff id _).1 ((mem-map target_of id edges).1 h),
)

module _ {v : Values} where
  pub branched_iff :
      (edges : List EdgeDict) (nodes : List (NodeDict v))
      → (branches (outgoing_handles edges) nodes ≡ []) ↔ (
          (n : NodeDict v)
          → Member n nodes
          → type_of n ≡ "action.condition"
          → HasBranch edges n.id "true" × HasBranch edges n.id "false")
  unfolding branches
  branched_iff edges [] = (λ _ n m. absurd m, λ _. refl)
  branched_iff edges (x ∷ nodes) = elim (Bool-cases (str_eq (type_of x) "action.condition")) [
    | inl cond ↦ (
      λ h n m.
          let (yes_part, rest) =
            append-eq-nil (missing_branch x.id "true" handles) _ (rw cond at h) in
          let (no_part, tail) = append-eq-nil (missing_branch x.id "false" handles) _ rest in
          elim m [
            | inl e ↦ λ _. (rw e (has "true" yes_part), rw e (has "false" no_part))
            | inr k ↦ (branched_iff edges nodes).0 tail n k
          ],
      λ all.
          let (t, f) = all x (inl refl) ((eq_iff _ _).0 cond) in
          rw (cond, lacks "true" t, lacks "false" f)
            ((branched_iff edges nodes).1 (λ n m. all n (inr m))),
    )
    | inr other ↦ (
      λ h n m. elim m [
        | inl e ↦
            λ c. cc (other, (eq_iff (type_of x) "action.condition").1 (ap type_of (sym e) ∙ c))
        | inr k ↦ (branched_iff edges nodes).0 (rw other at h) n k
      ],
      λ all. rw other ((branched_iff edges nodes).1 (λ n m. all n (inr m))),
    )
  ]
    where
      handles : List String
      handles = lookup x.id (outgoing_handles edges)

      has :
          (branch : String) → missing_branch x.id branch handles ≡ [] → HasBranch edges x.id branch
      has branch h =
          (HasBranch-iff edges x.id branch).0 ((missing_branch_iff x.id branch handles).0 h)

      lacks :
          (branch : String) → HasBranch edges x.id branch → missing_branch x.id branch handles ≡ []
      lacks branch h =
          (missing_branch_iff x.id branch handles).1 ((HasBranch-iff edges x.id branch).1 h)

  pub lookup-adjacency :
      (nodes : List (NodeDict v)) (edges : List EdgeDict) (u : String)
      → lookup u (adjacency nodes edges) ≡ successors edges u
  unfolding lookup
  lookup-adjacency nodes edges u =
      lookup-group source_of target_of u edges _
      ∙ ap (λ l. l ++ successors edges u) (lookup-empty_groups id_of u nodes [] refl)
