-- ===== src/Workflows/Validator/Correct.antt =====
-- `validate_graph` of backend/app/modules/workflows/validator.py returns no issue exactly for
-- the graphs that meet the description in `Publishable`.
use ai_business_automation.Prelude.{
  suc, String, some, true, false, List, [], ◌∷◌, ◌++◌, ◌≡◌, ◌≢◌, refl, sym, subst, ap, ◌∙◌, ◌↔◌,
  ◌⊎◌, inl, inr, arith, map, length, Member, append-eq-nil, mem-map, mem-select, mem-append,
  length-map, length-append,
}
use mathlib.Core.Path.{fun_ext}
use ai_business_automation.Prelude.Sets.{missing}
use ai_business_automation.Prelude.Groups.{lookup}
use ai_business_automation.Errors.{Issue, ok}
use ai_business_automation.Workflows.Graph.{Values, NodeDict, EdgeDict, GraphDict}
use ai_business_automation.Workflows.Registry.{Registry}
use ai_business_automation.Workflows.Cycles.{Search, report, dfs_all, HasCycle}
use ai_business_automation.Workflows.Cycles.Rule.{dfs_all_keeps}
use ai_business_automation.Workflows.Cycles.Correct.{cycle_reported_iff}
use ai_business_automation.Workflows.Cycles.Total.{dfs_all_ends}
use ai_business_automation.Workflows.Validator.{
  target_of, nodes_with_incoming, outgoing_handles, fresh, id_of, adjacency, unknown_types,
  trigger_requirement, empty_graph, orphans, branches, enough, issues, validate_graph,
}
use ai_business_automation.Workflows.Validator.Publishable.{successors, IsPublishable}
use ai_business_automation.Workflows.Validator.Checks.{
  known_iff, triggered_iff, fed_iff, incoming_iff, branched_iff, lookup-adjacency,
}

missing-nil : (us : List String) → missing us [] ≡ length us
missing-nil [] = refl
missing-nil (u ∷ us) = ap suc (missing-nil us)

-- What the search has logged is either nothing, or it ends in an issue.
abbrev Logged : List Issue → Search → Type 0
Logged before s =
    ((s.cycle_reported ≡ false) × (s.errors ≡ before))
    ⊎ ((s.cycle_reported ≡ true) × (s.errors ≢ []))

append-ne-nil : {A : Type 0} (xs : List A) (y : A) (ys : List A) → xs ++ y ∷ ys ≢ []
append-ne-nil [] y ys h = cc
append-ne-nil (x ∷ xs) y ys h = cc

report-Logged :
    (before : List Issue) (n : String) (s : Search) → Logged before s → Logged before (report n s)
report-Logged before n s (inl (f, e)) = inr (ground arith, rw (f) (append-ne-nil s.errors _ []))
report-Logged before n s (inr (f, e)) = inr (ground arith, rw (f) e)

module _ {v : Values} (nodes : List (NodeDict v)) (edges : List EdgeDict) where
  universe : List String
  universe = map id_of nodes ++ map target_of edges

  universe-closed : (u w : String) → Member w (lookup u (adjacency nodes edges)) → Member w universe
  unfolding universe
  universe-closed u w m =
      let (e, k, t) =
        (mem-map target_of w _).0 (subst (Member w) (lookup-adjacency nodes edges u) m) in
      (mem-append w (map id_of nodes) _).1
        (inr ((mem-map target_of w edges).1 (e, ((mem-select _ e edges).0 k).0, t)))

  -- The search ends, and its flag says whether the nodes lead to a cycle.
  search_lem :
      (before : List Issue)
      → (t : Search) × (dfs_all
            (λ u. lookup u (adjacency nodes edges))
            (enough nodes edges)
            (map id_of nodes)
            (fresh before)
          ≡ some t)
        × ((t.cycle_reported ≡ true) ↔ HasCycle (successors edges) (map id_of nodes))
        × Logged before t
  unfolding universe
  search_lem before =
      let adj = λ (u : String). lookup u (adjacency nodes edges) in
      let (t, e) =
        dfs_all_ends adj universe universe-closed (enough nodes edges) (map id_of nodes)
          (fresh before) (λ n m. (mem-append n (map id_of nodes) _).1 (inl m))
          (omega (
            arith,
            missing-nil universe,
            length-append (map id_of nodes) (map target_of edges),
            length-map id_of nodes,
            length-map target_of edges,
          )) in
      (
        t,
        e,
        subst (λ a. (t.cycle_reported ≡ true) ↔ HasCycle a (map id_of nodes))
            (fun_ext (lookup-adjacency nodes edges))
            (cycle_reported_iff adj (map id_of nodes) (enough nodes edges) (fresh before) t refl
              refl refl e),
        dfs_all_keeps (Logged before) (λ n s h. h) (λ n s h. h) (report-Logged before) adj
            (enough nodes edges) (map id_of nodes) (fresh before) t e (inl (refl, refl)),
      )

module _ {v : Values} (registry : Registry) (nodes : List (NodeDict v))
    (edges : List EdgeDict) where
  abbrev before : List Issue
  before = unknown_types registry nodes ++ (trigger_requirement registry nodes ++ empty_graph nodes)

  abbrev after : List Issue
  after =
      orphans registry (nodes_with_incoming edges) nodes ++ branches (outgoing_handles edges) nodes

  publishable_of_nil :
      (t : Search)
      → ((t.cycle_reported ≡ true) ↔ HasCycle (successors edges) (map id_of nodes))
      → Logged before t
      → t.errors ++ after ≡ []
      → IsPublishable registry nodes edges
  publishable_of_nil t flag (inr (f, ne)) h = absurd (ne (append-eq-nil t.errors after h).0)
  publishable_of_nil t flag (inl (f, same)) h =
      let (none_before, none_after) = append-eq-nil t.errors after h in
      let (k, tr) = append-eq-nil (unknown_types registry nodes) _ (sym same ∙ none_before) in
      let (o, b) =
        append-eq-nil (orphans registry (nodes_with_incoming edges) nodes) _ none_after in
      record {
        known = (known_iff registry nodes).0 k;
        triggered = (triggered_iff registry nodes).0 tr;
        acyclic = λ c. cc (f, flag.1 c);
        fed = λ n m other.
            (incoming_iff edges n.id).0
              ((fed_iff registry (nodes_with_incoming edges) nodes).0 o n m other);
        branched = (branched_iff edges nodes).0 b;
      }

  nil_of_publishable :
      (t : Search)
      → ((t.cycle_reported ≡ true) ↔ HasCycle (successors edges) (map id_of nodes))
      → Logged before t
      → IsPublishable registry nodes edges
      → t.errors ++ after ≡ []
  nil_of_publishable t flag (inr (f, ne)) p = absurd (p.acyclic (flag.0 f))
  nil_of_publishable t flag (inl (f, same)) p =
      rw
        (
          same,
          (known_iff registry nodes).1 p.known,
          (triggered_iff registry nodes).1 p.triggered,
          (fed_iff registry (nodes_with_incoming edges) nodes).1
              (λ n m other. (incoming_iff edges n.id).1 (p.fed n m other)),
        )
        ((branched_iff edges nodes).1 p.branched)

  pub issues-nil_iff :
      (found : List Issue) × (issues registry nodes edges ≡ ok found)
      × ((found ≡ []) ↔ IsPublishable registry nodes edges)
  unfolding issues
  issues-nil_iff =
      let (t, e, flag, logged) = search_lem nodes edges before in
      (
        t.errors ++ after,
        ground arith,
        (publishable_of_nil t flag logged, nil_of_publishable t flag logged),
      )

  -- For a graph dict that has both keys the validator returns a list of issues, and that list is
  -- empty if and only if every node type is registered, some node is a trigger, no cycle can be
  -- reached from a node, every other node has an incoming edge, and every condition node has an
  -- outgoing edge for each of its two branches.
  pub validate_graph-nil_iff :
      (g : GraphDict v)
      → g.nodes ≡ some nodes
      → g.edges ≡ some edges
      → (found : List Issue) × (validate_graph registry g ≡ ok found)
        × ((found ≡ []) ↔ IsPublishable registry nodes edges)
  unfolding validate_graph
  validate_graph-nil_iff g n e = rw (n, e, validate_graph) issues-nil_iff
