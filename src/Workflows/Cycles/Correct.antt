-- ===== src/Workflows/Cycles/Correct.antt =====
-- The `cycle_reported` flag of backend/app/modules/workflows/validator.py against the walks of
-- the graph: it is set exactly if a cycle can be reached from a node.
use ai_business_automation.Prelude.{
  ℕ, zero, suc, String, some, Bool, true, false, List, [], ◌∷◌, ◌≡◌, inl, inr, ◌↔◌, arith, Member,
  eq_iff,
}
use ai_business_automation.Prelude.Sets.{contains}
use ai_business_automation.Workflows.Cycles.{
  Search, enter, report, dfs, dfs_all, HasCycle, Safe-Walk, Safe-not-Cycle,
}
use ai_business_automation.Workflows.Cycles.Rule.{
  visit_keeps, dfs_keeps, dfs_all_keeps, dfs_all-cases,
}
use ai_business_automation.Workflows.Cycles.Clean.{IsClean, dfs_all-Between}

module _ (adjacency : String → List String) (nodes : List String) where
  -- No node leaves `visited`, and every node of the list enters it.
  IsVisited : String → Search → Type 0
  IsVisited n s = contains n s.visited ≡ true

  IsVisited-enter : (u n : String) (s : Search) → IsVisited u s → IsVisited u (enter n s)
  unfolding IsVisited
  IsVisited-enter u n s h = ground arith

  IsVisited-report : (u n : String) (s : Search) → IsVisited u s → IsVisited u (report n s)
  unfolding IsVisited
  IsVisited-report u n s h = ground arith

  dfs-IsVisited :
      (fuel : ℕ) (n : String) (s : Search) (r : Bool × Search)
      → dfs adjacency fuel n s ≡ some r
      → IsVisited n r.1
  unfolding dfs IsVisited
  dfs-IsVisited zero n s r h = cc
  dfs-IsVisited (suc fuel) n s r h =
      visit_keeps (IsVisited n) (IsVisited-enter n) (λ m s h. h) (IsVisited-report n)
        (dfs adjacency fuel) n (adjacency n)
        (dfs_keeps (IsVisited n) (IsVisited-enter n) (λ m s h. h) (IsVisited-report n) adjacency
          fuel)
        (enter n s) r h (ground (arith, eq_iff n n))

  dfs_all-IsVisited :
      (fuel : ℕ) (u : String) (roots : List String) (s t : Search)
      → dfs_all adjacency fuel roots s ≡ some t
      → Member u roots
      → IsVisited u t
  unfolding IsVisited
  dfs_all-IsVisited fuel u [] s t h m = absurd m
  dfs_all-IsVisited fuel u (n ∷ rest) s t h m = elim (dfs_all-cases adjacency fuel n rest s t h) [
    | inl (old, k) ↦ elim m [
      | inl e ↦ keep rest s t k (rw e old)
      | inr m' ↦ dfs_all-IsVisited fuel u rest s t k m'
    ]
    | inr (new, r, e, k) ↦ elim m [
      | inl q ↦ keep rest r.1 t k (rw q (dfs-IsVisited fuel n s r e))
      | inr m' ↦ dfs_all-IsVisited fuel u rest r.1 t k m'
    ]
  ]
    where
      keep :
          (rest : List String) (s t : Search)
          → dfs_all adjacency fuel rest s ≡ some t
          → IsVisited u s
          → IsVisited u t
      keep rest s t k v =
          dfs_all_keeps (IsVisited u) (IsVisited-enter u) (λ m s h. h) (IsVisited-report u)
            adjacency fuel rest s t k v

  -- When the loop over the nodes has ended, from empty sets and a cleared flag, the flag is set if
  -- and only if a cycle can be reached from one of the nodes.
  pub cycle_reported_iff :
      (fuel : ℕ) (s t : Search)
      → s.visited ≡ []
      → s.in_stack ≡ []
      → s.cycle_reported ≡ false
      → dfs_all adjacency fuel nodes s ≡ some t
      → (t.cycle_reported ≡ true) ↔ HasCycle adjacency nodes
  unfolding IsVisited
  cycle_reported_iff fuel s t v0 s0 f0 h =
      elim (dfs_all-Between adjacency nodes fuel nodes s t h (λ n m. m) (inl (clean, λ u. rw s0))) [
        | inl (c, empty) ↦ (
          λ f. cc (f, c.flag),
          λ (r, u, m, p, cyc). absurd (
              Safe-not-Cycle
                (Safe-Walk p (elim (c.left r (dfs_all-IsVisited fuel r nodes s t h m)) [
                  | inl on ↦ cc (on, empty r)
                  | inr ok ↦ ok
                ]))
                cyc),
        )
        | inr (f, cyc) ↦ (λ _. cyc, λ _. f)
      ]
    where
      clean : IsClean adjacency nodes s
      clean = record { flag = f0; left = λ u m. cc (rw v0 at m) }
