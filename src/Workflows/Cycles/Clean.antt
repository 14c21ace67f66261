-- ===== src/Workflows/Cycles/Clean.antt =====
-- The search of backend/app/modules/workflows/validator.py while it runs: as long as it has found
-- no cycle, the nodes that it has left are safe; when it has found one, there is one.
use ai_business_automation.Prelude.{
  ℕ, zero, suc, String, Option, some, Bool, Bool-cases, true, false, List, [], ◌∷◌, ◌≡◌, refl, ◌⊎◌,
  inl, inr, sym, subst, arith, Member, eq_iff, str_eq,
}
use ai_business_automation.Prelude.Sets.{contains, contains-discard}
use ai_business_automation.Workflows.Cycles.{
  Search, enter, leave, report, visit, dfs, dfs_all, Edge, Walk, here, Safe, safe, HasCycle,
  Walk-snoc,
}
use ai_business_automation.Workflows.Cycles.Rule.{
  Round, below, onward, back, settled, visit-Round, visit-nil, dfs_keeps, dfs_all-cases,
}

module _ (adjacency : String → List String) (nodes : List String) where
  -- No cycle so far: whatever has been left is safe.
  pub record IsClean (s : Search) : Type 0 where
    pub flag : s.cycle_reported ≡ false
    pub left :
        (u : String)
        → contains u s.visited ≡ true
        → (contains u s.in_stack ≡ true) ⊎ Safe adjacency u

  -- The stack lies on walks to the node.
  abbrev LeadsTo : String → Search → Type 0
  LeadsTo n s = (u : String) → contains u s.in_stack ≡ true → Walk adjacency u n

  abbrev Reached : String → Type 0
  Reached n = (r : String) × Member r nodes × Walk adjacency r n

  abbrev Shrinks : Search → Search → Type 0
  Shrinks s t = (u : String) → contains u t.in_stack ≡ true → contains u s.in_stack ≡ true

  -- What a call of `dfs` on `n` leaves.
  abbrev After : String → Search → Bool × Search → Type 0
  After n s (true, t) = (t.cycle_reported ≡ true) × HasCycle adjacency nodes
  After n s (false, t) = IsClean t × Safe adjacency n × Shrinks s t

  abbrev Finds : (String → Search → Option (Bool × Search)) → Type 0
  Finds rec =
      (n : String) (s : Search) (r : Bool × Search)
      → rec n s ≡ some r
      → Reached n
      → IsClean s
      → LeadsTo n s
      → After n s r

  -- Likewise for the neighbour loop, which also takes the node from the stack.
  abbrev Left : String → Search → Bool × Search → Type 0
  Left n s (true, t) = (t.cycle_reported ≡ true) × HasCycle adjacency nodes
  Left n s (false, t) =
      IsClean t
      × Safe adjacency n
      × ((u : String)
          → contains u t.in_stack ≡ true
          → (str_eq n u ≡ false) × (contains u s.in_stack ≡ true))

  leave-Left :
      (n : String) (s : Search) → IsClean s → Safe adjacency n → Left n s (false, leave n s)
  leave-Left n s c ok = (
    record {
      flag = c.flag;
      left = λ u m. elim (Bool-cases (str_eq n u)) [
        | inl e ↦ inr (subst (Safe adjacency) ((eq_iff n u).0 e) ok)
        | inr e ↦ elim (c.left u m) [
          | inl on ↦ inl (ground (arith, contains-discard n u s.in_stack))
          | inr sf ↦ inr sf
        ]
      ];
    },
    ok,
    λ u m. (
      ground (arith, contains-discard n u s.in_stack),
      ground (arith, contains-discard n u s.in_stack),
    ),
  )

  report-flag : (n : String) (s : Search) → (report n s).cycle_reported ≡ true
  report-flag n s = ground arith

  Left-Shrinks :
      (n : String) (s t : Search) (r : Bool × Search) → Shrinks s t → Left n t r → Left n s r
  Left-Shrinks n s t (true, t') sh l = l
  Left-Shrinks n s t (false, t') sh (c, ok, stack) =
      (c, ok, λ u m. ((stack u m).0, sh u (stack u m).1))

  module _ (rec : String → Search → Option (Bool × Search)) (finds : Finds rec) (n : String)
      (reached : Reached n) where
    abbrev Loops : List String → Type 0
    Loops vs =
        (s : Search) (r : Bool × Search)
        → visit rec n vs s ≡ some r
        → ((v : String) → Member v vs → Edge adjacency n v)
        → (((v : String) → Member v vs → Safe adjacency v) → Safe adjacency n)
        → IsClean s
        → LeadsTo n s
        → Left n s r

    step_to : (v : String) → Edge adjacency n v → Reached v
    step_to v e = (reached.0, reached.1, Walk-snoc reached.2 e)

    Safe-rest :
        (v : String) (vs : List String)
        → Safe adjacency v
        → (((w : String) → Member w (v ∷ vs) → Safe adjacency w) → Safe adjacency n)
        → ((w : String) → Member w vs → Safe adjacency w)
        → Safe adjacency n
    Safe-rest v vs ok close rest = close (elim_mem v vs ok rest)
      where
        elim_mem :
            (v : String) (vs : List String)
            → Safe adjacency v
            → ((w : String) → Member w vs → Safe adjacency w)
            → (w : String) → Member w (v ∷ vs)
            → Safe adjacency w
        elim_mem v vs ok rest w (inl e) = subst (Safe adjacency) (sym e) ok
        elim_mem v vs ok rest w (inr m) = rest w m

    Round-Left :
        (v : String) (vs : List String)
        → Loops vs
        → (s : Search) (r : Bool × Search) → Round rec n v vs s r
        → ((w : String) → Member w (v ∷ vs) → Edge adjacency n w)
        → (((w : String) → Member w (v ∷ vs) → Safe adjacency w) → Safe adjacency n)
        → IsClean s
        → LeadsTo n s
        → Left n s r
    Round-Left v vs ih s r (below s' e q) edges close c up = subst (Left n s) (sym q) (
        finds v s (true, s') e (step_to v (edges v (inl refl))) c
          (λ u m. Walk-snoc (up u m) (edges v (inl refl))))
    Round-Left v vs ih s r (onward s' e h) edges close c up =
        let after : After v s (false, s') =
          finds v s (false, s') e (step_to v (edges v (inl refl))) c
            (λ u m. Walk-snoc (up u m) (edges v (inl refl))) in
        Left-Shrinks n s s' r after.2 (
          ih s' r h (λ w m. edges w (inr m)) (Safe-rest v vs after.1 close) after.0
            (λ u m. up u (after.2 u m)))
    Round-Left v vs ih s r (back on q) edges close c up =
        subst (Left n s) (sym q)
          (report-flag n s, (reached.0, n, reached.1, reached.2, (v, edges v (inl refl), up v on)))
    Round-Left v vs ih s r (settled old off h) edges close c up = elim (c.left v old) [
      | inl on ↦ cc
      | inr ok ↦ ih s r h (λ w m. edges w (inr m)) (Safe-rest v vs ok close) c up
    ]

    visit-Left : (vs : List String) → Loops vs
    visit-Left [] s r h edges close c up =
        subst (Left n s) (sym (visit-nil rec n s h)) (leave-Left n s c (close (λ v m. absurd m)))
    visit-Left (v ∷ vs) s r h edges close c up =
        Round-Left v vs (visit-Left vs) s r (visit-Round rec n v vs s h) edges close c up

  enter-IsClean : (n : String) (s : Search) → IsClean s → IsClean (enter n s)
  enter-IsClean n s c = record { flag = c.flag; left = λ u m. ground (arith, c.left u) }

  enter-LeadsTo : (n : String) (s : Search) → LeadsTo n s → LeadsTo n (enter n s)
  enter-LeadsTo n s up u m = elim (Bool-cases (str_eq n u)) [
    | inl e ↦ subst (λ w. Walk adjacency w n) ((eq_iff n u).0 e) here
    | inr e ↦ up u (ground arith)
  ]

  Left-After : (n : String) (s : Search) (r : Bool × Search) → Left n (enter n s) r → After n s r
  Left-After n s (true, t) l = l
  Left-After n s (false, t) (c, ok, stack) =
      (c, ok, λ u m. let (ne, on) = stack u m in ground arith)

  dfs-After : (fuel : ℕ) → Finds (dfs adjacency fuel)
  unfolding dfs
  dfs-After zero n s r h reached c up = cc
  dfs-After (suc fuel) n s r h reached c up = Left-After n s r (
      visit-Left (dfs adjacency fuel) (dfs-After fuel) n reached (adjacency n) (enter n s) r h
        (λ v m. m) safe (enter-IsClean n s c) (enter-LeadsTo n s up))

  -- Between two calls of the outer loop: the stack is empty, or a cycle is known.
  abbrev pub Between : Search → Type 0
  Between s =
      (IsClean s × ((u : String) → contains u s.in_stack ≡ false))
      ⊎ ((s.cycle_reported ≡ true) × HasCycle adjacency nodes)

  flag-dfs :
      (fuel : ℕ) (n : String) (s : Search) (r : Bool × Search)
      → dfs adjacency fuel n s ≡ some r
      → s.cycle_reported ≡ true
      → r.1.cycle_reported ≡ true
  flag-dfs =
      dfs_keeps (λ s. s.cycle_reported ≡ true) (λ n s h. h) (λ n s h. h) (λ n s h. ground arith)
        adjacency

  After-Between :
      (n : String) (s : Search) (r : Bool × Search)
      → After n s r
      → ((u : String) → contains u s.in_stack ≡ false)
      → Between r.1
  After-Between n s (true, t) a empty = inr a
  After-Between n s (false, t) (c, ok, sh) empty = inl (
    c,
    λ u. elim (Bool-cases (contains u t.in_stack)) [
      | inl on ↦ cc (sh u on, empty u)
      | inr off ↦ off
    ],
  )

  dfs-Between :
      (fuel : ℕ) (n : String) (s : Search) (r : Bool × Search)
      → dfs adjacency fuel n s ≡ some r
      → Member n nodes
      → Between s
      → Between r.1
  dfs-Between fuel n s r h m (inl (c, empty)) =
      After-Between n s r (dfs-After fuel n s r h (n, m, here) c (λ u on. cc (on, empty u))) empty
  dfs-Between fuel n s r h m (inr (f, cyc)) = inr (flag-dfs fuel n s r h f, cyc)

  pub dfs_all-Between :
      (fuel : ℕ) (roots : List String) (s t : Search)
      → dfs_all adjacency fuel roots s ≡ some t
      → ((n : String) → Member n roots → Member n nodes)
      → Between s
      → Between t
  unfolding dfs_all
  dfs_all-Between fuel [] s t h sub b = subst Between (ground arith) b
  dfs_all-Between fuel (n ∷ rest) s t h sub b = elim (dfs_all-cases adjacency fuel n rest s t h) [
    | inl (old, k) ↦ dfs_all-Between fuel rest s t k (λ v m. sub v (inr m)) b
    | inr (new, r, e, k) ↦
        dfs_all-Between fuel rest r.1 t k (λ v m. sub v (inr m))
          (dfs-Between fuel n s r e (sub n (inl refl)) b)
  ]
