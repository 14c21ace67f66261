-- ===== src/Workflows/Cycles/Total.antt =====
-- The search of backend/app/modules/workflows/validator.py ends: as much fuel as there are nodes
-- and edges is enough, because a call is made only for a text that was not visited before.
use ai_business_automation.Prelude.{
  ℕ, zero, suc, ◌≤◌, String, Option, some, Bool, Bool-cases, true, false, List, [], ◌∷◌, ◌≡◌, refl,
  inl, inr, arith, Member,
}
use ai_business_automation.Prelude.Sets.{contains, missing, missing-antitone, missing-cons_lt}
use ai_business_automation.Workflows.Cycles.{Search, enter, report, visit, dfs, dfs_all}

-- The universe holds every node that the search can meet.
module _ (adjacency : String → List String) (universe : List String)
    (closed : (u v : String) → Member v (adjacency u) → Member v universe) where
  abbrev Grows : Search → Search → Type 0
  Grows s t = (u : String) → contains u s.visited ≡ true → contains u t.visited ≡ true

  abbrev Ends : Search → Option (Bool × Search) → Type 0
  Ends s o = (r : Bool × Search) × (o ≡ some r) × Grows s r.1

  abbrev Calls : ℕ → (String → Search → Option (Bool × Search)) → Type 0
  Calls fuel rec =
      (n : String) (s : Search)
      → Member n universe
      → contains n s.visited ≡ false
      → missing universe s.visited ≤ fuel
      → Ends s (rec n s)

  visit-Ends :
      (fuel : ℕ) (rec : String → Search → Option (Bool × Search))
      → Calls fuel rec
      → (n : String) (vs : List String) → ((v : String) → Member v vs → Member v universe)
      → (s : Search) → missing universe s.visited ≤ fuel
      → Ends s (visit rec n vs s)
  unfolding visit
  visit-Ends fuel rec calls n [] sub s m = (_, refl, λ u h. h)
  visit-Ends fuel rec calls n (v ∷ vs) sub s m = elim (Bool-cases (contains v s.visited)) [
    | inl old ↦ elim (Bool-cases (contains v s.in_stack)) [
      | inl on ↦ ((true, report n s), ground arith, λ u h. ground arith)
      | inr off ↦
          let (r, e, g) = visit-Ends fuel rec calls n vs (λ w k. sub w (inr k)) s m in
          (r, ground arith, g)
    ]
    | inr new ↦
        after (calls v s (sub v (inl refl)) new m) new
          (visit-Ends fuel rec calls n vs (λ w k. sub w (inr k)))
  ]
    where
      after :
          Ends s (rec v s)
          → contains v s.visited ≡ false
          → ((s' : Search) → missing universe s'.visited ≤ fuel → Ends s' (visit rec n vs s'))
          → Ends s (visit rec n (v ∷ vs) s)
      after ((true, s'), e, g) new ih = ((true, s'), ground arith, g)
      after ((false, s'), e, g) new ih =
          let (r, k, g') =
            ih s' (omega (arith, missing-antitone universe s.visited s'.visited g)) in
          (r, ground arith, λ u h. g' u (g u h))

  pub dfs-Ends :
      (fuel : ℕ) (n : String) (s : Search)
      → Member n universe
      → contains n s.visited ≡ false
      → missing universe s.visited ≤ fuel
      → Ends s (dfs adjacency fuel n s)
  unfolding dfs
  dfs-Ends zero n s m new le = absurd (omega (arith, missing-cons_lt universe s.visited n m new))
  dfs-Ends (suc fuel) n s m new le =
      let (r, e, g) =
        visit-Ends fuel (dfs adjacency fuel) (dfs-Ends fuel) n (adjacency n) (λ v k. closed n v k)
          (enter n s) (omega (arith, missing-cons_lt universe s.visited n m new)) in
      (r, e, λ u h. g u (ground arith))

  -- Over a finite set of nodes that is closed under edges, the loop over some of the nodes ends,
  -- for any fuel of at least the number of nodes that were not visited before.
  pub dfs_all_ends :
      (fuel : ℕ) (roots : List String) (s : Search)
      → ((n : String) → Member n roots → Member n universe)
      → missing universe s.visited ≤ fuel
      → (t : Search) × (dfs_all adjacency fuel roots s ≡ some t)
  unfolding dfs_all
  dfs_all_ends fuel [] s sub le = (s, refl)
  dfs_all_ends fuel (n ∷ rest) s sub le = elim (Bool-cases (contains n s.visited)) [
    | inl old ↦ let (t, e) = dfs_all_ends fuel rest s (λ v m. sub v (inr m)) le in (t, ground arith)
    | inr new ↦
        let (r, e, g) = dfs-Ends fuel n s (sub n (inl refl)) new le in
        let (t, k) =
          dfs_all_ends fuel rest r.1 (λ v m. sub v (inr m))
            (omega (arith, missing-antitone universe s.visited r.1.visited g)) in
        (t, ground arith)
  ]
