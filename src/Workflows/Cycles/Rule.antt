-- ===== src/Workflows/Cycles/Rule.antt =====
-- How the search of backend/app/modules/workflows/validator.py runs: the ways in which one round
-- of the neighbour loop ends, and the rule for what every update of the state keeps.
use ai_business_automation.Prelude.{
  ℕ, zero, suc, String, Option, none, some, Option-cases, Bool, Bool-cases, true, false, List, [],
  ◌∷◌, ◌≡◌, refl, ◌⊎◌, inl, inr, sym, subst, arith,
}
use ai_business_automation.Prelude.Sets.{contains}
use ai_business_automation.Workflows.Cycles.{Search, enter, leave, report, visit, dfs, dfs_all}

module _ (rec : String → Search → Option (Bool × Search)) where
  -- The four ways through the body of the loop, each with what it returns.
  pub data Round (node_id neighbor : String) (rest : List String) (s : Search) (r : Bool × Search)
      : Type 0 where
    below :
        (s' : Search)
        → rec neighbor s ≡ some (true, s')
        → r ≡ (true, s')
        → Round node_id neighbor rest s r
    onward :
        (s' : Search)
        → rec neighbor s ≡ some (false, s')
        → visit rec node_id rest s' ≡ some r
        → Round node_id neighbor rest s r
    back :
        contains neighbor s.in_stack ≡ true
        → r ≡ (true, report node_id s)
        → Round node_id neighbor rest s r
    settled :
        contains neighbor s.visited ≡ true
        → contains neighbor s.in_stack ≡ false
        → visit rec node_id rest s ≡ some r
        → Round node_id neighbor rest s r

  called :
      (node_id neighbor : String) (rest : List String) (s : Search) {r : Bool × Search}
      (o : Option (Bool × Search))
      → rec neighbor s ≡ o
      → contains neighbor s.visited ≡ false
      → visit rec node_id (neighbor ∷ rest) s ≡ some r
      → Round node_id neighbor rest s r
  unfolding visit
  called node_id neighbor rest s none e new h = ground arith
  called node_id neighbor rest s (some (true, s')) e new h = below s' e (ground arith)
  called node_id neighbor rest s (some (false, s')) e new h = onward s' e (ground arith)

  pub visit-Round :
      (node_id neighbor : String) (rest : List String) (s : Search) {r : Bool × Search}
      → visit rec node_id (neighbor ∷ rest) s ≡ some r
      → Round node_id neighbor rest s r
  unfolding visit
  visit-Round node_id neighbor rest s h = elim (Bool-cases (contains neighbor s.visited)) [
    | inl old ↦ elim (Bool-cases (contains neighbor s.in_stack)) [
      | inl on ↦ back on (ground arith)
      | inr off ↦ settled old off (ground arith)
    ]
    | inr new ↦ called node_id neighbor rest s (rec neighbor s) refl new h
  ]

  pub visit-nil :
      (node_id : String) (s : Search) {r : Bool × Search}
      → visit rec node_id [] s ≡ some r
      → r ≡ (false, leave node_id s)
  unfolding visit
  visit-nil node_id s h = ground arith

-- What `enter`, `leave` and `report` keep is kept by the whole search.
module _ (P : Search → Type 0) (keep_enter : (n : String) (s : Search) → P s → P (enter n s))
    (keep_leave : (n : String) (s : Search) → P s → P (leave n s))
    (keep_report : (n : String) (s : Search) → P s → P (report n s)) where
  abbrev Keeps : (String → Search → Option (Bool × Search)) → Type 0
  Keeps rec = (n : String) (s : Search) (r : Bool × Search) → rec n s ≡ some r → P s → P r.1

  round_keeps :
      (rec : String → Search → Option (Bool × Search)) (node_id : String) (neighbor : String)
      (rest : List String)
      → Keeps rec
      → ((s : Search) (r : Bool × Search) → visit rec node_id rest s ≡ some r → P s → P r.1)
      → (s : Search) (r : Bool × Search) → Round rec node_id neighbor rest s r
      → P s
      → P r.1
  round_keeps rec node_id neighbor rest keep ih s r (below s' e q) p =
      subst (λ t. P t.1) (sym q) (keep neighbor s (true, s') e p)
  round_keeps rec node_id neighbor rest keep ih s r (onward s' e h) p =
      ih s' r h (keep neighbor s (false, s') e p)
  round_keeps rec node_id neighbor rest keep ih s r (back on q) p =
      subst (λ t. P t.1) (sym q) (keep_report node_id s p)
  round_keeps rec node_id neighbor rest keep ih s r (settled old off h) p = ih s r h p

  pub visit_keeps :
      (rec : String → Search → Option (Bool × Search)) (node_id : String) (vs : List String)
      → Keeps rec
      → (s : Search) (r : Bool × Search) → visit rec node_id vs s ≡ some r
      → P s
      → P r.1
  visit_keeps rec node_id [] keep s r h p =
      subst (λ t. P t.1) (sym (visit-nil rec node_id s h)) (keep_leave node_id s p)
  visit_keeps rec node_id (v ∷ vs) keep s r h p =
      round_keeps rec node_id v vs keep (visit_keeps rec node_id vs keep) s r
        (visit-Round rec node_id v vs s h) p

  pub dfs_keeps :
      (adjacency : String → List String) (fuel : ℕ) (node_id : String) (s : Search)
      (r : Bool × Search)
      → dfs adjacency fuel node_id s ≡ some r
      → P s
      → P r.1
  unfolding dfs
  dfs_keeps adjacency zero node_id s r h p = cc
  dfs_keeps adjacency (suc fuel) node_id s r h p =
      visit_keeps (dfs adjacency fuel) node_id (adjacency node_id) (dfs_keeps adjacency fuel)
        (enter node_id s) r h (keep_enter node_id s p)

-- A round of the outer loop.
module _ (adjacency : String → List String) (fuel : ℕ) where
  pub dfs_all-cases :
      (node_id : String) (rest : List String) (s t : Search)
      → dfs_all adjacency fuel (node_id ∷ rest) s ≡ some t
      → ((contains node_id s.visited ≡ true) × (dfs_all adjacency fuel rest s ≡ some t))
        ⊎ ((contains node_id s.visited ≡ false)
            × (r : Bool × Search) × (dfs adjacency fuel node_id s ≡ some r)
            × (dfs_all adjacency fuel rest r.1 ≡ some t))
  unfolding dfs_all
  dfs_all-cases node_id rest s t h = elim (Bool-cases (contains node_id s.visited)) [
    | inl old ↦ inl (old, ground arith)
    | inr new ↦ elim (Option-cases (dfs adjacency fuel node_id s)) [
      | inl out ↦ ground arith
      | inr (r, e) ↦ inr (new, r, e, ground arith)
    ]
  ]

module _ (P : Search → Type 0) (keep_enter : (n : String) (s : Search) → P s → P (enter n s))
    (keep_leave : (n : String) (s : Search) → P s → P (leave n s))
    (keep_report : (n : String) (s : Search) → P s → P (report n s)) where
  pub dfs_all_keeps :
      (adjacency : String → List String) (fuel : ℕ) (roots : List String) (s t : Search)
      → dfs_all adjacency fuel roots s ≡ some t
      → P s
      → P t
  unfolding dfs_all
  dfs_all_keeps adjacency fuel [] s t h p = subst P (ground arith) p
  dfs_all_keeps adjacency fuel (n ∷ rest) s t h p =
      elim (dfs_all-cases adjacency fuel n rest s t h) [
        | inl (old, k) ↦ dfs_all_keeps adjacency fuel rest s t k p
        | inr (new, r, e, k) ↦
            dfs_all_keeps adjacency fuel rest r.1 t k
              (dfs_keeps P keep_enter keep_leave keep_report adjacency fuel n s r e p)
      ]
