-- ===== src/Workflows/Cycles.antt =====
-- The cycle detection of backend/app/modules/workflows/validator.py: the nested function `dfs`,
-- the loop that starts it, and the mutable sets that both share. Fuel stands for the depth of
-- the calls; `none` means that it ran out.
mod Walks
mod Clean
pub mod Rule
pub mod Correct
pub mod Total
pub use Walks.*
use ai_business_automation.Prelude.{
  ℕ, zero, suc, String, Option, none, some, Bool, true, false, List, [], ◌∷◌, ◌++◌, if◌then◌else◌,
}
use ai_business_automation.Prelude.Sets.{contains, discard}
use ai_business_automation.Errors.{Issue}

pub record Search : Type 0 where
  pub visited : List String
  pub in_stack : List String
  pub cycle_reported : Bool
  pub errors : List Issue

-- `visited.add(node_id); in_stack.add(node_id)`
abbrev pub enter : String → Search → Search
enter node_id s = record s { visited = node_id ∷ s.visited; in_stack = node_id ∷ s.in_stack }

-- `in_stack.discard(node_id)`
abbrev pub leave : String → Search → Search
leave node_id s = record s { in_stack = discard node_id s.in_stack }

-- What is done when an edge leads back into the stack.
abbrev pub report : String → Search → Search
report node_id s = if s.cycle_reported then s else record s {
  cycle_reported = true;
  errors = s.errors ++ record { node_id = node_id; message = "Graph contains a cycle" } ∷ [];
}

-- The `for neighbor in adjacency.get(node_id, [])` loop and what follows it; `rec` is `dfs`.
unfoldable pub visit :
    (String → Search → Option (Bool × Search))
    → String
    → List String
    → Search
    → Option (Bool × Search)
visit rec node_id [] s = some (false, leave node_id s)
visit rec node_id (neighbor ∷ rest) s = elim (contains neighbor s.visited) [
  | false ↦ elim (rec neighbor s) [
    | none ↦ none
    | some (found, s') ↦ elim found [ true ↦ some (true, s') | false ↦ visit rec node_id rest s' ]
  ]
  | true ↦ elim (contains neighbor s.in_stack) [
    | true ↦ some (true, report node_id s)
    | false ↦ visit rec node_id rest s
  ]
]

module _ (adjacency : String → List String) where
  unfoldable pub dfs : ℕ → String → Search → Option (Bool × Search)
  dfs zero node_id s = none
  dfs (suc fuel) node_id s = visit (dfs fuel) node_id (adjacency node_id) (enter node_id s)

  -- `for node in nodes: if node["id"] not in visited: dfs(node["id"])`
  unfoldable pub dfs_all : ℕ → List String → Search → Option Search
  dfs_all fuel [] s = some s
  dfs_all fuel (node_id ∷ rest) s = elim (contains node_id s.visited) [
    | true ↦ dfs_all fuel rest s
    | false ↦ elim (dfs fuel node_id s) [ none ↦ none | some (found, s') ↦ dfs_all fuel rest s' ]
  ]
