-- ===== src/Workflows/Validator.antt =====
-- `validate_graph` of backend/app/modules/workflows/validator.py: each check adds its issues to
-- one list. The search for cycles is in `Cycles`.
pub mod Publishable
mod Checks
pub mod Correct
use Prim.Native.String.{◌++◌ as text_append}
use ai_business_automation.Prelude.{
  ℕ, ◌+◌, String, Option, none, some, Bool, true, false, not, ◌&&◌, List, [], ◌∷◌, ◌++◌, map,
  str_eq, starts_with, if◌then◌else◌, get_or_else, length, select,
}
use ai_business_automation.Prelude.Sets.{contains}
use ai_business_automation.Prelude.Groups.{Groups, lookup, group, empty_groups}
use ai_business_automation.Errors.{Issue, Result, ok, err, uncaught}
use ai_business_automation.Workflows.Graph.{Values, NodeDict, EdgeDict, GraphDict}
use ai_business_automation.Workflows.Registry.{Registry, in_registry}
use ai_business_automation.Workflows.Cycles.{Search, dfs_all}

-- `e.get("sourceHandle", "output")`
abbrev pub handle : EdgeDict → String
handle e = get_or_else e.source_handle "output"

-- `e["source"]` and `e["target"]`
abbrev pub source_of : EdgeDict → String
source_of e = e.source

abbrev pub target_of : EdgeDict → String
target_of e = e.target

-- `nodes_with_incoming`
abbrev pub nodes_with_incoming : List EdgeDict → List String
nodes_with_incoming edges = map target_of edges

-- `outgoing_handles`
abbrev pub outgoing_handles : List EdgeDict → Groups
outgoing_handles edges = group source_of handle edges []

-- The search before its first call, with the issues found so far.
abbrev pub fresh : List Issue → Search
fresh errors = record { visited = []; in_stack = []; cycle_reported = false; errors = errors }

unfoldable missing_branch : String → String → List String → List Issue
missing_branch node_id branch handles =
    if contains branch handles
    then []
    else record {
      node_id = node_id;
      message = text_append "Condition node missing '" (text_append branch "' outgoing edge");
    }
      ∷ []

module _ {v : Values} where
  -- `n.get("type", "")`
  abbrev pub type_of : NodeDict v → String
  type_of n = get_or_else n.type_ ""

  abbrev pub id_of : NodeDict v → String
  id_of n = n.id

  -- `adjacency`
  abbrev pub adjacency : List (NodeDict v) → List EdgeDict → Groups
  adjacency nodes edges = group source_of target_of edges (empty_groups id_of nodes [])

  -- `ntype in trigger_types`, the registered types that start with "trigger."
  abbrev pub is_trigger : Registry → NodeDict v → Bool
  is_trigger registry n = in_registry (type_of n) registry && starts_with (type_of n) "trigger."

  unfoldable pub unknown_types : Registry → List (NodeDict v) → List Issue
  unknown_types registry [] = []
  unknown_types registry (n ∷ nodes) =
      let rest = unknown_types registry nodes in
      if in_registry (type_of n) registry
      then rest
      else record {
        node_id = n.id;
        message = text_append "Unknown node type '" (text_append (type_of n) "'");
      }
        ∷ rest

  unfoldable pub trigger_requirement : Registry → List (NodeDict v) → List Issue
  trigger_requirement registry nodes = elim (select (is_trigger registry) nodes) [
    | [] ↦ record { node_id = ""; message = "Graph must contain at least one trigger node" } ∷ []
    | _ ↦ []
  ]

  unfoldable pub empty_graph : List (NodeDict v) → List Issue
  empty_graph [] = record { node_id = ""; message = "Graph must contain at least one node" } ∷ []
  empty_graph (n ∷ nodes) = []

  unfoldable pub orphans : Registry → List String → List (NodeDict v) → List Issue
  orphans registry incoming [] = []
  orphans registry incoming (n ∷ nodes) =
      let rest = orphans registry incoming nodes in
      if is_trigger registry n
      then rest
      else if contains n.id incoming
      then rest
      else record {
        node_id = n.id;
        message = text_append "Node '" (text_append n.id "' is orphaned (no incoming edge)");
      }
        ∷ rest

  unfoldable pub branches : Groups → List (NodeDict v) → List Issue
  unfolding missing_branch
  branches handles [] = []
  branches handles (n ∷ nodes) =
      let rest = branches handles nodes in
      if str_eq (type_of n) "action.condition"
      then missing_branch n.id "true" (lookup n.id handles)
        ++ (missing_branch n.id "false" (lookup n.id handles) ++ rest)
      else rest

  -- One call of `dfs` for each node and each edge is more than can be nested.
  abbrev pub enough : List (NodeDict v) → List EdgeDict → ℕ
  enough nodes edges = length nodes + length edges

  -- The checks, for a graph that has both keys.
  unfoldable pub issues : Registry → List (NodeDict v) → List EdgeDict → Result (List Issue)
  issues registry nodes edges =
      let before =
        unknown_types registry nodes ++ (trigger_requirement registry nodes ++ empty_graph nodes) in
      elim (dfs_all (λ u. lookup u (adjacency nodes edges)) (enough nodes edges) (map id_of nodes)
        (fresh before)) [
          | none ↦ err uncaught
          | some t ↦ ok (
              t.errors
              ++ (orphans registry (nodes_with_incoming edges) nodes
                  ++ branches (outgoing_handles edges) nodes))
        ]

  -- `validate_graph`; a missing key raises the module's `ValidationError`, which nothing catches.
  unfoldable pub validate_graph : Registry → GraphDict v → Result (List Issue)
  unfolding issues
  validate_graph registry g = elim g.nodes [
    | none ↦ err uncaught
    | some nodes ↦ elim g.edges [ none ↦ err uncaught | some edges ↦ issues registry nodes edges ]
  ]
