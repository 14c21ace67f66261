-- ===== src/Workflows/Validator/Publishable.antt =====
-- What backend/app/modules/workflows/validator.py asks of a graph, said of nodes and edges
-- alone, with no search and no lists of issues.
use ai_business_automation.Prelude.{String, true, false, List, ◌≡◌, map, str_eq, select, Member}
use ai_business_automation.Workflows.Graph.{Values, NodeDict, EdgeDict}
use ai_business_automation.Workflows.Registry.{Registry, in_registry}
use ai_business_automation.Workflows.Cycles.{HasCycle}
use ai_business_automation.Workflows.Validator.{handle, target_of, type_of, id_of, is_trigger}

-- The targets of the edges that leave a node.
abbrev pub successors : List EdgeDict → String → List String
successors edges u = map target_of (select (λ e. str_eq e.source u) edges)

abbrev pub HasBranch : List EdgeDict → String → String → Type 0
HasBranch edges id branch = (e : EdgeDict) × Member e edges × (e.source ≡ id) × (handle e ≡ branch)

module _ {v : Values} (registry : Registry) (nodes : List (NodeDict v))
    (edges : List EdgeDict) where
  pub record IsPublishable : Type 0 where
    pub known : (n : NodeDict v) → Member n nodes → in_registry (type_of n) registry ≡ true
    pub triggered : (n : NodeDict v) × Member n nodes × (is_trigger registry n ≡ true)
    pub acyclic : ¬ HasCycle (successors edges) (map id_of nodes)
    pub fed :
        (n : NodeDict v)
        → Member n nodes
        → is_trigger registry n ≡ false
        → (e : EdgeDict) × Member e edges × (e.target ≡ n.id)
    pub branched :
        (n : NodeDict v)
        → Member n nodes
        → type_of n ≡ "action.condition"
        → HasBranch edges n.id "true" × HasBranch edges n.id "false"
