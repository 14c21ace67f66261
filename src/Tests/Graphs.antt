-- ===== src/Tests/Graphs.antt =====
-- Runs of the validator, the search and the registry of backend/app/modules/workflows.
use ai_business_automation.Prelude.Groups.{append_at, empty_groups, group, lookup, put_empty}
use ai_business_automation.Prelude.{
  String, none, some, true, List, [], ◌∷◌, ◌++◌, ◌≡◌, refl, ◌↔◌, map, str_eq, if◌then◌else◌, arith,
}
use ai_business_automation.Errors.{Issue, ok}
use ai_business_automation.Workflows.Graph.{dump_node, dump_edge, graph_to_dict}
use ai_business_automation.Workflows.Registry.{node_registry, get_node_class, register_node, delay}
use ai_business_automation.Workflows.Registry.{get_node_class-register_node}
use ai_business_automation.Workflows.Cycles.{Search, dfs_all, HasCycle, dfs, visit}
use ai_business_automation.Workflows.Cycles.Correct.{cycle_reported_iff}
use ai_business_automation.Workflows.Cycles.Total.{dfs_all_ends}
use ai_business_automation.Workflows.Validator.{
  fresh, validate_graph, branches, empty_graph, orphans, trigger_requirement, unknown_types,
}
use ai_business_automation.Workflows.Validator.Publishable.{IsPublishable}
use ai_business_automation.Workflows.Validator.Correct.{validate_graph-nil_iff}
use ai_business_automation.Workflows.Graph.{model_validate}
use ai_business_automation.Workflows.Graph.RoundTrip.{model_validate-graph_to_dict}
use ai_business_automation.Tests.Samples.{invoice_flow, looping_flow}

invoice_flow_passes : validate_graph node_registry (graph_to_dict invoice_flow) ≡ ok []
unfolding validate_graph node_registry dfs_all dfs visit lookup group append_at empty_groups
    put_empty unknown_types trigger_requirement empty_graph orphans branches
invoice_flow_passes = refl

looping_flow_fails :
    validate_graph node_registry (graph_to_dict looping_flow)
    ≡ ok (
        record { node_id = "check"; message = "Graph contains a cycle" }
        ∷ record { node_id = "check"; message = "Condition node missing 'false' outgoing edge" }
        ∷ [])
unfolding validate_graph node_registry dfs_all dfs visit lookup group append_at empty_groups
    put_empty unknown_types trigger_requirement empty_graph orphans branches
looping_flow_fails = refl

validate_graph-nil_iff_example :
    (found : List Issue) × (validate_graph node_registry (graph_to_dict looping_flow) ≡ ok found)
    × ((found ≡ [])
        ↔ IsPublishable node_registry
            (map dump_node looping_flow.nodes)
            (map dump_edge looping_flow.edges))
validate_graph-nil_iff_example =
    validate_graph-nil_iff node_registry (map dump_node looping_flow.nodes)
      (map dump_edge looping_flow.edges) (graph_to_dict looping_flow) refl refl

model_validate-graph_to_dict_example :
    model_validate (graph_to_dict invoice_flow) ≡ some invoice_flow
model_validate-graph_to_dict_example = model_validate-graph_to_dict invoice_flow

-- Both nodes have an edge to each.
abbrev both_ways : String → List String
both_ways u = "a" ∷ "b" ∷ []

abbrev searched : Search
searched = record {
  visited = "b" ∷ "a" ∷ [];
  in_stack = "b" ∷ "a" ∷ [];
  cycle_reported = true;
  errors = record { node_id = "a"; message = "Graph contains a cycle" } ∷ [];
}

searched_lem : dfs_all both_ways 2 ("a" ∷ "b" ∷ []) (fresh []) ≡ some searched
unfolding dfs_all dfs visit
searched_lem = refl

cycle_reported_iff_example : (searched.cycle_reported ≡ true) ↔ HasCycle both_ways ("a" ∷ "b" ∷ [])
cycle_reported_iff_example =
    cycle_reported_iff both_ways ("a" ∷ "b" ∷ []) 2 (fresh []) searched refl refl refl searched_lem

dfs_all_ends_example : (t : Search) × (dfs_all both_ways 2 ("a" ∷ "b" ∷ []) (fresh []) ≡ some t)
dfs_all_ends_example =
    dfs_all_ends both_ways ("a" ∷ "b" ∷ []) (λ u v m. m) 2 ("a" ∷ "b" ∷ []) (fresh []) (λ n m. m)
      (omega arith)

-- One more type.
get_node_class-register_node_example :
    (get_node_class "action.wait" node_registry ≡ none)
    × (get_node_class "action.delay" (node_registry ++ ("action.wait", delay) ∷ []) ≡ (
        if str_eq "action.wait" "action.delay"
        then some delay
        else get_node_class "action.delay" node_registry))
unfolding register_node node_registry
get_node_class-register_node_example =
    get_node_class-register_node "action.wait" "action.delay" delay node_registry
      (node_registry ++ ("action.wait", delay) ∷ []) refl
