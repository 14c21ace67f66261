-- ===== src/Workflows/Graph/RoundTrip.antt =====
-- What is stored by `_graph_to_dict` is what `WorkflowGraph.model_validate` reads back.
use ai_business_automation.Prelude.{Option, some, List, [], ◌∷◌, map, ◌≡◌, refl, arith}
use ai_business_automation.Workflows.Graph.{
  Values, WorkflowGraph, dump_node, dump_edge, graph_to_dict, validate_node, validate_edge,
  validate_all, model_validate,
}

validate_all-map {ℓ κ} :
    {A : Type ℓ} {B : Type κ} (f : A → Option B) (g : B → A)
    → ((b : B) → f (g b) ≡ some b)
    → (bs : List B) → validate_all f (map g bs) ≡ some bs
unfolding validate_all
validate_all-map f g h [] = refl
validate_all-map f g h (b ∷ bs) = ground (arith, h b, validate_all-map f g h bs)

-- A graph that was stored as a dict is read back unchanged: no node, edge or default is lost.
pub model_validate-graph_to_dict :
    {v : Values} (g : WorkflowGraph v) → model_validate (graph_to_dict g) ≡ some g
unfolding model_validate validate_node validate_edge
model_validate-graph_to_dict {v} g = ground (
  arith,
  validate_all-map validate_node dump_node (λ n. refl) g.nodes,
  validate_all-map validate_edge dump_edge (λ e. refl) g.edges,
)
