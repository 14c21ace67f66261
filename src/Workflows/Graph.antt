-- ===== src/Workflows/Graph.antt =====
-- The graphs of backend/app/modules/workflows/schemas.py: `WorkflowGraph`, as pydantic parses
-- it, and the dict that `model_dump` makes of one and the database stores. Values of the types
-- that the code hands on without looking inside are a parameter.
pub mod RoundTrip
use ai_business_automation.Prelude.{String, Option, none, some, List, [], ◌∷◌, map, get_or_else}

-- `float` and `dict[str, Any]`; `int(x)` raises for an infinite float or a NaN.
pub record Values : Type 1 where
  pub Float : Type 0
  pub Int : Type 0
  pub Config : Type 0
  pub empty_config : Config
  pub int : Float → Option Int

pub record NodePosition (v : Values) : Type 0 where
  pub x : v.Float
  pub y : v.Float

pub record GraphNode (v : Values) : Type 0 where
  pub id : String
  pub type_ : String
  pub label : String
  pub position : NodePosition v
  pub config : v.Config

pub record GraphEdge : Type 0 where
  pub id : String
  pub source : String
  pub target : String
  pub source_handle : String
  pub target_handle : String

pub record WorkflowGraph (v : Values) : Type 0 where
  pub nodes : List (GraphNode v)
  pub edges : List GraphEdge

-- A node's dict; `none` stands for a missing key. Each node has an `id`.
pub record NodeDict (v : Values) : Type 0 where
  pub id : String
  pub type_ : Option String
  pub label : Option String
  pub position : Option (NodePosition v)
  pub config : Option v.Config

-- An edge's dict; each edge has a `source` and a `target`.
pub record EdgeDict : Type 0 where
  pub id : Option String
  pub source : String
  pub target : String
  pub source_handle : Option String
  pub target_handle : Option String

pub record GraphDict (v : Values) : Type 0 where
  pub nodes : Option (List (NodeDict v))
  pub edges : Option (List EdgeDict)

abbrev pub dump_edge : GraphEdge → EdgeDict
dump_edge e = record {
  id = some e.id;
  source = e.source;
  target = e.target;
  source_handle = some e.source_handle;
  target_handle = some e.target_handle;
}

module _ {v : Values} where
  abbrev pub dump_node : GraphNode v → NodeDict v
  dump_node n = record {
    id = n.id;
    type_ = some n.type_;
    label = some n.label;
    position = some n.position;
    config = some n.config;
  }

  -- `_graph_to_dict`
  abbrev pub graph_to_dict : WorkflowGraph v → GraphDict v
  graph_to_dict g = record {
    nodes = some (map dump_node g.nodes);
    edges = some (map dump_edge g.edges);
  }

  -- A node must have every field but `config`.
  unfoldable pub validate_node : NodeDict v → Option (GraphNode v)
  validate_node n = elim n.type_ [
    | none ↦ none
    | some t ↦ elim n.label [
      | none ↦ none
      | some l ↦ elim n.position [
        | none ↦ none
        | some p ↦ some (record {
          id = n.id;
          type_ = t;
          label = l;
          position = p;
          config = get_or_else n.config v.empty_config;
        })
      ]
    ]
  ]

-- The handles have defaults.
unfoldable pub validate_edge : EdgeDict → Option GraphEdge
validate_edge e = elim e.id [
  | none ↦ none
  | some i ↦ some (record {
    id = i;
    source = e.source;
    target = e.target;
    source_handle = get_or_else e.source_handle "output";
    target_handle = get_or_else e.target_handle "input";
  })
]

-- A list is valid if each item is.
unfoldable pub validate_all {ℓ κ} :
    {A : Type ℓ} {B : Type κ} → (A → Option B) → List A → Option (List B)
validate_all f [] = some []
validate_all f (x ∷ xs) = elim (f x) [
  | none ↦ none
  | some y ↦ elim (validate_all f xs) [ none ↦ none | some ys ↦ some (y ∷ ys) ]
]

module _ {v : Values} where
  unfoldable validate_parts :
      Option (List (GraphNode v)) → Option (List GraphEdge) → Option (WorkflowGraph v)
  validate_parts none es = none
  validate_parts (some ns) none = none
  validate_parts (some ns) (some es) = some (record { nodes = ns; edges = es })

  -- `WorkflowGraph.model_validate`; `none` is pydantic's `ValidationError`.
  unfoldable pub model_validate : GraphDict v → Option (WorkflowGraph v)
  unfolding validate_parts
  model_validate g = elim g.nodes [
    | none ↦ none
    | some ns ↦ elim g.edges [
      | none ↦ none
      | some es ↦ validate_parts (validate_all validate_node ns) (validate_all validate_edge es)
    ]
  ]
