-- ===== src/Workflows/Cycles/Walks.antt =====
-- Walks, cycles and safe nodes of a directed graph that is given by its adjacency lists.
use ai_business_automation.Prelude.{String, List}
use ai_business_automation.Prelude.{Member}

module _ (adjacency : String → List String) where
  abbrev pub Edge : String → String → Type 0
  Edge u v = Member v (adjacency u)

pub data Walk (adjacency : String → List String) : String → String → Type 0 where
  here : {u : String} → Walk adjacency u u
  next : {u v w : String} → Edge adjacency u v → Walk adjacency v w → Walk adjacency u w

-- Every walk from the node ends.
pub data Safe (adjacency : String → List String) : String → Type 0 where
  safe : {u : String} → ((v : String) → Edge adjacency u v → Safe adjacency v) → Safe adjacency u

module _ (adjacency : String → List String) where
  -- A walk of at least one edge from a node back to it.
  abbrev pub Cycle : String → Type 0
  Cycle u = (v : String) × Edge adjacency u v × Walk adjacency v u

  -- Some cycle can be reached from one of the nodes.
  abbrev pub HasCycle : List String → Type 0
  HasCycle nodes = (r : String) × (u : String) × Member r nodes × Walk adjacency r u × Cycle u

pub Walk-snoc :
    {adjacency : String → List String} {u v w : String}
    → Walk adjacency u v
    → Edge adjacency v w
    → Walk adjacency u w
Walk-snoc here e = next e here
Walk-snoc (next d p) e = next d (Walk-snoc p e)

pub Safe-Walk :
    {adjacency : String → List String} {u w : String}
    → Walk adjacency u w
    → Safe adjacency u
    → Safe adjacency w
Safe-Walk here s = s
Safe-Walk (next {v = v} e p) (safe h) = Safe-Walk p (h v e)

Cycle-next :
    {adjacency : String → List String} {u v : String}
    → Edge adjacency u v
    → Walk adjacency v u
    → Cycle adjacency v
Cycle-next {u = u} e here = (u, e, here)
Cycle-next e (next {v = x} d p) = (x, d, Walk-snoc p e)

pub Safe-not-Cycle :
    {adjacency : String → List String} {u : String} → Safe adjacency u → ¬ Cycle adjacency u
Safe-not-Cycle (safe h) (v, e, p) = Safe-not-Cycle (h v e) (Cycle-next e p)
