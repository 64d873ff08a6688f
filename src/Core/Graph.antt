-- ===== src/Core/Graph.antt =====
-- core/graph.py: a static graph definition, validated when it is built. `_nodes_by_id` and
-- `_outgoing` are dictionaries in the source, association lists here.
pub mod Outgoing
use agent_graph_engine.Prelude.{
  String, Bool, true, false, not, ◌&&◌, ◌||◌, Option, none, some, List, [], ◌∷◌, ◌++◌, map, any,
  is_empty, is_some, if◌then◌else◌,
}
use agent_graph_engine.Prelude.Text.{str_eq, contains}
use agent_graph_engine.Core.Errors.{Result, ok, err, graph_definition, ◌>>=◌, ◌>>◌, require, refuse}
use agent_graph_engine.Core.NodeResult.{NodeDefinition}
use agent_graph_engine.Core.Edges.{Edge}

abbrev pub Table {ℓ} : Type ℓ → Type ℓ
Table V = List (String × V)

module _ {ℓ} {V : Type ℓ} where
  -- d[k], or KeyError
  unfoldable pub lookup : String → Table V → Option V
  lookup k [] = none
  lookup k ((j, v) ∷ m) = let rest = lookup k m in if str_eq j k then some v else rest

pub record GraphDefinition : Type 0 where
  pub nodes : List NodeDefinition
  pub edges : List Edge
  pub nodes_by_id : Table NodeDefinition
  pub outgoing_by_id : Table (List Edge)

-- len(xs) == len(set(xs))
unfoldable pub distinct : List String → Bool
distinct [] = true
distinct (x ∷ xs) = not (contains xs x) && distinct xs

abbrev pub known_resume : Option String → List String → Bool
known_resume none ids = true
known_resume (some n) ids = contains ids n

-- _validate_edge; the type tests and the tests that a condition is callable are the types here
unfoldable pub validate_edge : Edge → List String → Result (Unit {0})
validate_edge e node_ids = do
  refuse (str_eq e.id "" || str_eq e.from_node "" || str_eq e.to_node "") graph_definition
  require (contains node_ids e.from_node) graph_definition
  require (contains node_ids e.to_node) graph_definition
  refuse (e.checkpoint && not (is_some e.resume_node)) graph_definition
  require (known_resume e.resume_node node_ids) graph_definition

-- outgoing[edge.from_node].append(edge)
unfoldable pub add_edge : Edge → Table (List Edge) → Table (List Edge)
add_edge e [] = []
add_edge e ((n, es) ∷ m) =
    let rest = add_edge e m in
    if str_eq n e.from_node then (n, es ++ e ∷ []) ∷ m else (n, es) ∷ rest

-- The loop over the edges.
unfoldable pub collect : List String → List Edge → Table (List Edge) → Result (Table (List Edge))
collect node_ids [] m = ok m
collect node_ids (e ∷ es) m = do validate_edge e node_ids; collect node_ids es (add_edge e m)

abbrev pub no_edges : String → String × List Edge
no_edges n = (n, [])

abbrev pub by_id : NodeDefinition → String × NodeDefinition
by_id n = (n.id, n)

abbrev pub stops_early : Edge → Bool
stops_early e = str_eq e.to_node "END" && not e.terminal

abbrev pub stops_elsewhere : Edge → Bool
stops_elsewhere e = e.terminal && not (str_eq e.to_node "END")

abbrev pub has_edges : Option (List Edge) → Bool
has_edges none = false
has_edges (some es) = not (is_empty es)

-- GraphDefinition(nodes, edges), with its __post_init__
unfoldable pub define : List NodeDefinition → List Edge → Result GraphDefinition
define nodes edges = do
  let node_ids = map (λ (n : NodeDefinition). n.id) nodes
  require (distinct node_ids) graph_definition
  require (contains node_ids "START") graph_definition
  require (contains node_ids "END") graph_definition
  require (distinct (map (λ (e : Edge). e.id) edges)) graph_definition
  outgoing ← collect node_ids edges (map no_edges node_ids)
  refuse (has_edges (lookup "END" outgoing)) graph_definition
  refuse (any stops_early edges) graph_definition
  refuse (any stops_elsewhere edges) graph_definition
  ok (record {
    nodes = nodes;
    edges = edges;
    nodes_by_id = map by_id nodes;
    outgoing_by_id = outgoing;
  })

abbrev pub found {ℓ} : {A : Type ℓ} → Option A → Result A
found none = err graph_definition
found (some a) = ok a

-- GraphDefinition.node
unfoldable pub node : GraphDefinition → String → Result NodeDefinition
node g node_id = found (lookup node_id g.nodes_by_id)

-- GraphDefinition.outgoing
unfoldable pub outgoing : GraphDefinition → String → Result (List Edge)
outgoing g node_id = found (lookup node_id g.outgoing_by_id)
