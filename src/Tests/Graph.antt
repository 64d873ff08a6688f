-- ===== src/Tests/Graph.antt =====
-- A test of the construction of the canonical graph.
use agent_graph_engine.Prelude.{◌≡◌, refl, Bool, true, false}
use agent_graph_engine.Core.Errors.{Result, ok, err}
use agent_graph_engine.Core.Graph.{define, distinct, collect, validate_edge, add_edge, lookup}
use agent_graph_engine.Core.V1.{canonical_v1_graph}
use agent_graph_engine.Core.V1.Nodes.{v1_nodes}
use agent_graph_engine.Core.V1.Edges.{v1_edges}

abbrev is_ok {ℓ} : {A : Type ℓ} → Result A → Bool
is_ok (ok a) = true
is_ok (err e) = false

canonical_accepted : is_ok canonical_v1_graph ≡ true
unfolding canonical_v1_graph define distinct collect validate_edge add_edge lookup v1_nodes v1_edges
canonical_accepted = refl
