-- ===== src/Core/V1.antt =====
-- core/v1_graph.py: the canonical graph. `Edges` builds its edges, `Nodes` its nodes.
pub mod Nodes
pub mod Edges
pub mod Routes
pub mod Moves
pub mod Refines
pub mod Steps
pub mod Gates
pub mod Reach
pub mod Entries
pub mod Measure
pub mod Bounded
use agent_graph_engine.Prelude.{List}
use agent_graph_engine.Core.Errors.{Result}
use agent_graph_engine.Core.Edges.{Edge}
use agent_graph_engine.Core.Graph.{GraphDefinition, define}
use Nodes.{v1_nodes}
use Edges.{v1_edges}

-- canonical_v1_graph
unfoldable pub canonical_v1_graph : Result GraphDefinition
canonical_v1_graph = define v1_nodes v1_edges
