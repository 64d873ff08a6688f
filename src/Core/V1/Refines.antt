-- ===== src/Core/V1/Refines.antt =====
-- core/engine.py on the canonical graph of core/v1_graph.py, against the decision table.
use agent_graph_engine.Prelude.{
  String, ◌≡◌, refl, sym, ap, ◌∙◌, subst, true, false, Option, none, some, List, map, arith, select,
  eq_iff,
}
use agent_graph_engine.Prelude.Text.{str_eq, contains, same_option}
use agent_graph_engine.Core.Errors.{Result, ok, err}
use agent_graph_engine.Core.State.{GraphState}
use agent_graph_engine.Core.Policy.{PolicySnapshot}
use agent_graph_engine.Core.NodeResult.{NodeResult, NodeDefinition, node_result}
use agent_graph_engine.Core.Edges.{Edge}
use agent_graph_engine.Core.Graph.{GraphDefinition, outgoing}
use agent_graph_engine.Core.Graph.Outgoing.{leaves, outgoing_exact}
use agent_graph_engine.Core.Engine.{GraphEngine, eligible, choose, transition, evaluate_transition}
use agent_graph_engine.Core.Engine.Choice.{evaluate-eq, conclude}
use agent_graph_engine.Core.V1.{canonical_v1_graph}
use agent_graph_engine.Core.V1.Nodes.{v1_nodes, v1_node_ids}
use agent_graph_engine.Core.V1.Edges.{v1_edges}
use agent_graph_engine.Core.V1.Routes.{Stage, stage_id, route}
use agent_graph_engine.Core.V1.Moves.{Move, transition_move, result_move, route_move}

abbrev pub stage_edges : Stage → List Edge
stage_edges n = select (leaves (stage_id n)) v1_edges

abbrev edge_move : PolicySnapshot → GraphState → NodeResult → Result Edge → Result Move
edge_move p s r (ok e) = ok (transition_move (transition s r p e))
edge_move p s r (err e) = err e

-- The move of the edge that is chosen.
chosen_move : PolicySnapshot → GraphState → NodeResult → List Edge → Result Move
unfolding eligible choose
chosen_move p s r es = edge_move p s r (choose (select (eligible s r p) es))

-- A checkpoint does not resume at both stages.
one_resume :
    (o : Option String)
    → same_option o (some "IMPLEMENT") ≡ true
    → same_option o (some "CREATE_PR") ≡ false
one_resume none h = refl
one_resume (some x) h =
    subst (λ y. str_eq y "CREATE_PR" ≡ false) (sym ((eq_iff x "IMPLEMENT").0 h)) refl

abbrev Follows : Stage → Type 0
Follows n =
    (p : PolicySnapshot) (s : GraphState) (r : NodeResult)
    → node_result r ≡ ok r
    → chosen_move p s r (stage_edges n) ≡ route_move n (route p n s r)

stage-Follows : (n : Stage) → ¬ (n ≡ Stage.done) → Follows n
unfolding chosen_move v1_edges route node_result
stage-Follows Stage.start live p s r h = ground arith
stage-Follows Stage.done live p s r h = absurd (live refl)
stage-Follows _ live p s r h = ground (arith, one_resume s.graph.pending_resume_node)

stage_declared : (n : Stage) → contains v1_node_ids (stage_id n) ≡ true
stage_declared Stage.start = refl
stage_declared _ = refl

v1_ids : map (λ (d : NodeDefinition). d.id) v1_nodes ≡ v1_node_ids
unfolding v1_nodes
v1_ids = refl

module _ {g : GraphDefinition} (built : canonical_v1_graph ≡ ok g) where
  pub outgoing_v1 : (n : Stage) → outgoing g (stage_id n) ≡ ok (stage_edges n)
  unfolding canonical_v1_graph
  outgoing_v1 n =
      outgoing_exact v1_nodes v1_edges built (stage_id n)
        (ap (λ ids. contains ids (stage_id n)) v1_ids ∙ stage_declared n)

  -- On the canonical graph the engine and the decision table agree: for a result that belongs to
  -- the current stage, not END, and fits the contract of results, the engine makes just the move that the
  -- table names (source, target, checkpoint, resume target, terminal mark, final status), reports
  -- that there is no valid transition just where the table is stuck, and never meets an ambiguity.
  pub evaluate-route :
      (e : GraphEngine) (n : Stage) (s : GraphState) (r : NodeResult)
      → e.graph ≡ g
      → ¬ (n ≡ Stage.done)
      → s.graph.current_node ≡ stage_id n
      → r.node_id ≡ stage_id n
      → node_result r ≡ ok r
      → result_move (evaluate_transition e s r) ≡ route_move n (route e.policy n s r)
  unfolding chosen_move
  evaluate-route e n s r graph live here named contract =
      ap result_move (evaluate-eq e s r identified declared)
      ∙ moved (choose (select (eligible s r e.policy) (stage_edges n)))
      ∙ stage-Follows n live e.policy s r contract
    where
      identified : str_eq r.node_id s.graph.current_node ≡ true
      identified = (eq_iff r.node_id s.graph.current_node).1 (named ∙ sym here)

      declared : outgoing e.graph s.graph.current_node ≡ ok (stage_edges n)
      declared =
          ap (λ x. outgoing x s.graph.current_node) graph ∙ ap (outgoing g) here ∙ outgoing_v1 n

      moved :
          (c : Result Edge)
          → result_move (conclude e s r identified declared c) ≡ edge_move e.policy s r c
      moved (ok x) = refl
      moved (err x) = refl
