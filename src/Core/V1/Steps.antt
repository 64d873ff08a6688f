-- ===== src/Core/V1/Steps.antt =====
-- One applied result on the canonical graph, by the decision table.
use agent_graph_engine.Prelude.{
  String, ◌≡◌, refl, sym, ap, ◌∙◌, map, Bool, true, false, List, [], arith, select, eq_iff,
}
use agent_graph_engine.Core.Errors.{Result, ok, err, ◌>>=◌, ok_inj, no_valid_transition}
use agent_graph_engine.Core.State.{GraphState}
use agent_graph_engine.Core.Policy.{PolicySnapshot}
use agent_graph_engine.Core.NodeResult.{NodeResult, NodeDefinition, node_result}
use agent_graph_engine.Core.Edges.{Edge, Transition}
use agent_graph_engine.Core.Graph.{GraphDefinition, lookup, node, outgoing, by_id, found}
use agent_graph_engine.Core.Graph.Outgoing.{define-IsAccepted}
use agent_graph_engine.Core.Patches.Frame.{SameOwned}
use agent_graph_engine.Core.Engine.{
  GraphEngine, apply_result, apply_patch, execute_transition, evaluate_transition,
  validate_result_identity, choose, versioned, eligible, reset_for, count_repair, route_risk,
  lock_scope, pending_after, status_after,
}
use agent_graph_engine.Core.Engine.Choice.{evaluate-eq}
use agent_graph_engine.Core.Engine.Applied.{apply_result-IsApplied, apply_patch-SameOwned}
use agent_graph_engine.Core.V1.{canonical_v1_graph}
use agent_graph_engine.Core.V1.Nodes.{v1_nodes, v1_node}
use agent_graph_engine.Core.V1.Edges.{v1_edges}
use agent_graph_engine.Core.V1.Routes.{Stage, stage_id, Route, route}
use agent_graph_engine.Core.V1.Moves.{transition_move, result_move, route_move, blank_transition}
use agent_graph_engine.Core.V1.Refines.{evaluate-route, outgoing_v1, stage_edges}

-- The state after a route, from the state after the patch.
unfoldable pub land : PolicySnapshot → Stage → GraphState → Route → Result GraphState
land p n q rt = route_move n rt >>= λ m. execute_transition p q (blank_transition m)

-- What the engine does with a transition depends on its move alone.
execute-blank :
    (p : PolicySnapshot) (q : GraphState) (t : Transition)
    → execute_transition p q t ≡ execute_transition p q (blank_transition (transition_move t))
unfolding execute_transition reset_for count_repair route_risk lock_scope pending_after status_after
execute-blank p q t = refl

-- The paths that the node of a stage may patch.
abbrev pub stage_paths : Stage → List String
stage_paths n = (v1_node (stage_id n)).allowed_patch_paths

abbrev live_stage : Stage → Bool
live_stage Stage.done = false
live_stage _ = true

identified_at :
    (s : GraphState) (r : NodeResult) (n : Stage)
    → s.graph.current_node ≡ stage_id n
    → validate_result_identity s r ≡ ok tt
    → r.node_id ≡ stage_id n
unfolding validate_result_identity
identified_at s r n here h = (eq_iff r.node_id s.graph.current_node).0 (ground arith) ∙ here

-- How an applied result came about on the canonical graph.
pub record IsStep (e : GraphEngine) (n : Stage) (s : GraphState) (r : NodeResult) (s' : GraphState)
    : Type 0 where
  pub live : ¬ (n ≡ Stage.done)
  pub patched : GraphState
  pub applied : apply_patch s r.state_patch (stage_paths n) ≡ ok patched
  pub owned : SameOwned s patched
  pub moved : GraphState
  pub landed : land e.policy n patched (route e.policy n patched r) ≡ ok moved
  pub final : s' ≡ versioned s moved

stage_node :
    (n : Stage) → found (lookup (stage_id n) (map by_id v1_nodes)) ≡ ok (v1_node (stage_id n))
unfolding lookup v1_nodes
stage_node Stage.start = refl
stage_node _ = refl

declared_v1 :
    {g : GraphDefinition} (n : Stage) {d : NodeDefinition}
    → canonical_v1_graph ≡ ok g
    → node g (stage_id n) ≡ ok d
    → d ≡ v1_node (stage_id n)
unfolding canonical_v1_graph node
declared_v1 n built h =
    let tables = (define-IsAccepted v1_nodes v1_edges built).by_ids in
    ok_inj (sym h ∙ ap (λ m. found (lookup (stage_id n) m)) tables ∙ stage_node n)

done_edges : stage_edges Stage.done ≡ []
unfolding v1_edges
done_edges = refl

choose_none : (es : List Edge) → es ≡ [] → choose es ≡ err no_valid_transition
unfolding choose
choose_none es h = rw h

module _ {g : GraphDefinition} (built : canonical_v1_graph ≡ ok g) (e : GraphEngine) (n : Stage)
    (s : GraphState) (r : NodeResult) {s' : GraphState} {t : Transition} (graph : e.graph ≡ g)
    (here : s.graph.current_node ≡ stage_id n) (contract : node_result r ≡ ok r)
    (done : apply_result e s r ≡ ok (s', t)) where
  not_done :
      (q : GraphState)
      → q.graph.current_node ≡ stage_id n
      → r.node_id ≡ stage_id n
      → evaluate_transition e q r ≡ ok t
      → ¬ (n ≡ Stage.done)
  not_done q at_q named chosen over =
      let identified = (eq_iff r.node_id q.graph.current_node).1 (named ∙ sym at_q) in
      let out =
        ap (λ x. outgoing x q.graph.current_node) graph
        ∙ ap (outgoing g) at_q
        ∙ outgoing_v1 built n in
      let nothing = ap stage_edges over ∙ done_edges in
      let stuck' =
        choose_none (select (eligible q r e.policy) (stage_edges n))
          (ap (select (eligible q r e.policy)) nothing) in
      absurd (ground (arith, evaluate-eq e q r identified out, stuck', chosen))

  pub IsStep-v1 : IsStep e n s r s'
  unfolding land
  IsStep-v1 =
      let a = apply_result-IsApplied e s r done in
      let d =
        declared_v1 n {d = a.definition} built
          (ap (λ x. node x (stage_id n)) (sym graph) ∙ ap (node e.graph) (sym here) ∙ a.declared) in
      let applied =
        ap (λ (x : NodeDefinition). apply_patch s r.state_patch x.allowed_patch_paths) (sym d)
        ∙ a.applied in
      let owned = apply_patch-SameOwned s r.state_patch (stage_paths n) applied in
      let named = identified_at s r n here a.identified in
      let at_q = ap (λ x. x.current_node) owned.graph ∙ here in
      let live = not_done a.patched at_q named a.chosen in
      let same = evaluate-route built e n a.patched r graph live at_q named contract in
      record {
        live = live;
        patched = a.patched;
        applied = applied;
        owned = owned;
        moved = a.moved;
        landed =
            ap (λ x. x >>= λ m. execute_transition e.policy a.patched (blank_transition m))
              (sym same ∙ ap result_move a.chosen)
            ∙ sym (execute-blank e.policy a.patched t)
            ∙ a.executed;
        final = a.final;
      }
