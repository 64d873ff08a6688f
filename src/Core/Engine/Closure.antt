-- ===== src/Core/Engine/Closure.antt =====
-- core/engine.py on a graph that passed the checks of core/graph.py: where a result leads.
use agent_graph_engine.Prelude.{
  String, ◌≡◌, sym, ap, ◌∙◌, true, false, List, [], ◌∷◌, map, arith, All,
}
use agent_graph_engine.Prelude.Text.{str_eq, contains}
use agent_graph_engine.Prelude.Select.{All-select, All-map, All_place, none_of_any}
use agent_graph_engine.Core.Errors.{ok}
use agent_graph_engine.Core.State.{GraphState}
use agent_graph_engine.Core.NodeResult.{NodeResult, NodeDefinition}
use agent_graph_engine.Core.Edges.{Edge, Transition}
use agent_graph_engine.Core.Graph.{
  lookup, define, node, outgoing, by_id, found, stops_early, stops_elsewhere,
}
use agent_graph_engine.Core.Graph.Outgoing.{
  node_ids, leaves, IsKnown, define-IsAccepted, outgoing_exact, edges-IsKnown,
}
use agent_graph_engine.Core.Engine.{GraphEngine, apply_result, validate_result_identity}
use agent_graph_engine.Core.Engine.Choice.{evaluate_transition_exact}
use agent_graph_engine.Core.Engine.Applied.{
  IsApplied, apply_result-IsApplied, apply_patch-SameOwned, execute-IsMoved,
}

contains-lookup :
    (n : String) (nodes : List NodeDefinition) {d : NodeDefinition}
    → found (lookup n (map by_id nodes)) ≡ ok d
    → contains (node_ids nodes) n ≡ true
unfolding lookup
contains-lookup n [] h = absurd (ground arith)
contains-lookup n (x ∷ nodes) {d = d} h = ground (arith, contains-lookup n nodes {d = d})

-- What the checks say of one edge.
abbrev IsSound : List String → Edge → Type 0
IsSound ids e = (contains ids e.to_node ≡ true) × (e.terminal ≡ str_eq e.to_node "END")

IsSound-edge :
    (ids : List String) (e : Edge)
    → IsKnown ids e
    → stops_early e ≡ false
    → stops_elsewhere e ≡ false
    → IsSound ids e
IsSound-edge ids e known early late = ground arith

IsSound-edges :
    (ids : List String) (es : List Edge)
    → All (IsKnown ids) es
    → All (λ e. stops_early e ≡ false) es
    → All (λ e. stops_elsewhere e ≡ false) es
    → All (IsSound ids) es
IsSound-edges ids [] h k l = tt
IsSound-edges ids (e ∷ es) h k l =
    (IsSound-edge ids e h.0 k.0 l.0, IsSound-edges ids es h.1 k.1 l.1)

identified :
    (s : GraphState) (r : NodeResult)
    → validate_result_identity s r ≡ ok tt
    → str_eq r.node_id s.graph.current_node ≡ true
unfolding validate_result_identity
identified s r h = ground arith

module _ (nodes : List NodeDefinition) (edges : List Edge) (e : GraphEngine) (s : GraphState)
    (r : NodeResult) {s' : GraphState} {t : Transition} (built : define nodes edges ≡ ok e.graph)
    (done : apply_result e s r ≡ ok (s', t)) where
  at_declared : (a : IsApplied e s r s' t) → contains (node_ids nodes) s.graph.current_node ≡ true
  unfolding node
  at_declared a = contains-lookup s.graph.current_node nodes (
      ap (λ m. found (lookup s.graph.current_node m))
        (sym (define-IsAccepted nodes edges built).by_ids)
      ∙ a.declared)

  -- In an engine over an accepted graph an applied result leaves the cursor at a declared node,
  -- and its transition is marked terminal exactly if that node is END.
  pub apply_result_declared :
      (contains (node_ids nodes) s'.graph.current_node ≡ true)
      × (t.terminal ≡ str_eq s'.graph.current_node "END")
  apply_result_declared =
      let a = apply_result-IsApplied e s r done in
      let owned =
        apply_patch-SameOwned s r.state_patch a.definition.allowed_patch_paths a.applied in
      let here = ap (λ g. g.current_node) owned.graph in
      let out =
        ap (outgoing e.graph) here
        ∙ outgoing_exact nodes edges built s.graph.current_node (at_declared a) in
      let (x, (before, after, place, _, _), shape) =
        (evaluate_transition_exact e a.patched r
            (ap (str_eq r.node_id) here ∙ identified s r a.identified) out t).0
          a.chosen in
      let acc = define-IsAccepted nodes edges built in
      let sound =
        IsSound-edges (node_ids nodes) edges (edges-IsKnown nodes edges built)
          (none_of_any stops_early edges acc.end_terminal)
          (none_of_any stops_elsewhere edges acc.terminal_ends) in
      let kept =
        All-select (IsSound (node_ids nodes)) (leaves s.graph.current_node) edges
          (All-map (IsSound (node_ids nodes)) _ edges (λ _ h _. h) sound) in
      let good = All_place (IsSound (node_ids nodes)) before after _ x place kept in
      ground (arith, a.final, execute-IsMoved e.policy a.patched t a.executed, shape, good)
