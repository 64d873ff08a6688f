-- ===== src/Runtime/Crash/Same.antt =====
-- The comparisons of recovery, on a value and itself.
use agent_graph_engine.Prelude.{
  String, ◌≡◌, refl, true, Option, none, some, List, [], ◌∷◌, arith, eq_iff,
}
use agent_graph_engine.Core.Errors.{ok}
use agent_graph_engine.Core.Enums.{RunStatus, same, run_status_enumerated}
use agent_graph_engine.Core.State.{GraphState}
use agent_graph_engine.Core.NodeResult.{NodeResult, NodeContext}
use agent_graph_engine.Core.Edges.{GuardResult, Transition}
use agent_graph_engine.Core.Engine.{GraphEngine, build_node_context, invoke_node}
use agent_graph_engine.Runtime.Disk.{Coordinator, FinalReceipt}
use agent_graph_engine.Runtime.Evidence.{
  same_guard_results, same_status, same_transition, attempt_matches,
}
use agent_graph_engine.Runtime.Recovery.{verify_recomputed}
use agent_graph_engine.Runtime.Session.{started_of, recorded_of, same_receipt}
use agent_graph_engine.Runtime.History.{str_eq_refl, same_option_refl}

same_guard_results_refl : (gs : List GuardResult) → same_guard_results gs gs ≡ true
same_guard_results_refl [] = refl
same_guard_results_refl (g ∷ gs) =
    ground (arith, same_guard_results_refl gs, str_eq_refl g.code, str_eq_refl g.reason)

same_run_status_refl : (s : RunStatus) → same s s ≡ true
same_run_status_refl RunStatus.running = refl
same_run_status_refl _ = refl

same_status_refl : (s : Option RunStatus) → same_status s s ≡ true
same_status_refl none = refl
same_status_refl (some s) = same_run_status_refl s

pub same_transition_refl : (t : Transition) → same_transition t t ≡ true
unfolding same_transition
same_transition_refl t = ground (
  arith,
  str_eq_refl t.edge_id,
  str_eq_refl t.from_node,
  str_eq_refl t.to_node,
  same_guard_results_refl t.guard_results,
  same_status_refl t.final_status,
  same_option_refl t.resume_node,
)

pub same_receipt_refl : (r : FinalReceipt) → same_receipt r r ≡ true
unfolding same_receipt
same_receipt_refl r = ground (
  arith,
  str_eq_refl r.project_id,
  str_eq_refl r.run_id,
  same_run_status_refl r.final_status,
  str_eq_refl r.final_state_digest,
)

invoked_identity :
    (e : GraphEngine) (s : GraphState) (context : NodeContext) {r : NodeResult}
    → invoke_node e s context ≡ ok r
    → (r.node_id ≡ s.graph.current_node) × (r.attempt_id ≡ context.node_attempt_id)
unfolding invoke_node
invoked_identity e s context {r} h =
    ground
      (arith, eq_iff r.node_id s.graph.current_node, eq_iff r.attempt_id context.node_attempt_id)

context_key :
    (e : GraphEngine) (s : GraphState) {context : NodeContext}
    → build_node_context e s none ≡ ok context
    → context.idempotency_key ≡ context.node_attempt_id
unfolding build_node_context
context_key e s h = ground arith

module _ (c : Coordinator) (run_id : String) (s : GraphState) {context : NodeContext}
    {r : NodeResult} (prepared : build_node_context c.engine s none ≡ ok context)
    (invoked : invoke_node c.engine s context ≡ ok r) where
  pub attempt_same :
      (next : GraphState) (t : Transition)
      → attempt_matches (some (started_of c run_id s context)) (recorded_of c run_id s r next t)
        ≡ true
  unfolding attempt_matches
  attempt_same next t = ground (
    arith,
    context_key c.engine s prepared,
    invoked_identity c.engine s context invoked,
    eq_iff context.node_attempt_id r.attempt_id,
    eq_iff s.graph.current_node r.node_id,
    eq_iff context.idempotency_key r.attempt_id,
  )

pub recomputed_same :
    (c : Coordinator) (run_id : String) (s : GraphState) (r : NodeResult) (next : GraphState)
    (t : Transition)
    → verify_recomputed c run_id (recorded_of c run_id s r next t) next t ≡ true
unfolding verify_recomputed
recomputed_same c run_id s r next t =
    ground (arith, same_transition_refl t, str_eq_refl (c.digest_for_state next))
