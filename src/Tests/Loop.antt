-- ===== src/Tests/Loop.antt =====
-- `run` with nodes that cancel the run at once.
use agent_graph_engine.Prelude.{◌≡◌, refl, none}
use agent_graph_engine.Prelude.Text.{show, ends_with, drop_last}
use agent_graph_engine.Core.Errors.{ok}
use agent_graph_engine.Core.State.{GraphState}
use agent_graph_engine.Core.NodeResult.{node_result}
use agent_graph_engine.Core.Graph.{
  define, distinct, collect, validate_edge, add_edge, lookup, node, outgoing,
}
use agent_graph_engine.Core.Patches.Paths.{lookup_path, find_key, path_rule}
use agent_graph_engine.Core.Patches.Ownership.{authorize, engine_owned, under_prefix, path_matches}
use agent_graph_engine.Core.Patches.Groups.{set_work, set_review, set_risk}
use agent_graph_engine.Core.Patches.Access.{get_path, replace_path}
use agent_graph_engine.Core.Patches.Apply.{
  apply, apply_operations, apply_operation, operation_value, set_value, check_tuple, validate_items,
}
use agent_graph_engine.Core.Engine.{
  run, run_loop, step, build_node_context, invoke_node, GraphEngine, apply_result,
  validate_state_policy, validate_result_identity, apply_patch, evaluate_transition, eligible,
  highest_priority, winners, choose, execute_transition, reset_for, reset_item_state, count_repair,
  route_risk, lock_scope, pending_after, status_after,
}
use agent_graph_engine.Core.V1.{canonical_v1_graph}
use agent_graph_engine.Core.V1.Nodes.{v1_nodes}
use agent_graph_engine.Core.V1.Edges.{v1_edges}
use agent_graph_engine.Tests.Samples.{success, or_default, sample_engine, sample_start, replay}
use agent_graph_engine.Prelude.{◌↔◌, ◌∷◌, []}
use agent_graph_engine.Core.Enums.{NodeStatus, RunStatus}
use agent_graph_engine.Core.NodeResult.{Node}
use agent_graph_engine.Core.Engine.Rounds.{Finishes, run_exact}

abbrev cancel_at_start : Node
cancel_at_start s c = ok (record (success "START" none) {
  attempt_id = c.node_attempt_id;
  status = NodeStatus.cancelled;
})

abbrev finalize_now : Node
finalize_now s c = ok (record (success "FINALIZE" none) { attempt_id = c.node_attempt_id })

abbrev cancelling_engine : GraphEngine
cancelling_engine = record sample_engine {
  nodes = ("START", cancel_at_start) ∷ ("FINALIZE", finalize_now) ∷ [];
}

abbrev cancelled_state : GraphState
cancelled_state = or_default (run cancelling_engine sample_start 3) sample_start

cancelled_run : run cancelling_engine sample_start 3 ≡ ok cancelled_state
unfolding run run_loop step build_node_context invoke_node show replay canonical_v1_graph define
    distinct collect validate_edge add_edge lookup v1_nodes v1_edges node_result apply_result
    validate_state_policy validate_result_identity node apply_patch evaluate_transition outgoing
    eligible highest_priority winners choose execute_transition reset_for reset_item_state
    count_repair route_risk lock_scope pending_after status_after apply apply_operations
    apply_operation authorize engine_owned under_prefix path_matches ends_with drop_last lookup_path
    find_key path_rule operation_value set_value check_tuple validate_items get_path replace_path
    set_work set_review set_risk
cancelled_run = refl

cancelled_status : cancelled_state.run.status ≡ RunStatus.cancelled
unfolding run run_loop step build_node_context invoke_node show replay canonical_v1_graph define
    distinct collect validate_edge add_edge lookup v1_nodes v1_edges node_result apply_result
    validate_state_policy validate_result_identity node apply_patch evaluate_transition outgoing
    eligible highest_priority winners choose execute_transition reset_for reset_item_state
    count_repair route_risk lock_scope pending_after status_after apply apply_operations
    apply_operation authorize engine_owned under_prefix path_matches ends_with drop_last lookup_path
    find_key path_rule operation_value set_value check_tuple validate_items get_path replace_path
    set_work set_review set_risk
cancelled_status = refl

run_exact_example :
    (run cancelling_engine sample_start 3 ≡ ok cancelled_state)
    ↔ Finishes cancelling_engine 3 sample_start cancelled_state
run_exact_example = run_exact cancelling_engine sample_start 3
