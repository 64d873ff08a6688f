-- ===== src/Tests/Runs.antt =====
-- Runs on the canonical graph, computed.
use agent_graph_engine.Prelude.{◌≡◌, refl, some, none, ◌+◌}
use agent_graph_engine.Prelude.Text.{ends_with, drop_last}
use agent_graph_engine.Core.Errors.{ok}
use agent_graph_engine.Core.Enums.{RiskLevel}
use agent_graph_engine.Core.State.{GraphState}
use agent_graph_engine.Core.NodeResult.{node_result}
use agent_graph_engine.Core.Edges.{Transition}
use agent_graph_engine.Core.Graph.{
  define, distinct, collect, validate_edge, add_edge, lookup, node, outgoing,
}
use agent_graph_engine.Core.Patches.Paths.{lookup_path, find_key, path_rule}
use agent_graph_engine.Core.Patches.Ownership.{authorize, engine_owned, under_prefix, path_matches}
use agent_graph_engine.Core.Patches.Groups.{set_work, set_review, set_risk}
use agent_graph_engine.Core.Patches.Access.{get_path, replace_path}
use agent_graph_engine.Core.Patches.Apply.{
  apply, apply_operations, apply_operation, operation_value, set_value, check_tuple, validate_items,
}
use agent_graph_engine.Core.Engine.{
  apply_result, validate_state_policy, validate_result_identity, apply_patch, evaluate_transition,
  eligible, highest_priority, winners, choose, execute_transition, reset_for, reset_item_state,
  count_repair, route_risk, lock_scope, pending_after, status_after,
}
use agent_graph_engine.Core.V1.{canonical_v1_graph}
use agent_graph_engine.Core.V1.Nodes.{v1_nodes}
use agent_graph_engine.Core.V1.Edges.{v1_edges}
use agent_graph_engine.Core.V1.Reach.{Reach}
use agent_graph_engine.Core.V1.Bounded.{Run, next_item}
use agent_graph_engine.Tests.Samples.{
  success, sample_start-initial, or_default, sample_graph, sample_engine, sample_start, approval,
  delivery_results, critical_results, awaiting_delivery, awaiting_critical, replay, replay-Reach,
  start-Reach, no_transition,
}

pub sample_graph-built : canonical_v1_graph ≡ ok sample_graph
unfolding canonical_v1_graph define distinct collect validate_edge add_edge lookup v1_nodes v1_edges
sample_graph-built = refl

pub awaiting_delivery-Reach : Reach sample_engine awaiting_delivery
unfolding replay canonical_v1_graph define distinct collect validate_edge add_edge lookup v1_nodes
    v1_edges node_result apply_result validate_state_policy validate_result_identity node
    apply_patch evaluate_transition outgoing eligible highest_priority winners choose
    execute_transition reset_for reset_item_state count_repair route_risk lock_scope pending_after
    status_after apply apply_operations apply_operation authorize engine_owned under_prefix
    path_matches ends_with drop_last lookup_path find_key path_rule operation_value set_value
    check_tuple validate_items get_path replace_path set_work set_review set_risk
awaiting_delivery-Reach =
    replay-Reach sample_engine sample_start delivery_results {s' = awaiting_delivery} start-Reach
      refl

pub awaiting_critical-Reach : Reach sample_engine awaiting_critical
unfolding replay canonical_v1_graph define distinct collect validate_edge add_edge lookup v1_nodes
    v1_edges node_result apply_result validate_state_policy validate_result_identity node
    apply_patch evaluate_transition outgoing eligible highest_priority winners choose
    execute_transition reset_for reset_item_state count_repair route_risk lock_scope pending_after
    status_after apply apply_operations apply_operation authorize engine_owned under_prefix
    path_matches ends_with drop_last lookup_path find_key path_rule operation_value set_value
    check_tuple validate_items get_path replace_path set_work set_review set_risk
awaiting_critical-Reach =
    replay-Reach sample_engine sample_start critical_results {s' = awaiting_critical} start-Reach
      refl

-- What the approval of the pull request leads to.
abbrev pub approved_delivery : GraphState × Transition
approved_delivery =
    or_default (apply_result sample_engine awaiting_delivery approval) (sample_start, no_transition)

abbrev pub approved_critical : GraphState × Transition
approved_critical =
    or_default (apply_result sample_engine awaiting_critical approval) (sample_start, no_transition)

pub approved_delivery-applied :
    apply_result sample_engine awaiting_delivery approval
    ≡ ok (approved_delivery.0, approved_delivery.1)
unfolding replay canonical_v1_graph define distinct collect validate_edge add_edge lookup v1_nodes
    v1_edges node_result apply_result validate_state_policy validate_result_identity node
    apply_patch evaluate_transition outgoing eligible highest_priority winners choose
    execute_transition reset_for reset_item_state count_repair route_risk lock_scope pending_after
    status_after apply apply_operations apply_operation authorize engine_owned under_prefix
    path_matches ends_with drop_last lookup_path find_key path_rule operation_value set_value
    check_tuple validate_items get_path replace_path set_work set_review set_risk
approved_delivery-applied = refl

pub approved_critical-applied :
    apply_result sample_engine awaiting_critical approval
    ≡ ok (approved_critical.0, approved_critical.1)
unfolding replay canonical_v1_graph define distinct collect validate_edge add_edge lookup v1_nodes
    v1_edges node_result apply_result validate_state_policy validate_result_identity node
    apply_patch evaluate_transition outgoing eligible highest_priority winners choose
    execute_transition reset_for reset_item_state count_repair route_risk lock_scope pending_after
    status_after apply apply_operations apply_operation authorize engine_owned under_prefix
    path_matches ends_with drop_last lookup_path find_key path_rule operation_value set_value
    check_tuple validate_items get_path replace_path set_work set_review set_risk
approved_critical-applied = refl

pub approved_delivery-enters : approved_delivery.0.graph.current_node ≡ "CREATE_PR"
unfolding replay canonical_v1_graph define distinct collect validate_edge add_edge lookup v1_nodes
    v1_edges node_result apply_result validate_state_policy validate_result_identity node
    apply_patch evaluate_transition outgoing eligible highest_priority winners choose
    execute_transition reset_for reset_item_state count_repair route_risk lock_scope pending_after
    status_after apply apply_operations apply_operation authorize engine_owned under_prefix
    path_matches ends_with drop_last lookup_path find_key path_rule operation_value set_value
    check_tuple validate_items get_path replace_path set_work set_review set_risk
approved_delivery-enters = refl

pub approved_critical-enters : approved_critical.0.graph.current_node ≡ "IMPLEMENT"
unfolding replay canonical_v1_graph define distinct collect validate_edge add_edge lookup v1_nodes
    v1_edges node_result apply_result validate_state_policy validate_result_identity node
    apply_patch evaluate_transition outgoing eligible highest_priority winners choose
    execute_transition reset_for reset_item_state count_repair route_risk lock_scope pending_after
    status_after apply apply_operations apply_operation authorize engine_owned under_prefix
    path_matches ends_with drop_last lookup_path find_key path_rule operation_value set_value
    check_tuple validate_items get_path replace_path set_work set_review set_risk
approved_critical-enters = refl

pub approved_critical-risk : approved_critical.0.risk.level ≡ some RiskLevel.critical
unfolding replay canonical_v1_graph define distinct collect validate_edge add_edge lookup v1_nodes
    v1_edges node_result apply_result validate_state_policy validate_result_identity node
    apply_patch evaluate_transition outgoing eligible highest_priority winners choose
    execute_transition reset_for reset_item_state count_repair route_risk lock_scope pending_after
    status_after apply apply_operations apply_operation authorize engine_owned under_prefix
    path_matches ends_with drop_last lookup_path find_key path_rule operation_value set_value
    check_tuple validate_items get_path replace_path set_work set_review set_risk
approved_critical-risk = refl

pub approval-contract : node_result approval ≡ ok approval
unfolding node_result
approval-contract = refl

-- The first step of the run.
abbrev pub discovering : GraphState × Transition
discovering =
    or_default (apply_result sample_engine sample_start (success "START" none))
      (sample_start, no_transition)

discovering-applied :
    apply_result sample_engine sample_start (success "START" none)
    ≡ ok (discovering.0, discovering.1)
unfolding replay canonical_v1_graph define distinct collect validate_edge add_edge lookup v1_nodes
    v1_edges node_result apply_result validate_state_policy validate_result_identity node
    apply_patch evaluate_transition outgoing eligible highest_priority winners choose
    execute_transition reset_for reset_item_state count_repair route_risk lock_scope pending_after
    status_after apply apply_operations apply_operation authorize engine_owned under_prefix
    path_matches ends_with drop_last lookup_path find_key path_rule operation_value set_value
    check_tuple validate_items get_path replace_path set_work set_review set_risk
discovering-applied = refl

success-contract : node_result (success "START" none) ≡ ok (success "START" none)
unfolding node_result
success-contract = refl

pub discovering-Run : Run sample_engine discovering.0 1 (0 + next_item sample_start discovering.0)
discovering-Run =
    Run.next (success "START" none) (Run.begin "run-1" sample_start-initial) success-contract
      discovering-applied
