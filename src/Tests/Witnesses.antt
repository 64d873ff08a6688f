-- ===== src/Tests/Witnesses.antt =====
-- The engine's and the canonical graph's properties at concrete instances.
use agent_graph_engine.Prelude.{
  ◌≡◌, refl, ◌↔◌, ◌≤◌, ◌+◌, ◌*◌, true, false, some, List, arith, All, select,
}
use agent_graph_engine.Prelude.Text.{str_eq, contains}
use agent_graph_engine.Core.Enums.{CheckpointOutcome, ReviewVerdict}
use agent_graph_engine.Core.Errors.{ok, err, no_valid_transition}
use agent_graph_engine.Core.State.{GraphState}
use agent_graph_engine.Core.Edges.{Edge, Transition}
use agent_graph_engine.Core.Graph.{
  outgoing, define, lookup, distinct, collect, validate_edge, add_edge,
}
use agent_graph_engine.Core.Graph.Outgoing.{node_ids, leaves, outgoing_exact}
use agent_graph_engine.Core.Engine.{evaluate_transition, eligible, transition}
use agent_graph_engine.Core.Engine.Selection.{Wins}
use agent_graph_engine.Core.Engine.Choice.{evaluate_transition_exact, evaluate_transition_stuck}
use agent_graph_engine.Core.Engine.Applied.{apply_result_books}
use agent_graph_engine.Core.Engine.Closure.{apply_result_declared}
use agent_graph_engine.Core.V1.{canonical_v1_graph}
use agent_graph_engine.Core.V1.Nodes.{v1_nodes}
use agent_graph_engine.Core.V1.Edges.{v1_edges}
use agent_graph_engine.Core.V1.Routes.{Stage, route}
use agent_graph_engine.Core.V1.Moves.{result_move, route_move}
use agent_graph_engine.Core.V1.Refines.{evaluate-route}
use agent_graph_engine.Core.V1.Reach.{IsGated, Reach-IsGated}
use agent_graph_engine.Core.V1.Bounded.{next_item, Run-bounded}
use agent_graph_engine.Core.V1.Entries.{create_pr_approved, critical_implement_approved}
use agent_graph_engine.Tests.Samples.{
  sample_graph, sample_policy, sample_engine, sample_start, approval, awaiting_delivery,
  awaiting_critical,
}
use agent_graph_engine.Tests.Runs.{
  discovering, discovering-Run, sample_graph-built, awaiting_delivery-Reach,
  awaiting_critical-Reach, approved_delivery, approved_delivery-applied, approved_critical-applied,
  approved_delivery-enters, approved_critical-enters, approved_critical-risk, approval-contract,
}

-- A run at a checkpoint that is pending for the pull request.
abbrev at_checkpoint : GraphState
at_checkpoint = record sample_start {
  graph = record sample_start.graph {
    current_node = "HUMAN_CHECKPOINT";
    pending_resume_node = some "CREATE_PR";
  };
}

abbrev checkpoint_out : List Edge
checkpoint_out = select (leaves "HUMAN_CHECKPOINT") v1_edges

checkpoint_declared : outgoing sample_graph "HUMAN_CHECKPOINT" ≡ ok checkpoint_out
unfolding canonical_v1_graph define distinct collect validate_edge add_edge lookup v1_nodes v1_edges
    outgoing
checkpoint_declared = refl

checkpoint_live : ¬ (Stage.human_checkpoint ≡ Stage.done)
checkpoint_live h = ground arith

sample_defined : define v1_nodes v1_edges ≡ ok sample_engine.graph
unfolding canonical_v1_graph
sample_defined = sample_graph-built

checkpoint_known : contains (node_ids v1_nodes) "HUMAN_CHECKPOINT" ≡ true
unfolding v1_nodes
checkpoint_known = refl

abbrev sample_transition : Transition
sample_transition = approved_delivery.1

evaluate_transition_exact_example :
    (evaluate_transition sample_engine at_checkpoint approval ≡ ok sample_transition) ↔ (
      (e : Edge) × Wins (eligible at_checkpoint approval sample_policy) e checkpoint_out
      × (sample_transition ≡ transition at_checkpoint approval sample_policy e))
evaluate_transition_exact_example =
    evaluate_transition_exact sample_engine at_checkpoint approval refl checkpoint_declared
      sample_transition

evaluate_transition_stuck_example :
    (evaluate_transition sample_engine at_checkpoint approval ≡ err no_valid_transition)
    ↔ All (λ e. eligible at_checkpoint approval sample_policy e ≡ false) checkpoint_out
evaluate_transition_stuck_example =
    evaluate_transition_stuck sample_engine at_checkpoint approval refl checkpoint_declared

evaluate-route_example :
    result_move (evaluate_transition sample_engine at_checkpoint approval)
    ≡ route_move Stage.human_checkpoint
        (route sample_policy Stage.human_checkpoint at_checkpoint approval)
evaluate-route_example =
    evaluate-route sample_graph-built sample_engine Stage.human_checkpoint at_checkpoint approval
      refl checkpoint_live refl refl approval-contract

Reach-IsGated_example : IsGated awaiting_delivery
Reach-IsGated_example = Reach-IsGated sample_graph-built sample_engine refl awaiting_delivery-Reach

create_pr_approved_example :
    (awaiting_delivery.graph.current_node ≡ "HUMAN_CHECKPOINT")
    × (approval.checkpoint_outcome ≡ some CheckpointOutcome.approved)
    × (awaiting_delivery.graph.pending_resume_node ≡ some "CREATE_PR")
    × (awaiting_delivery.review.verdict ≡ ReviewVerdict.pass)
    × (awaiting_delivery.review.safe_to_create_pr ≡ true)
create_pr_approved_example =
    create_pr_approved sample_graph-built sample_engine refl approval awaiting_delivery-Reach
      approval-contract approved_delivery-applied approved_delivery-enters

critical_implement_approved_example :
    (awaiting_critical.graph.current_node ≡ "HUMAN_CHECKPOINT")
    × (approval.checkpoint_outcome ≡ some CheckpointOutcome.approved)
critical_implement_approved_example =
    critical_implement_approved sample_graph-built sample_engine refl approval
      awaiting_critical-Reach approval-contract approved_critical-applied approved_critical-enters
      approved_critical-risk

abbrev moved_on : GraphState
moved_on = approved_delivery.0

apply_result_books_example :
    (moved_on.state_version ≡ awaiting_delivery.state_version + 1)
    × (moved_on.graph.transition_seq ≡ awaiting_delivery.graph.transition_seq + 1)
    × (moved_on.graph.current_node ≡ sample_transition.to_node)
    × (moved_on.graph.previous_node ≡ some awaiting_delivery.graph.current_node)
    × (moved_on.run.run_id ≡ awaiting_delivery.run.run_id)
    × (moved_on.checkpoints ≡ awaiting_delivery.checkpoints)
    × (moved_on.commits ≡ awaiting_delivery.commits)
    × (moved_on.push ≡ awaiting_delivery.push)
    × (moved_on.pull_request ≡ awaiting_delivery.pull_request)
    × (moved_on.repair.max_cycles ≡ sample_policy.max_repair_cycles)
    × (moved_on.repair.count ≤ sample_policy.max_repair_cycles)
apply_result_books_example =
    apply_result_books sample_engine awaiting_delivery approval approved_delivery-applied

apply_result_declared_example :
    (contains (node_ids v1_nodes) moved_on.graph.current_node ≡ true)
    × (sample_transition.terminal ≡ str_eq moved_on.graph.current_node "END")
apply_result_declared_example =
    apply_result_declared v1_nodes v1_edges sample_engine awaiting_delivery approval sample_defined
      approved_delivery-applied

outgoing_exact_example :
    outgoing sample_graph "HUMAN_CHECKPOINT" ≡ ok (select (leaves "HUMAN_CHECKPOINT") v1_edges)
outgoing_exact_example =
    outgoing_exact v1_nodes v1_edges sample_defined "HUMAN_CHECKPOINT" checkpoint_known

Run-bounded_example :
    1
    ≤ (18 + 4 * sample_policy.max_repair_cycles)
      + (0 + next_item sample_start discovering.0) * (11 + 4 * sample_policy.max_repair_cycles)
Run-bounded_example = Run-bounded sample_graph-built sample_engine refl discovering-Run
