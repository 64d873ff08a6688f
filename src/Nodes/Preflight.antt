-- ===== src/Nodes/Preflight.antt =====
-- nodes/deterministic.py: the nodes START, PREFLIGHT and FINALIZE. PREFLIGHT is none where an
-- assertion fails, and else the result, or the error of core that the constructors of the reason
-- and of the result raise.
use Prim.Native.String.{◌++◌ as append}
use agent_graph_engine.Prelude.{String, Bool, true, false, Option, none, some, List, [], ◌∷◌, map}
use agent_graph_engine.Core.Enums.{NodeStatus, OperationType}
use agent_graph_engine.Core.State.{GraphState}
use agent_graph_engine.Core.Errors.{Result, ◌>>=◌}
use agent_graph_engine.Core.NodeResult.{
  ResultReason, NodeResult, NodeContext, checked_reason, node_result,
}
use agent_graph_engine.Core.Patches.Values.{Value, Atom}
use agent_graph_engine.Core.Patches.Apply.{PatchOperation, StatePatch}
use agent_graph_engine.Integration.Models.{IntegrationIssue}
use agent_graph_engine.Integration.Preflight.{PreflightAssessment}

-- The result's defaults.
abbrev plain : String → NodeContext → NodeStatus → NodeResult
plain node context status = record {
  node_id = node;
  attempt_id = context.node_attempt_id;
  status = status;
  reason = none;
  failure_category = none;
  state_patch = none;
  evidence = [];
  external_effects = [];
  checkpoint_request = none;
  checkpoint_outcome = none;
}

-- StartNode.run and FinalizeNode.run
abbrev pub start_node : GraphState → NodeContext → NodeResult
start_node s context = plain "START" context NodeStatus.succeeded

abbrev pub finalize_node : GraphState → NodeContext → NodeResult
finalize_node s context = plain "FINALIZE" context NodeStatus.succeeded

abbrev pub invariants : Bool → List String
invariants true =
    "shadow_read_only" ∷ "work_source_snapshot_pinned" ∷ "repository_baseline_pinned"
    ∷ "no_llm_execution" ∷ "no_target_mutation" ∷ []
invariants false =
    "external_runtime_worktree_only" ∷ "target_main_worktree_read_only"
    ∷ "work_source_snapshot_pinned" ∷ "repository_baseline_pinned"
    ∷ "sequential_items_bounded_by_policy" ∷ "one_scope_branch_and_workspace"
    ∷ "per_item_capability_and_commit" ∷ "no_remote_mutation_before_publish_approval"
    ∷ "publish_exact_verified_head_only" ∷ "draft_pull_request_only" ∷ "merge_forbidden"
    ∷ "deployment_forbidden" ∷ "source_closure_forbidden" ∷ []

-- PatchOperation.set, of a tuple of texts
abbrev set_texts_at : String → List String → PatchOperation
set_texts_at path texts = record {
  operation = OperationType.set;
  path = path;
  value = Value.tuple (map Atom.text texts);
}

-- f"{head}"
abbrev pub shown : Option String → String
shown none = "None"
shown (some text) = text

abbrev pub pinned : String → Option String → List String
pinned revision head = append "source_revision:" revision ∷ append "head_sha:" (shown head) ∷ []

abbrev pub preflight_patch : Bool → String → Option String → GraphState → StatePatch
preflight_patch shadow revision head s = record {
  base_state_version = s.state_version;
  operations =
      set_texts_at "architecture_invariants.items" (invariants shadow)
      ∷ set_texts_at "requirements.items" (pinned revision head)
      ∷ [];
}

abbrev pub ready_result : Bool → String → Option String → GraphState → NodeContext → NodeResult
ready_result shadow revision head s context =
    record (plain "PREFLIGHT" context NodeStatus.succeeded) {
      state_patch = some (preflight_patch shadow revision head s);
    }

abbrev pub blocked_result : NodeContext → ResultReason → NodeResult
blocked_result context why = record (plain "PREFLIGHT" context NodeStatus.blocked) {
  reason = some why;
}

-- ResultReason(issue.code, issue.message)
abbrev pub reason_of : IntegrationIssue → Result ResultReason
reason_of i = checked_reason (record { code = i.code; message = i.message })

-- assessment.primary_issue, which must not be None
abbrev pub blocked_by : NodeContext → List IntegrationIssue → Option (Result NodeResult)
blocked_by context [] = none
blocked_by context (i ∷ rest) =
    some (reason_of i >>= λ why. node_result (blocked_result context why))

abbrev pub by_assessment :
    Bool
    → String
    → Option String
    → List IntegrationIssue
    → GraphState
    → NodeContext
    → Bool
    → Option (Result NodeResult)
by_assessment shadow revision head issues s context true =
    some (node_result (ready_result shadow revision head s context))
by_assessment shadow revision head issues s context false = blocked_by context issues

-- PreflightNode.run, with the revision and the head of its inputs
unfoldable pub preflight_node :
    Bool
    → String
    → Option String
    → PreflightAssessment
    → GraphState
    → NodeContext
    → Option (Result NodeResult)
preflight_node shadow revision head assessment s context =
    by_assessment shadow revision head assessment.issues s context assessment.ready
