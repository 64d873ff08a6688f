-- ===== src/Core/V1/Edges.antt =====
-- core/v1_graph.py: the edges of the canonical graph, in the order of their declaration.
use Prim.Native.String.{◌++◌ as append}
use agent_graph_engine.Prelude.{ℕ, String, true, false, List, [], ◌∷◌, ◌++◌, none, some}
use agent_graph_engine.Prelude.Text.{lower}
use agent_graph_engine.Core.Enums.{
  NodeStatus, FailureCategory, RunStatus, RiskLevel, ValidationVerdict, ReviewVerdict,
  RepairClassification, CheckpointOutcome, repair_text,
}
use agent_graph_engine.Core.Edges.{
  Edge, Condition, result_status, failure_category, risk, validation, review, classification,
  repair_capacity, work, work_limit, completed_work, delivery_review, outcome, pending_resume,
  all_of, end, both,
}

-- _status
abbrev pub status : List NodeStatus → Condition
status ss = result_status ss

abbrev succeeded : Condition
succeeded = status (NodeStatus.succeeded ∷ [])

abbrev blocked : Condition
blocked = status (NodeStatus.blocked ∷ NodeStatus.checkpoint_required ∷ [])

-- _all
abbrev all2 : Condition → Condition → Condition
all2 a b = all_of (both a (both b end))

abbrev all3 : Condition → Condition → Condition → Condition
all3 a b c = all_of (both a (both b (both c end)))

-- _edge, with its default options
abbrev pub edge : String → String → String → Condition → Edge
edge edge_id source target condition = record {
  id = edge_id;
  from_node = source;
  to_node = target;
  priority = 100;
  condition = condition;
  guards = [];
  max_attempts = 0;
  checkpoint = false;
  terminal = false;
  final_status = none;
  resume_node = none;
}

-- _edge(…, final_status=status)
abbrev closing : RunStatus → Edge → Edge
closing status e = record e { final_status = some status }

abbrev prioritised : ℕ → Edge → Edge
prioritised n e = record e { priority = n }

abbrev ending : Edge → Edge
ending e = record e { terminal = true }

-- _edge(…, checkpoint=True, resume_node=resume)
abbrev pausing : String → Edge → Edge
pausing resume e = record e { checkpoint = true; resume_node = some resume }

-- _common_failure_edges
unfoldable pub common_failure_edges : String → List Edge
unfolding lower
common_failure_edges source =
    closing RunStatus.cancelled (
      edge (append (lower source) "-cancelled") source "FINALIZE"
        (status (NodeStatus.cancelled ∷ [])))
    ∷ closing RunStatus.blocked (edge (append (lower source) "-blocked") source "FINALIZE" blocked)
    ∷ prioritised 10 (
        closing RunStatus.failed (
          edge (append (lower source) "-failed") source "FINALIZE"
            (status (NodeStatus.failed ∷ NodeStatus.timed_out ∷ []))))
    ∷ []

abbrev straight : List (String × String)
straight =
    ("START", "DISCOVER_PROJECT")
    ∷ ("DISCOVER_PROJECT", "PREFLIGHT")
    ∷ ("PREFLIGHT", "SELECT_WORK")
    ∷ ("EXPLORE", "BUILD_TASK_PACKAGE")
    ∷ ("BUILD_TASK_PACKAGE", "ASSESS_RISK")
    ∷ ("IMPLEMENT", "VALIDATE")
    ∷ ("PROGRAMMER_REPAIR", "VALIDATE")
    ∷ ("DEBUGGER", "VALIDATE")
    ∷ ("CLOSE_TASK", "MORE_WORK")
    ∷ []

-- The loop over `straight`.
unfoldable pub straight_edges : List (String × String) → List Edge
unfolding common_failure_edges
straight_edges [] = []
straight_edges ((source, target) ∷ rest) =
    edge (append (lower source) "-succeeded") source target succeeded
    ∷ (common_failure_edges source ++ straight_edges rest)

unfoldable pub select_work_edges : List Edge
unfolding common_failure_edges
select_work_edges =
    edge "select-work-found" "SELECT_WORK" "EXPLORE" (all2 succeeded (work "current" true))
    ∷ closing RunStatus.completed (
        edge "select-work-noop" "SELECT_WORK" "FINALIZE"
          (all3 succeeded (work "current" false) (completed_work false)))
    ∷ edge "select-work-delivery-complete" "SELECT_WORK" "DELIVERY_REVIEW"
        (all3 succeeded (work "current" false) (completed_work true))
    ∷ common_failure_edges "SELECT_WORK"

abbrev create_pr_operational_failures : List FailureCategory
create_pr_operational_failures =
    FailureCategory.infrastructure ∷ FailureCategory.environment ∷ FailureCategory.external_service
    ∷ []

abbrev create_pr_terminal_failures : List FailureCategory
create_pr_terminal_failures =
    FailureCategory.policy ∷ FailureCategory.contract ∷ FailureCategory.internal
    ∷ FailureCategory.implementation ∷ FailureCategory.design ∷ FailureCategory.validation ∷ []

unfoldable pub create_pr_edges : List Edge
create_pr_edges =
    edge "create-pr-succeeded" "CREATE_PR" "FINALIZE" succeeded
    ∷ closing RunStatus.blocked (
        edge "create-pr-operational-failure" "CREATE_PR" "FINALIZE"
          (failure_category create_pr_operational_failures))
    ∷ closing RunStatus.failed (
        edge "create-pr-terminal-failure" "CREATE_PR" "FINALIZE"
          (failure_category create_pr_terminal_failures))
    ∷ closing RunStatus.blocked
        (edge "create-pr-timeout" "CREATE_PR" "FINALIZE" (status (NodeStatus.timed_out ∷ [])))
    ∷ closing RunStatus.cancelled
        (edge "create-pr-cancelled" "CREATE_PR" "FINALIZE" (status (NodeStatus.cancelled ∷ [])))
    ∷ closing RunStatus.blocked (edge "create-pr-blocked" "CREATE_PR" "FINALIZE" blocked)
    ∷ []

unfoldable pub risk_edges : List Edge
unfolding common_failure_edges
risk_edges =
    edge "risk-implement" "ASSESS_RISK" "IMPLEMENT"
      (all2 succeeded (risk (RiskLevel.low ∷ RiskLevel.medium ∷ RiskLevel.high ∷ [])))
    ∷ pausing "IMPLEMENT" (
        edge "risk-critical" "ASSESS_RISK" "HUMAN_CHECKPOINT"
          (all2 succeeded (risk (RiskLevel.critical ∷ []))))
    ∷ common_failure_edges "ASSESS_RISK"

abbrev approved_edge : String → Edge
approved_edge target =
    edge (append "checkpoint-approved-" (lower target)) "HUMAN_CHECKPOINT" target
      (all3 succeeded (outcome (CheckpointOutcome.approved ∷ [])) (pending_resume target))

unfoldable pub checkpoint_edges : List Edge
unfolding common_failure_edges
checkpoint_edges =
    approved_edge "IMPLEMENT"
    ∷ approved_edge "CREATE_PR"
    ∷ closing RunStatus.blocked (
        edge "checkpoint-rejected" "HUMAN_CHECKPOINT" "FINALIZE"
          (all2 succeeded (outcome (CheckpointOutcome.rejected ∷ []))))
    ∷ closing RunStatus.cancelled (
        edge "checkpoint-cancelled" "HUMAN_CHECKPOINT" "FINALIZE"
          (all2 succeeded (outcome (CheckpointOutcome.cancelled ∷ []))))
    ∷ common_failure_edges "HUMAN_CHECKPOINT"

abbrev repairable : List FailureCategory
repairable =
    FailureCategory.implementation ∷ FailureCategory.design ∷ FailureCategory.validation ∷ []

abbrev fatal : List FailureCategory
fatal =
    FailureCategory.policy ∷ FailureCategory.contract ∷ FailureCategory.infrastructure
    ∷ FailureCategory.environment ∷ FailureCategory.external_service ∷ FailureCategory.internal ∷ []

unfoldable pub validate_edges : List Edge
validate_edges =
    edge "validate-pass" "VALIDATE" "REVIEW" (all2 succeeded (validation ValidationVerdict.pass))
    ∷ edge "validate-reported-fail" "VALIDATE" "CLASSIFY_FAILURE"
        (all2 succeeded (validation ValidationVerdict.fail))
    ∷ edge "validate-repairable-failure" "VALIDATE" "CLASSIFY_FAILURE" (failure_category repairable)
    ∷ closing RunStatus.failed
        (edge "validate-fatal-failure" "VALIDATE" "FINALIZE" (failure_category fatal))
    ∷ closing RunStatus.failed
        (edge "validate-timeout" "VALIDATE" "FINALIZE" (status (NodeStatus.timed_out ∷ [])))
    ∷ closing RunStatus.cancelled
        (edge "validate-cancelled" "VALIDATE" "FINALIZE" (status (NodeStatus.cancelled ∷ [])))
    ∷ closing RunStatus.blocked (edge "validate-blocked" "VALIDATE" "FINALIZE" blocked)
    ∷ []

unfoldable pub review_edges : List Edge
review_edges =
    edge "review-pass-close" "REVIEW" "CLOSE_TASK"
      (all2 succeeded (review ReviewVerdict.pass (some true)))
    ∷ edge "review-fail" "REVIEW" "CLASSIFY_FAILURE"
        (all2 succeeded (review ReviewVerdict.fail none))
    ∷ closing RunStatus.failed (
        edge "review-unsafe" "REVIEW" "FINALIZE"
          (all2 succeeded (review ReviewVerdict.pass (some false))))
    ∷ edge "review-repairable-failure" "REVIEW" "CLASSIFY_FAILURE" (failure_category repairable)
    ∷ closing RunStatus.failed
        (edge "review-fatal-failure" "REVIEW" "FINALIZE" (failure_category fatal))
    ∷ closing RunStatus.cancelled
        (edge "review-cancelled" "REVIEW" "FINALIZE" (status (NodeStatus.cancelled ∷ [])))
    ∷ closing RunStatus.failed
        (edge "review-timeout" "REVIEW" "FINALIZE" (status (NodeStatus.timed_out ∷ [])))
    ∷ closing RunStatus.blocked (edge "review-blocked" "REVIEW" "FINALIZE" blocked)
    ∷ []

abbrev classify_edge : RepairClassification → String → Edge
classify_edge c target =
    edge (append "classify-" (repair_text c)) "CLASSIFY_FAILURE" target
      (all3 succeeded (classification (c ∷ [])) (repair_capacity true))

unfoldable pub classify_edges : List Edge
unfolding common_failure_edges
classify_edges =
    classify_edge RepairClassification.programmer "PROGRAMMER_REPAIR"
    ∷ classify_edge RepairClassification.debugger "DEBUGGER"
    ∷ prioritised 200 (
        closing RunStatus.failed (
          edge "classify-limit-exhausted" "CLASSIFY_FAILURE" "FINALIZE"
            (all2 succeeded (repair_capacity false))))
    ∷ common_failure_edges "CLASSIFY_FAILURE"

unfoldable pub more_work_edges : List Edge
unfolding common_failure_edges
more_work_edges =
    prioritised 200 (
      closing RunStatus.paused
        (edge "more-work-limit" "MORE_WORK" "FINALIZE" (all2 succeeded (work_limit true))))
    ∷ edge "more-work-next" "MORE_WORK" "SELECT_WORK"
        (all3 succeeded (work_limit false) (work "more" true))
    ∷ edge "more-work-empty" "MORE_WORK" "DELIVERY_REVIEW"
        (all3 succeeded (work_limit false) (work "more" false))
    ∷ common_failure_edges "MORE_WORK"

unfoldable pub delivery_review_edges : List Edge
unfolding common_failure_edges
delivery_review_edges =
    pausing "CREATE_PR" (
      edge "delivery-review-checkpoint" "DELIVERY_REVIEW" "HUMAN_CHECKPOINT"
        (all2 succeeded (delivery_review ReviewVerdict.pass (some true))))
    ∷ closing RunStatus.failed (
        edge "delivery-review-failed" "DELIVERY_REVIEW" "FINALIZE"
          (all2 succeeded (delivery_review ReviewVerdict.fail none)))
    ∷ closing RunStatus.failed (
        edge "delivery-review-unsafe" "DELIVERY_REVIEW" "FINALIZE"
          (all2 succeeded (delivery_review ReviewVerdict.pass (some false))))
    ∷ common_failure_edges "DELIVERY_REVIEW"

unfoldable pub finalize_edges : List Edge
finalize_edges =
    ending (edge "finalize-end" "FINALIZE" "END" succeeded)
    ∷ ending (
        closing RunStatus.failed (
          edge "finalize-failed-end" "FINALIZE" "END"
            (status (NodeStatus.failed ∷ NodeStatus.timed_out ∷ []))))
    ∷ ending (
        closing RunStatus.cancelled
          (edge "finalize-cancelled-end" "FINALIZE" "END" (status (NodeStatus.cancelled ∷ []))))
    ∷ ending (closing RunStatus.blocked (edge "finalize-blocked-end" "FINALIZE" "END" blocked))
    ∷ []

unfoldable pub v1_edges : List Edge
unfolding straight_edges select_work_edges create_pr_edges risk_edges checkpoint_edges
    validate_edges review_edges classify_edges more_work_edges delivery_review_edges finalize_edges
v1_edges =
    straight_edges straight
    ++ (select_work_edges
        ++ (create_pr_edges
            ++ (risk_edges
                ++ (checkpoint_edges
                    ++ (validate_edges
                        ++ (review_edges
                            ++ (classify_edges
                                ++ (more_work_edges
                                    ++ (delivery_review_edges ++ finalize_edges)))))))))
