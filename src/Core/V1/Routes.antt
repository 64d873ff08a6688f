-- ===== src/Core/V1/Routes.antt =====
-- The canonical graph of core/v1_graph.py as a decision table: for each node, where a result leads.
-- The table is written from the description of the stages, with one line for each outcome.
use agent_graph_engine.Prelude.{
  String, Bool, true, false, not, Option, none, some, length, is_empty, is_some, ltb, leb,
  if◌then◌else◌,
}
use agent_graph_engine.Prelude.Text.{same_option}
use agent_graph_engine.Core.Enums.{
  NodeStatus, FailureCategory, RunStatus, RiskLevel, ValidationVerdict, ReviewVerdict,
  RepairClassification, CheckpointOutcome,
}
use agent_graph_engine.Core.State.{GraphState}
use agent_graph_engine.Core.Policy.{PolicySnapshot}
use agent_graph_engine.Core.NodeResult.{NodeResult}

pub data Stage : Type 0 where
  start discover_project preflight select_work explore build_task_package assess_risk : Stage
  human_checkpoint implement validate review classify_failure programmer_repair debugger : Stage
  close_task more_work delivery_review create_pr finalize : Stage
  done : Stage

abbrev pub stage_id : Stage → String
stage_id start = "START"
stage_id discover_project = "DISCOVER_PROJECT"
stage_id preflight = "PREFLIGHT"
stage_id select_work = "SELECT_WORK"
stage_id explore = "EXPLORE"
stage_id build_task_package = "BUILD_TASK_PACKAGE"
stage_id assess_risk = "ASSESS_RISK"
stage_id human_checkpoint = "HUMAN_CHECKPOINT"
stage_id implement = "IMPLEMENT"
stage_id validate = "VALIDATE"
stage_id review = "REVIEW"
stage_id classify_failure = "CLASSIFY_FAILURE"
stage_id programmer_repair = "PROGRAMMER_REPAIR"
stage_id debugger = "DEBUGGER"
stage_id close_task = "CLOSE_TASK"
stage_id more_work = "MORE_WORK"
stage_id delivery_review = "DELIVERY_REVIEW"
stage_id create_pr = "CREATE_PR"
stage_id finalize = "FINALIZE"
stage_id done = "END"

-- Where a result leads: on to a stage; to a checkpoint that resumes at a stage; to FINALIZE with
-- the run's status; to END, with a status or with the one that the run has.
pub data Route : Type 0 where
  onward : Stage → Route
  pause : Stage → Route
  stop : RunStatus → Route
  finish : Option RunStatus → Route
  stuck : Route

-- A stage that fails or runs out of time ends the run as failed.
abbrev unless_succeeded : NodeStatus → Route → Route
unless_succeeded NodeStatus.succeeded next = next
unless_succeeded NodeStatus.cancelled next = stop RunStatus.cancelled
unless_succeeded NodeStatus.blocked next = stop RunStatus.blocked
unless_succeeded NodeStatus.checkpoint_required next = stop RunStatus.blocked
unless_succeeded NodeStatus.failed next = stop RunStatus.failed
unless_succeeded NodeStatus.timed_out next = stop RunStatus.failed

-- Failures of the code under work, which a repair may mend.
abbrev is_repairable : Option FailureCategory → Bool
is_repairable (some FailureCategory.implementation) = true
is_repairable (some FailureCategory.design) = true
is_repairable (some FailureCategory.validation) = true
is_repairable _ = false

abbrev unless_repairable : NodeStatus → Option FailureCategory → Route → Route
unless_repairable NodeStatus.failed c next =
    if is_repairable c then onward classify_failure else stop RunStatus.failed
unless_repairable s c next = unless_succeeded s next

-- Failures of what lies outside of the run block it.
abbrev is_operational : Option FailureCategory → Bool
is_operational (some FailureCategory.infrastructure) = true
is_operational (some FailureCategory.environment) = true
is_operational (some FailureCategory.external_service) = true
is_operational _ = false

abbrev after_create_pr : NodeStatus → Option FailureCategory → Route
after_create_pr NodeStatus.failed c =
    if is_operational c then stop RunStatus.blocked else stop RunStatus.failed
after_create_pr NodeStatus.timed_out c = stop RunStatus.blocked
after_create_pr s c = unless_succeeded s (onward finalize)

abbrev after_selection : Bool → Bool → Route
after_selection true completed = onward explore
after_selection false true = onward delivery_review
after_selection false false = stop RunStatus.completed

abbrev after_risk : Option RiskLevel → Route
after_risk (some RiskLevel.critical) = pause implement
after_risk (some _) = onward implement
after_risk none = stuck

abbrev after_approval : Bool → Bool → Route
after_approval true other = onward implement
after_approval false true = onward create_pr
after_approval false false = stuck

abbrev after_checkpoint : Option CheckpointOutcome → Option String → Route
after_checkpoint (some CheckpointOutcome.approved) pending =
    after_approval (same_option pending (some "IMPLEMENT")) (same_option pending (some "CREATE_PR"))
after_checkpoint (some CheckpointOutcome.rejected) pending = stop RunStatus.blocked
after_checkpoint (some CheckpointOutcome.cancelled) pending = stop RunStatus.cancelled
after_checkpoint none pending = stuck

abbrev after_validation : ValidationVerdict → Route
after_validation ValidationVerdict.pass = onward review
after_validation ValidationVerdict.fail = onward classify_failure
after_validation ValidationVerdict.unknown = stuck

abbrev after_review : ReviewVerdict → Bool → Route
after_review ReviewVerdict.pass true = onward close_task
after_review ReviewVerdict.pass false = stop RunStatus.failed
after_review ReviewVerdict.fail safe = onward classify_failure
after_review ReviewVerdict.unknown safe = stuck

abbrev after_classification : Bool → Option RepairClassification → Route
after_classification true (some RepairClassification.programmer) = onward programmer_repair
after_classification true (some RepairClassification.debugger) = onward debugger
after_classification true none = stuck
after_classification false c = stop RunStatus.failed

abbrev after_item : Bool → Bool → Route
after_item true more = stop RunStatus.paused
after_item false true = onward select_work
after_item false false = onward delivery_review

abbrev after_delivery_review : ReviewVerdict → Bool → Route
after_delivery_review ReviewVerdict.pass true = pause create_pr
after_delivery_review ReviewVerdict.pass false = stop RunStatus.failed
after_delivery_review ReviewVerdict.fail safe = stop RunStatus.failed
after_delivery_review ReviewVerdict.unknown safe = stuck

abbrev after_finalize : NodeStatus → Route
after_finalize NodeStatus.succeeded = finish none
after_finalize NodeStatus.failed = finish (some RunStatus.failed)
after_finalize NodeStatus.timed_out = finish (some RunStatus.failed)
after_finalize NodeStatus.cancelled = finish (some RunStatus.cancelled)
after_finalize NodeStatus.blocked = finish (some RunStatus.blocked)
after_finalize NodeStatus.checkpoint_required = finish (some RunStatus.blocked)

abbrev has_capacity : PolicySnapshot → GraphState → Bool
has_capacity p s = ltb s.repair.count p.max_repair_cycles

abbrev at_limit : PolicySnapshot → GraphState → Bool
at_limit p s = leb p.max_work_items_per_run (length s.work.completed_items)

-- Where the result `r` leads from a stage, in the state after its patch.
unfoldable pub route : PolicySnapshot → Stage → GraphState → NodeResult → Route
route p start s r = unless_succeeded r.status (onward discover_project)
route p discover_project s r = unless_succeeded r.status (onward preflight)
route p preflight s r = unless_succeeded r.status (onward select_work)
route p select_work s r =
    unless_succeeded r.status
      (after_selection (is_some s.work.item) (not (is_empty s.work.completed_items)))
route p explore s r = unless_succeeded r.status (onward build_task_package)
route p build_task_package s r = unless_succeeded r.status (onward assess_risk)
route p assess_risk s r = unless_succeeded r.status (after_risk s.risk.level)
route p human_checkpoint s r =
    unless_succeeded r.status (after_checkpoint r.checkpoint_outcome s.graph.pending_resume_node)
route p implement s r = unless_succeeded r.status (onward validate)
route p validate s r =
    unless_repairable r.status r.failure_category (after_validation s.validation.verdict)
route p review s r =
    unless_repairable r.status r.failure_category
      (after_review s.review.verdict s.review.safe_to_close)
route p classify_failure s r =
    unless_succeeded r.status (after_classification (has_capacity p s) s.repair.classification)
route p programmer_repair s r = unless_succeeded r.status (onward validate)
route p debugger s r = unless_succeeded r.status (onward validate)
route p close_task s r = unless_succeeded r.status (onward more_work)
route p more_work s r =
    unless_succeeded r.status (after_item (at_limit p s) (not (is_empty s.work.available_items)))
route p delivery_review s r =
    unless_succeeded r.status (after_delivery_review s.review.verdict s.review.safe_to_create_pr)
route p create_pr s r = after_create_pr r.status r.failure_category
route p finalize s r = after_finalize r.status
route p done s r = stuck
