-- ===== src/Core/Edges.antt =====
-- core/guards.py and core/edges.py: guards, conditions, edges and transitions.
-- `Condition` and `Guard` are protocols: beside core's own classes a `custom` one is any function.
use agent_graph_engine.Prelude.{
  ℕ, String, Bool, true, false, not, ◌&&◌, Option, none, some, List, length, is_empty, is_some, ltb,
  leb, same_bool, if◌then◌else◌,
}
use agent_graph_engine.Prelude.Text.{str_eq, same_option}
use agent_graph_engine.Core.Enums.{
  NodeStatus, FailureCategory, RunStatus, RiskLevel, ValidationVerdict, ReviewVerdict,
  RepairClassification, CheckpointOutcome, same, member, member_option, status_enumerated,
  category_enumerated, risk_enumerated, validation_enumerated, review_enumerated, repair_enumerated,
  outcome_enumerated,
}
use agent_graph_engine.Core.State.{GraphState}
use agent_graph_engine.Core.Policy.{PolicySnapshot}
use agent_graph_engine.Core.NodeResult.{NodeResult, is_failed}

pub record GuardResult : Type 0 where
  pub passed : Bool
  pub code : String
  pub reason : String

pub data Guard : Type 0 where
  allow deny : String → Guard
  custom : (GraphState → NodeResult → PolicySnapshot → GuardResult) → Guard

-- Guard.evaluate
abbrev pub evaluate : Guard → GraphState → NodeResult → PolicySnapshot → GuardResult
evaluate (allow c) s r p = record { passed = true; code = c; reason = "guard allowed transition" }
evaluate (deny c) s r p = record { passed = false; code = c; reason = "guard rejected transition" }
evaluate (Guard.custom f) s r p = f s r p

mutual
  pub data Condition : Type 0 where
    always : Condition
    result_status : List NodeStatus → Condition
    failure_category : List FailureCategory → Condition
    risk : List RiskLevel → Condition
    validation : ValidationVerdict → Condition
    review : ReviewVerdict → Option Bool → Condition
    classification : List RepairClassification → Condition
    repair_capacity : Bool → Condition
    work : String → Bool → Condition
    work_limit : Bool → Condition
    completed_work : Bool → Condition
    delivery_review : ReviewVerdict → Option Bool → Condition
    outcome : List CheckpointOutcome → Condition
    pending_resume : String → Condition
    all_of : Conditions → Condition
    custom : (GraphState → NodeResult → PolicySnapshot → Bool) → Condition

  pub data Conditions : Type 0 where
    end : Conditions
    both : Condition → Conditions → Conditions

abbrev pub flag_fits : Option Bool → Bool → Bool
flag_fits none b = true
flag_fits (some a) b = same_bool b a

-- WorkCondition.matches
abbrev work_matches : String → Bool → GraphState → Bool
work_matches kind available s =
    if str_eq kind "current"
    then same_bool (is_some s.work.item) available
    else if str_eq kind "more"
    then same_bool (not (is_empty s.work.available_items)) available
    else false

-- Condition.matches, class by class
unfoldable mutual
  pub matches : Condition → GraphState → NodeResult → PolicySnapshot → Bool
  matches always s r p = true
  matches (result_status statuses) s r p = member r.status statuses
  matches (failure_category cs) s r p = is_failed r.status && member_option r.failure_category cs
  matches (risk levels) s r p = member_option s.risk.level levels
  matches (validation v) s r p = same s.validation.verdict v
  matches (review v safe) s r p = same s.review.verdict v && flag_fits safe s.review.safe_to_close
  matches (classification cs) s r p = member_option s.repair.classification cs
  matches (repair_capacity available) s r p =
      same_bool (ltb s.repair.count p.max_repair_cycles) available
  matches (work kind available) s r p = work_matches kind available s
  matches (work_limit reached) s r p =
      same_bool (leb p.max_work_items_per_run (length s.work.completed_items)) reached
  matches (completed_work present) s r p = same_bool (not (is_empty s.work.completed_items)) present
  matches (delivery_review v safe) s r p =
      same s.review.verdict v && flag_fits safe s.review.safe_to_create_pr
  matches (outcome os) s r p = member_option r.checkpoint_outcome os
  matches (pending_resume n) s r p = same_option s.graph.pending_resume_node (some n)
  matches (all_of cs) s r p = match_all cs s r p
  matches (custom f) s r p = f s r p

  pub match_all : Conditions → GraphState → NodeResult → PolicySnapshot → Bool
  match_all end s r p = true
  match_all (both c cs) s r p = matches c s r p && match_all cs s r p

-- RetryPolicy is static metadata that no code of core reads.
pub record Edge : Type 0 where
  pub id : String
  pub from_node : String
  pub to_node : String
  pub priority : ℕ
  pub condition : Condition
  pub guards : List Guard
  pub max_attempts : ℕ
  pub checkpoint : Bool
  pub terminal : Bool
  pub final_status : Option RunStatus
  pub resume_node : Option String

pub record Transition : Type 0 where
  pub edge_id : String
  pub from_node : String
  pub to_node : String
  pub priority : ℕ
  pub guard_results : List GuardResult
  pub checkpoint : Bool
  pub terminal : Bool
  pub final_status : Option RunStatus
  pub resume_node : Option String
