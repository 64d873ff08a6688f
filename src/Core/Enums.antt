-- ===== src/Core/Enums.antt =====
-- core/enums.py. A `StrEnum` member is a constructor; where the code uses that a member is also a
-- `str`, `*_text` gives its value.
use agent_graph_engine.Prelude.{
  ℕ, String, Bool, false, ◌||◌, Option, none, some, List, [], ◌∷◌, ◌==◌,
}

pub data NodeType : Type 0 where
  deterministic llm_read_only llm_write human_checkpoint external_operation : NodeType

pub data NodeStatus : Type 0 where
  succeeded failed blocked checkpoint_required cancelled timed_out : NodeStatus

pub data FailureCategory : Type 0 where
  implementation design validation policy contract infrastructure : FailureCategory
  environment external_service internal : FailureCategory

pub data RunStatus : Type 0 where
  running completed paused blocked failed cancelled : RunStatus

pub data RiskLevel : Type 0 where
  low medium high critical : RiskLevel

pub data ProgrammerRoute : Type 0 where
  fast high : ProgrammerRoute

pub data ValidationVerdict : Type 0 where
  unknown pass fail : ValidationVerdict

pub data ReviewVerdict : Type 0 where
  unknown pass fail : ReviewVerdict

pub data RepairClassification : Type 0 where
  programmer debugger : RepairClassification

pub data CheckpointOutcome : Type 0 where
  approved rejected cancelled : CheckpointOutcome

pub data CommitMode : Type 0 where
  per_work_item delivery disabled : CommitMode

pub data OperationType : Type 0 where
  set append_unique increment merge_by_id clear : OperationType

-- Equality of members goes by their place in the class.
pub record Enumerated (A : Type 0) : Type 0 where
  pub place : A → ℕ

abbrev pub same : {A : Type 0} ⦃e : Enumerated A⦄ → A → A → Bool
same ⦃e⦄ a b = e.place a == e.place b

-- a in {…}
abbrev pub member : {A : Type 0} ⦃e : Enumerated A⦄ → A → List A → Bool
member a [] = false
member a (x ∷ xs) = same a x || member a xs

-- a in {…}, where a may be None
abbrev pub member_option : {A : Type 0} ⦃e : Enumerated A⦄ → Option A → List A → Bool
member_option none xs = false
member_option (some a) xs = member a xs

abbrev status_place : NodeStatus → ℕ
status_place NodeStatus.succeeded = 0
status_place NodeStatus.failed = 1
status_place NodeStatus.blocked = 2
status_place NodeStatus.checkpoint_required = 3
status_place NodeStatus.cancelled = 4
status_place NodeStatus.timed_out = 5

abbrev category_place : FailureCategory → ℕ
category_place FailureCategory.implementation = 0
category_place FailureCategory.design = 1
category_place FailureCategory.validation = 2
category_place FailureCategory.policy = 3
category_place FailureCategory.contract = 4
category_place FailureCategory.infrastructure = 5
category_place FailureCategory.environment = 6
category_place FailureCategory.external_service = 7
category_place FailureCategory.internal = 8

abbrev run_status_place : RunStatus → ℕ
run_status_place RunStatus.running = 0
run_status_place RunStatus.completed = 1
run_status_place RunStatus.paused = 2
run_status_place RunStatus.blocked = 3
run_status_place RunStatus.failed = 4
run_status_place RunStatus.cancelled = 5

abbrev risk_place : RiskLevel → ℕ
risk_place RiskLevel.low = 0
risk_place RiskLevel.medium = 1
risk_place RiskLevel.high = 2
risk_place RiskLevel.critical = 3

abbrev validation_place : ValidationVerdict → ℕ
validation_place ValidationVerdict.unknown = 0
validation_place ValidationVerdict.pass = 1
validation_place ValidationVerdict.fail = 2

abbrev review_place : ReviewVerdict → ℕ
review_place ReviewVerdict.unknown = 0
review_place ReviewVerdict.pass = 1
review_place ReviewVerdict.fail = 2

abbrev repair_place : RepairClassification → ℕ
repair_place RepairClassification.programmer = 0
repair_place RepairClassification.debugger = 1

abbrev outcome_place : CheckpointOutcome → ℕ
outcome_place CheckpointOutcome.approved = 0
outcome_place CheckpointOutcome.rejected = 1
outcome_place CheckpointOutcome.cancelled = 2

abbrev operation_place : OperationType → ℕ
operation_place OperationType.set = 0
operation_place OperationType.append_unique = 1
operation_place OperationType.increment = 2
operation_place OperationType.merge_by_id = 3
operation_place OperationType.clear = 4

instance abbrev pub status_enumerated : Enumerated NodeStatus
status_enumerated = record { place = status_place }

instance abbrev pub category_enumerated : Enumerated FailureCategory
category_enumerated = record { place = category_place }

instance abbrev pub run_status_enumerated : Enumerated RunStatus
run_status_enumerated = record { place = run_status_place }

instance abbrev pub risk_enumerated : Enumerated RiskLevel
risk_enumerated = record { place = risk_place }

instance abbrev pub validation_enumerated : Enumerated ValidationVerdict
validation_enumerated = record { place = validation_place }

instance abbrev pub review_enumerated : Enumerated ReviewVerdict
review_enumerated = record { place = review_place }

instance abbrev pub repair_enumerated : Enumerated RepairClassification
repair_enumerated = record { place = repair_place }

instance abbrev pub outcome_enumerated : Enumerated CheckpointOutcome
outcome_enumerated = record { place = outcome_place }

instance abbrev pub operation_enumerated : Enumerated OperationType
operation_enumerated = record { place = operation_place }

abbrev pub category_text : FailureCategory → String
category_text FailureCategory.implementation = "implementation"
category_text FailureCategory.design = "design"
category_text FailureCategory.validation = "validation"
category_text FailureCategory.policy = "policy"
category_text FailureCategory.contract = "contract"
category_text FailureCategory.infrastructure = "infrastructure"
category_text FailureCategory.environment = "environment"
category_text FailureCategory.external_service = "external_service"
category_text FailureCategory.internal = "internal"

abbrev pub risk_text : RiskLevel → String
risk_text RiskLevel.low = "low"
risk_text RiskLevel.medium = "medium"
risk_text RiskLevel.high = "high"
risk_text RiskLevel.critical = "critical"

abbrev pub validation_text : ValidationVerdict → String
validation_text ValidationVerdict.unknown = "unknown"
validation_text ValidationVerdict.pass = "pass"
validation_text ValidationVerdict.fail = "fail"

abbrev pub review_text : ReviewVerdict → String
review_text ReviewVerdict.unknown = "unknown"
review_text ReviewVerdict.pass = "pass"
review_text ReviewVerdict.fail = "fail"

abbrev pub repair_text : RepairClassification → String
repair_text RepairClassification.programmer = "programmer"
repair_text RepairClassification.debugger = "debugger"
