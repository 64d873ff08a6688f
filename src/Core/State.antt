-- ===== src/Core/State.antt =====
-- core/state.py: the immutable state snapshot, a record for each nested dataclass.
-- Python's type checks are the types here. What `__post_init__` checks beyond them is a function
-- into `Result` (`progress`, `changes`, `repair_state`, `checked_work_item`, …), which the code
-- that builds such a value goes through. `schema_version` can only be 1, so it is not stored.
use agent_graph_engine.Prelude.{ℕ, String, Bool, false, not, Option, none, List, [], leb}
use agent_graph_engine.Prelude.Int.{ℤ, pos, negsuc}
use agent_graph_engine.Prelude.Text.{str_eq}
use agent_graph_engine.Core.Enums.{
  RunStatus, RiskLevel, ProgrammerRoute, ValidationVerdict, ReviewVerdict, RepairClassification,
  FailureCategory,
}
use agent_graph_engine.Core.Errors.{Result, ok, err, contract_validation, ◌>>=◌, ◌>>◌, require}
use agent_graph_engine.Core.Metadata.{Metadata, empty}

pub record RunState : Type 0 where
  pub run_id : String
  pub status : RunStatus

pub record RepositoryState : Type 0 where
  pub identifier : Option String
  pub metadata : Metadata

pub record GraphProgress : Type 0 where
  pub current_node : String
  pub previous_node : Option String
  pub transition_seq : ℕ
  pub pending_resume_node : Option String

pub record ProjectState : Type 0 where
  pub name : Option String
  pub metadata : Metadata

pub record WorkHierarchyItem : Type 0 where
  pub level : String
  pub id : String
  pub title : String
  pub status : Option String
  pub revision : Option String
  pub metadata : Metadata

pub record WorkItem : Type 0 where
  pub id : String
  pub title : String
  pub metadata : Metadata

pub record DeliveryScope : Type 0 where
  pub id : Option String
  pub allowed_paths : List String
  pub metadata : Metadata

pub record WorkState : Type 0 where
  pub source : Option String
  pub hierarchy : List WorkHierarchyItem
  pub item : Option WorkItem
  pub completed_items : List WorkItem
  pub dependencies : List String
  pub delivery_scope : Option DeliveryScope
  pub available_items : List WorkItem

pub record TaskPackageState : Type 0 where
  pub ready : Bool
  pub metadata : Metadata

pub record TextCollectionState : Type 0 where
  pub items : List String

pub record BaselineState : Type 0 where
  pub revision : Option String
  pub metadata : Metadata

pub record ScopeState : Type 0 where
  pub included : List String
  pub excluded : List String
  pub locked : Bool

pub record RiskState : Type 0 where
  pub level : Option RiskLevel
  pub programmer_route : Option ProgrammerRoute

pub record ChangesState : Type 0 where
  pub agent_reported_files : List String
  pub identifiers : List String
  pub count : ℕ

pub record ValidationState : Type 0 where
  pub verdict : ValidationVerdict
  pub checks : List String

pub record ReviewState : Type 0 where
  pub verdict : ReviewVerdict
  pub safe_to_close : Bool
  pub findings : List String
  pub safe_to_create_pr : Bool

pub record RepairRecord : Type 0 where
  pub id : String
  pub classification : RepairClassification

pub record RepairState : Type 0 where
  pub count : ℕ
  pub max_cycles : ℕ
  pub classification : Option RepairClassification
  pub history : List RepairRecord

pub record OperationCollectionState : Type 0 where
  pub records : List String

pub record FailureState : Type 0 where
  pub category : Option FailureCategory
  pub code : Option String

pub record CancellationState : Type 0 where
  pub requested : Bool
  pub reason : Option String

pub record GraphState : Type 0 where
  pub run : RunState
  pub state_version : ℕ
  pub repository : RepositoryState
  pub graph : GraphProgress
  pub project : ProjectState
  pub work : WorkState
  pub task_package : TaskPackageState
  pub requirements : TextCollectionState
  pub acceptance_criteria : TextCollectionState
  pub architecture_invariants : TextCollectionState
  pub baseline : BaselineState
  pub scope : ScopeState
  pub risk : RiskState
  pub changes : ChangesState
  pub validation : ValidationState
  pub review : ReviewState
  pub repair : RepairState
  pub checkpoints : OperationCollectionState
  pub commits : OperationCollectionState
  pub push : OperationCollectionState
  pub pull_request : OperationCollectionState
  pub failure : FailureState
  pub cancellation : CancellationState

-- The defaults of the dataclasses.
abbrev pub new_task_package : TaskPackageState
new_task_package = record { ready = false; metadata = empty }

abbrev pub new_texts : TextCollectionState
new_texts = record { items = [] }

abbrev pub new_scope : ScopeState
new_scope = record { included = []; excluded = []; locked = false }

abbrev pub new_risk : RiskState
new_risk = record { level = none; programmer_route = none }

abbrev pub new_changes : ChangesState
new_changes = record { agent_reported_files = []; identifiers = []; count = 0 }

abbrev pub new_validation : ValidationState
new_validation = record { verdict = ValidationVerdict.unknown; checks = [] }

abbrev pub new_review : ReviewState
new_review = record {
  verdict = ReviewVerdict.unknown;
  safe_to_close = false;
  findings = [];
  safe_to_create_pr = false;
}

abbrev pub new_failure : FailureState
new_failure = record { category = none; code = none }

abbrev pub new_work : WorkState
new_work = record {
  source = none;
  hierarchy = [];
  item = none;
  completed_items = [];
  dependencies = [];
  delivery_scope = none;
  available_items = [];
}

abbrev pub new_records : OperationCollectionState
new_records = record { records = [] }

abbrev pub new_repair : ℕ → RepairState
new_repair limit = record { count = 0; max_cycles = limit; classification = none; history = [] }

-- GraphProgress.__post_init__
abbrev pub progress : GraphProgress → Result GraphProgress
progress g = do require (not (str_eq g.current_node "")) contract_validation; ok g

-- RunState.__post_init__
abbrev pub run_state : RunState → Result RunState
run_state r = do require (not (str_eq r.run_id "")) contract_validation; ok r

-- ChangesState.__post_init__, with the count still a Python int
abbrev pub changes : List String → List String → ℤ → Result ChangesState
changes files ids (pos n) =
    ok (record { agent_reported_files = files; identifiers = ids; count = n })
changes files ids (negsuc n) = err contract_validation

-- WorkHierarchyItem.__post_init__
abbrev pub checked_hierarchy_item : WorkHierarchyItem → Result WorkHierarchyItem
checked_hierarchy_item i = do
  require (not (str_eq i.level "")) contract_validation
  require (not (str_eq i.id "")) contract_validation
  ok i

-- WorkItem.__post_init__
abbrev pub checked_work_item : WorkItem → Result WorkItem
checked_work_item i = do require (not (str_eq i.id "")) contract_validation; ok i

-- RepairState.__post_init__
abbrev pub repair_state : RepairState → Result RepairState
repair_state r = do require (leb r.count r.max_cycles) contract_validation; ok r

abbrev pub blank : RunState → ℕ → GraphState
blank r limit = record {
  run = r;
  state_version = 0;
  repository = record { identifier = none; metadata = empty };
  graph = record {
    current_node = "START";
    previous_node = none;
    transition_seq = 0;
    pending_resume_node = none;
  };
  project = record { name = none; metadata = empty };
  work = new_work;
  task_package = new_task_package;
  requirements = new_texts;
  acceptance_criteria = new_texts;
  architecture_invariants = new_texts;
  baseline = record { revision = none; metadata = empty };
  scope = new_scope;
  risk = new_risk;
  changes = new_changes;
  validation = new_validation;
  review = new_review;
  repair = new_repair limit;
  checkpoints = new_records;
  commits = new_records;
  push = new_records;
  pull_request = new_records;
  failure = new_failure;
  cancellation = record { requested = false; reason = none };
}

-- GraphState.initial
unfoldable pub initial : String → ℕ → Result GraphState
initial run_id max_repair_cycles = do
  r ← run_state (record { run_id = run_id; status = RunStatus.running })
  ok (blank r max_repair_cycles)
