-- ===== src/Integration/Models.antt =====
-- integration/models.py: what a selection reports.
use agent_graph_engine.Prelude.{String, Option, none, some, List, []}

pub data IntegrationIssueSeverity : Type 0 where
  error warning : IntegrationIssueSeverity

pub data SelectionDisposition : Type 0 where
  ready no_work blocked selection_required : SelectionDisposition

pub record IntegrationIssue : Type 0 where
  pub code : String
  pub severity : IntegrationIssueSeverity
  pub message : String
  pub related_ids : List String

pub record SelectionPlan : Type 0 where
  pub disposition : SelectionDisposition
  pub scope_id : Option String
  pub item_id : Option String
  pub reason_code : String
  pub issues : List IntegrationIssue
  pub blocking_ids : List String

-- The defaults of the dataclass.
abbrev pub plan : SelectionDisposition → Option String → SelectionPlan
plan disposition scope_id = record {
  disposition = disposition;
  scope_id = scope_id;
  item_id = none;
  reason_code = "";
  issues = [];
  blocking_ids = [];
}

-- The plan of a selected item.
abbrev pub ready_plan : String → String → String → SelectionPlan
ready_plan scope_id item_id reason_code = record (plan SelectionDisposition.ready (some scope_id)) {
  item_id = some item_id;
  reason_code = reason_code;
}
