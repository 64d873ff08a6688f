-- ===== src/Work/Models.antt =====
-- work/models.py and work/errors.py: scopes, items and what an adapter says of them.
-- Titles, goals, notes and the like are carried as texts. `SourceLocation` keeps its two fields;
-- hints of a source's policy, which nothing in the modelled parts reads, are left out.
use agent_graph_engine.Prelude.{ℕ, String, Bool, true, false, Option, List}

pub data WorkError : Type 0 where
  scope_not_found item_not_found : String → WorkError
  -- a dictionary has no such key
  missing_key : String → WorkError
  format_error capability_mismatch change_path_error selection_error : String → WorkError
  assertion_failed : WorkError

pub data WorkItemStatus : Type 0 where
  pending completed : WorkItemStatus

pub data WorkScopeStatus : Type 0 where
  planned active review completed blocked : WorkScopeStatus

pub data WorkRisk : Type 0 where
  low medium high critical : WorkRisk

pub data ValidationOrigin : Type 0 where
  item scope : ValidationOrigin

pub data SelectionKind : Type 0 where
  ready scope_complete blocked_dependencies empty_scope : SelectionKind

pub record SourceLocation : Type 0 where
  pub path : String
  pub line : Option ℕ

pub record SourceDocumentRevision : Type 0 where
  pub path : String
  pub sha256 : String
  pub size_bytes : ℕ

pub record WorkSourceRevision : Type 0 where
  pub documents : List SourceDocumentRevision
  pub fingerprint : String

pub record RepoPathSpec : Type 0 where
  pub path : String
  pub directory_hint : Bool

pub record ValidationCheck : Type 0 where
  pub argv : List String
  pub raw : String
  pub origin : ValidationOrigin
  pub source_location : SourceLocation

pub record WorkItem : Type 0 where
  pub item_id : String
  pub title : String
  pub scope_id : String
  pub parent_scope_id : Option String
  pub status : WorkItemStatus
  pub risk : WorkRisk
  pub goal : String
  pub acceptance_criteria : List String
  pub test_requirements : List String
  pub dependencies : List String
  pub implementation_paths : List RepoPathSpec
  pub test_paths : List RepoPathSpec
  pub validation_checks : List ValidationCheck
  pub final_review_required : Bool
  pub parallelizable : Bool
  pub notes : List String
  pub source_location : SourceLocation

pub record WorkScope : Type 0 where
  pub scope_id : String
  pub parent_scope_id : Option String
  pub title : String
  pub status : WorkScopeStatus
  pub risk : Option WorkRisk
  pub goal : String
  pub child_scope_ids : List String
  pub item_ids : List String
  pub dependencies : List String
  pub required_checks : List ValidationCheck
  pub branch_hint : Option String
  pub base_branch_hint : Option String
  pub source_location : SourceLocation

pub record WorkSourceSnapshot : Type 0 where
  pub scopes : List WorkScope
  pub items : List WorkItem
  pub revision : WorkSourceRevision
  pub active_scope_id : Option String

pub record WorkSelection : Type 0 where
  pub kind : SelectionKind
  pub scope_id : String
  pub item_id : Option String
  pub blocking_item_ids : List String
  pub reason_code : String

pub record ScopeSelection : Type 0 where
  pub kind : SelectionKind
  pub parent_scope_id : String
  pub scope_id : Option String
  pub blocking_scope_ids : List String
  pub reason_code : String

pub record WorkPackage : Type 0 where
  pub item_id : String
  pub title : String
  pub scope_id : String
  pub parent_scope_id : Option String
  pub risk : WorkRisk
  pub goal : String
  pub acceptance_criteria : List String
  pub test_requirements : List String
  pub dependencies : List String
  pub implementation_paths : List RepoPathSpec
  pub test_paths : List RepoPathSpec
  pub allowed_paths : List RepoPathSpec
  pub item_validation_checks : List ValidationCheck
  pub scope_required_checks : List ValidationCheck
  pub final_review_required : Bool
  pub parallelizable : Bool
  pub notes : List String
  pub branch_hint : Option String
  pub base_branch_hint : Option String
  pub source_location : SourceLocation
  pub source_revision : WorkSourceRevision

abbrev pub is_completed : WorkItemStatus → Bool
is_completed WorkItemStatus.completed = true
is_completed _ = false

abbrev pub scope_completed : WorkScopeStatus → Bool
scope_completed WorkScopeStatus.completed = true
scope_completed _ = false

abbrev pub scope_planned : WorkScopeStatus → Bool
scope_planned WorkScopeStatus.planned = true
scope_planned _ = false
