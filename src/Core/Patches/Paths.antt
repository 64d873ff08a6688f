-- ===== src/Core/Patches/Paths.antt =====
-- core/patches.py, `PATH_RULES`: the paths that a patch can name, by the group of the state and
-- the field in it, with their spelling and their rules.
use agent_graph_engine.Prelude.{
  String, Bool, true, false, Option, none, some, List, [], ◌∷◌, if◌then◌else◌,
}
use agent_graph_engine.Prelude.Text.{str_eq}
use agent_graph_engine.Core.Enums.{OperationType}
use agent_graph_engine.Core.Patches.Values.{
  Class, text_class, bool_class, int_class, tuple_class, mapping_class, risk_level_class,
  validation_verdict_class, review_verdict_class, repair_classification_class,
  failure_category_class, work_item_class, hierarchy_item_class, delivery_scope_class,
  repair_record_class,
}

pub data NamedField : Type 0 where
  name metadata : NamedField

pub data WorkField : Type 0 where
  source hierarchy item completed_items dependencies delivery_scope available_items : WorkField

pub data PackageField : Type 0 where
  ready metadata : PackageField

pub data TextsField : Type 0 where
  items : TextsField

pub data ScopeField : Type 0 where
  included excluded : ScopeField

pub data RiskField : Type 0 where
  level : RiskField

pub data ChangesField : Type 0 where
  agent_reported_files identifiers count : ChangesField

pub data ValidationField : Type 0 where
  verdict checks : ValidationField

pub data ReviewField : Type 0 where
  verdict safe_to_close safe_to_create_pr findings : ReviewField

pub data RepairField : Type 0 where
  classification history : RepairField

pub data FailureField : Type 0 where
  category code : FailureField

pub data CancellationField : Type 0 where
  requested reason : CancellationField

-- `name` is `identifier` in a repository and `revision` in a baseline.
pub data Leaf : Type 0 where
  repository project baseline : NamedField → Leaf
  work : WorkField → Leaf
  task_package : PackageField → Leaf
  requirements acceptance_criteria architecture_invariants : TextsField → Leaf
  scope : ScopeField → Leaf
  risk : RiskField → Leaf
  changes : ChangesField → Leaf
  validation : ValidationField → Leaf
  review : ReviewField → Leaf
  repair : RepairField → Leaf
  failure : FailureField → Leaf
  cancellation : CancellationField → Leaf

abbrev pub path_text : Leaf → String
path_text (repository NamedField.name) = "repository.identifier"
path_text (repository NamedField.metadata) = "repository.metadata"
path_text (project NamedField.name) = "project.name"
path_text (project NamedField.metadata) = "project.metadata"
path_text (baseline NamedField.name) = "baseline.revision"
path_text (baseline NamedField.metadata) = "baseline.metadata"
path_text (work source) = "work.source"
path_text (work hierarchy) = "work.hierarchy"
path_text (work item) = "work.item"
path_text (work completed_items) = "work.completed_items"
path_text (work dependencies) = "work.dependencies"
path_text (work delivery_scope) = "work.delivery_scope"
path_text (work available_items) = "work.available_items"
path_text (task_package ready) = "task_package.ready"
path_text (task_package PackageField.metadata) = "task_package.metadata"
path_text (requirements items) = "requirements.items"
path_text (acceptance_criteria items) = "acceptance_criteria.items"
path_text (architecture_invariants items) = "architecture_invariants.items"
path_text (scope included) = "scope.included"
path_text (scope excluded) = "scope.excluded"
path_text (risk level) = "risk.level"
path_text (changes agent_reported_files) = "changes.agent_reported_files"
path_text (changes identifiers) = "changes.identifiers"
path_text (changes count) = "changes.count"
path_text (validation ValidationField.verdict) = "validation.verdict"
path_text (validation checks) = "validation.checks"
path_text (review ReviewField.verdict) = "review.verdict"
path_text (review safe_to_close) = "review.safe_to_close"
path_text (review safe_to_create_pr) = "review.safe_to_create_pr"
path_text (review findings) = "review.findings"
path_text (repair classification) = "repair.classification"
path_text (repair history) = "repair.history"
path_text (failure category) = "failure.category"
path_text (failure code) = "failure.code"
path_text (cancellation requested) = "cancellation.requested"
path_text (cancellation reason) = "cancellation.reason"

-- The keys of PATH_RULES, in its order.
abbrev pub path_keys : List Leaf
path_keys =
    repository NamedField.name
    ∷ repository NamedField.metadata
    ∷ project NamedField.name
    ∷ project NamedField.metadata
    ∷ work source
    ∷ work hierarchy
    ∷ work item
    ∷ work completed_items
    ∷ work dependencies
    ∷ work delivery_scope
    ∷ work available_items
    ∷ task_package ready
    ∷ task_package PackageField.metadata
    ∷ requirements items
    ∷ acceptance_criteria items
    ∷ architecture_invariants items
    ∷ baseline NamedField.name
    ∷ baseline NamedField.metadata
    ∷ scope included
    ∷ scope excluded
    ∷ risk level
    ∷ changes agent_reported_files
    ∷ changes identifiers
    ∷ changes count
    ∷ validation ValidationField.verdict
    ∷ validation checks
    ∷ review ReviewField.verdict
    ∷ review safe_to_close
    ∷ review safe_to_create_pr
    ∷ review findings
    ∷ repair classification
    ∷ repair history
    ∷ failure category
    ∷ failure code
    ∷ cancellation requested
    ∷ cancellation reason
    ∷ []

unfoldable pub find_key : String → List Leaf → Option Leaf
find_key path [] = none
find_key path (l ∷ ls) =
    let rest = find_key path ls in if str_eq (path_text l) path then some l else rest

-- PATH_RULES.get(path), as the key that is found
unfoldable pub lookup_path : String → Option Leaf
unfolding find_key
lookup_path path = find_key path path_keys

pub record PathRule : Type 0 where
  pub operations : List OperationType
  pub value_types : List Class
  pub nullable : Bool
  pub item_types : List Class

abbrev set_ops : List OperationType
set_ops = OperationType.set ∷ OperationType.clear ∷ []

abbrev set_only : List OperationType
set_only = OperationType.set ∷ []

abbrev tuple_identified_ops : List OperationType
tuple_identified_ops =
    OperationType.set ∷ OperationType.append_unique ∷ OperationType.merge_by_id
    ∷ OperationType.clear ∷ []

abbrev tuple_scalar_ops : List OperationType
tuple_scalar_ops = OperationType.set ∷ OperationType.append_unique ∷ OperationType.clear ∷ []

abbrev simple : List OperationType → Class → Bool → PathRule
simple ops c nullable = record {
  operations = ops;
  value_types = c ∷ [];
  nullable = nullable;
  item_types = [];
}

abbrev sequence : List OperationType → Class → PathRule
sequence ops c = record {
  operations = ops;
  value_types = tuple_class ∷ [];
  nullable = false;
  item_types = c ∷ [];
}

-- PATH_RULES[path]
unfoldable pub path_rule : Leaf → PathRule
path_rule (repository NamedField.name) = simple set_ops text_class true
path_rule (repository NamedField.metadata) = simple set_ops mapping_class false
path_rule (project NamedField.name) = simple set_ops text_class true
path_rule (project NamedField.metadata) = simple set_ops mapping_class false
path_rule (work source) = simple set_ops text_class true
path_rule (work hierarchy) = sequence tuple_identified_ops hierarchy_item_class
path_rule (work item) = simple set_ops work_item_class true
path_rule (work completed_items) = sequence tuple_identified_ops work_item_class
path_rule (work dependencies) = sequence tuple_scalar_ops text_class
path_rule (work delivery_scope) = simple set_ops delivery_scope_class true
path_rule (work available_items) = sequence tuple_identified_ops work_item_class
path_rule (task_package ready) = simple set_only bool_class false
path_rule (task_package PackageField.metadata) = simple set_ops mapping_class false
path_rule (requirements items) = sequence tuple_scalar_ops text_class
path_rule (acceptance_criteria items) = sequence tuple_scalar_ops text_class
path_rule (architecture_invariants items) = sequence tuple_scalar_ops text_class
path_rule (baseline NamedField.name) = simple set_ops text_class true
path_rule (baseline NamedField.metadata) = simple set_ops mapping_class false
path_rule (scope included) = sequence tuple_scalar_ops text_class
path_rule (scope excluded) = sequence tuple_scalar_ops text_class
path_rule (risk level) = simple set_ops risk_level_class true
path_rule (changes agent_reported_files) = sequence tuple_scalar_ops text_class
path_rule (changes identifiers) = sequence tuple_scalar_ops text_class
path_rule (changes count) =
    simple (OperationType.set ∷ OperationType.increment ∷ []) int_class false
path_rule (validation ValidationField.verdict) = simple set_only validation_verdict_class false
path_rule (validation checks) = sequence tuple_scalar_ops text_class
path_rule (review ReviewField.verdict) = simple set_only review_verdict_class false
path_rule (review safe_to_close) = simple set_only bool_class false
path_rule (review safe_to_create_pr) = simple set_only bool_class false
path_rule (review findings) = sequence tuple_scalar_ops text_class
path_rule (repair classification) = simple set_ops repair_classification_class true
path_rule (repair history) = sequence tuple_identified_ops repair_record_class
path_rule (failure category) = simple set_ops failure_category_class true
path_rule (failure code) = simple set_ops text_class true
path_rule (cancellation requested) = simple set_only bool_class false
path_rule (cancellation reason) = simple set_ops text_class true
