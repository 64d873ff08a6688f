-- ===== src/Core/Patches/Groups.antt =====
-- core/patches.py, the inner call of `_replace_path`: one field of a group is replaced, and the
-- group is built again through its own checks.
-- A write turns the value into what the field holds; `contract_validation` for a value of another
-- class is never met after the checks of `operation_value`, and the applier turns it into
-- `invalid_state_patch` like any other failure of a construction.
use agent_graph_engine.Prelude.{Bool, Option, none, some, List, [], ◌∷◌}
use agent_graph_engine.Prelude.Int.{ℤ}
use agent_graph_engine.Core.Enums.{
  RiskLevel, ValidationVerdict, ReviewVerdict, RepairClassification, FailureCategory,
}
use agent_graph_engine.Core.Errors.{Result, ok, err, contract_validation, ◌>>=◌}
use agent_graph_engine.Core.Metadata.{Metadata}
use agent_graph_engine.Core.State
use agent_graph_engine.Core.State.{
  RepositoryState, ProjectState, BaselineState, WorkState, TaskPackageState, TextCollectionState,
  ScopeState, RiskState, ChangesState, ValidationState, ReviewState, RepairState, FailureState,
  CancellationState, WorkItem, WorkHierarchyItem, DeliveryScope, RepairRecord,
}
use agent_graph_engine.Core.Patches.Values.{Atom, Value, absent, atom, tuple, mapping, atom_text}
use agent_graph_engine.Core.Patches.Paths.{
  NamedField, WorkField, PackageField, TextsField, ScopeField, RiskField, ChangesField,
  ValidationField, ReviewField, RepairField, FailureField, CancellationField, items, level,
}

-- What a field holds, from a value.
abbrev known {ℓ} : {A : Type ℓ} → Option A → Result A
known none = err contract_validation
known (some a) = ok a

abbrev to_atom {ℓ} : {A : Type ℓ} → (Atom → Option A) → Value → Result A
to_atom f (atom a) = known (f a)
to_atom f _ = err contract_validation

abbrev to_optional {ℓ} : {A : Type ℓ} → (Atom → Option A) → Value → Result (Option A)
to_optional f absent = ok none
to_optional f (atom a) = known (f a) >>= λ x. ok (some x)
to_optional f _ = err contract_validation

abbrev pub each {ℓ} : {A : Type ℓ} → (Atom → Option A) → List Atom → Result (List A)
each f [] = ok []
each f (a ∷ as') = known (f a) >>= λ x. each f as' >>= λ xs. ok (x ∷ xs)

abbrev to_list {ℓ} : {A : Type ℓ} → (Atom → Option A) → Value → Result (List A)
to_list f (tuple xs) = each f xs
to_list f _ = err contract_validation

abbrev to_metadata : Value → Result Metadata
to_metadata (mapping m) = ok m
to_metadata _ = err contract_validation

abbrev as_bool : Atom → Option Bool
as_bool (Atom.bool b) = some b
as_bool _ = none

-- `type(count) is int`: a bool is refused here
abbrev as_int : Atom → Option ℤ
as_int (Atom.int n) = some n
as_int _ = none

abbrev as_risk_level : Atom → Option RiskLevel
as_risk_level (Atom.risk_level r) = some r
as_risk_level _ = none

abbrev as_validation_verdict : Atom → Option ValidationVerdict
as_validation_verdict (Atom.validation_verdict v) = some v
as_validation_verdict _ = none

abbrev as_review_verdict : Atom → Option ReviewVerdict
as_review_verdict (Atom.review_verdict v) = some v
as_review_verdict _ = none

abbrev as_repair_classification : Atom → Option RepairClassification
as_repair_classification (Atom.repair_classification c) = some c
as_repair_classification _ = none

abbrev as_failure_category : Atom → Option FailureCategory
as_failure_category (Atom.failure_category c) = some c
as_failure_category _ = none

abbrev pub as_work_item : Atom → Option WorkItem
as_work_item (Atom.work_item w) = some w
as_work_item _ = none

abbrev pub as_hierarchy_item : Atom → Option WorkHierarchyItem
as_hierarchy_item (Atom.hierarchy_item w) = some w
as_hierarchy_item _ = none

abbrev as_delivery_scope : Atom → Option DeliveryScope
as_delivery_scope (Atom.delivery_scope d) = some d
as_delivery_scope _ = none

abbrev pub as_repair_record : Atom → Option RepairRecord
as_repair_record (Atom.repair_record r) = some r
as_repair_record _ = none

-- The inner call of `_replace_path`: a group with one field changed.
unfoldable pub set_repository : RepositoryState → NamedField → Value → Result RepositoryState
set_repository g NamedField.name v =
    to_optional atom_text v >>= λ x. ok (record g { identifier = x })
set_repository g NamedField.metadata v = to_metadata v >>= λ x. ok (record g { metadata = x })

unfoldable pub set_project : ProjectState → NamedField → Value → Result ProjectState
set_project g NamedField.name v = to_optional atom_text v >>= λ x. ok (record g { name = x })
set_project g NamedField.metadata v = to_metadata v >>= λ x. ok (record g { metadata = x })

unfoldable pub set_baseline : BaselineState → NamedField → Value → Result BaselineState
set_baseline g NamedField.name v = to_optional atom_text v >>= λ x. ok (record g { revision = x })
set_baseline g NamedField.metadata v = to_metadata v >>= λ x. ok (record g { metadata = x })

unfoldable pub set_work : WorkState → WorkField → Value → Result WorkState
set_work g WorkField.source v = to_optional atom_text v >>= λ x. ok (record g { source = x })
set_work g WorkField.hierarchy v =
    to_list as_hierarchy_item v >>= λ x. ok (record g { hierarchy = x })
set_work g WorkField.item v = to_optional as_work_item v >>= λ x. ok (record g { item = x })
set_work g WorkField.completed_items v =
    to_list as_work_item v >>= λ x. ok (record g { completed_items = x })
set_work g WorkField.dependencies v =
    to_list atom_text v >>= λ x. ok (record g { dependencies = x })
set_work g WorkField.delivery_scope v =
    to_optional as_delivery_scope v >>= λ x. ok (record g { delivery_scope = x })
set_work g WorkField.available_items v =
    to_list as_work_item v >>= λ x. ok (record g { available_items = x })

unfoldable pub set_package : TaskPackageState → PackageField → Value → Result TaskPackageState
set_package g PackageField.ready v = to_atom as_bool v >>= λ x. ok (record g { ready = x })
set_package g PackageField.metadata v = to_metadata v >>= λ x. ok (record g { metadata = x })

unfoldable pub set_texts : TextCollectionState → TextsField → Value → Result TextCollectionState
set_texts g items v = to_list atom_text v >>= λ x. ok (record { items = x })

unfoldable pub set_scope : ScopeState → ScopeField → Value → Result ScopeState
set_scope g ScopeField.included v = to_list atom_text v >>= λ x. ok (record g { included = x })
set_scope g ScopeField.excluded v = to_list atom_text v >>= λ x. ok (record g { excluded = x })

unfoldable pub set_risk : RiskState → RiskField → Value → Result RiskState
set_risk g level v = to_optional as_risk_level v >>= λ x. ok (record g { level = x })

unfoldable pub set_changes : ChangesState → ChangesField → Value → Result ChangesState
set_changes g ChangesField.agent_reported_files v =
    to_list atom_text v >>= λ x. ok (record g { agent_reported_files = x })
set_changes g ChangesField.identifiers v =
    to_list atom_text v >>= λ x. ok (record g { identifiers = x })
set_changes g ChangesField.count v =
    to_atom as_int v >>= λ n. State.changes g.agent_reported_files g.identifiers n

unfoldable pub set_validation : ValidationState → ValidationField → Value → Result ValidationState
set_validation g ValidationField.verdict v =
    to_atom as_validation_verdict v >>= λ x. ok (record g { verdict = x })
set_validation g ValidationField.checks v =
    to_list atom_text v >>= λ x. ok (record g { checks = x })

unfoldable pub set_review : ReviewState → ReviewField → Value → Result ReviewState
set_review g ReviewField.verdict v =
    to_atom as_review_verdict v >>= λ x. ok (record g { verdict = x })
set_review g ReviewField.safe_to_close v =
    to_atom as_bool v >>= λ x. ok (record g { safe_to_close = x })
set_review g ReviewField.safe_to_create_pr v =
    to_atom as_bool v >>= λ x. ok (record g { safe_to_create_pr = x })
set_review g ReviewField.findings v = to_list atom_text v >>= λ x. ok (record g { findings = x })

unfoldable pub set_repair : RepairState → RepairField → Value → Result RepairState
set_repair g RepairField.classification v = to_optional as_repair_classification v >>= λ x.
    State.repair_state (record g { classification = x })
set_repair g RepairField.history v =
    to_list as_repair_record v >>= λ x. State.repair_state (record g { history = x })

unfoldable pub set_failure : FailureState → FailureField → Value → Result FailureState
set_failure g FailureField.category v =
    to_optional as_failure_category v >>= λ x. ok (record g { category = x })
set_failure g FailureField.code v = to_optional atom_text v >>= λ x. ok (record g { code = x })

unfoldable pub set_cancellation :
    CancellationState → CancellationField → Value → Result CancellationState
set_cancellation g CancellationField.requested v =
    to_atom as_bool v >>= λ x. ok (record g { requested = x })
set_cancellation g CancellationField.reason v =
    to_optional atom_text v >>= λ x. ok (record g { reason = x })
