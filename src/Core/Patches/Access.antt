-- ===== src/Core/Patches/Access.antt =====
-- core/patches.py, `_get_path` and `_replace_path`: a path has two parts, so a read takes a field
-- of a group, and a write puts a changed group back.
use agent_graph_engine.Prelude.{String, Option, none, some, List, map}
use agent_graph_engine.Prelude.Int.{pos}
use agent_graph_engine.Core.Errors.{Result, ok, ◌>>=◌}
use agent_graph_engine.Core.State.{GraphState, WorkState}
use agent_graph_engine.Core.Patches.Values.{Atom, Value, absent, atom, tuple, mapping}
use agent_graph_engine.Core.Patches.Paths.{
  Leaf, NamedField, WorkField, PackageField, ScopeField, ChangesField, ValidationField, ReviewField,
  RepairField, FailureField, CancellationField, items, level,
}
use agent_graph_engine.Core.Patches.Groups.{
  set_repository, set_project, set_baseline, set_work, set_package, set_texts, set_scope, set_risk,
  set_changes, set_validation, set_review, set_repair, set_failure, set_cancellation,
}

-- None, or the value.
abbrev optional {ℓ} : {A : Type ℓ} → (A → Atom) → Option A → Value
optional f none = absent
optional f (some a) = atom (f a)

abbrev texts : List String → Value
texts xs = tuple (map Atom.text xs)

get_work : WorkState → WorkField → Value
get_work w WorkField.source = optional Atom.text w.source
get_work w WorkField.hierarchy = tuple (map Atom.hierarchy_item w.hierarchy)
get_work w WorkField.item = optional Atom.work_item w.item
get_work w WorkField.completed_items = tuple (map Atom.work_item w.completed_items)
get_work w WorkField.dependencies = texts w.dependencies
get_work w WorkField.delivery_scope = optional Atom.delivery_scope w.delivery_scope
get_work w WorkField.available_items = tuple (map Atom.work_item w.available_items)

-- _get_path
unfoldable pub get_path : GraphState → Leaf → Value
unfolding get_work
get_path s (Leaf.repository NamedField.name) = optional Atom.text s.repository.identifier
get_path s (Leaf.repository NamedField.metadata) = mapping s.repository.metadata
get_path s (Leaf.project NamedField.name) = optional Atom.text s.project.name
get_path s (Leaf.project NamedField.metadata) = mapping s.project.metadata
get_path s (Leaf.baseline NamedField.name) = optional Atom.text s.baseline.revision
get_path s (Leaf.baseline NamedField.metadata) = mapping s.baseline.metadata
get_path s (Leaf.work f) = get_work s.work f
get_path s (Leaf.task_package PackageField.ready) = atom (Atom.bool s.task_package.ready)
get_path s (Leaf.task_package PackageField.metadata) = mapping s.task_package.metadata
get_path s (Leaf.requirements items) = texts s.requirements.items
get_path s (Leaf.acceptance_criteria items) = texts s.acceptance_criteria.items
get_path s (Leaf.architecture_invariants items) = texts s.architecture_invariants.items
get_path s (Leaf.scope ScopeField.included) = texts s.scope.included
get_path s (Leaf.scope ScopeField.excluded) = texts s.scope.excluded
get_path s (Leaf.risk level) = optional Atom.risk_level s.risk.level
get_path s (Leaf.changes ChangesField.agent_reported_files) = texts s.changes.agent_reported_files
get_path s (Leaf.changes ChangesField.identifiers) = texts s.changes.identifiers
get_path s (Leaf.changes ChangesField.count) = atom (Atom.int (pos s.changes.count))
get_path s (Leaf.validation ValidationField.verdict) =
    atom (Atom.validation_verdict s.validation.verdict)
get_path s (Leaf.validation ValidationField.checks) = texts s.validation.checks
get_path s (Leaf.review ReviewField.verdict) = atom (Atom.review_verdict s.review.verdict)
get_path s (Leaf.review ReviewField.safe_to_close) = atom (Atom.bool s.review.safe_to_close)
get_path s (Leaf.review ReviewField.safe_to_create_pr) = atom (Atom.bool s.review.safe_to_create_pr)
get_path s (Leaf.review ReviewField.findings) = texts s.review.findings
get_path s (Leaf.repair RepairField.classification) =
    optional Atom.repair_classification s.repair.classification
get_path s (Leaf.repair RepairField.history) = tuple (map Atom.repair_record s.repair.history)
get_path s (Leaf.failure FailureField.category) = optional Atom.failure_category s.failure.category
get_path s (Leaf.failure FailureField.code) = optional Atom.text s.failure.code
get_path s (Leaf.cancellation CancellationField.requested) =
    atom (Atom.bool s.cancellation.requested)
get_path s (Leaf.cancellation CancellationField.reason) = optional Atom.text s.cancellation.reason

-- _replace_path
unfoldable pub replace_path : GraphState → Leaf → Value → Result GraphState
replace_path s (Leaf.repository f) v =
    set_repository s.repository f v >>= λ g. ok (record s { repository = g })
replace_path s (Leaf.project f) v = set_project s.project f v >>= λ g. ok (record s { project = g })
replace_path s (Leaf.baseline f) v =
    set_baseline s.baseline f v >>= λ g. ok (record s { baseline = g })
replace_path s (Leaf.work f) v = set_work s.work f v >>= λ g. ok (record s { work = g })
replace_path s (Leaf.task_package f) v =
    set_package s.task_package f v >>= λ g. ok (record s { task_package = g })
replace_path s (Leaf.requirements f) v =
    set_texts s.requirements f v >>= λ g. ok (record s { requirements = g })
replace_path s (Leaf.acceptance_criteria f) v =
    set_texts s.acceptance_criteria f v >>= λ g. ok (record s { acceptance_criteria = g })
replace_path s (Leaf.architecture_invariants f) v =
    set_texts s.architecture_invariants f v >>= λ g. ok (record s { architecture_invariants = g })
replace_path s (Leaf.scope f) v = set_scope s.scope f v >>= λ g. ok (record s { scope = g })
replace_path s (Leaf.risk f) v = set_risk s.risk f v >>= λ g. ok (record s { risk = g })
replace_path s (Leaf.changes f) v = set_changes s.changes f v >>= λ g. ok (record s { changes = g })
replace_path s (Leaf.validation f) v =
    set_validation s.validation f v >>= λ g. ok (record s { validation = g })
replace_path s (Leaf.review f) v = set_review s.review f v >>= λ g. ok (record s { review = g })
replace_path s (Leaf.repair f) v = set_repair s.repair f v >>= λ g. ok (record s { repair = g })
replace_path s (Leaf.failure f) v = set_failure s.failure f v >>= λ g. ok (record s { failure = g })
replace_path s (Leaf.cancellation f) v =
    set_cancellation s.cancellation f v >>= λ g. ok (record s { cancellation = g })
