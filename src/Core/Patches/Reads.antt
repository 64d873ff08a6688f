-- ===== src/Core/Patches/Reads.antt =====
-- core/patches.py: what is read at a path after a write at another.
use agent_graph_engine.Prelude.{◌≡◌, refl, subst, false, arith}
use agent_graph_engine.Prelude.Text.{str_eq}
use agent_graph_engine.Core.Errors.{ok, bind-eq-ok, ok_inj}
use agent_graph_engine.Core.State.{GraphState}
use agent_graph_engine.Core.Patches.Values.{Value}
use agent_graph_engine.Core.Patches.Paths.{
  Leaf, path_text, items, level, NamedField, WorkField, PackageField, ScopeField, ChangesField,
  ValidationField, ReviewField, RepairField, FailureField, CancellationField,
}
use agent_graph_engine.Core.Patches.Groups.{
  set_repository, set_project, set_baseline, set_work, set_package, set_texts, set_scope, set_risk,
  set_changes, set_validation, set_review, set_repair, set_failure, set_cancellation,
}
use agent_graph_engine.Core.Patches.Access.{replace_path, get_path}

-- A write at one path leaves what is read at another.
abbrev Keeps : Leaf → Leaf → Type 0
Keeps l k =
    (s : GraphState) (v : Value) (t : GraphState)
    → replace_path s l v ≡ ok t
    → str_eq (path_text l) (path_text k) ≡ false
    → get_path t k ≡ get_path s k

repository-Keeps : (f k : NamedField) → Keeps (Leaf.repository f) (Leaf.repository k)
unfolding replace_path get_path set_repository
repository-Keeps NamedField.name NamedField.name s v t h n = ground arith
repository-Keeps NamedField.name _ s v t h n = ground arith
repository-Keeps NamedField.metadata NamedField.name s v t h n = ground arith
repository-Keeps NamedField.metadata _ s v t h n = ground arith

project-Keeps : (f k : NamedField) → Keeps (Leaf.project f) (Leaf.project k)
unfolding replace_path get_path set_project
project-Keeps NamedField.name NamedField.name s v t h n = ground arith
project-Keeps NamedField.name _ s v t h n = ground arith
project-Keeps NamedField.metadata NamedField.name s v t h n = ground arith
project-Keeps NamedField.metadata _ s v t h n = ground arith

baseline-Keeps : (f k : NamedField) → Keeps (Leaf.baseline f) (Leaf.baseline k)
unfolding replace_path get_path set_baseline
baseline-Keeps NamedField.name NamedField.name s v t h n = ground arith
baseline-Keeps NamedField.name _ s v t h n = ground arith
baseline-Keeps NamedField.metadata NamedField.name s v t h n = ground arith
baseline-Keeps NamedField.metadata _ s v t h n = ground arith

work-Keeps : (f k : WorkField) → Keeps (Leaf.work f) (Leaf.work k)
unfolding replace_path get_path set_work
work-Keeps WorkField.source WorkField.source s v t h n = ground arith
work-Keeps WorkField.source _ s v t h n = ground arith
work-Keeps WorkField.hierarchy WorkField.source s v t h n = ground arith
work-Keeps WorkField.hierarchy _ s v t h n = ground arith
work-Keeps WorkField.item WorkField.source s v t h n = ground arith
work-Keeps WorkField.item _ s v t h n = ground arith
work-Keeps WorkField.completed_items WorkField.source s v t h n = ground arith
work-Keeps WorkField.completed_items _ s v t h n = ground arith
work-Keeps WorkField.dependencies WorkField.source s v t h n = ground arith
work-Keeps WorkField.dependencies _ s v t h n = ground arith
work-Keeps WorkField.delivery_scope WorkField.source s v t h n = ground arith
work-Keeps WorkField.delivery_scope _ s v t h n = ground arith
work-Keeps WorkField.available_items WorkField.source s v t h n = ground arith
work-Keeps WorkField.available_items _ s v t h n = ground arith

task_package-Keeps : (f k : PackageField) → Keeps (Leaf.task_package f) (Leaf.task_package k)
unfolding replace_path get_path set_package
task_package-Keeps PackageField.ready PackageField.ready s v t h n = ground arith
task_package-Keeps PackageField.ready _ s v t h n = ground arith
task_package-Keeps PackageField.metadata PackageField.ready s v t h n = ground arith
task_package-Keeps PackageField.metadata _ s v t h n = ground arith

scope-Keeps : (f k : ScopeField) → Keeps (Leaf.scope f) (Leaf.scope k)
unfolding replace_path get_path set_scope
scope-Keeps ScopeField.included ScopeField.included s v t h n = ground arith
scope-Keeps ScopeField.included _ s v t h n = ground arith
scope-Keeps ScopeField.excluded ScopeField.included s v t h n = ground arith
scope-Keeps ScopeField.excluded _ s v t h n = ground arith

changes-Keeps : (f k : ChangesField) → Keeps (Leaf.changes f) (Leaf.changes k)
unfolding replace_path get_path set_changes
changes-Keeps ChangesField.agent_reported_files ChangesField.agent_reported_files s v t h n =
    ground arith
changes-Keeps ChangesField.agent_reported_files _ s v t h n = ground arith
changes-Keeps ChangesField.identifiers ChangesField.agent_reported_files s v t h n = ground arith
changes-Keeps ChangesField.identifiers _ s v t h n = ground arith
changes-Keeps ChangesField.count ChangesField.agent_reported_files s v t h n = ground arith
changes-Keeps ChangesField.count _ s v t h n = ground arith

validation-Keeps : (f k : ValidationField) → Keeps (Leaf.validation f) (Leaf.validation k)
unfolding replace_path get_path set_validation
validation-Keeps ValidationField.verdict ValidationField.verdict s v t h n = ground arith
validation-Keeps ValidationField.verdict _ s v t h n = ground arith
validation-Keeps ValidationField.checks ValidationField.verdict s v t h n = ground arith
validation-Keeps ValidationField.checks _ s v t h n = ground arith

review-Keeps : (f k : ReviewField) → Keeps (Leaf.review f) (Leaf.review k)
unfolding replace_path get_path set_review
review-Keeps ReviewField.verdict ReviewField.verdict s v t h n = ground arith
review-Keeps ReviewField.verdict _ s v t h n = ground arith
review-Keeps ReviewField.safe_to_close ReviewField.verdict s v t h n = ground arith
review-Keeps ReviewField.safe_to_close _ s v t h n = ground arith
review-Keeps ReviewField.safe_to_create_pr ReviewField.verdict s v t h n = ground arith
review-Keeps ReviewField.safe_to_create_pr _ s v t h n = ground arith
review-Keeps ReviewField.findings ReviewField.verdict s v t h n = ground arith
review-Keeps ReviewField.findings _ s v t h n = ground arith

repair-Keeps : (f k : RepairField) → Keeps (Leaf.repair f) (Leaf.repair k)
unfolding replace_path get_path set_repair
repair-Keeps RepairField.classification RepairField.classification s v t h n = ground arith
repair-Keeps RepairField.classification _ s v t h n = ground arith
repair-Keeps RepairField.history RepairField.classification s v t h n = ground arith
repair-Keeps RepairField.history _ s v t h n = ground arith

failure-Keeps : (f k : FailureField) → Keeps (Leaf.failure f) (Leaf.failure k)
unfolding replace_path get_path set_failure
failure-Keeps FailureField.category FailureField.category s v t h n = ground arith
failure-Keeps FailureField.category _ s v t h n = ground arith
failure-Keeps FailureField.code FailureField.category s v t h n = ground arith
failure-Keeps FailureField.code _ s v t h n = ground arith

cancellation-Keeps : (f k : CancellationField) → Keeps (Leaf.cancellation f) (Leaf.cancellation k)
unfolding replace_path get_path set_cancellation
cancellation-Keeps CancellationField.requested CancellationField.requested s v t h n = ground arith
cancellation-Keeps CancellationField.requested _ s v t h n = ground arith
cancellation-Keeps CancellationField.reason CancellationField.requested s v t h n = ground arith
cancellation-Keeps CancellationField.reason _ s v t h n = ground arith

-- A path of another group is read in a part of the state that the write does not touch.
pub get_path-replace_path_ne : (l k : Leaf) → Keeps l k
unfolding replace_path get_path
get_path-replace_path_ne (Leaf.repository f) (Leaf.repository k) s v t h n =
    repository-Keeps f k s v t h n
get_path-replace_path_ne (Leaf.repository f) k s v t h n =
    let (g, _, e) =
      bind-eq-ok (set_repository s.repository f v) (λ g. ok (record s { repository = g })) h in
    subst (λ u. get_path u k ≡ get_path s k) (ok_inj e) refl
get_path-replace_path_ne (Leaf.project f) (Leaf.project k) s v t h n = project-Keeps f k s v t h n
get_path-replace_path_ne (Leaf.project f) k s v t h n =
    let (g, _, e) = bind-eq-ok (set_project s.project f v) (λ g. ok (record s { project = g })) h in
    subst (λ u. get_path u k ≡ get_path s k) (ok_inj e) refl
get_path-replace_path_ne (Leaf.baseline f) (Leaf.baseline k) s v t h n =
    baseline-Keeps f k s v t h n
get_path-replace_path_ne (Leaf.baseline f) k s v t h n =
    let (g, _, e) =
      bind-eq-ok (set_baseline s.baseline f v) (λ g. ok (record s { baseline = g })) h in
    subst (λ u. get_path u k ≡ get_path s k) (ok_inj e) refl
get_path-replace_path_ne (Leaf.work f) (Leaf.work k) s v t h n = work-Keeps f k s v t h n
get_path-replace_path_ne (Leaf.work f) k s v t h n =
    let (g, _, e) = bind-eq-ok (set_work s.work f v) (λ g. ok (record s { work = g })) h in
    subst (λ u. get_path u k ≡ get_path s k) (ok_inj e) refl
get_path-replace_path_ne (Leaf.task_package f) (Leaf.task_package k) s v t h n =
    task_package-Keeps f k s v t h n
get_path-replace_path_ne (Leaf.task_package f) k s v t h n =
    let (g, _, e) =
      bind-eq-ok (set_package s.task_package f v) (λ g. ok (record s { task_package = g })) h in
    subst (λ u. get_path u k ≡ get_path s k) (ok_inj e) refl
get_path-replace_path_ne (Leaf.requirements items) (Leaf.requirements items) s v t h n =
    absurd (ground arith)
get_path-replace_path_ne (Leaf.requirements items) k s v t h n =
    let (g, _, e) =
      bind-eq-ok (set_texts s.requirements items v) (λ g. ok (record s { requirements = g })) h in
    subst (λ u. get_path u k ≡ get_path s k) (ok_inj e) refl
get_path-replace_path_ne (Leaf.acceptance_criteria items) (Leaf.acceptance_criteria items) s v t h
      n =
    absurd (ground arith)
get_path-replace_path_ne (Leaf.acceptance_criteria items) k s v t h n =
    let (g, _, e) =
      bind-eq-ok (set_texts s.acceptance_criteria items v)
        (λ g. ok (record s { acceptance_criteria = g })) h in
    subst (λ u. get_path u k ≡ get_path s k) (ok_inj e) refl
get_path-replace_path_ne (Leaf.architecture_invariants items) (Leaf.architecture_invariants items) s
      v t h n =
    absurd (ground arith)
get_path-replace_path_ne (Leaf.architecture_invariants items) k s v t h n =
    let (g, _, e) =
      bind-eq-ok (set_texts s.architecture_invariants items v)
        (λ g. ok (record s { architecture_invariants = g })) h in
    subst (λ u. get_path u k ≡ get_path s k) (ok_inj e) refl
get_path-replace_path_ne (Leaf.scope f) (Leaf.scope k) s v t h n = scope-Keeps f k s v t h n
get_path-replace_path_ne (Leaf.scope f) k s v t h n =
    let (g, _, e) = bind-eq-ok (set_scope s.scope f v) (λ g. ok (record s { scope = g })) h in
    subst (λ u. get_path u k ≡ get_path s k) (ok_inj e) refl
get_path-replace_path_ne (Leaf.risk level) (Leaf.risk level) s v t h n = absurd (ground arith)
get_path-replace_path_ne (Leaf.risk level) k s v t h n =
    let (g, _, e) = bind-eq-ok (set_risk s.risk level v) (λ g. ok (record s { risk = g })) h in
    subst (λ u. get_path u k ≡ get_path s k) (ok_inj e) refl
get_path-replace_path_ne (Leaf.changes f) (Leaf.changes k) s v t h n = changes-Keeps f k s v t h n
get_path-replace_path_ne (Leaf.changes f) k s v t h n =
    let (g, _, e) = bind-eq-ok (set_changes s.changes f v) (λ g. ok (record s { changes = g })) h in
    subst (λ u. get_path u k ≡ get_path s k) (ok_inj e) refl
get_path-replace_path_ne (Leaf.validation f) (Leaf.validation k) s v t h n =
    validation-Keeps f k s v t h n
get_path-replace_path_ne (Leaf.validation f) k s v t h n =
    let (g, _, e) =
      bind-eq-ok (set_validation s.validation f v) (λ g. ok (record s { validation = g })) h in
    subst (λ u. get_path u k ≡ get_path s k) (ok_inj e) refl
get_path-replace_path_ne (Leaf.review f) (Leaf.review k) s v t h n = review-Keeps f k s v t h n
get_path-replace_path_ne (Leaf.review f) k s v t h n =
    let (g, _, e) = bind-eq-ok (set_review s.review f v) (λ g. ok (record s { review = g })) h in
    subst (λ u. get_path u k ≡ get_path s k) (ok_inj e) refl
get_path-replace_path_ne (Leaf.repair f) (Leaf.repair k) s v t h n = repair-Keeps f k s v t h n
get_path-replace_path_ne (Leaf.repair f) k s v t h n =
    let (g, _, e) = bind-eq-ok (set_repair s.repair f v) (λ g. ok (record s { repair = g })) h in
    subst (λ u. get_path u k ≡ get_path s k) (ok_inj e) refl
get_path-replace_path_ne (Leaf.failure f) (Leaf.failure k) s v t h n = failure-Keeps f k s v t h n
get_path-replace_path_ne (Leaf.failure f) k s v t h n =
    let (g, _, e) = bind-eq-ok (set_failure s.failure f v) (λ g. ok (record s { failure = g })) h in
    subst (λ u. get_path u k ≡ get_path s k) (ok_inj e) refl
get_path-replace_path_ne (Leaf.cancellation f) (Leaf.cancellation k) s v t h n =
    cancellation-Keeps f k s v t h n
get_path-replace_path_ne (Leaf.cancellation f) k s v t h n =
    let (g, _, e) =
      bind-eq-ok (set_cancellation s.cancellation f v) (λ g. ok (record s { cancellation = g }))
        h in
    subst (λ u. get_path u k ≡ get_path s k) (ok_inj e) refl
