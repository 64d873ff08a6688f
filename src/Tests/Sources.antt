-- ===== src/Tests/Sources.antt =====
-- A snapshot of a work source with three items, and the theorems on selection at it.
use agent_graph_engine.Prelude.{
  ℕ, String, ◌≡◌, ◌≢◌, refl, sym, inl, inr, true, false, none, some, List, [], ◌∷◌, ◌++◌,
  if◌then◌else◌, All, is_empty, arith,
}
use agent_graph_engine.Prelude.Text.{str_eq, ends_with}
use agent_graph_engine.Prelude.Strip.{lstrip, rstrip, is_space, count_char, has_text}
use agent_graph_engine.Prelude.Fallible.{fine, failed, ◌>>=◌}
use agent_graph_engine.Work.Models.{
  WorkItem, WorkItemStatus, WorkScope, WorkScopeStatus, WorkRisk, WorkSourceSnapshot, WorkSelection,
  SelectionKind, RepoPathSpec, SourceLocation, WorkPackage, capability_mismatch, ValidationCheck,
  ValidationOrigin,
}
use agent_graph_engine.Work.Shlex.{split_words, words_from, read}
use agent_graph_engine.Work.Commands.{
  parse_validation_checks, parse_segments, parse_segment, split_segments, segments_from, scan,
  strip_markdown_code_span, check_git_arguments, check_diff_options, check_diff_option,
}
use agent_graph_engine.Work.ReadOnly.{parse_validation_checks-IsSafeCheck, IsSafeCheck}
use agent_graph_engine.Speckit.Lookup.{get_scope, first_scope, first_item, keyed_item}
use agent_graph_engine.Speckit.Ready.{
  pending_items, unfinished, first_ready, next_ready_item, ready_with,
}
use agent_graph_engine.Speckit.Progress.{IsDone, IsReadyIn, next_ready_item-IsReadyIn}
use agent_graph_engine.Speckit.Liveness.{next_ready_item-never_blocked, IsOrdered}
use agent_graph_engine.Speckit.Package.{build_package, first_of_each_path, package_of}
use agent_graph_engine.Speckit.Source.{speckit_adapter}
use agent_graph_engine.Core.Errors.{ok, err, contract_validation}
use agent_graph_engine.Integration.Models.{IntegrationIssueSeverity, SelectionPlan, ready_plan}
use agent_graph_engine.Integration.Selection.{
  ShadowRequest, shadow_request, prepare_selection, anchor, reconcile_ready_package,
}
use agent_graph_engine.Integration.Eligible.{IsEligible, IsPrepared, prepare_selection-IsPrepared}
use agent_graph_engine.Core.NodeResult.{NodeResult, NodeContext}
use agent_graph_engine.Nodes.Preflight.{preflight_node}
use agent_graph_engine.Nodes.Accepted.{IsAnswered, preflight_node-IsAnswered}
use agent_graph_engine.Tests.Samples.{sample_start, sample_policy}
use agent_graph_engine.Integration.Preflight.{
  RepositorySnapshot, BranchDisposition, PreflightAssessment, assess_preflight,
}
use agent_graph_engine.Integration.Dependable.{prepare_selection-IsReadyIn}
use agent_graph_engine.Write.Paths.{
  normalize_repo_path, has_char, split_slash, add_char, join_slash, as_posix,
}
use agent_graph_engine.Write.Capability.{
  first_of_each, stable_path_union, normalize_all, reconcile_write_capability,
}
use agent_graph_engine.Write.Allowed.{normalize_repo_path-IsName, IsName}
use agent_graph_engine.Write.Reconciled.{build_package-reconciles, HasOneHint}

abbrev here : SourceLocation
here = record { path = "tasks.md"; line = none }

abbrev file : String → RepoPathSpec
file path = record { path = path; directory_hint = false }

abbrev folder : String → RepoPathSpec
folder path = record { path = path; directory_hint = true }

abbrev task : String → WorkItemStatus → List String → WorkItem
task id status dependencies = record {
  item_id = id;
  title = id;
  scope_id = "S1";
  parent_scope_id = none;
  status = status;
  risk = WorkRisk.low;
  goal = "";
  acceptance_criteria = [];
  test_requirements = [];
  dependencies = dependencies;
  implementation_paths = file "src/a.py" ∷ folder "src/lib" ∷ [];
  test_paths = folder "tests" ∷ file "src/a.py" ∷ [];
  validation_checks = [];
  final_review_required = false;
  parallelizable = false;
  notes = [];
  source_location = here;
}

abbrev first_task : WorkItem
first_task = task "T1" WorkItemStatus.completed []

abbrev last_task : WorkItem
last_task = task "T3" WorkItemStatus.pending ("T2" ∷ "T1" ∷ [])

abbrev next_task : WorkItem
next_task = task "T2" WorkItemStatus.pending ("T1" ∷ [])

abbrev tasks : List WorkItem
tasks = first_task ∷ last_task ∷ next_task ∷ []

abbrev stage : WorkScope
stage = record {
  scope_id = "S1";
  parent_scope_id = none;
  title = "stage";
  status = WorkScopeStatus.active;
  risk = none;
  goal = "";
  child_scope_ids = [];
  item_ids = "T1" ∷ "T3" ∷ "T2" ∷ [];
  dependencies = [];
  required_checks = [];
  branch_hint = none;
  base_branch_hint = none;
  source_location = here;
}

abbrev snapshot : WorkSourceSnapshot
snapshot = record {
  scopes = stage ∷ [];
  items = tasks;
  revision = record { documents = []; fingerprint = "sha256:0" };
  active_scope_id = some "S1";
}

stage_found : get_scope snapshot "S1" ≡ fine stage
unfolding first_scope
stage_found = refl

next_run : next_ready_item snapshot "S1" ≡ fine (ready_with "S1" next_task)
unfolding next_ready_item first_ready pending_items unfinished keyed_item first_scope
next_run = refl

next_ready_item-IsReadyIn_example :
    (scope : WorkScope) × (get_scope snapshot "S1" ≡ fine scope)
    × ((i : WorkItem) × (ready_with "S1" next_task ≡ ready_with "S1" i)
        × IsReadyIn tasks scope.item_ids i)
next_ready_item-IsReadyIn_example =
    next_ready_item-IsReadyIn snapshot "S1" (ready_with "S1" next_task) next_run refl

abbrev depth : String → ℕ
depth id = if str_eq id "T3" then 2 else if str_eq id "T2" then 1 else 0

first-IsDone : IsDone tasks "T1"
unfolding keyed_item
first-IsDone = (first_task, refl, refl)

tasks-IsOrdered : All (IsOrdered tasks depth stage.item_ids) stage.item_ids
unfolding keyed_item
tasks-IsOrdered = (
  (first_task, refl, tt),
  (
    (last_task, refl, (inr (refl, omega arith), (inl first-IsDone, tt))),
    ((next_task, refl, (inl first-IsDone, tt)), tt),
  ),
)

next_ready_item-never_blocked_example :
    (sel : WorkSelection) × (next_ready_item snapshot "S1" ≡ fine sel)
    × (sel.kind ≢ SelectionKind.blocked_dependencies)
next_ready_item-never_blocked_example =
    next_ready_item-never_blocked depth snapshot "S1" stage stage_found tasks-IsOrdered

abbrev parts : List String
parts = "src" ∷ "lib" ∷ "x.py" ∷ []

parts_run : normalize_repo_path "src/lib/x.py" ≡ fine parts
unfolding normalize_repo_path has_char split_slash add_char join_slash
parts_run = refl

normalize_repo_path-IsName_example :
    (as_posix parts ≡ "src/lib/x.py") × (is_empty parts ≡ false) × All IsName parts
normalize_repo_path-IsName_example = normalize_repo_path-IsName "src/lib/x.py" parts parts_run

abbrev task_paths : List RepoPathSpec
task_paths = stable_path_union next_task.implementation_paths next_task.test_paths

task_paths_normal : normalize_all task_paths ≡ fine tt
unfolding normalize_all first_of_each normalize_repo_path has_char split_slash add_char join_slash
task_paths_normal = refl

task_hints : HasOneHint (next_task.implementation_paths ++ next_task.test_paths)
task_hints = (
  ((λ e. refl), ((λ e. e), ((λ e. e), ((λ e. refl), tt)))),
  (
    ((λ e. sym e), ((λ e. refl), ((λ e. refl), ((λ e. sym e), tt)))),
    (
      ((λ e. sym e), ((λ e. refl), ((λ e. refl), ((λ e. sym e), tt)))),
      (((λ e. refl), ((λ e. e), ((λ e. e), ((λ e. refl), tt)))), tt),
    ),
  ),
)

build_package-reconciles_example :
    (build_package snapshot "T2"
      >>= reconcile_write_capability snapshot (ready_plan "S1" "T2" "dependencies_completed"))
    ≡ fine task_paths
build_package-reconciles_example =
    build_package-reconciles snapshot next_task stage "dependencies_completed" refl refl refl
      task_hints task_paths_normal

-- A path that is declared with both hints: the adapter keeps its first spec only, and a write
-- refuses the package.
abbrev twice_task : WorkItem
twice_task = record next_task { implementation_paths = file "src/lib" ∷ folder "src/lib" ∷ [] }

twice_refused :
    (build_package (record snapshot { items = twice_task ∷ [] }) "T2"
      >>= reconcile_write_capability
          (record snapshot { items = twice_task ∷ [] })
          (ready_plan "S1" "T2" ""))
    ≡ failed (capability_mismatch "work_package_capability_mismatch")
unfolding build_package reconcile_write_capability first_of_each first_of_each_path first_item
    first_scope
twice_refused = refl

abbrev request : ShadowRequest
request = record { scope_id = none; parent_scope_id = none }

abbrev next_package : WorkPackage
next_package = package_of snapshot next_task stage

abbrev chosen : SelectionPlan
chosen = ready_plan "S1" "T2" "dependencies_completed"

prepared_run : prepare_selection speckit_adapter snapshot request ≡ fine (chosen, some next_package)
unfolding prepare_selection anchor reconcile_ready_package build_package next_ready_item first_ready
    pending_items unfinished keyed_item first_scope first_item
prepared_run = refl

prepare_selection-IsPrepared_example :
    IsPrepared speckit_adapter snapshot chosen (some next_package)
prepare_selection-IsPrepared_example =
    prepare_selection-IsPrepared speckit_adapter snapshot request chosen (some next_package)
      prepared_run refl

prepare_selection-IsReadyIn_example :
    (scope_id : String) × (scope : WorkScope) × (i : WorkItem) × (p : WorkPackage) × (get_scope
        snapshot scope_id
      ≡ fine scope)
    × (IsEligible scope.status
        × (IsReadyIn tasks scope.item_ids i
            × ((some next_package ≡ some p)
                × ((p.item_id ≡ i.item_id)
                    × ((p.scope_id ≡ scope_id) × (p.source_revision.fingerprint ≡ "sha256:0"))))))
prepare_selection-IsReadyIn_example =
    prepare_selection-IsReadyIn snapshot request chosen (some next_package) prepared_run refl

abbrev unfolded : String → String
unfolded s = s

abbrev check : List String → String → ValidationCheck
check argv raw = record {
  argv = argv;
  raw = raw;
  origin = ValidationOrigin.item;
  source_location = here;
}

abbrev declared_checks : List ValidationCheck
declared_checks =
    check ("git" ∷ "--no-pager" ∷ "diff" ∷ "--check" ∷ []) "git --no-pager diff --check"
    ∷ check ("pytest" ∷ "a b" ∷ []) "pytest 'a b'"
    ∷ []

abbrev declared : String
declared = " git --no-pager diff --check; `pytest 'a b'` "

checks_run :
    parse_validation_checks unfolded ValidationOrigin.item here declared ≡ fine declared_checks
unfolding parse_validation_checks parse_segments parse_segment split_segments segments_from scan
    strip_markdown_code_span check_git_arguments check_diff_options check_diff_option split_words
    words_from read lstrip rstrip is_space count_char has_text ends_with
checks_run = refl

parse_validation_checks-IsSafeCheck_example :
    (is_empty declared_checks ≡ false) × All (IsSafeCheck unfolded) declared_checks
parse_validation_checks-IsSafeCheck_example =
    parse_validation_checks-IsSafeCheck unfolded ValidationOrigin.item here declared declared_checks
      checks_run

abbrev clean_repository : RepositorySnapshot
clean_repository = record {
  head_sha = some "abc";
  branch = some "stage-1";
  detached_head = false;
  staged_paths = [];
  unstaged_paths = [];
  untracked_paths = [];
  conflicted_paths = [];
  dirty = false;
}

abbrev branched_snapshot : WorkSourceSnapshot
branched_snapshot = record snapshot { scopes = record stage { branch_hint = some "stage-1" } ∷ [] }

abbrev branched_package : WorkPackage
branched_package =
    package_of branched_snapshot next_task (record stage { branch_hint = some "stage-1" })

branched_run :
    prepare_selection speckit_adapter branched_snapshot request
    ≡ fine (chosen, some branched_package)
unfolding prepare_selection anchor reconcile_ready_package build_package next_ready_item first_ready
    pending_items unfinished keyed_item first_scope first_item
branched_run = refl

abbrev sample_context : NodeContext
sample_context = record {
  run_id = "run-1";
  node_attempt_id = "run-1:PREFLIGHT:3";
  idempotency_key = "run-1:PREFLIGHT:3";
  policy_snapshot = sample_policy;
  allowed_state_patch_paths = "architecture_invariants.*" ∷ "requirements.*" ∷ [];
  deadline = none;
}

-- An issue without a message, of which no reason can be made.
abbrev wordless : PreflightAssessment
wordless = record {
  ready = false;
  issues =
      (record {
        code = "unknown_scope";
        severity = IntegrationIssueSeverity.error;
        message = "";
        related_ids = [];
      })
      ∷ [];
  branch_disposition = BranchDisposition.blocked;
}

wordless_refused :
    preflight_node true "sha256:0" (some "abc") wordless sample_start sample_context
    ≡ some (err contract_validation)
unfolding preflight_node
wordless_refused = refl

preflight_node-IsAnswered_example :
    ((r : NodeResult) × (preflight_node true "sha256:0"
          (some "abc")
          (assess_preflight clean_repository branched_snapshot chosen)
          sample_start
          sample_context
        ≡ some (ok r))
      × IsAnswered true "sha256:0"
          (some "abc")
          (assess_preflight clean_repository branched_snapshot chosen)
          sample_start
          r)
preflight_node-IsAnswered_example =
    preflight_node-IsAnswered true "sha256:0" (some "abc") clean_repository speckit_adapter
      branched_snapshot request chosen (some branched_package) sample_start sample_context
      branched_run refl

request_checked : shadow_request request ≡ fine request
request_checked = refl
