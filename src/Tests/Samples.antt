-- ===== src/Tests/Samples.antt =====
-- Concrete graphs, engines, states and results, and runs of the engine over a list of results.
use agent_graph_engine.Prelude.{
  ℕ, String, ◌≡◌, refl, subst, true, false, Option, none, some, List, [], ◌∷◌, arith,
}
use agent_graph_engine.Core.Enums.{
  CommitMode, NodeStatus, RunStatus, OperationType, ReviewVerdict, RiskLevel, CheckpointOutcome,
}
use agent_graph_engine.Core.Errors.{Result, ok, err, ◌>>=◌, bind-eq-ok, ok_inj}
use agent_graph_engine.Core.Metadata.{empty}
use agent_graph_engine.Core.State.{GraphState, WorkItem, blank, initial}
use agent_graph_engine.Core.Policy.{PolicySnapshot}
use agent_graph_engine.Core.NodeResult.{NodeResult, node_result}
use agent_graph_engine.Core.Edges.{Transition}
use agent_graph_engine.Core.Graph.{GraphDefinition}
use agent_graph_engine.Core.Patches.Values.{Value, Atom}
use agent_graph_engine.Core.Patches.Apply.{PatchOperation, StatePatch}
use agent_graph_engine.Core.Engine.{GraphEngine, apply_result, initial_state}
use agent_graph_engine.Core.V1.{canonical_v1_graph}
use agent_graph_engine.Core.V1.Reach.{Reach}

abbrev pub or_default {ℓ} : {A : Type ℓ} → Result A → A → A
or_default (ok a) d = a
or_default (err e) d = d

abbrev no_graph : GraphDefinition
no_graph = record { nodes = []; edges = []; nodes_by_id = []; outgoing_by_id = [] }

abbrev pub sample_graph : GraphDefinition
sample_graph = or_default canonical_v1_graph no_graph

abbrev pub sample_policy : PolicySnapshot
sample_policy = record {
  max_repair_cycles = 2;
  max_work_items_per_run = 3;
  commit_mode = CommitMode.per_work_item;
  push_mode = true;
  pull_request_mode = true;
  merge_allowed = false;
  deployment_allowed = false;
}

abbrev pub sample_engine : GraphEngine
sample_engine = record { graph = sample_graph; policy = sample_policy; nodes = [] }

abbrev pub sample_start : GraphState
sample_start = blank (record { run_id = "run-1"; status = RunStatus.running }) 2

abbrev pub put : String → Value → PatchOperation
put path value = record { operation = OperationType.set; path = path; value = value }

abbrev pub patch_of : ℕ → List PatchOperation → Option StatePatch
patch_of version ops = some (record { base_state_version = version; operations = ops })

abbrev pub success : String → Option StatePatch → NodeResult
success node patch = record {
  node_id = node;
  attempt_id = "attempt";
  status = NodeStatus.succeeded;
  reason = none;
  failure_category = none;
  state_patch = patch;
  evidence = [];
  external_effects = [];
  checkpoint_request = none;
  checkpoint_outcome = none;
}

abbrev pub approval : NodeResult
approval = record (success "HUMAN_CHECKPOINT" none) {
  checkpoint_outcome = some CheckpointOutcome.approved;
}

abbrev pub sample_item : WorkItem
sample_item = record { id = "T001"; title = "first task"; metadata = empty }

abbrev pub apply_one : GraphEngine → GraphState → NodeResult → Result GraphState
apply_one e s r = do contractual ← node_result r; (next, _) ← apply_result e s contractual; ok next

-- The state after a list of results.
unfoldable pub replay : GraphEngine → GraphState → List NodeResult → Result GraphState
replay e s [] = ok s
replay e s (r ∷ rs) = do next ← apply_one e s r; replay e next rs

contractual_same : (r : NodeResult) {r' : NodeResult} → node_result r ≡ ok r' → r' ≡ r
unfolding node_result
contractual_same r h = ground arith

pub replay-Reach :
    (e : GraphEngine) (s : GraphState) (rs : List NodeResult) {s' : GraphState}
    → Reach e s
    → replay e s rs ≡ ok s'
    → Reach e s'
unfolding replay
replay-Reach e s [] before h = subst (Reach e) (ok_inj h) before
replay-Reach e s (r ∷ rs) before h =
    let (m, one, rest) = bind-eq-ok (apply_one e s r) (λ n. replay e n rs) h in
    let (r', contract, applied) =
      bind-eq-ok (node_result r) (λ c. apply_result e s c >>= λ (n, _). ok n) one in
    let ((m', t), went, same) = bind-eq-ok (apply_result e s r') (λ (n, _). ok n) applied in
    let here = contractual_same r contract in
    let went' = subst (λ x. apply_result e s x ≡ ok (m', t)) here went in
    let contract' = subst (λ x. node_result r ≡ ok x) here contract in
    let reached = Reach.next r before contract' went' in
    replay-Reach e m rs (subst (Reach e) (ok_inj same) reached) rest

pub sample_start-initial : initial_state sample_engine "run-1" ≡ ok sample_start
unfolding initial_state initial
sample_start-initial = refl

pub start-Reach : Reach sample_engine sample_start
start-Reach = Reach.start "run-1" sample_start-initial

-- From START to SELECT_WORK.
abbrev pub prelude_results : List NodeResult → List NodeResult
prelude_results rest =
    success "START" none ∷ success "DISCOVER_PROJECT" none ∷ success "PREFLIGHT" none ∷ rest

abbrev pub delivery_results : List NodeResult
delivery_results = prelude_results (
    success "SELECT_WORK"
      (patch_of 3 (put "work.completed_items" (Value.tuple (Atom.work_item sample_item ∷ [])) ∷ []))
    ∷ success "DELIVERY_REVIEW" (
        patch_of 4 (
          put "review.verdict" (Value.atom (Atom.review_verdict ReviewVerdict.pass))
          ∷ put "review.safe_to_create_pr" (Value.atom (Atom.bool true))
          ∷ []))
    ∷ [])

abbrev pub critical_results : List NodeResult
critical_results = prelude_results (
    success "SELECT_WORK"
      (patch_of 3 (put "work.item" (Value.atom (Atom.work_item sample_item)) ∷ []))
    ∷ success "EXPLORE" none
    ∷ success "BUILD_TASK_PACKAGE" none
    ∷ success "ASSESS_RISK"
        (patch_of 6 (put "risk.level" (Value.atom (Atom.risk_level RiskLevel.critical)) ∷ []))
    ∷ [])

-- A run that waits at HUMAN_CHECKPOINT for the pull request of a delivery.
abbrev pub awaiting_delivery : GraphState
awaiting_delivery = or_default (replay sample_engine sample_start delivery_results) sample_start

-- A run that waits at HUMAN_CHECKPOINT for the implementation of critical work.
abbrev pub awaiting_critical : GraphState
awaiting_critical = or_default (replay sample_engine sample_start critical_results) sample_start

abbrev pub no_transition : Transition
no_transition = record {
  edge_id = "";
  from_node = "";
  to_node = "";
  priority = 0;
  guard_results = [];
  checkpoint = false;
  terminal = false;
  final_status = none;
  resume_node = none;
}
