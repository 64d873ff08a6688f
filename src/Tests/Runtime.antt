-- ===== src/Tests/Runtime.antt =====
-- A run's disk and coordinators, and the theorems on recovery at them.
use agent_graph_engine.Prelude.{
  String, ◌≡◌, ◌≢◌, refl, sym, ap, true, false, Option, none, some, List, [], ◌∷◌, ◌==◌,
  if◌then◌else◌, All, arith,
}
use agent_graph_engine.Prelude.Text.{str_eq}
use agent_graph_engine.Core.Errors.{ok}
use agent_graph_engine.Core.Enums.{RunStatus}
use agent_graph_engine.Core.State.{GraphState, initial}
use agent_graph_engine.Core.NodeResult.{Node}
use agent_graph_engine.Core.Engine.{GraphEngine, initial_state}
use agent_graph_engine.Runtime.Failures.{done}
use agent_graph_engine.Runtime.Journal.{
  Content, Payload, JournalRecord, next_record, is_valid, validate_record, load,
}
use agent_graph_engine.Runtime.Disk.{
  Coordinator, Disk, append, load_journal, seal_state, load_persisted, ◌>>=◌,
}
use agent_graph_engine.Core.Graph.{define, distinct, collect, validate_edge, add_edge, lookup, node}
use agent_graph_engine.Core.V1.{canonical_v1_graph}
use agent_graph_engine.Core.V1.Nodes.{v1_nodes}
use agent_graph_engine.Core.V1.Edges.{v1_edges}
use agent_graph_engine.Runtime.Evidence.{RecoveryAction, RecoveryAssessment}
use agent_graph_engine.Runtime.Recovery.{assess, assess_started, assessment}
use agent_graph_engine.Runtime.Session.{step, recover}
use agent_graph_engine.Runtime.History.{history_unique, NoCollision}
use agent_graph_engine.Runtime.Healthy.{append-load, push}
use agent_graph_engine.Runtime.Crash.Stages.{IsOpen}
use agent_graph_engine.Runtime.Crash.Interrupted.{SafelyStopped, crash_recovery}
use agent_graph_engine.Runtime.Rerun.{assess_rerun, MayRerun}
use agent_graph_engine.Runtime.Advance.{recover-Advances, Advances}
use agent_graph_engine.Runtime.Project.{
  Project, start_run, enforce_active_run_lifecycle, find_unfinished_runs, has_terminal_evidence,
  folder_of, is_initialized, RunFolder,
}
use agent_graph_engine.Runtime.Exclusive.{IsExclusive, start_run-IsExclusive, start_run-owner}
use agent_graph_engine.Tests.Samples.{success, sample_engine, sample_start}

abbrev begin : Node
begin s c = ok (record (success "START" none) { attempt_id = c.node_attempt_id })

abbrev starting_engine : GraphEngine
starting_engine = record sample_engine { nodes = ("START", begin) ∷ [] }

abbrev by_place : Content → String
by_place c = if c.seq == 1 then "first" else "later"

-- Interrupted once the state is stored, before the transition is committed.
abbrev after_store : String → Option String
after_store stage = if str_eq stage "after_state_cas" then some "crash" else none

abbrev coordinator : Coordinator
coordinator = record {
  project_id = "project";
  engine = starting_engine;
  fault = after_store;
  reconciler = none;
  digest_for_state = λ s. s.graph.current_node;
  digest_record = by_place;
}

abbrev started_journal : List JournalRecord
started_journal = next_record by_place "run-1" [] (Payload.run_started 0 "START") ∷ []

abbrev fresh_disk : Disk
fresh_disk = record {
  persisted = seal_state coordinator sample_start;
  journal = started_journal;
  tail = none;
  receipt = none;
  active = some "run-1";
}

started_valid : is_valid by_place "run-1" started_journal ≡ true
unfolding is_valid validate_record
started_valid = refl

fresh-IsOpen : IsOpen coordinator "run-1" fresh_disk
fresh-IsOpen = record {
  healthy = record { whole = refl; valid = started_valid; authentic = refl };
  open_journal = refl;
  no_receipt = refl;
}

crash_recovery_example :
    SafelyStopped coordinator "run-1" fresh_disk (step coordinator "run-1" fresh_disk).disk
crash_recovery_example = crash_recovery coordinator "run-1" fresh_disk fresh-IsOpen

abbrev longer_journal : List JournalRecord
longer_journal =
    next_record by_place "run-1" started_journal (Payload.recovery_note "cut") ∷ started_journal

longer_valid : is_valid by_place "run-1" longer_journal ≡ true
unfolding is_valid validate_record
longer_valid = refl

abbrev later_text : String
later_text = "later"

abbrev first_text : String
first_text = "first"

later_not_first : later_text ≢ first_text
later_not_first e = let b : false ≡ true = ap (λ s. str_eq s "first") e in ground arith

longer_apart : NoCollision by_place "run-1" longer_journal longer_journal
longer_apart = (
  ((λ e. refl), ((λ e. absurd (later_not_first e)), tt)),
  (((λ e. absurd (later_not_first (sym e))), ((λ e. refl), tt)), tt),
)

history_unique_example : longer_journal ≡ longer_journal
history_unique_example =
    history_unique by_place "run-1" longer_journal longer_journal longer_apart longer_valid
      longer_valid refl

fresh_loads : load by_place "run-1" started_journal none ≡ done started_journal
unfolding load is_valid validate_record
fresh_loads = refl

append-load_example :
    (append coordinator "run-1" (Payload.recovery_note "cut") >>= λ _.
    load_journal coordinator "run-1")
      fresh_disk
    ≡ record {
      disk = push coordinator "run-1" (Payload.recovery_note "cut") fresh_disk;
      outcome = done longer_journal;
    }
append-load_example =
    append-load coordinator "run-1" (Payload.recovery_note "cut") fresh_disk fresh_loads

abbrev cut_disk : Disk
cut_disk = record fresh_disk { tail = some "{\"seq\":2" }

recover-Advances_example :
    Advances coordinator "run-1" cut_disk (recover coordinator "run-1" cut_disk).disk.persisted
recover-Advances_example = recover-Advances coordinator "run-1" cut_disk

-- Interrupted before the node has run.
abbrev started_disk : Disk
started_disk =
    push coordinator "run-1"
      (Payload.node_started (record {
        node_id = "START";
        attempt_id = "run-1-v0-START";
        base_state_version = 0;
        idempotency_key = "run-1-v0-START";
      }))
      fresh_disk

abbrev rerun_verdict : RecoveryAssessment
rerun_verdict =
    assessment coordinator "run-1" RecoveryAction.rerun_interrupted_node "safe_capability_rerun"
      sample_start started_disk.journal

rerun_runs : (assess coordinator "run-1" started_disk).outcome ≡ done rerun_verdict
unfolding assess load_persisted load is_valid validate_record assess_started node lookup
    canonical_v1_graph define distinct collect validate_edge add_edge v1_nodes v1_edges
rerun_runs = refl

assess_rerun_example : MayRerun coordinator sample_start
assess_rerun_example =
    assess_rerun coordinator "run-1" started_disk {a = rerun_verdict} rerun_runs refl

abbrev ended_state : GraphState
ended_state = record sample_start {
  state_version = 1;
  graph = record sample_start.graph { current_node = "END" };
}

-- A run that is finished, with its journal and its receipt.
abbrev ended_run : RunFolder
ended_run = record {
  name = "run-1";
  persisted = seal_state coordinator ended_state;
  journal =
      next_record by_place "run-1" started_journal (
        Payload.run_finalized (record {
          final_state_version = 1;
          final_state_digest = "END";
          final_status = RunStatus.running;
        }))
      ∷ started_journal;
  tail = none;
  receipt = some (record {
    project_id = "project";
    run_id = "run-1";
    final_status = RunStatus.running;
    final_state_version = 1;
    final_state_digest = "END";
    last_journal_seq = 2;
  });
}

abbrev finished_project : Project
finished_project = record { runs = ended_run ∷ []; staged = "run-2" ∷ []; active = some "run-1" }

-- Nothing interrupts it.
abbrev promoting : Coordinator
promoting = record coordinator { fault = λ stage. none }

ended-IsExclusive : IsExclusive promoting finished_project.runs
unfolding has_terminal_evidence load is_valid validate_record
ended-IsExclusive = omega arith

start_run-IsExclusive_example :
    IsExclusive promoting (start_run promoting none "run-2" true finished_project).project.runs
start_run-IsExclusive_example =
    start_run-IsExclusive promoting none "run-2" true finished_project ended-IsExclusive

start_runs : (start_run promoting none "run-2" true finished_project).outcome ≡ done tt
unfolding start_run enforce_active_run_lifecycle find_unfinished_runs is_initialized
    has_terminal_evidence load is_valid validate_record initial_state initial
start_runs = refl

start_run-owner_example :
    All (λ f. has_terminal_evidence promoting f ≡ true) (ended_run ∷ [])
    × ((s : GraphState) × ((initial_state starting_engine "run-2" ≡ ok s)
          × (((start_run promoting none "run-2" true finished_project).project.runs
                ≡ folder_of promoting "run-2" s ∷ ended_run ∷ [])
              × ((start_run promoting none "run-2" true finished_project).project.active
                  ≡ some "run-2"))))
start_run-owner_example = start_run-owner promoting none "run-2" true finished_project start_runs
