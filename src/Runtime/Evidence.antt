-- ===== src/Runtime/Evidence.antt =====
-- runtime/recovery.py: what recovery reads in the journal, and its verdicts.
use agent_graph_engine.Prelude.{
  ℕ, String, Bool, true, false, ◌&&◌, Option, none, some, List, [], ◌∷◌, ◌==◌, ltb, same_bool,
  if◌then◌else◌,
}
use agent_graph_engine.Prelude.Text.{str_eq, same_option}
use agent_graph_engine.Core.Enums.{NodeType, RunStatus, same, run_status_enumerated}
use agent_graph_engine.Core.State.{GraphState}
use agent_graph_engine.Core.Edges.{GuardResult, Transition}
use agent_graph_engine.Runtime.Journal.{JournalRecord, Payload, Started, Recorded, Committed}

pub data RecoveryAction : Type 0 where
  clean_resume rerun_interrupted_node reapply_recorded_result : RecoveryAction
  complete_transition_marker completed blocked : RecoveryAction

pub record RecoveryAssessment : Type 0 where
  pub action : RecoveryAction
  pub reason_code : String
  pub run_id : String
  pub persisted_state_version : ℕ
  pub last_journal_seq : ℕ
  pub resume_node : Option String

abbrev note_payload : Payload → Bool
note_payload (Payload.recovery_note code) = true
note_payload _ = false

-- The records but for recovery notes.
abbrev pub protocol_records : List JournalRecord → List JournalRecord
protocol_records [] = []
protocol_records (r ∷ older) =
    let rest = protocol_records older in if note_payload r.content.payload then rest else r ∷ rest

abbrev recorded_payload : Payload → Option Recorded
recorded_payload (Payload.node_result_recorded r) = some r
recorded_payload _ = none

abbrev or_later {ℓ} : {A : Type ℓ} → Option A → Option A → Option A
or_later none later = later
or_later (some a) later = some a

-- next(item for item in reversed(records) if it is a recorded result)
abbrev pub last_recorded : List JournalRecord → Option Recorded
last_recorded [] = none
last_recorded (r ∷ older) = or_later (recorded_payload r.content.payload) (last_recorded older)

abbrev started_payload : Payload → Option Started
started_payload (Payload.node_started s) = some s
started_payload _ = none

abbrev earlier_started : Bool → Payload → Option Started
earlier_started true p = started_payload p
earlier_started false p = none

-- The same for a started node with `item.seq < record.seq`.
abbrev pub last_started : ℕ → List JournalRecord → Option Started
last_started seq [] = none
last_started seq (r ∷ older) =
    or_later (earlier_started (ltb r.content.seq seq) r.content.payload) (last_started seq older)

abbrev pub same_guard_results : List GuardResult → List GuardResult → Bool
same_guard_results [] [] = true
same_guard_results (a ∷ as') (b ∷ bs) =
    same_bool a.passed b.passed
    && str_eq a.code b.code
    && str_eq a.reason b.reason
    && same_guard_results as' bs
same_guard_results _ _ = false

abbrev pub same_status : Option RunStatus → Option RunStatus → Bool
same_status none none = true
same_status (some a) (some b) = same a b
same_status _ _ = false

-- payload["transition"] == encode_value(transition)
unfoldable pub same_transition : Transition → Transition → Bool
same_transition t u =
    str_eq t.edge_id u.edge_id
    && str_eq t.from_node u.from_node
    && str_eq t.to_node u.to_node
    && (t.priority == u.priority)
    && same_guard_results t.guard_results u.guard_results
    && same_bool t.checkpoint u.checkpoint
    && same_bool t.terminal u.terminal
    && same_status t.final_status u.final_status
    && same_option t.resume_node u.resume_node

abbrev pub transition_commit_payload : Transition → ℕ → String → Committed
transition_commit_payload t version digest = record {
  from_node = t.from_node;
  to_node = t.to_node;
  edge_id = t.edge_id;
  committed_state_version = version;
  committed_state_digest = digest;
}

-- RecoveryManager._marker_matches_recorded_result
unfoldable pub marker_matches : Committed → Option Recorded → Bool
marker_matches marker none = false
marker_matches marker (some r) =
    str_eq marker.from_node r.transition.from_node
    && str_eq marker.to_node r.transition.to_node
    && str_eq marker.edge_id r.transition.edge_id
    && (marker.committed_state_version == r.expected_next_state_version)
    && str_eq marker.committed_state_digest r.expected_next_state_digest

-- The tests of _assess_recorded on the start of the attempt.
unfoldable pub attempt_matches : Option Started → Recorded → Bool
attempt_matches none r = false
attempt_matches (some s) r =
    str_eq s.attempt_id r.node_result.attempt_id
    && str_eq s.node_id r.node_result.node_id
    && (s.base_state_version == r.base_state_version)
    && str_eq s.idempotency_key r.node_result.attempt_id

-- The capabilities that are safe to invoke again.
abbrev pub reruns_safely : NodeType → Bool
reruns_safely NodeType.deterministic = true
reruns_safely NodeType.llm_read_only = true
reruns_safely NodeType.human_checkpoint = true
reruns_safely _ = false

abbrev pub at_end : GraphState → Bool
at_end s = str_eq s.graph.current_node "END"

abbrev pub latest_seq : List JournalRecord → ℕ
latest_seq [] = 0
latest_seq (r ∷ older) = r.content.seq
