-- ===== src/Runtime/Journal.antt =====
-- runtime/journal.py: the checksummed journal of a run.
-- A journal is the list of its complete records, newest first, and the bytes of an incomplete last
-- line where there is one. Payloads are typed, where the source decodes them from JSON. The ids
-- and timestamps of records, which nothing reads again, are left out; the digest is a parameter.
use agent_graph_engine.Prelude.{
  ℕ, ◌+◌, String, Bool, true, false, Option, none, some, List, [], ◌∷◌, length, ◌==◌, ◌&&◌,
}
use agent_graph_engine.Prelude.Text.{str_eq, same_option}
use agent_graph_engine.Core.Enums.{RunStatus}
use agent_graph_engine.Core.NodeResult.{NodeResult}
use agent_graph_engine.Core.Edges.{Transition}
use agent_graph_engine.Runtime.Failures.{
  Outcome, done, raised, journal_corruption, truncated_journal,
}

pub record Started : Type 0 where
  pub node_id : String
  pub attempt_id : String
  pub base_state_version : ℕ
  pub idempotency_key : String

pub record Recorded : Type 0 where
  pub node_result : NodeResult
  pub transition : Transition
  pub base_state_version : ℕ
  pub expected_next_state_version : ℕ
  pub expected_next_state_digest : String

pub record Committed : Type 0 where
  pub from_node : String
  pub to_node : String
  pub edge_id : String
  pub committed_state_version : ℕ
  pub committed_state_digest : String

pub record Finalized : Type 0 where
  pub final_state_version : ℕ
  pub final_state_digest : String
  pub final_status : RunStatus

-- The record types, each with its payload.
pub data Payload : Type 0 where
  run_started : ℕ → String → Payload
  node_started : Started → Payload
  node_result_recorded : Recorded → Payload
  transition_committed : Committed → Payload
  run_finalized : Finalized → Payload
  recovery_note : String → Payload

-- A record without its checksum.
pub record Content : Type 0 where
  pub seq : ℕ
  pub run_id : String
  pub payload : Payload
  pub previous_checksum : Option String

pub record JournalRecord : Type 0 where
  pub content : Content
  pub checksum : String

abbrev pub last_checksum : List JournalRecord → Option String
last_checksum [] = none
last_checksum (r ∷ older) = some r.checksum

-- What load leaves, once the complete lines are checked.
abbrev report : Bool → Option String → List JournalRecord → Outcome (List JournalRecord)
report false tail records = raised journal_corruption
report true none records = done records
report true (some bytes) records = raised (truncated_journal bytes)

module _ (digest : Content → String) (run_id : String) where
  abbrev pub seal : Content → JournalRecord
  seal c = record { content = c; checksum = digest c }

  -- The record that Journal.append makes.
  abbrev pub next_record : List JournalRecord → Payload → JournalRecord
  next_record records payload = seal (record {
    seq = length records + 1;
    run_id = run_id;
    payload = payload;
    previous_checksum = last_checksum records;
  })

  -- Journal._validate_record, as the test of its four checks
  unfoldable pub validate_record : JournalRecord → List JournalRecord → Bool
  validate_record r previous =
      str_eq r.content.run_id run_id
      && (r.content.seq == length previous + 1)
      && same_option r.content.previous_checksum (last_checksum previous)
      && str_eq r.checksum (digest r.content)

  -- The loop of Journal.load over the complete lines, from the oldest.
  unfoldable pub is_valid : List JournalRecord → Bool
  is_valid [] = true
  is_valid (r ∷ older) = is_valid older && validate_record r older

  -- Journal.load
  unfoldable pub load : List JournalRecord → Option String → Outcome (List JournalRecord)
  load records tail = report (is_valid records) tail records
