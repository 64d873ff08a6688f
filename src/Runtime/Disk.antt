-- ===== src/Runtime/Disk.antt =====
-- runtime/state_store.py, and what a session finds on the disk: a call takes the disk and leaves
-- another one, also where it raises.
use agent_graph_engine.Prelude.{
  ℕ, ◌+◌, String, Bool, true, false, Option, none, some, List, ◌∷◌, ◌==◌,
}
use agent_graph_engine.Prelude.Text.{str_eq}
use agent_graph_engine.Core.Enums.{RunStatus}
use agent_graph_engine.Core.State.{GraphState}
use agent_graph_engine.Core.Engine.{GraphEngine}
use agent_graph_engine.Runtime.Failures.{
  Outcome, done, raised, state_conflict, state_corruption, injected, unless,
}
use agent_graph_engine.Runtime.Journal.{JournalRecord, Payload, Content, next_record, load}

-- state.json
pub record PersistedState : Type 0 where
  pub state : GraphState
  pub digest : String

-- final.json; the time that a run finished is left out
pub record FinalReceipt : Type 0 where
  pub project_id : String
  pub run_id : String
  pub final_status : RunStatus
  pub final_state_version : ℕ
  pub final_state_digest : String
  pub last_journal_seq : ℕ

pub record Disk : Type 0 where
  pub persisted : PersistedState
  pub journal : List JournalRecord
  -- the incomplete last line of the journal
  pub tail : Option String
  pub receipt : Option FinalReceipt
  -- the run that active-run.json names
  pub active : Option String

-- The verdict of a reconciler.
pub record InterruptedSideEffectAssessment : Type 0 where
  pub safe_rerun : Bool
  pub reason_code : String

-- A coordinator and what it is given: the engine, the fault hook, the reconciler and the digests.
pub record Coordinator : Type 0 where
  pub project_id : String
  pub engine : GraphEngine
  pub fault : String → Option String
  pub reconciler : Option (String → GraphState → Outcome InterruptedSideEffectAssessment)
  pub digest_for_state : GraphState → String
  pub digest_record : Content → String

pub record Reply {ℓ} (A : Type ℓ) : Type ℓ where
  pub disk : Disk
  pub outcome : Outcome A

abbrev pub Action {ℓ} : Type ℓ → Type ℓ
Action A = Disk → Reply A

abbrev pub proceed {ℓ κ} : {A : Type ℓ} {B : Type κ} → Disk → Outcome A → (A → Action B) → Reply B
proceed d (raised f) next = record { disk = d; outcome = raised f }
proceed d (done a) next = next a d

infixl 5 ◌>>=◌ ◌>>◌
abbrev pub ◌>>=◌ {ℓ κ} : {A : Type ℓ} {B : Type κ} → Action A → (A → Action B) → Action B
(m >>= next) d = proceed (m d).disk (m d).outcome next

abbrev pub ◌>>◌ {κ} : {B : Type κ} → Action (Unit {0}) → Action B → Action B
m >> next = m >>= λ _. next

-- What leaves the disk as it is.
abbrev pub only {ℓ} : {A : Type ℓ} → Outcome A → Action A
only o d = record { disk = d; outcome = o }

abbrev pub give {ℓ} : {A : Type ℓ} → A → Action A
give a = only (done a)

abbrev raised_by : Option String → Outcome (Unit {0})
raised_by none = done tt
raised_by (some what) = raised (injected what)

abbrev authentic : Bool → Action PersistedState
authentic true d = give d.persisted d
authentic false d = only (raised state_corruption) d

abbrev write_state : PersistedState → Action PersistedState
write_state p d = record { disk = record d { persisted = p }; outcome = done p }

abbrev write_record : JournalRecord → Action JournalRecord
write_record r d = record { disk = record d { journal = r ∷ d.journal }; outcome = done r }

module _ (c : Coordinator) where
  -- self.fault(stage)
  abbrev pub fault_at : String → Action (Unit {0})
  fault_at stage = only (raised_by (c.fault stage))

  abbrev pub seal_state : GraphState → PersistedState
  seal_state s = record { state = s; digest = c.digest_for_state s }

  -- StateStore.load_persisted
  unfoldable pub load_persisted : Action PersistedState
  load_persisted d = authentic (str_eq (c.digest_for_state d.persisted.state) d.persisted.digest) d

  -- StateStore.compare_and_swap
  unfoldable pub compare_and_swap : ℕ → GraphState → Action PersistedState
  compare_and_swap expected next = do
    current ← load_persisted
    only (unless (current.state.state_version == expected) state_conflict)
    only (unless (next.state_version == expected + 1) state_conflict)
    write_state (seal_state next)

  -- Journal.load
  abbrev pub load_journal : String → Action (List JournalRecord)
  load_journal run_id d = only (load c.digest_record run_id d.journal d.tail) d

  -- Journal.append
  unfoldable pub append : String → Payload → Action JournalRecord
  append run_id payload = do
    records ← load_journal run_id
    write_record (next_record c.digest_record run_id records payload)
