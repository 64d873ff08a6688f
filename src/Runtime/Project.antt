-- ===== src/Runtime/Project.antt =====
-- runtime/coordinator.py, `DurableGraphCoordinator`: the start of a run in a project.
-- A project is its initialized runs, the ids of runs whose staging directory is there, and the run
-- that active-run.json names. What a call leaves stays when it raises. The folders of the staging
-- area that a recovery sets aside are left out, and so is an active-run.json that does not decode.
use Prim.Native.String.{compare}
use Prim.Native.Nat.{Ordering}
use agent_graph_engine.Prelude.{
  String, Bool, false, not, ◌&&◌, Option, none, some, List, [], ◌∷◌, ◌==◌, if◌then◌else◌, any,
  select,
}
use agent_graph_engine.Prelude.Text.{str_eq, contains}
use agent_graph_engine.Core.Enums.{same, run_status_enumerated}
use agent_graph_engine.Core.State.{GraphState}
use agent_graph_engine.Core.Engine.{initial_state}
use agent_graph_engine.Runtime.Failures.{
  Outcome, done, raised, from_core, unless, run_already_exists, active_run_exists,
  incomplete_run_initialization, injected,
}
use agent_graph_engine.Runtime.Journal.{JournalRecord, Payload, load, next_record}
use agent_graph_engine.Runtime.Disk.{PersistedState, FinalReceipt, Coordinator, seal_state}
use agent_graph_engine.Runtime.Evidence.{protocol_records, at_end}
use agent_graph_engine.Runtime.Session.{is_finalized, cleared}

-- runs/<run_id>: state.json, journal.jsonl and final.json
pub record RunFolder : Type 0 where
  pub name : String
  pub persisted : PersistedState
  pub journal : List JournalRecord
  pub tail : Option String
  pub receipt : Option FinalReceipt

pub record Project : Type 0 where
  pub runs : List RunFolder
  pub staged : List String
  pub active : Option String

pub record Answer {ℓ} (A : Type ℓ) : Type ℓ where
  pub project : Project
  pub outcome : Outcome A

abbrev pub Command {ℓ} : Type ℓ → Type ℓ
Command A = Project → Answer A

abbrev pub then_do {ℓ κ} :
    {A : Type ℓ} {B : Type κ} → Project → Outcome A → (A → Command B) → Answer B
then_do p (raised f) next = record { project = p; outcome = raised f }
then_do p (done a) next = next a p

infixl 5 ◌>>=◌ ◌>>◌
abbrev pub ◌>>=◌ {ℓ κ} : {A : Type ℓ} {B : Type κ} → Command A → (A → Command B) → Command B
(m >>= next) p = then_do (m p).project (m p).outcome next

abbrev pub ◌>>◌ {κ} : {B : Type κ} → Command (Unit {0}) → Command B → Command B
m >> next = m >>= λ _. next

-- What leaves the project as it is.
abbrev pub unchanged {ℓ} : {A : Type ℓ} → Outcome A → Command A
unchanged o p = record { project = p; outcome = o }

abbrev pub set_active : Option String → Command (Unit {0})
set_active a p = record { project = record p { active = a }; outcome = done tt }

abbrev pub raised_by : Option String → Outcome (Unit {0})
raised_by none = done tt
raised_by (some what) = raised (injected what)

abbrev without : String → List String → List String
without id ids = select (λ x. not (str_eq x id)) ids

module _ (c : Coordinator) where
  abbrev settled_state : RunFolder → Bool
  settled_state f = str_eq (c.digest_for_state f.persisted.state) f.persisted.digest

  abbrev newest_is_final : List JournalRecord → Bool
  newest_is_final [] = false
  newest_is_final (r ∷ older) = is_finalized r

  abbrev final_journal : Outcome (List JournalRecord) → Bool
  final_journal (raised f) = false
  final_journal (done records) = newest_is_final (protocol_records records)

  abbrev agrees : RunFolder → Option FinalReceipt → Bool
  agrees f none = false
  agrees f (some r) =
      str_eq r.project_id c.project_id
      && str_eq r.run_id f.name
      && same r.final_status f.persisted.state.run.status
      && (r.final_state_version == f.persisted.state.state_version)
      && str_eq r.final_state_digest f.persisted.digest

  -- _has_terminal_evidence, of a folder that is there
  unfoldable pub has_terminal_evidence : RunFolder → Bool
  has_terminal_evidence f =
      settled_state f
      && at_end f.persisted.state
      && final_journal (load c.digest_record f.name f.journal f.tail)
      && agrees f f.receipt

  abbrev starts : GraphState → String → JournalRecord → Payload → Bool
  starts s digest r (Payload.run_started version initial_digest) =
      version == 0 && not (s.state_version == 0 && not (str_eq initial_digest digest))
  starts s digest r _ = false

  -- records[0], the oldest
  abbrev first_starts : GraphState → String → List JournalRecord → Bool
  first_starts s digest [] = false
  first_starts s digest (r ∷ []) = starts s digest r r.content.payload
  first_starts s digest (r ∷ q ∷ older) = first_starts s digest (q ∷ older)

  abbrev started_journal : RunFolder → Outcome (List JournalRecord) → Bool
  started_journal f (raised e) = false
  started_journal f (done records) = first_starts f.persisted.state f.persisted.digest records

  -- _validate_initialized_run
  unfoldable pub is_initialized : RunFolder → Bool
  is_initialized f =
      settled_state f
      && started_journal f (load c.digest_record f.name f.journal f.tail)
      && str_eq f.persisted.state.run.run_id f.name

  abbrev pub found_with : Bool → String → Outcome (List String) → Outcome (List String)
  found_with terminal id (raised e) = raised e
  found_with terminal id (done ids) = done (if terminal then ids else id ∷ ids)

  -- _find_unfinished_runs, before it sorts
  unfoldable pub find_unfinished_runs : List RunFolder → Outcome (List String)
  find_unfinished_runs [] = done []
  find_unfinished_runs (f ∷ rest) =
      let others = found_with (has_terminal_evidence f) f.name (find_unfinished_runs rest) in
      if is_initialized f then others else raised incomplete_run_initialization

  abbrev lesser : Ordering → String → String → String
  lesser Ordering.gt a b = b
  lesser _ a b = a

  -- sorted(ids)[0]
  abbrev least : String → List String → String
  least id [] = id
  least id (x ∷ xs) = least (lesser (compare id x) id x) xs

  abbrev pub refuse_unfinished : List String → Command (Unit {0})
  refuse_unfinished [] = unchanged (done tt)
  refuse_unfinished (id ∷ ids) = do
    set_active (some (least id ids))
    unchanged (raised active_run_exists)

  abbrev pub terminal_run : String → List RunFolder → Bool
  terminal_run id [] = false
  terminal_run id (f ∷ rest) =
      if str_eq f.name id then has_terminal_evidence f else terminal_run id rest

  abbrev pub release_active : Option String → Command (Unit {0})
  release_active none p = unchanged (done tt) p
  release_active (some id) p =
      if terminal_run id p.runs
      then set_active (cleared id p.active) p
      else unchanged (raised active_run_exists) p

  -- _enforce_active_run_lifecycle
  unfoldable pub enforce_active_run_lifecycle : Command (Unit {0})
  enforce_active_run_lifecycle = do
    (λ p. release_active p.active p)
    unfinished ← (λ p. unchanged (find_unfinished_runs p.runs) p)
    refuse_unfinished unfinished

  abbrev pub at_stage : String → Command (Unit {0})
  at_stage stage = unchanged (raised_by (c.fault stage))

  abbrev pub stage_run : String → Command (Unit {0})
  stage_run id p = record { project = record p { staged = id ∷ p.staged }; outcome = done tt }

  -- _preserve_incomplete_staging moves the old staging directory away.
  abbrev pub clear_staging : String → Bool → Command (Unit {0})
  clear_staging id recover_incomplete p =
      let moved : Answer (Unit {0}) = record {
        project = record p { staged = without id p.staged };
        outcome = done tt;
      } in
      let refused = unchanged (raised incomplete_run_initialization) p in
      if not (contains p.staged id)
      then unchanged (done tt) p
      else if recover_incomplete
      then moved
      else refused

  abbrev pub folder_of : String → GraphState → RunFolder
  folder_of id s = record {
    name = id;
    persisted = seal_state c s;
    journal =
        next_record c.digest_record id []
          (Payload.run_started s.state_version (c.digest_for_state s))
        ∷ [];
    tail = none;
    receipt = none;
  }

  -- os.replace(staging, run_path)
  abbrev pub promote : String → GraphState → Command (Unit {0})
  promote id s p = record {
    project = record p { runs = folder_of id s ∷ p.runs; staged = without id p.staged };
    outcome = done tt;
  }

  -- The stages in their order, then the command.
  abbrev pub pass : List String → Command (Unit {0}) → Command (Unit {0})
  pass [] m = m
  pass (stage ∷ stages) m = at_stage stage >> pass stages m

  -- The end of _start_run, from the promotion on.
  abbrev pub activate : String → GraphState → Command (Unit {0})
  activate id s = do
    promote id s
    pass ("after_run_promotion" ∷ "before_run_activation" ∷ []) (set_active (some id))
    at_stage "after_run_activation"

  -- _start_run, from the initial state on; `artifacts` is what the callback raises, if it does.
  abbrev pub furnish : Option String → String → GraphState → Command (Unit {0})
  furnish artifacts id s =
      pass ("after_state_initialization" ∷ "after_journal_creation" ∷ "after_run_started" ∷ []) (
        unchanged (raised_by artifacts)
        >> pass ("after_initialization_artifacts" ∷ "before_run_promotion" ∷ []) (activate id s))

  -- _start_run, from the look at the staging directory on.
  abbrev pub launch : Option String → String → Bool → Command (Unit {0})
  launch artifacts id recover_incomplete = do
    clear_staging id recover_incomplete
    stage_run id
    at_stage "after_run_staging_creation"
    s ← unchanged (from_core (initial_state c.engine id))
    furnish artifacts id s

  abbrev pub is_taken : String → List RunFolder → Bool
  is_taken id runs = any (λ f. str_eq f.name id) runs

  -- _start_run
  unfoldable pub start_run : Option String → String → Bool → Command (Unit {0})
  start_run artifacts id recover_incomplete = do
    (λ p. unchanged (unless (not (is_taken id p.runs)) run_already_exists) p)
    enforce_active_run_lifecycle
    launch artifacts id recover_incomplete
