-- ===== src/Runtime/Session.antt =====
-- runtime/coordinator.py, `RuntimeSession`: a locked writer session of one run.
-- The lock, its heartbeat and the file system's flushes are left out: a session is a sequence of
-- actions on the disk that no other writer disturbs. A stage where the fault hook raises is where a
-- session is interrupted.
use agent_graph_engine.Prelude.{
  ℕ, String, Bool, true, false, ◌&&◌, Option, none, some, List, [], ◌∷◌, ◌==◌, any, if◌then◌else◌,
}
use agent_graph_engine.Prelude.Text.{str_eq}
use agent_graph_engine.Core.Enums.{same, run_status_enumerated}
use agent_graph_engine.Core.State.{GraphState}
use agent_graph_engine.Core.NodeResult.{NodeContext, NodeResult}
use agent_graph_engine.Core.Edges.{Transition}
use agent_graph_engine.Core.Engine.{build_node_context, invoke_node, apply_result}
use agent_graph_engine.Runtime.Failures.{
  done, run_already_exists, active_run_exists, from_core, unless,
}
use agent_graph_engine.Runtime.Journal.{JournalRecord, Payload, Recorded, Finalized, Started}
use agent_graph_engine.Runtime.Disk.{
  FinalReceipt, Coordinator, Action, ◌>>=◌, ◌>>◌, only, give, fault_at, load_persisted,
  load_journal, append, compare_and_swap,
}
use agent_graph_engine.Runtime.Evidence.{RecoveryAssessment, transition_commit_payload}
use agent_graph_engine.Runtime.Recovery.{assess, execute}

abbrev finalized_payload : Payload → Bool
finalized_payload (Payload.run_finalized f) = true
finalized_payload _ = false

abbrev pub is_finalized : JournalRecord → Bool
is_finalized r = finalized_payload r.content.payload

abbrev last_seq : List JournalRecord → ℕ
last_seq [] = 0
last_seq (r ∷ older) = r.content.seq

-- The comparison of two receipts, without the time.
unfoldable pub same_receipt : FinalReceipt → FinalReceipt → Bool
same_receipt a b =
    str_eq a.project_id b.project_id
    && str_eq a.run_id b.run_id
    && same a.final_status b.final_status
    && (a.final_state_version == b.final_state_version)
    && str_eq a.final_state_digest b.final_state_digest
    && (a.last_journal_seq == b.last_journal_seq)

abbrev write_active : Option String → Action (Unit {0})
write_active a d = record { disk = record d { active = a }; outcome = done tt }

abbrev pub cleared : String → Option String → Option String
cleared run_id none = none
cleared run_id (some owner) = if str_eq owner run_id then none else some owner

-- DurableGraphCoordinator._clear_active_run
abbrev pub clear_active_run : String → Action (Unit {0})
clear_active_run run_id d = write_active (cleared run_id d.active) d

abbrev write_receipt : FinalReceipt → Action (Unit {0})
write_receipt r d = record { disk = record d { receipt = some r }; outcome = done tt }

module _ (c : Coordinator) (run_id : String) where
  abbrev pub finalized_of : GraphState → String → Finalized
  finalized_of s digest = record {
    final_state_version = s.state_version;
    final_state_digest = digest;
    final_status = s.run.status;
  }

  abbrev pub append_finalized : GraphState → String → Bool → Action (List JournalRecord)
  append_finalized s digest true = load_journal c run_id
  append_finalized s digest false = do
    _ ← append c run_id (Payload.run_finalized (finalized_of s digest))
    load_journal c run_id

  abbrev pub receipt_of : GraphState → String → List JournalRecord → FinalReceipt
  receipt_of s digest records = record {
    project_id = c.project_id;
    run_id = run_id;
    final_status = s.run.status;
    final_state_version = s.state_version;
    final_state_digest = digest;
    last_journal_seq = last_seq records;
  }

  abbrev pub settle_receipt : FinalReceipt → Option FinalReceipt → Action (Unit {0})
  settle_receipt r (some existing) = do
    only (unless (same_receipt existing r) run_already_exists)
    clear_active_run run_id
  settle_receipt r none = do
    fault_at c "before_final_receipt"
    write_receipt r
    fault_at c "after_final_receipt"
    clear_active_run run_id

  abbrev put_receipt : FinalReceipt → Action (Unit {0})
  put_receipt r d = settle_receipt r d.receipt d

  -- RuntimeSession._finalize
  unfoldable pub finalize : GraphState → String → Action (Unit {0})
  finalize s digest = do
    records ← load_journal c run_id
    all_records ← append_finalized s digest (any is_finalized records)
    put_receipt (receipt_of s digest all_records)

  abbrev pub finalize_at_end : GraphState → String → Action (Unit {0})
  finalize_at_end s digest =
      let last = finalize s digest in if str_eq s.graph.current_node "END" then last else give tt

  abbrev pub started_of : GraphState → NodeContext → Started
  started_of s context = record {
    node_id = s.graph.current_node;
    attempt_id = context.node_attempt_id;
    base_state_version = s.state_version;
    idempotency_key = context.idempotency_key;
  }

  abbrev pub recorded_of : GraphState → NodeResult → GraphState → Transition → Recorded
  recorded_of s r next t = record {
    node_result = r;
    transition = t;
    base_state_version = s.state_version;
    expected_next_state_version = next.state_version;
    expected_next_state_digest = c.digest_for_state next;
  }

  -- The part of `step` from the recorded result on.
  unfoldable pub commit : GraphState → GraphState → Transition → Action GraphState
  commit s next t = do
    fault_at c "after_node_result_recorded"
    fault_at c "before_state_cas"
    persisted ← compare_and_swap c s.state_version next
    fault_at c "after_state_cas"
    fault_at c "before_transition_committed"
    _ ← append c run_id (
        Payload.transition_committed
          (transition_commit_payload t next.state_version persisted.digest))
    fault_at c "after_transition_committed"
    finalize_at_end next persisted.digest
    give next

  -- The part of `step` from the start of the node on.
  unfoldable pub attempt : GraphState → NodeContext → Action GraphState
  attempt s context = do
    _ ← append c run_id (Payload.node_started (started_of s context))
    fault_at c "after_node_started"
    r ← only (from_core (invoke_node c.engine s context))
    fault_at c "after_node_invocation"
    (next, t) ← only (from_core (apply_result c.engine s r))
    _ ← append c run_id (Payload.node_result_recorded (recorded_of s r next t))
    commit s next t

  -- RuntimeSession.step
  unfoldable pub step : Action GraphState
  step = do
    persisted ← load_persisted c
    context ← only (from_core (build_node_context c.engine persisted.state none))
    fault_at c "before_node_started"
    attempt persisted.state context

  -- RuntimeSession.recover
  unfoldable pub recover : Action RecoveryAssessment
  recover = do
    assessment ← assess c run_id
    result ← execute c run_id assessment
    persisted ← load_persisted c
    finalize_at_end persisted.state persisted.digest
    give result

  abbrev claim : GraphState → Option String → Action (Unit {0})
  claim s none = write_active (some run_id)
  claim s (some owner) = only (unless (str_eq owner run_id) active_run_exists)

  abbrev claim_active : GraphState → Action (Unit {0})
  claim_active s d = claim s d.active d

  -- DurableGraphCoordinator._assert_session_ownership, as a session is entered
  unfoldable pub assert_session_ownership : Action (Unit {0})
  assert_session_ownership = do
    persisted ← load_persisted c
    let claimed = claim_active persisted.state
    (if str_eq persisted.state.graph.current_node "END" then give tt else claimed)
