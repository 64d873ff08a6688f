-- ===== src/Runtime/Recovery.antt =====
-- runtime/recovery.py: which phase a run was interrupted in, and the phases that can be completed.
-- The reasons in words and the evidence of an assessment are left out.
use agent_graph_engine.Prelude.{
  ℕ, String, Bool, true, false, not, ◌&&◌, ◌||◌, Option, none, some, List, [], ◌∷◌, ◌==◌,
  if◌then◌else◌,
}
use agent_graph_engine.Prelude.Text.{str_eq}
use agent_graph_engine.Core.Errors.{Result, ok, err}
use agent_graph_engine.Core.Enums.{same, run_status_enumerated}
use agent_graph_engine.Core.State.{GraphState}
use agent_graph_engine.Core.NodeResult.{NodeDefinition}
use agent_graph_engine.Core.Edges.{Transition}
use agent_graph_engine.Core.Graph.{node}
use agent_graph_engine.Core.Engine.{apply_result}
use agent_graph_engine.Runtime.Failures.{
  Outcome, done, raised, Failure, recovery_failure, from_core, unless,
}
use agent_graph_engine.Runtime.Journal.{
  JournalRecord, Payload, Started, Recorded, Committed, Finalized,
}
use agent_graph_engine.Runtime.Disk.{
  PersistedState, Coordinator, InterruptedSideEffectAssessment, Action, ◌>>=◌, ◌>>◌, only, give,
  load_persisted, load_journal, append, compare_and_swap,
}
use agent_graph_engine.Runtime.Evidence.{
  RecoveryAction, RecoveryAssessment, protocol_records, last_recorded, last_started,
  same_transition, transition_commit_payload, marker_matches, attempt_matches, reruns_safely,
  at_end, latest_seq, clean_resume, rerun_interrupted_node, reapply_recorded_result,
  complete_transition_marker, completed, blocked,
}

module _ (c : Coordinator) (run_id : String) where
  -- RecoveryManager._assessment
  abbrev pub assessment :
      RecoveryAction → String → GraphState → List JournalRecord → RecoveryAssessment
  assessment action code s records = record {
    action = action;
    reason_code = code;
    run_id = run_id;
    persisted_state_version = s.state_version;
    last_journal_seq = latest_seq records;
    resume_node = if at_end s then none else some s.graph.current_node;
  }

  abbrev pub blocked_by : String → GraphState → List JournalRecord → RecoveryAssessment
  blocked_by = assessment blocked

  -- RecoveryManager._clean_or_completed
  abbrev pub clean_or_completed : GraphState → List JournalRecord → RecoveryAssessment
  clean_or_completed s records =
      if at_end s
      then assessment completed "terminal_state" s records
      else assessment clean_resume "committed_state" s records

  -- RecoveryManager._verify_recomputed
  unfoldable pub verify_recomputed : Recorded → GraphState → Transition → Bool
  verify_recomputed r s t =
      (r.expected_next_state_version == s.state_version)
      && str_eq r.expected_next_state_digest (c.digest_for_state s)
      && same_transition r.transition t

  abbrev pub verdict_assessment :
      Outcome InterruptedSideEffectAssessment → GraphState → List JournalRecord → RecoveryAssessment
  verdict_assessment (raised f) s records = blocked_by "side_effect_reconciliation_failed" s records
  verdict_assessment (done v) s records =
      assessment (if v.safe_rerun then rerun_interrupted_node else blocked) v.reason_code s records

  abbrev pub reconciled :
      Option (String → GraphState → Outcome InterruptedSideEffectAssessment)
      → String
      → GraphState
      → List JournalRecord
      → RecoveryAssessment
  reconciled none n s records = blocked_by "unreconciled_side_effect_capability" s records
  reconciled (some r) n s records = verdict_assessment (r n s) s records

  abbrev pub assess_node :
      NodeDefinition → String → GraphState → List JournalRecord → RecoveryAssessment
  assess_node definition n s records =
      if reruns_safely definition.node_type
      then assessment rerun_interrupted_node "safe_capability_rerun" s records
      else reconciled c.reconciler n s records

  abbrev pub with_definition :
      Result NodeDefinition → String → GraphState → List JournalRecord → Outcome RecoveryAssessment
  with_definition (err e) n s records = raised (Failure.core e)
  with_definition (ok definition) n s records = done (assess_node definition n s records)

  -- RecoveryManager._assess_started
  unfoldable pub assess_started :
      Started → GraphState → List JournalRecord → Outcome RecoveryAssessment
  assess_started started s records =
      if not (started.base_state_version == s.state_version)
      then done (blocked_by "started_attempt_state_mismatch" s records)
      else if not (str_eq started.node_id s.graph.current_node)
      then done (blocked_by "started_attempt_node_mismatch" s records)
      else with_definition (node c.engine.graph started.node_id) started.node_id s records

  abbrev recomputes : Recorded → Result (GraphState × Transition) → Bool
  recomputes r (err e) = false
  recomputes r (ok (s, t)) = verify_recomputed r s t

  -- RecoveryManager._assess_recorded, of a result that is kept decoded: a record whose result cannot
  -- be decoded, which the source reports as recorded_result_contract_invalid, does not arise.
  unfoldable pub assess_recorded :
      ℕ → Recorded → PersistedState → List JournalRecord → RecoveryAssessment
  assess_recorded seq r p records =
      if not (attempt_matches (last_started seq records) r)
      then blocked_by "node_attempt_identity_mismatch" p.state records
      else if p.state.state_version == r.base_state_version
      then (if recomputes r (apply_result c.engine p.state r.node_result)
          then assessment reapply_recorded_result "recorded_result_state_not_committed" p.state
              records
          else blocked_by "recorded_result_recompute_mismatch" p.state records)
      else if (p.state.state_version == r.expected_next_state_version)
          && str_eq p.digest r.expected_next_state_digest
      then assessment complete_transition_marker "state_committed_marker_missing" p.state records
      else blocked_by "recorded_result_state_mismatch" p.state records

  abbrev pub assess_finalized : Finalized → PersistedState → List JournalRecord → RecoveryAssessment
  assess_finalized f p records =
      if at_end p.state
        && (f.final_state_version == p.state.state_version)
        && str_eq f.final_state_digest p.digest
        && same f.final_status p.state.run.status
      then assessment completed "run_finalized" p.state records
      else blocked_by "finalized_non_terminal_state" p.state records

  abbrev assess_initial : ℕ → String → PersistedState → List JournalRecord → RecoveryAssessment
  assess_initial version digest p records =
      if not (version == p.state.state_version) || not (str_eq digest p.digest)
      then blocked_by "initial_state_journal_mismatch" p.state records
      else clean_or_completed p.state records

  abbrev pub assess_committed :
      Committed → List JournalRecord → PersistedState → List JournalRecord → RecoveryAssessment
  assess_committed m earlier p records =
      if not (m.committed_state_version == p.state.state_version)
        || not (str_eq m.committed_state_digest p.digest)
        || not (str_eq m.to_node p.state.graph.current_node)
      then blocked_by "committed_transition_state_mismatch" p.state records
      else if not (marker_matches m (last_recorded earlier))
      then blocked_by "transition_marker_evidence_mismatch" p.state records
      else clean_or_completed p.state records

  -- The tests of `assess` on the last protocol record, by its type.
  abbrev pub assess_last :
      ℕ
      → Payload
      → List JournalRecord
      → PersistedState
      → List JournalRecord
      → Outcome RecoveryAssessment
  assess_last seq (Payload.run_finalized f) earlier p records = done (assess_finalized f p records)
  assess_last seq (Payload.run_started v digest) earlier p records =
      done (assess_initial v digest p records)
  assess_last seq (Payload.node_started s) earlier p records = assess_started s p.state records
  assess_last seq (Payload.node_result_recorded r) earlier p records =
      done (assess_recorded seq r p records)
  assess_last seq (Payload.transition_committed m) earlier p records =
      done (assess_committed m earlier p records)
  assess_last seq (Payload.recovery_note code) earlier p records =
      done (blocked_by "unsupported_journal_tail" p.state records)

  abbrev pub assess_protocol :
      List JournalRecord → PersistedState → List JournalRecord → Outcome RecoveryAssessment
  assess_protocol [] p records = done (blocked_by "missing_journal_evidence" p.state records)
  assess_protocol (r ∷ earlier) p records =
      assess_last r.content.seq r.content.payload earlier p records

  -- RecoveryManager.assess
  unfoldable pub assess : Action RecoveryAssessment
  assess = do
    persisted ← load_persisted c
    records ← load_journal c run_id
    only (assess_protocol (protocol_records records) persisted records)

  abbrev pub commit_marker : Transition → PersistedState → Action RecoveryAssessment
  commit_marker t p = do
    _ ←
        append c run_id (
          Payload.transition_committed (transition_commit_payload t p.state.state_version p.digest))
    assess

  abbrev pub reapply : Recorded → Action RecoveryAssessment
  reapply r = do
    p ← load_persisted c
    (next, t) ← only (from_core (apply_result c.engine p.state r.node_result))
    only (unless (verify_recomputed r next t) recovery_failure)
    persisted ← compare_and_swap c p.state.state_version next
    commit_marker t persisted

  abbrev pub complete : Recorded → Action RecoveryAssessment
  complete r = do p ← load_persisted c; commit_marker r.transition p

  abbrev pub execute_recorded : RecoveryAction → Option Recorded → Action RecoveryAssessment
  execute_recorded action none = only (raised recovery_failure)
  execute_recorded reapply_recorded_result (some r) = reapply r
  execute_recorded _ (some r) = complete r

  abbrev pub executes : RecoveryAction → Bool
  executes reapply_recorded_result = true
  executes complete_transition_marker = true
  executes _ = false

  -- RecoveryManager.execute
  unfoldable pub execute : RecoveryAssessment → Action RecoveryAssessment
  execute a =
      let completion =
        load_journal c run_id >>= λ records. execute_recorded a.action (last_recorded records) in
      if executes a.action then completion else give a
