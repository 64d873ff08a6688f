-- ===== src/Runtime/Crash/Redo.antt =====
-- Recovery of a step that was interrupted after its result was recorded.
use agent_graph_engine.Prelude.{◌+◌, String, ◌≡◌, false, none, arith, eq_iff}
use agent_graph_engine.Core.Errors.{ok}
use agent_graph_engine.Core.State.{GraphState}
use agent_graph_engine.Core.NodeResult.{NodeResult, NodeContext}
use agent_graph_engine.Core.Edges.{Transition}
use agent_graph_engine.Core.Engine.{apply_result, build_node_context, invoke_node}
use agent_graph_engine.Core.Engine.Applied.{apply_result_books}
use agent_graph_engine.Runtime.Failures.{done}
use agent_graph_engine.Runtime.Journal.{Payload}
use agent_graph_engine.Runtime.Disk.{Disk, Coordinator, Action, seal_state, load_persisted, ◌>>=◌}
use agent_graph_engine.Runtime.Evidence.{
  RecoveryAction, RecoveryAssessment, protocol_records, transition_commit_payload,
}
use agent_graph_engine.Runtime.Recovery.{
  assess, assess_protocol, assess_recorded, assessment, execute, executes, assess_committed,
}
use agent_graph_engine.Runtime.Session.{recover, finalize_at_end, started_of, recorded_of}
use agent_graph_engine.Runtime.Healthy.{
  IsHealthy, push, store, load_healthy, append_healthy, push-IsHealthy, store-IsHealthy,
  load_persisted_healthy, swap_healthy,
}
use agent_graph_engine.Runtime.Crash.Same.{attempt_same, recomputed_same}

module _ (c : Coordinator) (run_id : String) where
  -- Assessing a disk that loads reads it and leaves it.
  pub assess_healthy :
      (d : Disk)
      → IsHealthy c run_id d
      → assess c run_id d ≡ record {
        disk = d;
        outcome = assess_protocol c run_id (protocol_records d.journal) d.persisted d.journal;
      }
  unfolding assess
  assess_healthy d h =
      ground (arith, load_persisted_healthy c run_id d h, load_healthy c run_id d h)

module _ (c : Coordinator) (run_id : String) (d : Disk) (healthy : IsHealthy c run_id d)
    {context : NodeContext} {r : NodeResult} {next : GraphState} {t : Transition}
    (prepared : build_node_context c.engine d.persisted.state none ≡ ok context)
    (invoked : invoke_node c.engine d.persisted.state context ≡ ok r)
    (applied : apply_result c.engine d.persisted.state r ≡ ok (next, t)) where
  -- The disks of the step, in order.
  abbrev pub started_disk : Disk
  started_disk =
      push c run_id (Payload.node_started (started_of c run_id d.persisted.state context)) d

  abbrev pub recorded_disk : Disk
  recorded_disk =
      push c run_id (Payload.node_result_recorded (recorded_of c run_id d.persisted.state r next t))
        started_disk

  abbrev pub stored_disk : Disk
  stored_disk = store c run_id next recorded_disk

  abbrev pub marked_disk : Disk
  marked_disk =
      push c run_id
        (Payload.transition_committed
          (transition_commit_payload t next.state_version (c.digest_for_state next)))
        stored_disk

  pub started-IsHealthy : IsHealthy c run_id started_disk
  started-IsHealthy = push-IsHealthy c run_id _ d healthy

  pub recorded-IsHealthy : IsHealthy c run_id recorded_disk
  recorded-IsHealthy = push-IsHealthy c run_id _ started_disk started-IsHealthy

  pub stored-IsHealthy : IsHealthy c run_id stored_disk
  stored-IsHealthy = store-IsHealthy c run_id next recorded_disk recorded-IsHealthy

  pub marked-IsHealthy : IsHealthy c run_id marked_disk
  marked-IsHealthy = push-IsHealthy c run_id _ stored_disk stored-IsHealthy

  pub next_version : next.state_version ≡ d.persisted.state.state_version + 1
  next_version = (apply_result_books c.engine d.persisted.state r applied).0

  -- The disk once the run is finalized, where the step ends it.
  abbrev pub final_disk : Disk
  final_disk = (finalize_at_end c run_id next (c.digest_for_state next) marked_disk).disk

  reapplies : assess c run_id recorded_disk ≡ record {
    disk = recorded_disk;
    outcome = done (
        assessment c run_id RecoveryAction.reapply_recorded_result
          "recorded_result_state_not_committed" d.persisted.state recorded_disk.journal);
  }
  unfolding assess_recorded
  reapplies = ground (
    arith,
    assess_healthy c run_id recorded_disk recorded-IsHealthy,
    attempt_same c run_id d.persisted.state prepared invoked next t,
    recomputed_same c run_id d.persisted.state r next t,
    applied,
  )

  completes : assess c run_id stored_disk ≡ record {
    disk = stored_disk;
    outcome = done (
        assessment c run_id RecoveryAction.complete_transition_marker
          "state_committed_marker_missing" next recorded_disk.journal);
  }
  unfolding assess_recorded
  completes = ground (
    arith,
    assess_healthy c run_id stored_disk stored-IsHealthy,
    attempt_same c run_id d.persisted.state prepared invoked next t,
    eq_iff (c.digest_for_state next) (c.digest_for_state next),
    next_version,
  )

  abbrev marked_assessment : RecoveryAssessment
  marked_assessment =
      assess_committed c run_id
        (transition_commit_payload t next.state_version (c.digest_for_state next))
        (protocol_records recorded_disk.journal) (seal_state c next) marked_disk.journal

  assesses_marked :
      assess c run_id marked_disk ≡ record { disk = marked_disk; outcome = done marked_assessment }
  assesses_marked = assess_healthy c run_id marked_disk marked-IsHealthy

  redoes :
      execute c run_id
        (assessment c run_id RecoveryAction.reapply_recorded_result
          "recorded_result_state_not_committed" d.persisted.state recorded_disk.journal)
        recorded_disk
      ≡ record { disk = marked_disk; outcome = done marked_assessment }
  unfolding execute
  redoes = ground (
    arith,
    load_healthy c run_id recorded_disk recorded-IsHealthy,
    load_persisted_healthy c run_id recorded_disk recorded-IsHealthy,
    applied,
    recomputed_same c run_id d.persisted.state r next t,
    swap_healthy c run_id recorded_disk next recorded-IsHealthy next_version,
    append_healthy c run_id
        (Payload.transition_committed
          (transition_commit_payload t next.state_version (c.digest_for_state next)))
        stored_disk stored-IsHealthy,
    assesses_marked,
  )

  marks :
      execute c run_id
        (assessment c run_id RecoveryAction.complete_transition_marker
          "state_committed_marker_missing" next recorded_disk.journal)
        stored_disk
      ≡ record { disk = marked_disk; outcome = done marked_assessment }
  unfolding execute
  marks = ground (
    arith,
    load_healthy c run_id stored_disk stored-IsHealthy,
    load_persisted_healthy c run_id stored_disk stored-IsHealthy,
    append_healthy c run_id
        (Payload.transition_committed
          (transition_commit_payload t next.state_version (c.digest_for_state next)))
        stored_disk stored-IsHealthy,
    assesses_marked,
  )

  nothing_left : executes c run_id marked_assessment.action ≡ false
  nothing_left = ground arith

  rests :
      execute c run_id marked_assessment marked_disk
      ≡ record { disk = marked_disk; outcome = done marked_assessment }
  unfolding execute
  rests = ground (arith, nothing_left)

  -- What recovery does once an assessment is executed.
  abbrev closing : RecoveryAssessment → Action RecoveryAssessment
  closing x = load_persisted c >>= λ p. finalize_at_end c run_id p.state p.digest >>= λ _.
      (λ d'. record { disk = d'; outcome = done x })

  closes : (x : RecoveryAssessment) → (closing x marked_disk).disk ≡ final_disk
  closes x = ground (arith, load_persisted_healthy c run_id marked_disk marked-IsHealthy)

  pub recover_recorded : (recover c run_id recorded_disk).disk ≡ final_disk
  unfolding recover
  recover_recorded = ground (arith, reapplies, redoes, closes marked_assessment)

  pub recover_stored : (recover c run_id stored_disk).disk ≡ final_disk
  unfolding recover
  recover_stored = ground (arith, completes, marks, closes marked_assessment)

  pub recover_marked : (recover c run_id marked_disk).disk ≡ final_disk
  unfolding recover
  recover_marked = ground (arith, assesses_marked, rests, closes marked_assessment)
