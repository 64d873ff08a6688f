-- ===== src/Runtime/Crash/Stages.antt =====
-- A step whose fault hook may raise at any stage: where it stops.
use agent_graph_engine.Prelude.{String, ◌≡◌, refl, ◌⊎◌, true, false, none, arith, any}
use agent_graph_engine.Prelude.Text.{str_eq}
use agent_graph_engine.Core.Errors.{ok}
use agent_graph_engine.Core.State.{GraphState}
use agent_graph_engine.Core.NodeResult.{NodeResult, NodeContext}
use agent_graph_engine.Core.Edges.{Transition}
use agent_graph_engine.Core.Engine.{apply_result, build_node_context, invoke_node}
use agent_graph_engine.Runtime.Journal.{Payload}
use agent_graph_engine.Runtime.Disk.{Disk, Coordinator}
use agent_graph_engine.Runtime.Evidence.{transition_commit_payload}
use agent_graph_engine.Runtime.Session.{
  started_of, recorded_of, step, attempt, commit, is_finalized,
}
use agent_graph_engine.Runtime.Healthy.{
  IsHealthy, append_healthy, load_persisted_healthy, swap_healthy,
}
use agent_graph_engine.Runtime.Crash.Redo.{
  started_disk, recorded_disk, stored_disk, marked_disk, final_disk, started-IsHealthy,
  recorded-IsHealthy, stored-IsHealthy, marked-IsHealthy, next_version,
}
use agent_graph_engine.Runtime.Crash.Closing.{IsUnfinalized}

-- The same coordinator with a fault hook that never raises.
abbrev pub calm : Coordinator → Coordinator
calm c = record c { fault = λ stage. none }

-- A disk that a step can start from: it loads, and the run is not finalized.
pub record IsOpen (c : Coordinator) (run_id : String) (d : Disk) : Type 0 where
  pub healthy : IsHealthy c run_id d
  pub open_journal : any is_finalized d.journal ≡ false
  pub no_receipt : d.receipt ≡ none

pub calm-IsHealthy :
    (c : Coordinator) (run_id : String) (d : Disk)
    → IsHealthy c run_id d
    → IsHealthy (calm c) run_id d
calm-IsHealthy c run_id d h = record { whole = h.whole; valid = h.valid; authentic = h.authentic }

module _ (c : Coordinator) (run_id : String) (d : Disk) (opened : IsOpen c run_id d)
    {context : NodeContext} {r : NodeResult} {next : GraphState} {t : Transition}
    (prepared : build_node_context c.engine d.persisted.state none ≡ ok context)
    (invoked : invoke_node c.engine d.persisted.state context ≡ ok r)
    (applied : apply_result c.engine d.persisted.state r ≡ ok (next, t)) where
  abbrev recorded : Disk
  recorded = recorded_disk c run_id d opened.healthy prepared invoked applied

  abbrev stored : Disk
  stored = stored_disk c run_id d opened.healthy prepared invoked applied

  abbrev pub marked : Disk
  marked = marked_disk c run_id d opened.healthy prepared invoked applied

  abbrev marker : Payload
  marker =
      Payload.transition_committed
        (transition_commit_payload t next.state_version (c.digest_for_state next))

  abbrev pub final : Disk
  final = final_disk c run_id d opened.healthy prepared invoked applied

  -- Where a step whose result was recorded can stop.
  abbrev pub Stops : Disk → Type 0
  Stops x = (x ≡ recorded) ⊎ (x ≡ stored) ⊎ (x ≡ marked) ⊎ (x ≡ final)

  commit-Stops : Stops (commit c run_id d.persisted.state next t recorded).disk
  unfolding commit
  commit-Stops = ground (
    arith,
    swap_healthy c run_id recorded next
        (recorded-IsHealthy c run_id d opened.healthy prepared invoked applied)
        (next_version c run_id d opened.healthy prepared invoked applied),
    append_healthy c run_id marker stored
        (stored-IsHealthy c run_id d opened.healthy prepared invoked applied),
  )

  pub attempt-Stops :
      ((attempt c run_id d.persisted.state context d).disk
        ≡ started_disk c run_id d opened.healthy prepared invoked applied)
      ⊎ Stops (attempt c run_id d.persisted.state context d).disk
  unfolding attempt
  attempt-Stops = ground (
    arith,
    invoked,
    applied,
    append_healthy c run_id (Payload.node_started (started_of c run_id d.persisted.state context)) d
        opened.healthy,
    append_healthy c run_id
        (Payload.node_result_recorded (recorded_of c run_id d.persisted.state r next t))
        (started_disk c run_id d opened.healthy prepared invoked applied)
        (started-IsHealthy c run_id d opened.healthy prepared invoked applied),
    commit-Stops,
  )

  -- The step runs through when no stage raises.
  pub step_calm : ((stage : String) → c.fault stage ≡ none) → (step c run_id d).disk ≡ final
  unfolding step attempt commit
  step_calm quiet = ground (
    arith,
    prepared,
    invoked,
    applied,
    quiet "before_node_started",
    quiet "after_node_started",
    quiet "after_node_invocation",
    quiet "after_node_result_recorded",
    quiet "before_state_cas",
    quiet "after_state_cas",
    quiet "before_transition_committed",
    quiet "after_transition_committed",
    load_persisted_healthy c run_id d opened.healthy,
    append_healthy c run_id (Payload.node_started (started_of c run_id d.persisted.state context)) d
        opened.healthy,
    append_healthy c run_id
        (Payload.node_result_recorded (recorded_of c run_id d.persisted.state r next t))
        (started_disk c run_id d opened.healthy prepared invoked applied)
        (started-IsHealthy c run_id d opened.healthy prepared invoked applied),
    swap_healthy c run_id recorded next
        (recorded-IsHealthy c run_id d opened.healthy prepared invoked applied)
        (next_version c run_id d opened.healthy prepared invoked applied),
    append_healthy c run_id marker stored
        (stored-IsHealthy c run_id d opened.healthy prepared invoked applied),
  )

  pub unfinalized : str_eq next.graph.current_node "END" ≡ true → IsUnfinalized c run_id marked next
  unfinalized over = record {
    healthy = marked-IsHealthy c run_id d opened.healthy prepared invoked applied;
    state = refl;
    ended = over;
    open_journal = opened.open_journal;
    no_receipt = opened.no_receipt;
  }
