-- ===== src/Runtime/Crash/Interrupted.antt =====
-- A step that is interrupted, and recovery after it.
use agent_graph_engine.Prelude.{String, ◌≡◌, refl, sym, subst, ◌⊎◌, inl, inr, none, arith}
use agent_graph_engine.Core.Errors.{Error, Result, ok, err}
use agent_graph_engine.Core.State.{GraphState}
use agent_graph_engine.Core.NodeResult.{NodeResult, NodeContext}
use agent_graph_engine.Core.Edges.{Transition}
use agent_graph_engine.Core.Engine.{apply_result, build_node_context, invoke_node}
use agent_graph_engine.Runtime.Journal.{Payload}
use agent_graph_engine.Runtime.Disk.{Disk, Coordinator}
use agent_graph_engine.Runtime.Session.{recover, started_of, step, attempt}
use agent_graph_engine.Runtime.Healthy.{push, append_healthy, load_persisted_healthy}
use agent_graph_engine.Runtime.Crash.Stages.{calm, IsOpen, Stops, attempt-Stops}
use agent_graph_engine.Runtime.Crash.Recovered.{recovered}

-- What an interrupted step can leave: the disk as it was; the disk with the start of the node
-- alone; or a disk that recovery brings to where the step leads when nothing interrupts it.
abbrev pub SafelyStopped : Coordinator → String → Disk → Disk → Type 0
SafelyStopped c run_id d x =
    (x ≡ d)
    ⊎ ((context : NodeContext) × (build_node_context c.engine d.persisted.state none ≡ ok context)
        × (x
            ≡ push c run_id (Payload.node_started (started_of c run_id d.persisted.state context))
                d))
    ⊎ ((recover (calm c) run_id x).disk ≡ (step (calm c) run_id d).disk)

module _ (c : Coordinator) (run_id : String) (d : Disk) (opened : IsOpen c run_id d) where
  abbrev begun : NodeContext → Disk
  begun context =
      push c run_id (Payload.node_started (started_of c run_id d.persisted.state context)) d

  uninvoked :
      (context : NodeContext) {e : Error}
      → invoke_node c.engine d.persisted.state context ≡ err e
      → (attempt c run_id d.persisted.state context d).disk ≡ begun context
  unfolding attempt
  uninvoked context h = ground (
    arith,
    h,
    append_healthy c run_id (Payload.node_started (started_of c run_id d.persisted.state context)) d
        opened.healthy,
  )

  unapplied :
      (context : NodeContext) {r : NodeResult} {e : Error}
      → invoke_node c.engine d.persisted.state context ≡ ok r
      → apply_result c.engine d.persisted.state r ≡ err e
      → (attempt c run_id d.persisted.state context d).disk ≡ begun context
  unfolding attempt
  unapplied context h k = ground (
    arith,
    h,
    k,
    append_healthy c run_id (Payload.node_started (started_of c run_id d.persisted.state context)) d
        opened.healthy,
  )

  attempt_stopped :
      (context : NodeContext) (p : Result NodeResult)
      → build_node_context c.engine d.persisted.state none ≡ ok context
      → invoke_node c.engine d.persisted.state context ≡ p
      → SafelyStopped c run_id d (attempt c run_id d.persisted.state context d).disk
  attempt_stopped context (err e) prepared invoked =
      inr (inl (context, prepared, uninvoked context invoked))
  attempt_stopped context (ok r) prepared invoked =
      by_transition (apply_result c.engine d.persisted.state r) refl
    where
      by_stop :
          {next : GraphState} {t : Transition}
          → (applied : apply_result c.engine d.persisted.state r ≡ ok (next, t))
          → ((attempt c run_id d.persisted.state context d).disk ≡ begun context)
            ⊎ Stops c run_id d opened prepared invoked applied
                (attempt c run_id d.persisted.state context d).disk
          → SafelyStopped c run_id d (attempt c run_id d.persisted.state context d).disk
      by_stop applied (inl h) = inr (inl (context, prepared, h))
      by_stop applied (inr stopped) =
          inr (inr (recovered c run_id d opened prepared invoked applied _ stopped))

      by_transition :
          (q : Result (GraphState × Transition))
          → apply_result c.engine d.persisted.state r ≡ q
          → SafelyStopped c run_id d (attempt c run_id d.persisted.state context d).disk
      by_transition (err e) applied =
          inr (inl (context, prepared, unapplied context invoked applied))
      by_transition (ok (next, t)) applied =
          by_stop applied (attempt-Stops c run_id d opened prepared invoked applied)

  step_stopped_early :
      {e : Error}
      → build_node_context c.engine d.persisted.state none ≡ err e
      → (step c run_id d).disk ≡ d
  unfolding step
  step_stopped_early h = ground (arith, h, load_persisted_healthy c run_id d opened.healthy)

  step_attempts :
      (context : NodeContext)
      → build_node_context c.engine d.persisted.state none ≡ ok context
      → ((step c run_id d).disk ≡ d)
        ⊎ ((step c run_id d).disk ≡ (attempt c run_id d.persisted.state context d).disk)
  unfolding step
  step_attempts context h = ground (arith, h, load_persisted_healthy c run_id d opened.healthy)

  -- A step may be interrupted at any of its stages. If the journal and the state load and the run
  -- is not finalized, the step leaves one of three things: the disk as it was; the disk with the
  -- start of the node added and the state as it was; or a disk that recovery, which does not invoke
  -- the node again, brings to the very disk that the step leaves when nothing interrupts it, with
  -- the state, the journal, the receipt and the ownership of the project.
  pub crash_recovery : SafelyStopped c run_id d (step c run_id d).disk
  crash_recovery = by_context (build_node_context c.engine d.persisted.state none) refl
    where
      by_attempt :
          (context : NodeContext)
          → build_node_context c.engine d.persisted.state none ≡ ok context
          → ((step c run_id d).disk ≡ d)
            ⊎ ((step c run_id d).disk ≡ (attempt c run_id d.persisted.state context d).disk)
          → SafelyStopped c run_id d (step c run_id d).disk
      by_attempt context h (inl same) = inl same
      by_attempt context h (inr went) =
          subst (SafelyStopped c run_id d) (sym went)
            (attempt_stopped context (invoke_node c.engine d.persisted.state context) h refl)

      by_context :
          (p : Result NodeContext)
          → build_node_context c.engine d.persisted.state none ≡ p
          → SafelyStopped c run_id d (step c run_id d).disk
      by_context (err e) h = inl (step_stopped_early h)
      by_context (ok context) h = by_attempt context h (step_attempts context h)
