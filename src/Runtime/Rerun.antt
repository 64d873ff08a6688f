-- ===== src/Runtime/Rerun.antt =====
-- runtime/recovery.py: which interrupted nodes are invoked again.
use agent_graph_engine.Prelude.{
  String, ◌≡◌, refl, subst, ◌⊎◌, true, Option, none, some, List, [], ◌∷◌, arith, eq_iff,
}
use agent_graph_engine.Core.Errors.{Result, ok, err}
use agent_graph_engine.Core.State.{GraphState}
use agent_graph_engine.Core.NodeResult.{NodeDefinition}
use agent_graph_engine.Core.Graph.{node}
use agent_graph_engine.Runtime.Failures.{Outcome, done, raised}
use agent_graph_engine.Runtime.Journal.{JournalRecord, Payload, Started, load}
use agent_graph_engine.Runtime.Disk.{
  Disk, PersistedState, Coordinator, InterruptedSideEffectAssessment, load_persisted,
}
use agent_graph_engine.Runtime.Evidence.{
  RecoveryAssessment, reruns_safely, protocol_records, rerun_interrupted_node,
}
use agent_graph_engine.Runtime.Recovery.{
  assess, assess_protocol, assess_started, assess_recorded, with_definition, verdict_assessment,
  reconciled, assess_last,
}

-- The reconciler has looked at the node's effects and says that it is safe to run again.
abbrev pub IsReconciled : Coordinator → String → GraphState → Type 0
IsReconciled c node_id s =
    (assess_effects : (String → GraphState → Outcome InterruptedSideEffectAssessment))
    × (verdict : InterruptedSideEffectAssessment) × (c.reconciler ≡ some assess_effects)
    × (assess_effects node_id s ≡ done verdict)
    × (verdict.safe_rerun ≡ true)

-- The node at the cursor of a state may be invoked again.
abbrev pub MayRerun : Coordinator → GraphState → Type 0
MayRerun c s =
    (definition : NodeDefinition) × (node c.engine.graph s.graph.current_node ≡ ok definition)
    × ((reruns_safely definition.node_type ≡ true) ⊎ IsReconciled c s.graph.current_node s)

module _ (c : Coordinator) (run_id : String) where
  verdict_rerun :
      (o : Outcome InterruptedSideEffectAssessment) (s : GraphState) (records : List JournalRecord)
      → (verdict_assessment c run_id o s records).action ≡ rerun_interrupted_node
      → (v : InterruptedSideEffectAssessment) × (o ≡ done v) × (v.safe_rerun ≡ true)
  verdict_rerun (raised f) s records h = absurd (ground arith)
  verdict_rerun (done v) s records h = (v, refl, ground arith)

  reconciled_rerun :
      (o : Option (String → GraphState → Outcome InterruptedSideEffectAssessment)) (n : String)
      (s : GraphState) (records : List JournalRecord)
      → c.reconciler ≡ o
      → (reconciled c run_id o n s records).action ≡ rerun_interrupted_node
      → IsReconciled c n s
  reconciled_rerun none n s records e h = absurd (ground arith)
  reconciled_rerun (some assess_effects) n s records e h =
      let (v, said, safe) = verdict_rerun (assess_effects n s) s records h in
      (assess_effects, v, e, said, safe)

  node_rerun :
      (p : Result NodeDefinition) (n : String) (s : GraphState) (records : List JournalRecord)
      {a : RecoveryAssessment}
      → with_definition c run_id p n s records ≡ done a
      → a.action ≡ rerun_interrupted_node
      → (definition : NodeDefinition) × (p ≡ ok definition)
        × ((reruns_safely definition.node_type ≡ true) ⊎ IsReconciled c n s)
  node_rerun (err e) n s records h k = absurd (ground arith)
  node_rerun (ok definition) n s records h k =
      (definition, refl, ground (arith, reconciled_rerun c.reconciler n s records refl))

  started_rerun :
      (started : Started) (s : GraphState) (records : List JournalRecord) {a : RecoveryAssessment}
      → assess_started c run_id started s records ≡ done a
      → a.action ≡ rerun_interrupted_node
      → MayRerun c s
  unfolding assess_started
  started_rerun started s records {a} h k =
      subst
        (λ n.
          (definition : NodeDefinition) × (node c.engine.graph n ≡ ok definition)
          × ((reruns_safely definition.node_type ≡ true) ⊎ IsReconciled c n s))
        ((eq_iff started.node_id s.graph.current_node).0 (ground arith))
        (node_rerun (node c.engine.graph started.node_id) started.node_id s records {a = a}
          (ground arith) k)

  protocol_rerun :
      (rs : List JournalRecord) (p : PersistedState) (records : List JournalRecord)
      {a : RecoveryAssessment}
      → assess_protocol c run_id rs p records ≡ done a
      → a.action ≡ rerun_interrupted_node
      → MayRerun c p.state
  unfolding assess_recorded
  protocol_rerun [] p records h k = absurd (ground arith)
  protocol_rerun (r ∷ earlier) p records {a} h k = by_payload r.content.payload h
    where
      by_payload :
          (x : Payload)
          → assess_last c run_id r.content.seq x earlier p records ≡ done a
          → MayRerun c p.state
      by_payload (Payload.node_started s) e = started_rerun s p.state records e k
      by_payload (Payload.run_started v g) e = absurd (ground arith)
      by_payload (Payload.node_result_recorded x) e = absurd (ground arith)
      by_payload (Payload.transition_committed m) e = absurd (ground arith)
      by_payload (Payload.run_finalized f) e = absurd (ground arith)
      by_payload (Payload.recovery_note code) e = absurd (ground arith)

  -- Recovery asks for an interrupted node to be invoked again only where that is safe: the node at
  -- the cursor is deterministic, only reads, or is a human checkpoint, or a reconciler has looked
  -- at its effects and found it safe. This holds whatever is on the disk.
  pub assess_rerun :
      (d : Disk) {a : RecoveryAssessment}
      → (assess c run_id d).outcome ≡ done a
      → a.action ≡ rerun_interrupted_node
      → MayRerun c d.persisted.state
  unfolding assess load load_persisted
  assess_rerun d {a} h k =
      protocol_rerun (protocol_records d.journal) d.persisted d.journal {a = a} (ground arith) k
