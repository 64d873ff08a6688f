-- ===== src/Runtime/Crash/Recovered.antt =====
-- Recovery of a step that stopped once its result was recorded.
use agent_graph_engine.Prelude.{
  String, ◌≡◌, refl, sym, ap, ◌∙◌, inl, inr, true, false, none, arith, Bool-cases,
}
use agent_graph_engine.Prelude.Text.{str_eq}
use agent_graph_engine.Core.Errors.{ok}
use agent_graph_engine.Core.State.{GraphState}
use agent_graph_engine.Core.NodeResult.{NodeResult, NodeContext}
use agent_graph_engine.Core.Edges.{Transition}
use agent_graph_engine.Core.Engine.{apply_result, build_node_context, invoke_node}
use agent_graph_engine.Runtime.Disk.{Disk, Coordinator}
use agent_graph_engine.Runtime.Session.{recover, step}
use agent_graph_engine.Runtime.Crash.Redo.{recover_recorded, recover_stored, recover_marked}
use agent_graph_engine.Runtime.Crash.Closing.{
  IsUnfinalized, StopsAt, finalize_stops, finalize_calm, recover_finalized, recover_receipt,
  recover_closed,
}
use agent_graph_engine.Runtime.Crash.Stages.{
  calm, IsOpen, calm-IsHealthy, marked, final, Stops, step_calm, unfinalized,
}

calm-IsOpen :
    (c : Coordinator) (run_id : String) (d : Disk) → IsOpen c run_id d → IsOpen (calm c) run_id d
calm-IsOpen c run_id d o = record {
  healthy = calm-IsHealthy c run_id d o.healthy;
  open_journal = o.open_journal;
  no_receipt = o.no_receipt;
}

module _ (c : Coordinator) (run_id : String) (d : Disk) (opened : IsOpen c run_id d)
    {context : NodeContext} {r : NodeResult} {next : GraphState} {t : Transition}
    (prepared : build_node_context c.engine d.persisted.state none ≡ ok context)
    (invoked : invoke_node c.engine d.persisted.state context ≡ ok r)
    (applied : apply_result c.engine d.persisted.state r ≡ ok (next, t)) where
  opened' : IsOpen (calm c) run_id d
  opened' = calm-IsOpen c run_id d opened

  unfinalized' :
      str_eq next.graph.current_node "END" ≡ true
      → IsUnfinalized (calm c) run_id (marked c run_id d opened prepared invoked applied) next
  unfinalized' = unfinalized (calm c) run_id d opened' prepared invoked applied

  quiet : (stage : String) → (calm c).fault stage ≡ none
  quiet stage = refl

  calm_final : Disk
  calm_final = final (calm c) run_id d opened' prepared invoked applied

  calm_marked : Disk
  calm_marked = marked (calm c) run_id d opened' prepared invoked applied

  final_live :
      str_eq next.graph.current_node "END" ≡ false
      → final c run_id d opened prepared invoked applied
        ≡ marked c run_id d opened prepared invoked applied
  final_live live = ground (arith, live)

  closes :
      (over : str_eq next.graph.current_node "END" ≡ true) (x : Disk)
      → StopsAt c run_id next (marked c run_id d opened prepared invoked applied) x
      → (recover (calm c) run_id x).disk ≡ final (calm c) run_id d opened' prepared invoked applied
  closes over x (inl h) =
      ap (λ y. (recover (calm c) run_id y).disk) h
      ∙ recover_finalized (calm c) run_id next _ (unfinalized' over) quiet
      ∙ sym (finalize_calm (calm c) run_id next _ (unfinalized' over) quiet)
  closes over x (inr (inl h)) =
      ap (λ y. (recover (calm c) run_id y).disk) h
      ∙ recover_receipt (calm c) run_id next _ (unfinalized' over) quiet
      ∙ sym (finalize_calm (calm c) run_id next _ (unfinalized' over) quiet)
  closes over x (inr (inr h)) =
      ap (λ y. (recover (calm c) run_id y).disk) h
      ∙ recover_closed (calm c) run_id next _ (unfinalized' over) quiet
      ∙ sym (finalize_calm (calm c) run_id next _ (unfinalized' over) quiet)

  -- Where the step ended, recovery leaves the disk of the end.
  recover_final :
      (recover (calm c) run_id (final c run_id d opened prepared invoked applied)).disk
      ≡ final (calm c) run_id d opened' prepared invoked applied
  recover_final = elim (Bool-cases (str_eq next.graph.current_node "END")) [
    | inl over ↦ closes over _ (
        finalize_stops c run_id next (marked c run_id d opened prepared invoked applied)
          (unfinalized c run_id d opened prepared invoked applied over))
    | inr live ↦
        ap (λ y. (recover (calm c) run_id y).disk) (final_live live)
        ∙ recover_marked (calm c) run_id d opened'.healthy prepared invoked applied
  ]

  pub recovered :
      (x : Disk)
      → Stops c run_id d opened prepared invoked applied x
      → (recover (calm c) run_id x).disk ≡ (step (calm c) run_id d).disk
  recovered x stopped =
      go stopped ∙ sym (step_calm (calm c) run_id d opened' prepared invoked applied quiet)
    where
      at : (y : Disk) → x ≡ y → (recover (calm c) run_id x).disk ≡ (recover (calm c) run_id y).disk
      at y h = ap (λ z. (recover (calm c) run_id z).disk) h

      go :
          Stops c run_id d opened prepared invoked applied x
          → (recover (calm c) run_id x).disk
            ≡ final (calm c) run_id d opened' prepared invoked applied
      go (inl h) =
          at _ h ∙ recover_recorded (calm c) run_id d opened'.healthy prepared invoked applied
      go (inr (inl h)) =
          at _ h ∙ recover_stored (calm c) run_id d opened'.healthy prepared invoked applied
      go (inr (inr (inl h))) =
          at _ h ∙ recover_marked (calm c) run_id d opened'.healthy prepared invoked applied
      go (inr (inr (inr h))) = at _ h ∙ recover_final
