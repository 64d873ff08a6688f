-- ===== src/Core/V1/Measure.antt =====
-- How far a run on the canonical graph is from END: a rank of its stages that counts the repairs
-- that are left.
use agent_graph_engine.Prelude.{ℕ, ◌+◌, ◌-◌, ◌*◌, ◌<◌, ◌≡◌, refl, ◌⊎◌, some, arith, if◌then◌else◌}
use agent_graph_engine.Prelude.Text.{same_option}
use agent_graph_engine.Core.Errors.{ok}
use agent_graph_engine.Core.State.{GraphState}
use agent_graph_engine.Core.Policy.{PolicySnapshot}
use agent_graph_engine.Core.NodeResult.{NodeResult}
use agent_graph_engine.Core.Engine.{
  execute_transition, reset_for, reset_item_state, count_repair, route_risk, lock_scope,
  pending_after, status_after,
}
use agent_graph_engine.Core.V1.Routes.{Stage, stage_id, route}
use agent_graph_engine.Core.V1.Moves.{next_stage}
use agent_graph_engine.Core.V1.Steps.{land}

-- Four stages for each repair that is left.
abbrev pub repairs_left : PolicySnapshot → GraphState → ℕ
repairs_left p s = 4 * (p.max_repair_cycles - s.repair.count)

abbrev pub rank : PolicySnapshot → Stage → GraphState → ℕ
rank p Stage.start s = 18 + repairs_left p s
rank p Stage.discover_project s = 17 + repairs_left p s
rank p Stage.preflight s = 16 + repairs_left p s
rank p Stage.select_work s = 15 + repairs_left p s
rank p Stage.explore s = 14 + repairs_left p s
rank p Stage.build_task_package s = 13 + repairs_left p s
rank p Stage.assess_risk s = 12 + repairs_left p s
rank p Stage.human_checkpoint s =
    if same_option s.graph.pending_resume_node (some "IMPLEMENT") then 11 + repairs_left p s else 3
rank p Stage.implement s = 10 + repairs_left p s
rank p Stage.validate s = 9 + repairs_left p s
rank p Stage.review s = 8 + repairs_left p s
rank p Stage.classify_failure s = 7 + repairs_left p s
rank p Stage.programmer_repair s = 10 + repairs_left p s
rank p Stage.debugger s = 10 + repairs_left p s
rank p Stage.close_task s = 6
rank p Stage.more_work s = 5
rank p Stage.delivery_review s = 4
rank p Stage.create_pr s = 2
rank p Stage.finalize s = 1
rank p Stage.done s = 0

-- Where a result leads: back to the next item, or strictly down.
abbrev Descends : Stage → Type 0
Descends n =
    (p : PolicySnapshot) (q : GraphState) (r : NodeResult) (m : GraphState)
    → land p n q (route p n q r) ≡ ok m
    → (m.graph.current_node ≡ stage_id (next_stage n (route p n q r)))
      × (((n ≡ Stage.more_work) × (next_stage n (route p n q r) ≡ Stage.select_work))
          ⊎ (rank p (next_stage n (route p n q r)) m < rank p n q))

pub stage-Descends : (n : Stage) → ¬ (n ≡ Stage.done) → Descends n
unfolding land route execute_transition reset_for reset_item_state count_repair route_risk
    lock_scope pending_after status_after
stage-Descends Stage.start live p q r m h = ground arith
stage-Descends Stage.done live p q r m h = absurd (live refl)
stage-Descends _ live p q r m h = ground arith
