-- ===== src/Core/V1/Gates.antt =====
-- The gates of the canonical graph: what holds of a state at each stage, however it came there.
use agent_graph_engine.Prelude.{◌≡◌, refl, ◌⊎◌, ◌≢◌, true, some, arith}
use agent_graph_engine.Core.Enums.{RunStatus, RiskLevel, ReviewVerdict}
use agent_graph_engine.Core.Errors.{ok}
use agent_graph_engine.Core.State.{GraphState}
use agent_graph_engine.Core.Policy.{PolicySnapshot}
use agent_graph_engine.Core.NodeResult.{NodeResult}
use agent_graph_engine.Core.Engine.{
  execute_transition, reset_for, count_repair, route_risk, lock_scope, pending_after, status_after,
}
use agent_graph_engine.Core.V1.Routes.{Stage, stage_id, route}
use agent_graph_engine.Core.V1.Moves.{next_stage}
use agent_graph_engine.Core.V1.Steps.{land}

-- The delivery review passed, and found a pull request safe.
abbrev pub IsDeliverable : GraphState → Type 0
IsDeliverable s = (s.review.verdict ≡ ReviewVerdict.pass) × (s.review.safe_to_create_pr ≡ true)

-- A checkpoint waits either for critical work or for a pull request that is safe.
abbrev pub IsAwaited : GraphState → Type 0
IsAwaited s =
    ((s.graph.pending_resume_node ≡ some "IMPLEMENT") × (s.risk.level ≡ some RiskLevel.critical))
    ⊎ ((s.graph.pending_resume_node ≡ some "CREATE_PR") × IsDeliverable s)

abbrev pub Gate : Stage → GraphState → Type 0
Gate Stage.human_checkpoint s = IsAwaited s
Gate Stage.create_pr s = IsDeliverable s
Gate Stage.implement s = s.scope.locked ≡ true
Gate Stage.validate s = s.scope.locked ≡ true
Gate Stage.review s = s.scope.locked ≡ true
Gate Stage.classify_failure s = s.scope.locked ≡ true
Gate Stage.programmer_repair s = s.scope.locked ≡ true
Gate Stage.debugger s = s.scope.locked ≡ true
Gate Stage.close_task s = s.scope.locked ≡ true
Gate Stage.more_work s = s.scope.locked ≡ true
Gate Stage.done s = s.run.status ≢ RunStatus.running
Gate _ s = Unit

abbrev pub Lands : Stage → Type 0
Lands n =
    (p : PolicySnapshot) (q : GraphState) (r : NodeResult) (m : GraphState)
    → Gate n q
    → land p n q (route p n q r) ≡ ok m
    → (m.graph.current_node ≡ stage_id (next_stage n (route p n q r)))
      × Gate (next_stage n (route p n q r)) m

pub stage-Lands : (n : Stage) → ¬ (n ≡ Stage.done) → Lands n
unfolding land route execute_transition reset_for count_repair route_risk lock_scope pending_after
    status_after
stage-Lands Stage.start live p q r m gate h = ground arith
stage-Lands Stage.done live p q r m gate h = absurd (live refl)
stage-Lands _ live p q r m gate h = ground arith
