-- ===== src/Core/V1/Entries.antt =====
-- Who may enter the stages with effects: CREATE_PR and, for critical work, IMPLEMENT.
use agent_graph_engine.Prelude.{
  String, ◌≡◌, refl, sym, ap, ◌∙◌, subst, inl, inr, true, Option, none, some, List, [], ◌∷◌, arith,
  eq_iff, if◌then◌else◌,
}
use agent_graph_engine.Prelude.Text.{str_eq, same_option}
use agent_graph_engine.Core.Enums.{RiskLevel, ReviewVerdict, CheckpointOutcome}
use agent_graph_engine.Core.Errors.{ok}
use agent_graph_engine.Core.State.{GraphState}
use agent_graph_engine.Core.Policy.{PolicySnapshot}
use agent_graph_engine.Core.NodeResult.{NodeResult, node_result}
use agent_graph_engine.Core.Edges.{Transition}
use agent_graph_engine.Core.Graph.{GraphDefinition}
use agent_graph_engine.Core.Engine.{
  GraphEngine, apply_result, apply_patch, execute_transition, reset_for, count_repair, route_risk,
  lock_scope, pending_after, status_after,
}
use agent_graph_engine.Core.V1.{canonical_v1_graph}
use agent_graph_engine.Core.V1.Routes.{Stage, stage_id, route}
use agent_graph_engine.Core.V1.Moves.{next_stage}
use agent_graph_engine.Core.V1.Steps.{IsStep, IsStep-v1, stage_paths, land}
use agent_graph_engine.Core.V1.Gates.{Gate, IsAwaited, IsDeliverable, stage-Lands}
use agent_graph_engine.Core.V1.Reach.{
  Reach, Reach-IsGated, patched-Gate, no_paths, checkpoint_paths,
}

-- The stage that an id names.
abbrev stages : List Stage
stages =
    Stage.start ∷ Stage.discover_project ∷ Stage.preflight ∷ Stage.select_work ∷ Stage.explore
    ∷ Stage.build_task_package ∷ Stage.assess_risk ∷ Stage.human_checkpoint ∷ Stage.implement
    ∷ Stage.validate ∷ Stage.review ∷ Stage.classify_failure ∷ Stage.programmer_repair
    ∷ Stage.debugger ∷ Stage.close_task ∷ Stage.more_work ∷ Stage.delivery_review ∷ Stage.create_pr
    ∷ Stage.finalize ∷ Stage.done ∷ []

find_stage : String → List Stage → Option Stage
find_stage id [] = none
find_stage id (n ∷ ns) =
    let rest = find_stage id ns in if str_eq (stage_id n) id then some n else rest

find_stage_id : (n : Stage) → find_stage (stage_id n) stages ≡ some n
unfolding find_stage
find_stage_id Stage.start = refl
find_stage_id _ = refl

some_inj {ℓ} : {A : Type ℓ} {a b : A} → some a ≡ some b → a ≡ b
some_inj h = cc

pub stage_id-inj : (m n : Stage) → stage_id m ≡ stage_id n → m ≡ n
stage_id-inj m n h =
    some_inj (sym (find_stage_id m) ∙ ap (λ i. find_stage i stages) h ∙ find_stage_id n)

same_option_sound : (o : Option String) (x : String) → same_option o (some x) ≡ true → o ≡ some x
same_option_sound none x h = absurd (ground arith)
same_option_sound (some y) x h = ap some ((eq_iff y x).0 h)

abbrev EntersCreatePr : Stage → Type 0
EntersCreatePr n =
    (p : PolicySnapshot) (q : GraphState) (r : NodeResult)
    → next_stage n (route p n q r) ≡ Stage.create_pr
    → (n ≡ Stage.human_checkpoint)
      × (r.checkpoint_outcome ≡ some CheckpointOutcome.approved)
      × (q.graph.pending_resume_node ≡ some "CREATE_PR")

enters_create_pr : (n : Stage) → EntersCreatePr n
unfolding route
enters_create_pr Stage.start p q r h =
    ground (arith, same_option_sound q.graph.pending_resume_node "CREATE_PR")
enters_create_pr _ p q r h =
    ground (arith, same_option_sound q.graph.pending_resume_node "CREATE_PR")

abbrev EntersCritical : Stage → Type 0
EntersCritical n =
    (p : PolicySnapshot) (q : GraphState) (r : NodeResult) (m : GraphState)
    → land p n q (route p n q r) ≡ ok m
    → next_stage n (route p n q r) ≡ Stage.implement
    → m.risk.level ≡ some RiskLevel.critical
    → (n ≡ Stage.human_checkpoint) × (r.checkpoint_outcome ≡ some CheckpointOutcome.approved)

enters_critical : (n : Stage) → EntersCritical n
unfolding land route execute_transition reset_for count_repair route_risk lock_scope pending_after
    status_after
enters_critical Stage.start p q r m h k c = ground arith
enters_critical _ p q r m h k c = ground arith

-- A checkpoint that is pending for CREATE_PR waits with a safe delivery.
awaited_delivery :
    (s : GraphState)
    → IsAwaited s
    → s.graph.pending_resume_node ≡ some "CREATE_PR"
    → IsDeliverable s
awaited_delivery s (inl (pending, _)) h =
    let clash = ap (λ o. same_option o (some "CREATE_PR")) (sym pending ∙ h) in
    absurd (ground (arith, clash))
awaited_delivery s (inr (_, ready)) h = ready

module _ {g : GraphDefinition} (built : canonical_v1_graph ≡ ok g) (e : GraphEngine)
    (graph : e.graph ≡ g) {s s' : GraphState} {t : Transition} (r : NodeResult)
    (reached : Reach e s) (contract : node_result r ≡ ok r)
    (done : apply_result e s r ≡ ok (s', t)) where
  arrival :
      (n : Stage) (st : IsStep e n s r s')
      → Gate n s
      → s'.graph.current_node ≡ stage_id (next_stage n (route e.policy n st.patched r))
  arrival n st gate =
      ap (λ x. x.graph.current_node) st.final
      ∙ (stage-Lands n st.live e.policy st.patched r st.moved
          (patched-Gate n s r.state_patch st.applied st.owned gate) st.landed).0

  -- Whenever a result that fits the contract of results takes a run on the canonical graph to
  -- CREATE_PR, the run comes from HUMAN_CHECKPOINT with an
  -- approved outcome, at a checkpoint that was pending for CREATE_PR, and the delivery review has
  -- passed and found a pull request safe.
  pub create_pr_approved :
      s'.graph.current_node ≡ "CREATE_PR"
      → (s.graph.current_node ≡ "HUMAN_CHECKPOINT")
        × (r.checkpoint_outcome ≡ some CheckpointOutcome.approved)
        × (s.graph.pending_resume_node ≡ some "CREATE_PR")
        × (s.review.verdict ≡ ReviewVerdict.pass)
        × (s.review.safe_to_create_pr ≡ true)
  create_pr_approved enters =
      let g' = Reach-IsGated built e graph reached in
      let st = IsStep-v1 built e g'.stage s r graph g'.here contract done in
      let to =
        stage_id-inj (next_stage g'.stage (route e.policy g'.stage st.patched r)) Stage.create_pr
          (sym (arrival g'.stage st g'.gate) ∙ enters) in
      let (from, approved, pending) = enters_create_pr g'.stage e.policy st.patched r to in
      let paths = ap stage_paths from ∙ checkpoint_paths in
      let same =
        no_paths s r.state_patch (ap (apply_patch s r.state_patch) (sym paths) ∙ st.applied) in
      let pending' = ap (λ x. x.graph.pending_resume_node) (sym same) ∙ pending in
      let ready = awaited_delivery s (subst (λ n. Gate n s) from g'.gate) pending' in
      (g'.here ∙ ap stage_id from, approved, pending', ready.0, ready.1)

  -- Whenever a result that fits the contract of results takes a run on the canonical graph to
  -- IMPLEMENT with critical risk, the run comes from
  -- HUMAN_CHECKPOINT with an approved outcome.
  pub critical_implement_approved :
      s'.graph.current_node ≡ "IMPLEMENT"
      → s'.risk.level ≡ some RiskLevel.critical
      → (s.graph.current_node ≡ "HUMAN_CHECKPOINT")
        × (r.checkpoint_outcome ≡ some CheckpointOutcome.approved)
  critical_implement_approved enters critical =
      let g' = Reach-IsGated built e graph reached in
      let st = IsStep-v1 built e g'.stage s r graph g'.here contract done in
      let to =
        stage_id-inj (next_stage g'.stage (route e.policy g'.stage st.patched r)) Stage.implement
          (sym (arrival g'.stage st g'.gate) ∙ enters) in
      let (from, approved) =
        enters_critical g'.stage e.policy st.patched r st.moved st.landed to
          (ap (λ x. x.risk.level) (sym st.final) ∙ critical) in
      (g'.here ∙ ap stage_id from, approved)
