-- ===== src/Core/V1/Reach.antt =====
-- The states that a run reaches on the canonical graph, and the gates along the way.
use agent_graph_engine.Prelude.{
  String, ◌≡◌, refl, sym, ap, ◌∙◌, subst, false, Option, none, some, List, [], ◌∷◌, arith,
}
use agent_graph_engine.Core.Errors.{ok, ok_inj}
use agent_graph_engine.Core.State.{GraphState}
use agent_graph_engine.Core.NodeResult.{NodeResult, node_result}
use agent_graph_engine.Core.Edges.{Transition}
use agent_graph_engine.Core.Graph.{GraphDefinition}
use agent_graph_engine.Core.Patches.Apply.{StatePatch, PatchOperation, apply_operations}
use agent_graph_engine.Core.Patches.Ownership.{authorize}
use agent_graph_engine.Core.Patches.Laws.{applied_operations}
use agent_graph_engine.Core.Patches.Frame.{SameOwned}
use agent_graph_engine.Core.Engine.{
  GraphEngine, apply_patch, apply_result, initial_state, versioned,
}
use agent_graph_engine.Core.V1.{canonical_v1_graph}
use agent_graph_engine.Core.V1.Nodes.{v1_node}
use agent_graph_engine.Core.V1.Routes.{Stage, stage_id, route}
use agent_graph_engine.Core.V1.Moves.{next_stage}
use agent_graph_engine.Core.V1.Steps.{IsStep, IsStep-v1, stage_paths}
use agent_graph_engine.Core.V1.Gates.{Gate, IsAwaited, IsDeliverable, stage-Lands}

no_operations :
    (s c : GraphState) (ops : List PatchOperation) {q : GraphState}
    → apply_operations s [] c ops ≡ ok q
    → q ≡ c
unfolding apply_operations authorize
no_operations s c [] h = sym (ok_inj h)
no_operations s c (op ∷ ops) h = absurd (ground arith)

-- A node that may patch nothing leaves the state as it is.
pub no_paths :
    (s : GraphState) (patch : Option StatePatch) {q : GraphState}
    → apply_patch s patch [] ≡ ok q
    → q ≡ s
unfolding apply_patch
no_paths s none h = sym (ok_inj h)
no_paths s (some patch) h =
    let (c, went, e) = applied_operations s patch [] false h in
    e ∙ no_operations s s patch.operations went

pub checkpoint_paths : stage_paths Stage.human_checkpoint ≡ []
unfolding v1_node
checkpoint_paths = refl

create_pr_paths : stage_paths Stage.create_pr ≡ []
unfolding v1_node
create_pr_paths = refl

pub patched-Gate :
    (n : Stage) (s : GraphState) (patch : Option StatePatch) {q : GraphState}
    → apply_patch s patch (stage_paths n) ≡ ok q
    → SameOwned s q
    → Gate n s
    → Gate n q
patched-Gate Stage.human_checkpoint s patch h owned gate =
    subst IsAwaited (sym (no_paths s patch (ap (apply_patch s patch) (sym checkpoint_paths) ∙ h)))
      gate
patched-Gate Stage.create_pr s patch h owned gate =
    subst IsDeliverable
      (sym (no_paths s patch (ap (apply_patch s patch) (sym create_pr_paths) ∙ h))) gate
patched-Gate _ s patch h owned gate = ground arith

-- A state that a run with a fixed engine can have.
pub data Reach (e : GraphEngine) : GraphState → Type 0 where
  start : (run_id : String) {s : GraphState} → initial_state e run_id ≡ ok s → Reach e s
  next :
      {s s' : GraphState} {t : Transition} (r : NodeResult)
      → Reach e s
      → node_result r ≡ ok r
      → apply_result e s r ≡ ok (s', t)
      → Reach e s'

-- A state at a stage, with the stage's gate.
pub record IsGated (s : GraphState) : Type 0 where
  pub stage : Stage
  pub here : s.graph.current_node ≡ stage_id stage
  pub gate : Gate stage s

versioned-Gate : (n : Stage) (s m : GraphState) → Gate n m → Gate n (versioned s m)
versioned-Gate Stage.human_checkpoint s m gate = gate
versioned-Gate _ s m gate = gate

step-IsGated :
    {e : GraphEngine} {n : Stage} {s s' : GraphState} {r : NodeResult}
    → IsStep e n s r s'
    → Gate n s
    → IsGated s'
step-IsGated {e} {n} {s} {s'} {r} st gate =
    let q = st.patched in
    let to = next_stage n (route e.policy n q r) in
    let gate' = patched-Gate n s r.state_patch st.applied st.owned gate in
    let (arrived, gate'') = stage-Lands n st.live e.policy q r st.moved gate' st.landed in
    subst IsGated (sym st.final)
      (record { stage = to; here = arrived; gate = versioned-Gate to s st.moved gate'' })

initial-IsGated :
    (e : GraphEngine) (run_id : String) {s : GraphState} → initial_state e run_id ≡ ok s → IsGated s
unfolding initial_state
initial-IsGated e run_id {s = s} h = record { stage = Stage.start; here = ground arith; gate = tt }

module _ {g : GraphDefinition} (built : canonical_v1_graph ≡ ok g) (e : GraphEngine)
    (graph : e.graph ≡ g) where
  -- Every state that a run on the canonical graph reaches stands at one of its stages, with the
  -- gate of that stage: a checkpoint waits with critical work or with a safe delivery, CREATE_PR
  -- has a delivery review that passed and allows the pull request, the stages from IMPLEMENT to
  -- MORE_WORK have a locked scope, and at END the run is not running any more.
  pub Reach-IsGated : {s : GraphState} → Reach e s → IsGated s
  Reach-IsGated (start i h) = initial-IsGated e i h
  Reach-IsGated (next {s = s} r before contract applied) =
      let g = Reach-IsGated before in
      step-IsGated (IsStep-v1 built e g.stage s r graph g.here contract applied) g.gate
