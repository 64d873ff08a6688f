-- ===== src/Core/Engine/Applied.antt =====
-- core/engine.py, `apply_result`: what a result that was applied went through, and what it did.
use agent_graph_engine.Prelude.{
  ◌+◌, ◌≤◌, String, ◌≡◌, sym, ap, ◌∙◌, subst, false, Option, none, some, List, arith,
}
use agent_graph_engine.Core.Errors.{ok, ◌>>=◌, bind-eq-ok, bind3-eq-ok, then-eq-ok, ok_inj}
use agent_graph_engine.Core.State.{GraphState, GraphProgress, progress}
use agent_graph_engine.Core.Policy.{PolicySnapshot}
use agent_graph_engine.Core.NodeResult.{NodeResult, NodeDefinition}
use agent_graph_engine.Core.Edges.{Transition}
use agent_graph_engine.Core.Graph.{node}
use agent_graph_engine.Core.Engine.{
  GraphEngine, versioned, finish_result, transit, patch_and_transit, settle, next_progress,
  validate_state_policy, validate_result_identity, apply_patch, evaluate_transition,
  execute_transition, apply_result, reset_for, count_repair, route_risk, pending_after,
  status_after,
}
use agent_graph_engine.Core.Patches.Apply.{StatePatch}
use agent_graph_engine.Core.Patches.Frame.{SameOwned, SameOwned-refl}
use agent_graph_engine.Core.Patches.Laws.{apply-SameOwned}

-- The stations of `apply_result`.
pub record IsApplied (e : GraphEngine) (s : GraphState) (r : NodeResult) (s' : GraphState)
    (t : Transition) : Type 0 where
  pub identified : validate_result_identity s r ≡ ok tt
  pub definition : NodeDefinition
  pub declared : node e.graph s.graph.current_node ≡ ok definition
  pub patched : GraphState
  pub applied : apply_patch s r.state_patch definition.allowed_patch_paths ≡ ok patched
  pub chosen : evaluate_transition e patched r ≡ ok t
  pub moved : GraphState
  pub executed : execute_transition e.policy patched t ≡ ok moved
  pub final : s' ≡ versioned s moved
  pub before : validate_state_policy e.policy s ≡ ok tt
  pub after : validate_state_policy e.policy s' ≡ ok tt

pub apply_result-IsApplied :
    (e : GraphEngine) (s : GraphState) (r : NodeResult) {s' : GraphState} {t : Transition}
    → apply_result e s r ≡ ok (s', t)
    → IsApplied e s r s' t
unfolding apply_result
apply_result-IsApplied e s r h =
    let (before, h1) = then-eq-ok (validate_state_policy e.policy s) _ h in
    let (identified, h2) = then-eq-ok (validate_result_identity s r) _ h1 in
    let (d, declared, h3) =
      bind-eq-ok (node e.graph s.graph.current_node) (patch_and_transit e s r) h2 in
    let (q, applied, h4) =
      bind-eq-ok (apply_patch s r.state_patch d.allowed_patch_paths) (transit e s r) h3 in
    let (u, chosen, h5) =
      bind-eq-ok (evaluate_transition e q r)
        (λ u. execute_transition e.policy q u >>= finish_result e s u) h4 in
    let (m, executed, h6) = bind-eq-ok (execute_transition e.policy q u) (finish_result e s u) h5 in
    let (after, h7) = then-eq-ok (validate_state_policy e.policy (versioned s m)) _ h6 in
    let state = ap first (ok_inj h7) in
    let same = ap second (ok_inj h7) in
    record {
      identified = identified;
      definition = d;
      declared = declared;
      patched = q;
      applied = applied;
      chosen = chosen ∙ ap ok same;
      moved = m;
      executed = ap (execute_transition e.policy q) (sym same) ∙ executed;
      final = sym state;
      before = before;
      after = ap (validate_state_policy e.policy) (sym state) ∙ after;
    }
  where
    first : GraphState × Transition → GraphState
    first (a, b) = a

    second : GraphState × Transition → Transition
    second (a, b) = b

pub apply_patch-SameOwned :
    (s : GraphState) (patch : Option StatePatch) (allowed : List String) {q : GraphState}
    → apply_patch s patch allowed ≡ ok q
    → SameOwned s q
unfolding apply_patch
apply_patch-SameOwned s none allowed h = subst (SameOwned s) (ok_inj h) (SameOwned-refl s)
apply_patch-SameOwned s (some patch) allowed h = apply-SameOwned s patch allowed false h

-- The reset keeps the run, the cursor and the receipts.
pub record SameRun (q s : GraphState) : Type 0 where
  pub run : s.run ≡ q.run
  pub graph : s.graph ≡ q.graph
  pub checkpoints : s.checkpoints ≡ q.checkpoints
  pub commits : s.commits ≡ q.commits
  pub push : s.push ≡ q.push
  pub pull_request : s.pull_request ≡ q.pull_request
  pub work : s.work ≡ q.work

reset_for-SameRun :
    (p : PolicySnapshot) (t : Transition) (q : GraphState) → SameRun q (reset_for p t q)
unfolding reset_for
reset_for-SameRun p t q = ground arith

-- What a transition does to the cursor, the run and the counters, whatever the graph.
pub record IsMoved (p : PolicySnapshot) (q : GraphState) (t : Transition) (m : GraphState)
    : Type 0 where
  pub cursor : m.graph.current_node ≡ t.to_node
  pub previous : m.graph.previous_node ≡ some q.graph.current_node
  pub sequence : m.graph.transition_seq ≡ q.graph.transition_seq + 1
  pub pending : m.graph.pending_resume_node ≡ pending_after t q.graph
  pub same_run : m.run.run_id ≡ q.run.run_id
  pub status : m.run.status ≡ status_after t q.run.status
  pub checkpoints : m.checkpoints ≡ q.checkpoints
  pub commits : m.commits ≡ q.commits
  pub push : m.push ≡ q.push
  pub pull_request : m.pull_request ≡ q.pull_request

progress_same : (g : GraphProgress) {g' : GraphProgress} → progress g ≡ ok g' → g' ≡ g
progress_same g h = ground arith

pub execute-IsMoved :
    (p : PolicySnapshot) (q : GraphState) (t : Transition) {m : GraphState}
    → execute_transition p q t ≡ ok m
    → IsMoved p q t m
unfolding execute_transition
execute-IsMoved p q t h =
    let s = reset_for p t q in
    let (repair, risk, graph, _, _, checked, made) =
      bind3-eq-ok (count_repair p t s.repair) (route_risk t s.risk)
        (progress (next_progress t s.graph)) (settle t s) h in
    ground (arith, reset_for-SameRun p t q, progress_same (next_progress t s.graph) checked)

policy_limits :
    (p : PolicySnapshot) (s : GraphState)
    → validate_state_policy p s ≡ ok tt
    → (s.repair.max_cycles ≡ p.max_repair_cycles) × (s.repair.count ≤ p.max_repair_cycles)
unfolding validate_state_policy
policy_limits p s h = ground arith

module _ (e : GraphEngine) (s : GraphState) (r : NodeResult) {s' : GraphState} {t : Transition}
    (done : apply_result e s r ≡ ok (s', t)) where
  -- An applied result moves the cursor along its transition and keeps the books: the version and
  -- the sequence number go up by exactly one, the cursor stands at the transition's target and
  -- remembers where it came from, the run keeps its id, no receipt is touched, and the repair
  -- counter stays within the limit that the policy fixed.
  pub apply_result_books :
      (s'.state_version ≡ s.state_version + 1)
      × (s'.graph.transition_seq ≡ s.graph.transition_seq + 1)
      × (s'.graph.current_node ≡ t.to_node)
      × (s'.graph.previous_node ≡ some s.graph.current_node)
      × (s'.run.run_id ≡ s.run.run_id)
      × (s'.checkpoints ≡ s.checkpoints)
      × (s'.commits ≡ s.commits)
      × (s'.push ≡ s.push)
      × (s'.pull_request ≡ s.pull_request)
      × (s'.repair.max_cycles ≡ e.policy.max_repair_cycles)
      × (s'.repair.count ≤ e.policy.max_repair_cycles)
  apply_result_books =
      let a = apply_result-IsApplied e s r done in
      ground (
        arith,
        a.final,
        apply_patch-SameOwned s r.state_patch a.definition.allowed_patch_paths a.applied,
        execute-IsMoved e.policy a.patched t a.executed,
        policy_limits e.policy s' a.after,
      )
