-- ===== src/Core/V1/Bounded.antt =====
-- The length of the runs on the canonical graph.
use agent_graph_engine.Prelude.{
  ℕ, suc, ◌+◌, ◌*◌, ◌≤◌, ◌<◌, ◌≡◌, refl, sym, ap, ◌∙◌, subst, inl, inr, String, ◌&&◌, arith,
  if◌then◌else◌,
}
use agent_graph_engine.Prelude.Text.{str_eq}
use agent_graph_engine.Core.Errors.{ok}
use agent_graph_engine.Core.State.{GraphState, initial}
use agent_graph_engine.Core.Policy.{PolicySnapshot}
use agent_graph_engine.Core.NodeResult.{NodeResult, node_result}
use agent_graph_engine.Core.Edges.{Transition}
use agent_graph_engine.Core.Graph.{GraphDefinition}
use agent_graph_engine.Core.Patches.Frame.{SameOwned}
use agent_graph_engine.Core.Engine.{GraphEngine, apply_result, initial_state, versioned}
use agent_graph_engine.Core.V1.{canonical_v1_graph}
use agent_graph_engine.Core.V1.Routes.{Stage, stage_id, route}
use agent_graph_engine.Core.V1.Moves.{next_stage}
use agent_graph_engine.Core.V1.Steps.{IsStep, IsStep-v1}
use agent_graph_engine.Core.V1.Measure.{rank, stage-Descends}

-- Whether a step goes back for the next work item.
abbrev pub next_item : GraphState → GraphState → ℕ
next_item s s' =
    if str_eq s.graph.current_node "MORE_WORK" && str_eq s'.graph.current_node "SELECT_WORK"
    then 1
    else 0

-- A run from the initial state, with the number of its applied results and of its next items.
pub data Run (e : GraphEngine) : GraphState → ℕ → ℕ → Type 0 where
  begin : (run_id : String) {s : GraphState} → initial_state e run_id ≡ ok s → Run e s 0 0
  next :
      {s s' : GraphState} {t : Transition} {steps items : ℕ} (r : NodeResult)
      → Run e s steps items
      → node_result r ≡ ok r
      → apply_result e s r ≡ ok (s', t)
      → Run e s' (suc steps) (items + next_item s s')

abbrev bound : GraphEngine → ℕ → ℕ
bound e items =
    (18 + 4 * e.policy.max_repair_cycles) + items * (11 + 4 * e.policy.max_repair_cycles)

-- A run at a stage has used up the ranks above it.
record IsWithin (e : GraphEngine) (s : GraphState) (steps items : ℕ) : Type 0 where
  stage : Stage
  here : s.graph.current_node ≡ stage_id stage
  spent : steps + rank e.policy stage s ≤ bound e items

rank-versioned :
    (p : PolicySnapshot) (n : Stage) (s m : GraphState) → rank p n (versioned s m) ≡ rank p n m
rank-versioned p Stage.start s m = refl
rank-versioned p _ s m = refl

rank-owned :
    (p : PolicySnapshot) (n : Stage) {s q : GraphState} → SameOwned s q → rank p n q ≡ rank p n s
rank-owned p Stage.start h = ground arith
rank-owned p _ h = ground arith

begin-IsWithin :
    (e : GraphEngine) (run_id : String) {s : GraphState}
    → initial_state e run_id ≡ ok s
    → IsWithin e s 0 0
unfolding initial_state initial
begin-IsWithin e run_id {s} h = record {
  stage = Stage.start;
  here = ground arith;
  spent = ground arith;
}

no_less : (items more lap : ℕ) → items * lap ≤ (items + more) * lap
no_less items more lap = ground arith

one_more : (items lap : ℕ) → (items + 1) * lap ≡ items * lap + lap
one_more items lap = ground arith

-- A step down pays for itself, and a step back is paid by the item that it takes up.
descent :
    (steps old new first items more lap : ℕ)
    → steps + old ≤ first + items * lap
    → new < old
    → suc steps + new ≤ first + (items + more) * lap
descent steps old new first items more lap spent down = ground (arith, no_less items more lap)

return :
    (steps new limit items more : ℕ)
    → steps + 5 ≤ (18 + 4 * limit) + items * (11 + 4 * limit)
    → new ≤ 15 + 4 * limit
    → more ≡ 1
    → suc steps + new ≤ (18 + 4 * limit) + (items + more) * (11 + 4 * limit)
return steps new limit items more spent low one =
    rw one (ground (arith, one_more items (11 + 4 * limit)))

selected_rank :
    (p : PolicySnapshot) (s : GraphState)
    → rank p Stage.select_work s ≤ 15 + 4 * p.max_repair_cycles
selected_rank p s = omega arith

went_back :
    (s s' : GraphState)
    → s.graph.current_node ≡ "MORE_WORK"
    → s'.graph.current_node ≡ "SELECT_WORK"
    → next_item s s' ≡ 1
went_back s s' h k = rw (h, k)

step-IsWithin :
    {e : GraphEngine} {s s' : GraphState} {r : NodeResult} {steps items : ℕ}
    (w : IsWithin e s steps items)
    → IsStep e w.stage s r s'
    → IsWithin e s' (suc steps) (items + next_item s s')
step-IsWithin {e} {s} {s'} {r} {steps} {items} w st =
    let n = w.stage in
    let to = next_stage n (route e.policy n st.patched r) in
    let (arrived, down) = stage-Descends n st.live e.policy st.patched r st.moved st.landed in
    let here = ap (λ x. x.graph.current_node) st.final ∙ arrived in
    let same = ap (rank e.policy to) st.final ∙ rank-versioned e.policy to s st.moved in
    record {
      stage = to;
      here = here;
      spent = elim down [
        | inl (from, back) ↦
            return steps (rank e.policy to s') e.policy.max_repair_cycles items (next_item s s')
              (subst (λ k. steps + rank e.policy k s ≤ bound e items) from w.spent)
              (subst (λ k. rank e.policy k s' ≤ 15 + 4 * e.policy.max_repair_cycles) (sym back)
                (selected_rank e.policy s'))
              (went_back s s' (w.here ∙ ap stage_id from) (here ∙ ap stage_id back))
        | inr lower ↦
            descent steps (rank e.policy n s) (rank e.policy to s')
              (18 + 4 * e.policy.max_repair_cycles) items (next_item s s')
              (11 + 4 * e.policy.max_repair_cycles) w.spent
              (ground (arith, same, lower, rank-owned e.policy n st.owned))
      ];
    }

module _ {g : GraphDefinition} (built : canonical_v1_graph ≡ ok g) (e : GraphEngine)
    (graph : e.graph ≡ g) where
  Run-IsWithin : {s : GraphState} {steps items : ℕ} → Run e s steps items → IsWithin e s steps items
  Run-IsWithin (begin i h) = begin-IsWithin e i h
  Run-IsWithin (next {s = s} r before contract applied) =
      let w = Run-IsWithin before in
      step-IsWithin w (IsStep-v1 built e w.stage s r graph w.here contract applied)

  -- A run on the canonical graph cannot go round for ever: the number of results applied in it is
  -- at most 18 + 4 m + items times (11 + 4 m), where m is the policy's limit of repair cycles and
  -- items is the number of times that it went back from MORE_WORK to SELECT_WORK.
  pub Run-bounded :
      {s : GraphState} {steps items : ℕ}
      → Run e s steps items
      → steps
        ≤ (18 + 4 * e.policy.max_repair_cycles) + items * (11 + 4 * e.policy.max_repair_cycles)
  Run-bounded path = let w = Run-IsWithin path in omega (arith, w.spent)
