-- ===== src/Core/Engine/Rounds.antt =====
-- core/engine.py, `run`, against a path of steps.
use agent_graph_engine.Prelude.{
  ℕ, zero, suc, ◌<◌, ◌≡◌, subst, ◌↔◌, inl, inr, false, none, arith, eq_iff, Bool-cases, ltb,
}
use agent_graph_engine.Prelude.Text.{str_eq}
use agent_graph_engine.Core.Errors.{ok, bind-eq-ok, refuse-eq-ok, value_error}
use agent_graph_engine.Core.State.{GraphState}
use agent_graph_engine.Core.NodeResult.{NodeResult}
use agent_graph_engine.Core.Edges.{Transition}
use agent_graph_engine.Core.Engine.{GraphEngine, step, run_loop, run, build_node_context}

-- A number of steps, each with the node's own result.
pub data Steps (e : GraphEngine) : GraphState → ℕ → GraphState → Type 0 where
  stay : {s : GraphState} → Steps e s 0 s
  go :
      {s m s' : GraphState} {r : NodeResult} {t : Transition} {k : ℕ}
      → step e s none ≡ ok (m, r, t)
      → Steps e m k s'
      → Steps e s (suc k) s'

-- A path of fewer steps than `rounds` to a state at END.
abbrev pub Finishes : GraphEngine → ℕ → GraphState → GraphState → Type 0
Finishes e rounds s s' = (k : ℕ) × (k < rounds) × Steps e s k s' × (s'.graph.current_node ≡ "END")

-- END cannot be stepped.
step-ne-end :
    (e : GraphEngine) (s : GraphState) {m : GraphState} {r : NodeResult} {t : Transition}
    → step e s none ≡ ok (m, r, t)
    → str_eq s.graph.current_node "END" ≡ false
unfolding step build_node_context
step-ne-end e s h = ground arith

positive : (n : ℕ) → 0 < suc n
positive n = omega arith

raised : {k n : ℕ} → k < n → suc k < suc n
raised h = omega (arith, h)

run_loop-Finishes :
    (e : GraphEngine) (rounds : ℕ) (s : GraphState) {s' : GraphState}
    → run_loop e rounds s ≡ ok s'
    → Finishes e rounds s s'
unfolding run_loop
run_loop-Finishes e zero s h = absurd (ground arith)
run_loop-Finishes e (suc n) s {s'} h = elim (Bool-cases (str_eq s.graph.current_node "END")) [
  | inl over ↦
      let same : s ≡ s' = ground arith in
      subst (Finishes e (suc n) s) same
        (0, positive n, Steps.stay, (eq_iff s.graph.current_node "END").0 over)
  | inr live ↦
      let ((m, r, t), went, rest) =
        bind-eq-ok (step e s none) (λ (m, _, _). run_loop e n m) (ground arith) in
      let (k, less, path, ended) = run_loop-Finishes e n m rest in
      (suc k, raised less, Steps.go went path, ended)
]

Finishes-run_loop :
    (e : GraphEngine) (rounds : ℕ) {k : ℕ} {s s' : GraphState}
    → k < rounds
    → Steps e s k s'
    → s'.graph.current_node ≡ "END"
    → run_loop e rounds s ≡ ok s'
unfolding run_loop
Finishes-run_loop e zero less path ended = absurd (omega arith)
Finishes-run_loop e (suc n) less (stay {s = s}) ended =
    let over = (eq_iff s.graph.current_node "END").1 ended in ground (arith, over)
Finishes-run_loop e (suc n) less (go {s = s} {m = m} one path) ended =
    let later = Finishes-run_loop e n (omega arith) path ended in
    let live = step-ne-end e s one in ground (arith, later, live, one)

module _ (e : GraphEngine) (s : GraphState) (max_steps : ℕ) {s' : GraphState} where
  -- A run returns a state exactly if the steps of the nodes lead from its state to that state, the
  -- state stands at END, and fewer steps than max_steps were needed.
  pub run_exact : (run e s max_steps ≡ ok s') ↔ Finishes e max_steps s s'
  unfolding run
  run_exact = (there, back)
    where
      there : run e s max_steps ≡ ok s' → Finishes e max_steps s s'
      there h =
          run_loop-Finishes e max_steps s
            ((refuse-eq-ok (ltb max_steps 1) value_error (run_loop e max_steps s) h).1)

      back : Finishes e max_steps s s' → run e s max_steps ≡ ok s'
      back (k, less, path, ended) =
          let looped = Finishes-run_loop e max_steps less path ended in ground (arith, looped)
