-- ===== src/Core/Engine/Choice.antt =====
-- core/engine.py, `evaluate_transition`, against what its description promises: "the sole guarded
-- edge at the highest matching priority".
use agent_graph_engine.Prelude.{
  ℕ, ◌-◌, ◌≤◌, ◌≡◌, refl, sym, ap, ◌∙◌, ◌↔◌, Bool, true, false, List, [], ◌∷◌, arith, All, select,
  ◌==◌,
}
use agent_graph_engine.Prelude.Text.{str_eq}
use agent_graph_engine.Prelude.Select.{select-eq-nil, none_of_select, All-map, All-both}
use agent_graph_engine.Core.Errors.{Result, ok, err, no_valid_transition, ◌>>=◌}
use agent_graph_engine.Core.State.{GraphState}
use agent_graph_engine.Core.NodeResult.{NodeResult}
use agent_graph_engine.Core.Edges.{Edge, Transition}
use agent_graph_engine.Core.Graph.{outgoing}
use agent_graph_engine.Core.Engine.{
  GraphEngine, eligible, highest_priority, winners, choose, sole, transition, evaluate_transition,
}
use agent_graph_engine.Core.Engine.Selection.{
  AtMost, highest-le, highest_bounds, Wins, choose_sound, choose_complete,
}

below_pred : (n : ℕ) (e : Edge) → (e.priority == n) ≡ false → e.priority ≤ n → e.priority ≤ n - 1
below_pred n e h k = ground arith

-- Some edge of a list has the highest priority.
winners-ne-nil : (e : Edge) (es : List Edge) → ¬ (winners (e ∷ es) ≡ [])
unfolding winners
winners-ne-nil e es h =
    let top : ℕ = highest_priority (e ∷ es) in
    let none' = none_of_select (λ (x : Edge). x.priority == top) (e ∷ es) h in
    let pairs =
      All-both (λ x. (x.priority == top) ≡ false) (AtMost top) (e ∷ es) none'
        (highest_bounds (e ∷ es)) in
    let lower = All-map _ (AtMost (top - 1)) (e ∷ es) (λ x k. below_pred top x k.0 k.1) pairs in
    absurd (ground (arith, highest-le (top - 1) (e ∷ es) lower, pairs.0.0, pairs.0.1))

choose-ne-no_valid : (e : Edge) (es : List Edge) → ¬ (choose (e ∷ es) ≡ err no_valid_transition)
unfolding choose
choose-ne-no_valid e es h = go (winners (e ∷ es)) (winners-ne-nil e es) h
  where
    go : (ws : List Edge) → ¬ (ws ≡ []) → ¬ (sole ws ≡ err no_valid_transition)
    go [] n k = n refl
    go (w ∷ []) n k = ground arith
    go (w ∷ v ∷ ws) n k = ground arith

choose-no_valid : (es : List Edge) → choose es ≡ err no_valid_transition → es ≡ []
choose-no_valid [] h = refl
choose-no_valid (e ∷ es) h = absurd (choose-ne-no_valid e es h)

choose-nil : choose [] ≡ err no_valid_transition
unfolding choose
choose-nil = refl

module _ (engine : GraphEngine) (s : GraphState) (r : NodeResult) {edges : List Edge}
    (identified : str_eq r.node_id s.graph.current_node ≡ true)
    (declared : outgoing engine.graph s.graph.current_node ≡ ok edges) where
  abbrev pub test : Edge → Bool
  test = eligible s r engine.policy

  abbrev pub conclude : Result Edge → Result Transition
  conclude (ok e) = ok (transition s r engine.policy e)
  conclude (err x) = err x

  pub evaluate-eq : evaluate_transition engine s r ≡ conclude (choose (select test edges))
  unfolding evaluate_transition
  evaluate-eq = rw (identified, declared) (bind_conclude (choose (select test edges)))
    where
      bind_conclude :
          (c : Result Edge) → (c >>= λ e. ok (transition s r engine.policy e)) ≡ conclude c
      bind_conclude (ok e) = refl
      bind_conclude (err x) = refl

  -- Where the result belongs to the current node, which the graph declares, the engine takes an
  -- edge exactly if that edge,
  -- at one place of the outgoing list, is eligible (its condition matches and all its guards
  -- pass), and every edge at another place is not eligible or has a strictly lower priority. The
  -- transition carries the edge's fields and the guards' results.
  pub evaluate_transition_exact :
      (t : Transition)
      → (evaluate_transition engine s r ≡ ok t) ↔ (
          (e : Edge) × Wins (eligible s r engine.policy) e edges
          × (t ≡ transition s r engine.policy e))
  evaluate_transition_exact t = (there, back)
    where
      made :
          (c : Result Edge)
          → conclude c ≡ ok t
          → (e : Edge) × (c ≡ ok e) × (t ≡ transition s r engine.policy e)
      made (ok e) h = (e, refl, ground arith)
      made (err x) h = absurd (ground arith)

      there :
          evaluate_transition engine s r ≡ ok t
          → (e : Edge) × Wins test e edges × (t ≡ transition s r engine.policy e)
      there h =
          let (e, chosen, shape) = made (choose (select test edges)) (sym evaluate-eq ∙ h) in
          (e, choose_sound test edges e chosen, shape)

      back :
          (e : Edge) × Wins test e edges × (t ≡ transition s r engine.policy e)
          → evaluate_transition engine s r ≡ ok t
      back (e, wins, shape) =
          evaluate-eq ∙ ap conclude (choose_complete test edges e wins) ∙ ap ok (sym shape)

  -- Where the result belongs to the current node, which the graph declares, the engine reports that
  -- there is no valid transition exactly if no outgoing edge is eligible.
  pub evaluate_transition_stuck :
      (evaluate_transition engine s r ≡ err no_valid_transition)
      ↔ All (λ e. eligible s r engine.policy e ≡ false) edges
  evaluate_transition_stuck = (there, back)
    where
      unmade :
          (c : Result Edge) → conclude c ≡ err no_valid_transition → c ≡ err no_valid_transition
      unmade (ok e) h = absurd (ground arith)
      unmade (err x) h = ground arith

      there :
          evaluate_transition engine s r ≡ err no_valid_transition → All (λ e. test e ≡ false) edges
      there h =
          none_of_select test edges
            (choose-no_valid _ (unmade (choose (select test edges)) (sym evaluate-eq ∙ h)))

      back :
          All (λ e. test e ≡ false) edges → evaluate_transition engine s r ≡ err no_valid_transition
      back h =
          evaluate-eq
          ∙ ap (λ l. conclude (choose l)) (select-eq-nil test edges h)
          ∙ ap conclude choose-nil
