-- ===== src/Core/Engine/Selection.antt =====
-- core/engine.py, `evaluate_transition`: which edge is chosen among the outgoing ones.
use agent_graph_engine.Prelude.{
  ℕ, ◌≤◌, ◌<◌, ◌≡◌, sym, ap, ◌∙◌, subst, Bool, true, false, ◌&&◌, List, [], ◌∷◌, ◌++◌, arith, All,
  All-append, select, ◌==◌,
}
use agent_graph_engine.Prelude.Select.{
  select-select, select-append, select-eq-nil, All-select, All-of_select, All-map, All-both,
  All-split, SolePlace-of_select,
}
use agent_graph_engine.Core.Errors.{ok}
use agent_graph_engine.Core.Edges.{Edge}
use agent_graph_engine.Core.Engine.{highest_priority, winners, choose, sole}

abbrev pub AtMost : ℕ → Edge → Type 0
AtMost n e = e.priority ≤ n

pub highest-le : (n : ℕ) (es : List Edge) → All (AtMost n) es → highest_priority es ≤ n
unfolding highest_priority
highest-le n [] h = omega arith
highest-le n (e ∷ es) h = ground (arith, highest-le n es h.1, h.0)

AtMost-mono : (m n : ℕ) (es : List Edge) → m ≤ n → All (AtMost m) es → All (AtMost n) es
AtMost-mono m n es h = All-map (AtMost m) (AtMost n) es (λ x k. omega arith)

highest-cons :
    (e : Edge) (es : List Edge)
    → (e.priority ≤ highest_priority (e ∷ es)) × (highest_priority es ≤ highest_priority (e ∷ es))
unfolding highest_priority
highest-cons e es = ground arith

pub highest_bounds : (es : List Edge) → All (AtMost (highest_priority es)) es
highest_bounds [] = tt
highest_bounds (e ∷ es) =
    let (own, rest) = highest-cons e es in
    (own, AtMost-mono (highest_priority es) (highest_priority (e ∷ es)) es rest (highest_bounds es))

-- `e` passes the test `p`, and whatever else passes it has a lower priority.
abbrev pub Wins : (Edge → Bool) → Edge → List Edge → Type 0
Wins p e es =
    (before : List Edge) × (after : List Edge) × (es ≡ before ++ e ∷ after)
    × (p e ≡ true)
    × All (λ x. p x ≡ true → x.priority < e.priority) (before ++ after)

choose-eq-ok : (es : List Edge) (e : Edge) → choose es ≡ ok e → winners es ≡ e ∷ []
unfolding choose
choose-eq-ok [] e h = absurd (ground arith)
choose-eq-ok (x ∷ xs) e h = sole-eq-ok (winners (x ∷ xs)) h
  where
    sole-eq-ok : (ws : List Edge) → sole ws ≡ ok e → ws ≡ e ∷ []
    sole-eq-ok [] k = ground arith
    sole-eq-ok (w ∷ []) k = ground arith
    sole-eq-ok (w ∷ v ∷ ws) k = ground arith

choose_of_winners : (es : List Edge) (e : Edge) → winners es ≡ e ∷ [] → choose es ≡ ok e
unfolding choose winners
choose_of_winners [] e h = absurd (ground arith)
choose_of_winners (x ∷ xs) e h = rw h

-- Dropping the place of `e` from a property of the whole list.
All-around :
    (P : Edge → Type 0) (before after xs : List Edge) (e : Edge)
    → xs ≡ before ++ e ∷ after
    → All P xs
    → All P (before ++ after)
All-around P before after xs e place h =
    let (left, right) = All-split P before (e ∷ after) (subst (All P) place h) in
    All-append P before after left right.1

-- An edge that passes and is no best edge has a lower priority than a best one.
beats :
    (top n m : ℕ) (pn pm : Bool)
    → (pm && m == top) ≡ true
    → (pn && n == top) ≡ false
    → (pn ≡ true → n ≤ top)
    → pn ≡ true
    → n < m
beats top n m pn pm h k b q = ground (arith, b q)

abbrev pub Below : ℕ → Edge → Type 0
Below n e = e.priority < n

module _ (e : Edge) (before after : List Edge) where
  highest-around :
      All (Below e.priority) before
      → All (Below e.priority) after
      → highest_priority (before ++ e ∷ after) ≡ e.priority
  highest-around h k =
      let lower = All-map (Below e.priority) (AtMost e.priority) before (λ x q. omega arith) h in
      let higher = All-map (Below e.priority) (AtMost e.priority) after (λ x q. omega arith) k in
      let all' = All-append (AtMost e.priority) before (e ∷ after) lower (omega arith, higher) in
      let own = All-split _ before (e ∷ after) (highest_bounds (before ++ e ∷ after)) in
      omega (arith, highest-le e.priority (before ++ e ∷ after) all', own.1.0)

  winners-around :
      All (Below e.priority) before
      → All (Below e.priority) after
      → winners (before ++ e ∷ after) ≡ e ∷ []
  unfolding winners
  winners-around h k =
      let test = λ (x : Edge). x.priority == e.priority in
      let out = All-map (Below e.priority) (λ x. test x ≡ false) before (λ x q. ground arith) h in
      let out' = All-map (Below e.priority) (λ x. test x ≡ false) after (λ x q. ground arith) k in
      rw (highest-around h k) (
        rw (select-append test before (e ∷ after))
          (rw (select-eq-nil test before out) (rw (select-eq-nil test after out') (ground arith))))

module _ (p : Edge → Bool) where
  abbrev best : List Edge → Edge → Bool
  best xs x = p x && x.priority == highest_priority (select p xs)

  -- The highest priority bounds all that passes.
  passing_bounds :
      (xs : List Edge) → All (λ x. p x ≡ true → AtMost (highest_priority (select p xs)) x) xs
  passing_bounds xs =
      All-of_select (AtMost (highest_priority (select p xs))) p xs (highest_bounds (select p xs))

  pub choose_sound : (xs : List Edge) (e : Edge) → choose (select p xs) ≡ ok e → Wins p e xs
  unfolding winners
  choose_sound xs e h =
      let top : ℕ = highest_priority (select p xs) in
      let only = choose-eq-ok (select p xs) e h in
      let kept = sym (select-select p (λ (x : Edge). x.priority == top) xs) ∙ only in
      let (before, after, place, passes, others) = SolePlace-of_select (best xs) e xs kept in
      let bounds =
        All-around (λ x. p x ≡ true → AtMost top x) before after xs e place (passing_bounds xs) in
      let pairs =
        All-both (λ x. best xs x ≡ false) (λ x. p x ≡ true → AtMost top x) (before ++ after) others
          bounds in
      (
        before,
        after,
        place,
        ground arith,
        All-map _ _ (before ++ after)
            (λ x k. beats top x.priority e.priority (p x) (p e) passes k.0 k.1) pairs,
      )

  priorities_below :
      (n : ℕ) (xs : List Edge)
      → All (λ x. p x ≡ true → x.priority < n) xs
      → All (λ x. x.priority < n) (select p xs)
  priorities_below n xs h = All-select (λ x. x.priority < n) p xs h

  pub choose_complete : (xs : List Edge) (e : Edge) → Wins p e xs → choose (select p xs) ≡ ok e
  choose_complete xs e (before, after, place, passes, others) =
      let (left, right) = All-split _ before after others in
      let spread =
        ap (select p) place
        ∙ select-append p before (e ∷ after)
        ∙ ap (λ l. select p before ++ l) (kept_head passes) in
      choose_of_winners (select p xs) e (
        ap winners spread
        ∙ winners-around e (select p before) (select p after)
            (priorities_below e.priority before left) (priorities_below e.priority after right))
    where
      kept_head : p e ≡ true → select p (e ∷ after) ≡ e ∷ select p after
      kept_head h = rw h
