-- ===== src/Speckit/Progress.antt =====
-- adapters/speckit/adapter.py, `next_ready_item`: which item is selected.
use agent_graph_engine.Prelude.{
  String, ◌≡◌, refl, ap, ◌∙◌, subst, ◌⊎◌, inl, inr, true, false, Option, none, some, List, [], ◌∷◌,
  is_empty, All, arith, eq_iff, Bool-cases,
}
use agent_graph_engine.Prelude.Text.{contains}
use agent_graph_engine.Prelude.Select.{All-map}
use agent_graph_engine.Prelude.Fallible.{fine, bind-eq-fine}
use agent_graph_engine.Work.Models.{
  WorkError, WorkItem, WorkScope, WorkSourceSnapshot, WorkSelection, SelectionKind, is_completed,
}
use agent_graph_engine.Speckit.Lookup.{get_scope, item_at, keyed_item, or_error}
use agent_graph_engine.Speckit.Ready.{
  pending_items, unfinished, first_ready, next_ready_item, add_new, select_in, select_pending,
  ready_with,
}

split_nil : (xs : List String) → (xs ≡ []) ⊎ (is_empty xs ≡ false)
split_nil [] = inl refl
split_nil (x ∷ xs) = inr refl

module _ (items : List WorkItem) where
  -- An id of an item that is completed, and one of an item that is not.
  abbrev pub IsDone : String → Type 0
  IsDone d = (j : WorkItem) × (keyed_item d items ≡ some j) × (is_completed j.status ≡ true)

  abbrev pub IsWaiting : String → WorkItem → Type 0
  IsWaiting id i = (keyed_item id items ≡ some i) × (is_completed i.status ≡ false)

  pub found_item :
      (id : String) {i : WorkItem} → item_at items id ≡ fine i → keyed_item id items ≡ some i
  found_item id h = go (keyed_item id items) h
    where
      go :
          (o : Option WorkItem) {i : WorkItem}
          → or_error (WorkError.missing_key id) o ≡ fine i
          → o ≡ some i
      go none h = absurd (ground arith)
      go (some x) h = ground arith

  none_unfinished : (ds : List String) → unfinished items ds ≡ fine [] → All IsDone ds
  unfolding unfinished
  none_unfinished [] h = tt
  none_unfinished (d ∷ ds) h =
      let (i, at, h2) = bind-eq-fine (item_at items d) _ h in
      let (rest, at_rest, h3) = bind-eq-fine (unfinished items ds) _ h2 in
      elim (Bool-cases (is_completed i.status)) [
        | inl closed ↦
            ((i, found_item d at, closed), none_unfinished ds (at_rest ∙ ap fine (ground arith)))
        | inr waiting ↦ absurd (ground arith)
      ]

  -- The selected item: it belongs to the scope, waits, and all its dependencies are completed.
  abbrev pub IsReadyIn : List String → WorkItem → Type 0
  IsReadyIn ids i =
      (id : String) × (contains ids id ≡ true) × IsWaiting id i × All IsDone i.dependencies

  -- The items that wait, with the place each has in the scope.
  abbrev pub IsPendingOf : List String → WorkItem → Type 0
  IsPendingOf ids i = (id : String) × (contains ids id ≡ true) × IsWaiting id i

  pending_later :
      (id : String) (ids : List String) (is : List WorkItem)
      → All (IsPendingOf ids) is
      → All (IsPendingOf (id ∷ ids)) is
  pending_later id ids is h =
      All-map (IsPendingOf ids) (IsPendingOf (id ∷ ids)) is
        (λ i (own, inside, waits). (own, ground arith, waits)) h

  pub pending_items-waiting :
      (ids : List String) (is : List WorkItem)
      → pending_items items ids ≡ fine is
      → All (IsPendingOf ids) is
  unfolding pending_items
  pending_items-waiting [] [] h = tt
  pending_items-waiting [] (i ∷ is) h = absurd (ground arith)
  pending_items-waiting (id ∷ ids) is h =
      let (i, at, h2) = bind-eq-fine (item_at items id) _ h in
      let (rest, at_rest, h3) = bind-eq-fine (pending_items items ids) _ h2 in
      let later = pending_later id ids rest (pending_items-waiting ids rest at_rest) in
      elim (Bool-cases (is_completed i.status)) [
        | inl closed ↦
            let same : rest ≡ is = ground arith in subst (All (IsPendingOf (id ∷ ids))) same later
        | inr waiting ↦
            let same : i ∷ rest ≡ is = ground arith in
            let inside : contains (id ∷ ids) id ≡ true = ground (arith, eq_iff id id) in
            subst (All (IsPendingOf (id ∷ ids))) same
              ((id, inside, (found_item id at, waiting)), later)
      ]

  first_ready_lem :
      (scope_id : String) (ids blocking : List String) (is : List WorkItem) {sel : WorkSelection}
      → All (IsPendingOf ids) is
      → first_ready items scope_id blocking is ≡ fine sel
      → (sel.kind ≡ SelectionKind.blocked_dependencies)
        ⊎ ((i : WorkItem) × (sel ≡ ready_with scope_id i) × IsReadyIn ids i)
  unfolding first_ready
  first_ready_lem scope_id ids blocking [] h run = inl (ground arith)
  first_ready_lem scope_id ids blocking (i ∷ is) (here, others) run =
      let (open_deps, at, h2) = bind-eq-fine (unfinished items i.dependencies) _ run in
      let (id, inside, waits) = here in
      elim (split_nil open_deps) [
        | inl closed ↦
            let done = none_unfinished i.dependencies (at ∙ ap fine closed) in
            inr (i, ground arith, (id, inside, waits, done))
        | inr more ↦
            first_ready_lem scope_id ids (add_new blocking open_deps) is others (ground arith)
      ]

-- A selected item is one of the scope's, is not completed, and all its dependencies are.
pub next_ready_item-IsReadyIn :
    (snapshot : WorkSourceSnapshot) (scope_id : String) (sel : WorkSelection)
    → next_ready_item snapshot scope_id ≡ fine sel
    → sel.kind ≡ SelectionKind.ready
    → (scope : WorkScope) × (get_scope snapshot scope_id ≡ fine scope)
      × ((i : WorkItem) × (sel ≡ ready_with scope_id i) × IsReadyIn snapshot.items scope.item_ids i)
unfolding next_ready_item
next_ready_item-IsReadyIn snapshot scope_id sel run is_one =
    let (scope, at, chosen) = bind-eq-fine (get_scope snapshot scope_id) _ run in
    (scope, at, in_scope scope.item_ids chosen)
  where
    in_pending :
        (ids : List String) (is : List WorkItem)
        → All (IsPendingOf snapshot.items ids) is
        → select_pending snapshot scope_id is ≡ fine sel
        → (i : WorkItem) × (sel ≡ ready_with scope_id i) × IsReadyIn snapshot.items ids i
    in_pending ids [] h chosen = absurd (ground arith)
    in_pending ids (i ∷ is) h chosen =
        elim (first_ready_lem snapshot.items scope_id ids [] (i ∷ is) h chosen) [
          | inl stuck ↦ absurd (ground arith)
          | inr ok ↦ ok
        ]

    in_scope :
        (ids : List String)
        → select_in snapshot scope_id ids ≡ fine sel
        → (i : WorkItem) × (sel ≡ ready_with scope_id i) × IsReadyIn snapshot.items ids i
    in_scope [] chosen = absurd (ground arith)
    in_scope (id ∷ ids) chosen =
        let (is, at, h) = bind-eq-fine (pending_items snapshot.items (id ∷ ids)) _ chosen in
        in_pending (id ∷ ids) is (pending_items-waiting snapshot.items (id ∷ ids) is at) h
