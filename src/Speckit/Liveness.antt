-- ===== src/Speckit/Liveness.antt =====
-- adapters/speckit/adapter.py, `next_ready_item` in a scope whose dependencies do not go round.
use agent_graph_engine.Prelude.{
  ℕ, zero, suc, ◌<◌, String, ◌≡◌, ◌≢◌, refl, sym, ap, ◌∙◌, subst, ◌⊎◌, inl, inr, true, false, some,
  List, [], ◌∷◌, is_empty, if◌then◌else◌, All, arith, eq_iff, Bool-cases,
}
use agent_graph_engine.Prelude.Text.{str_eq, contains}
use agent_graph_engine.Prelude.Select.{All-map}
use agent_graph_engine.Prelude.Fallible.{fine, ◌>>=◌, bind-eq-fine}
use agent_graph_engine.Work.Models.{
  WorkError, WorkItem, WorkScope, WorkSourceSnapshot, WorkSelection, SelectionKind, is_completed,
}
use agent_graph_engine.Speckit.Lookup.{get_scope, item_at, keyed_item, or_error}
use agent_graph_engine.Speckit.Ready.{
  pending_items, unfinished, first_ready, next_ready_item, add_new, select_in, select_pending,
  ready_with, selection,
}
use agent_graph_engine.Speckit.Progress.{
  IsDone, IsWaiting, found_item, IsPendingOf, pending_items-waiting,
}

module _ (items : List WorkItem) where
  abbrev pub IsKnown : String → Type 0
  IsKnown d = (j : WorkItem) × (keyed_item d items ≡ some j)

  -- An item that still waits for something.
  abbrev IsStuck : WorkItem → Type 0
  IsStuck i =
      (ds : List String) × (unfinished items i.dependencies ≡ fine ds) × (is_empty ds ≡ false)

  at_known : (d : String) (k : IsKnown d) → item_at items d ≡ fine k.0
  at_known d (j, here) = ap (or_error (WorkError.missing_key d)) here

  unfinished-total :
      (ds : List String)
      → All IsKnown ds
      → (open_deps : List String) × (unfinished items ds ≡ fine open_deps)
  unfolding unfinished
  unfinished-total [] h = ([], refl)
  unfinished-total (d ∷ ds) (known, others) =
      let (rest, ends) = unfinished-total ds others in
      let at = at_known d known in
      (if is_completed known.0.status then rest else d ∷ rest, ground arith)

  pending_items-total :
      (ids : List String)
      → All IsKnown ids
      → (is : List WorkItem) × (pending_items items ids ≡ fine is)
  unfolding pending_items
  pending_items-total [] h = ([], refl)
  pending_items-total (d ∷ ds) (known, others) =
      let (rest, ends) = pending_items-total ds others in
      let at = at_known d known in
      (if is_completed known.0.status then rest else known.0 ∷ rest, ground arith)

  -- The loop ends with a ready item, or every item it went through waits for something.
  first_ready-total :
      (scope_id : String) (blocking : List String) (is : List WorkItem)
      → All (λ i. All IsKnown i.dependencies) is
      → ((i : WorkItem) × (first_ready items scope_id blocking is ≡ fine (ready_with scope_id i)))
        ⊎ All IsStuck is
  unfolding first_ready
  first_ready-total scope_id blocking [] h = inr tt
  first_ready-total scope_id blocking (i ∷ is) (known, others) =
      let (open_deps, at) = unfinished-total i.dependencies known in
      elim (Bool-cases (is_empty open_deps)) [
        | inl closed ↦ inl (i, ground arith)
        | inr waits ↦ elim (first_ready-total scope_id (add_new blocking open_deps) is others) [
          | inl (j, found) ↦ inl (j, ground arith)
          | inr stuck ↦ inr ((open_deps, at, waits), stuck)
        ]
      ]

  -- What holds of every pending item holds of each waiting one of the scope.
  of_pending :
      (P : WorkItem → Type 0) (ids : List String) (is : List WorkItem)
      → pending_items items ids ≡ fine is
      → All P is
      → (id : String) (i : WorkItem) → contains ids id ≡ true
      → IsWaiting items id i
      → P i
  unfolding pending_items
  of_pending P [] is run h id i inside waits = absurd (ground arith)
  of_pending P (d ∷ ds) is run h id i inside waits =
      let (j, at, h2) = bind-eq-fine (item_at items d) _ run in
      let (rest, at_rest, h3) = bind-eq-fine (pending_items items ds) _ h2 in
      elim (Bool-cases (str_eq d id)) [
        | inl same ↦
            let named : d ≡ id = (eq_iff d id).0 same in
            let same_item : some j ≡ some i =
              sym (found_item items d at) ∙ ap (λ x. keyed_item x items) named ∙ waits.0 in
            let one : j ≡ i = ground arith in
            let waiting : is_completed j.status ≡ false =
              ap (λ x. is_completed x.status) one ∙ waits.1 in
            let e : is ≡ j ∷ rest = ground arith in subst P one (subst (All P) e h).0
        | inr other ↦ elim (Bool-cases (is_completed j.status)) [
          | inl closed ↦
              let e : is ≡ rest = ground arith in
              of_pending P ds rest at_rest (subst (All P) e h) id i (ground arith) waits
          | inr waiting ↦
              let e : is ≡ j ∷ rest = ground arith in
              of_pending P ds rest at_rest (subst (All P) e h).1 id i (ground arith) waits
        ]
      ]

  -- A waiting dependency of an item that waits for something.
  open_dep :
      (Q : String → Type 0) (ds open_deps : List String)
      → unfinished items ds ≡ fine open_deps
      → is_empty open_deps ≡ false
      → All Q ds
      → (d : String) × Q d × ((j : WorkItem) × IsWaiting items d j)
  unfolding unfinished
  open_dep Q [] open_deps run some_left h = absurd (ground arith)
  open_dep Q (d ∷ ds) open_deps run some_left (own, others) =
      let (j, at, h2) = bind-eq-fine (item_at items d) _ run in
      let (rest, at_rest, h3) = bind-eq-fine (unfinished items ds) _ h2 in
      elim (Bool-cases (is_completed j.status)) [
        | inl closed ↦
            let e : open_deps ≡ rest = ground arith in
            open_dep Q ds open_deps (at_rest ∙ ap fine (sym e)) some_left others
        | inr waiting ↦ (d, own, (j, (found_item items d at, waiting)))
      ]

  module _ (rank : String → ℕ) (ids : List String) where
    -- A dependency is completed, or it is an item of the same scope with a lower rank.
    abbrev pub IsBelow : String → String → Type 0
    IsBelow id d = IsDone items d ⊎ ((contains ids d ≡ true) × (rank d < rank id))

    abbrev pub IsOrdered : String → Type 0
    IsOrdered id = (i : WorkItem) × (keyed_item id items ≡ some i) × All (IsBelow id) i.dependencies

    of_ordered :
        (Q : String → Type 0) (ids' : List String)
        → All Q ids'
        → (d : String) → contains ids' d ≡ true
        → Q d
    of_ordered Q [] h d inside = absurd (ground arith)
    of_ordered Q (x ∷ xs) h d inside = elim (Bool-cases (str_eq x d)) [
      | inl same ↦ subst Q ((eq_iff x d).0 same) h.0
      | inr other ↦ of_ordered Q xs h.1 d (ground arith)
    ]

    below-IsKnown : All IsOrdered ids → (id d : String) → IsBelow id d → IsKnown d
    below-IsKnown ordered id d (inl (j, here, closed)) = (j, here)
    below-IsKnown ordered id d (inr (inside, lower)) =
        let (j, here, deps) = of_ordered IsOrdered ids ordered d inside in (j, here)

    deps-IsKnown :
        All IsOrdered ids
        → (id : String) (i : WorkItem) → contains ids id ≡ true
        → keyed_item id items ≡ some i
        → All IsKnown i.dependencies
    deps-IsKnown ordered id i inside here =
        let (j, there, deps) = of_ordered IsOrdered ids ordered id inside in
        let same : some j ≡ some i = sym there ∙ here in
        let one : j ≡ i = ground arith in
        subst (λ x. All IsKnown x.dependencies) one
          (All-map (IsBelow id) IsKnown j.dependencies (below-IsKnown ordered id) deps)

    -- Items cannot all wait: the one of lowest rank waits for nothing.
    descent :
        All IsOrdered ids
        → ((id : String) (i : WorkItem) → contains ids id ≡ true → IsWaiting items id i → IsStuck i)
        → (n : ℕ) (id : String) (i : WorkItem) → rank id < n
        → contains ids id ≡ true
        → IsWaiting items id i
        → ⊥
    descent ordered stuck zero id i small inside waits = ground arith
    descent ordered stuck (suc n) id i small inside waits =
        let (open_deps, at, left) = stuck id i inside waits in
        let (j, there, deps) = of_ordered IsOrdered ids ordered id inside in
        let same : some j ≡ some i = sym there ∙ waits.0 in
        let one : j ≡ i = ground arith in
        let deps' = subst (λ x. All (IsBelow id) x.dependencies) one deps in
        let (d, below, (k, waits')) =
          open_dep (IsBelow id) i.dependencies open_deps at left deps' in
        elim below [
          | inl (l, here, closed) ↦
              let same' : some l ≡ some k = sym here ∙ waits'.0 in
              let one' : l ≡ k = ground arith in absurd (ground arith)
          | inr (inside', lower) ↦ descent ordered stuck n d k (omega arith) inside' waits'
        ]

    ordered-IsKnown : All IsOrdered ids → All IsKnown ids
    ordered-IsKnown h = All-map IsOrdered IsKnown ids (λ id (i, here, deps). (i, here)) h

    pending_selected :
        All IsOrdered ids
        → (scope_id : String) (is : List WorkItem) → pending_items items ids ≡ fine is
        → ((i : WorkItem) × (first_ready items scope_id [] is ≡ fine (ready_with scope_id i)))
          ⊎ (is ≡ [])
    pending_selected ordered scope_id is run =
        let waiting = pending_items-waiting items ids is run in
        let known =
          All-map (IsPendingOf items ids) (λ i. All IsKnown i.dependencies) is
            (λ i (id, inside, waits). deps-IsKnown ordered id i inside waits.0) waiting in
        elim (first_ready-total scope_id [] is known) [
          | inl found ↦ inl found
          | inr stuck ↦ inr (nobody is waiting stuck)
        ]
      where
        nobody : (is' : List WorkItem) → All (IsPendingOf items ids) is' → All IsStuck is → is' ≡ []
        nobody [] h stuck = refl
        nobody (i ∷ is') ((id, inside, waits), others) stuck = absurd (
            descent ordered (of_pending IsStuck ids is run stuck) (suc (rank id)) id i (omega arith)
              inside waits)

-- A scope whose items depend on completed items, or on items of the scope of lower rank, has a
-- next item or is finished: it is never blocked.
pub next_ready_item-never_blocked :
    (rank : String → ℕ) (snapshot : WorkSourceSnapshot) (scope_id : String) (scope : WorkScope)
    → get_scope snapshot scope_id ≡ fine scope
    → All (IsOrdered snapshot.items rank scope.item_ids) scope.item_ids
    → (sel : WorkSelection) × (next_ready_item snapshot scope_id ≡ fine sel)
      × (sel.kind ≢ SelectionKind.blocked_dependencies)
unfolding next_ready_item
next_ready_item-never_blocked rank snapshot scope_id scope at ordered =
    let (sel, chosen, ok) = in_scope scope.item_ids ordered in
    (sel, ap (λ r. r >>= λ s. select_in snapshot scope_id s.item_ids) at ∙ chosen, ok)
  where
    in_pending :
        (is : List WorkItem)
        → ((i : WorkItem) × (first_ready snapshot.items scope_id [] is
              ≡ fine (ready_with scope_id i)))
          ⊎ (is ≡ [])
        → (sel : WorkSelection) × (select_pending snapshot scope_id is ≡ fine sel)
          × (sel.kind ≢ SelectionKind.blocked_dependencies)
    in_pending [] h = (
      selection SelectionKind.scope_complete scope_id "all_items_completed",
      refl,
      (λ e. ground arith),
    )
    in_pending (i ∷ is) (inl (j, found)) = (ready_with scope_id j, found, (λ e. ground arith))
    in_pending (i ∷ is) (inr gone) = absurd (ground arith)

    in_scope :
        (ids : List String)
        → All (IsOrdered snapshot.items rank ids) ids
        → (sel : WorkSelection) × (select_in snapshot scope_id ids ≡ fine sel)
          × (sel.kind ≢ SelectionKind.blocked_dependencies)
    in_scope [] h =
        (selection SelectionKind.empty_scope scope_id "empty_scope", refl, (λ e. ground arith))
    in_scope (id ∷ ids) h =
        let known = ordered-IsKnown snapshot.items rank (id ∷ ids) h in
        let (is, run) = pending_items-total snapshot.items (id ∷ ids) known in
        let (sel, chosen, ok) =
          in_pending is (pending_selected snapshot.items rank (id ∷ ids) h scope_id is run) in
        (sel, ap (λ r. r >>= select_pending snapshot scope_id) run ∙ chosen, ok)
