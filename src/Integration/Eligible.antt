-- ===== src/Integration/Eligible.antt =====
-- integration/selection.py over any work source: what a ready plan is made of.
use agent_graph_engine.Prelude.{
  String, ◌≡◌, ◌≢◌, refl, sym, ap, ◌∙◌, subst, ◌⊎◌, inl, inr, not, ◌&&◌, Option, none, some, arith,
  Bool-cases,
}
use agent_graph_engine.Prelude.Text.{same_option}
use agent_graph_engine.Prelude.Fallible.{Fallible, fine, failed, ◌>>=◌, bind-eq-fine}
use agent_graph_engine.Work.Models.{
  WorkError, WorkScope, WorkScopeStatus, WorkSourceSnapshot, WorkSelection, ScopeSelection,
  SelectionKind, WorkPackage,
}
use agent_graph_engine.Work.Source.{WorkSource}
use agent_graph_engine.Integration.Models.{SelectionDisposition, SelectionPlan, ready_plan}
use agent_graph_engine.Integration.Selection.{
  ShadowRequest, Anchor, settled, anchored, anchor_of, outcome_of, chosen_scope, is_unknown,
  unknown_parent, asked_or_active, conflict_plan, is_active, conflicts, of_parent, unless_unknown,
  anchor, reconcile_ready_package, packaged, by_status, in_scope, at_anchor, prepare_selection,
}

-- A scope in which new work may begin.
abbrev pub IsEligible : WorkScopeStatus → Type 0
IsEligible status = (status ≡ WorkScopeStatus.planned) ⊎ (status ≡ WorkScopeStatus.active)

abbrev pub NotReady : Anchor → Type 0
NotReady (settled decided) = decided.disposition ≢ SelectionDisposition.ready
NotReady (anchored scope_id) = Unit

of_parent-NotReady : (k : SelectionKind) (s : ScopeSelection) → NotReady (anchor_of k s)
of_parent-NotReady SelectionKind.ready s = tt
of_parent-NotReady SelectionKind.scope_complete s = λ e. ground arith
of_parent-NotReady SelectionKind.empty_scope s = λ e. ground arith
of_parent-NotReady SelectionKind.blocked_dependencies s = λ e. ground arith

module _ (source : WorkSource) (snapshot : WorkSourceSnapshot) where
  -- A plan that is made before a scope is looked at is not ready.
  parent-NotReady :
      (parent : String) (call : Fallible WorkError ScopeSelection) (a : Anchor)
      → unless_unknown (settled (unknown_parent parent)) (call >>= λ s. fine (of_parent s)) ≡ fine a
      → NotReady a
  parent-NotReady parent (fine s) a h =
      let same : of_parent s ≡ a = ground arith in subst NotReady same (of_parent-NotReady s.kind s)
  parent-NotReady parent (failed e) a h = elim (Bool-cases (is_unknown e)) [
    | inl unknown ↦
        let same : settled (unknown_parent parent) ≡ a = ground arith in
        subst NotReady same (λ e. ground arith)
    | inr other ↦ absurd (ground arith)
  ]

  chosen-NotReady :
      (asked parent : Option String) (a : Anchor)
      → chosen_scope source snapshot asked parent ≡ fine a
      → NotReady a
  chosen-NotReady asked none a h =
      let same : anchored (asked_or_active asked snapshot.active_scope_id) ≡ a = ground arith in
      subst NotReady same tt
  chosen-NotReady asked (some parent) a h =
      parent-NotReady parent (source.ready_scope snapshot parent) a h

  anchor-NotReady :
      (request : ShadowRequest) (a : Anchor) → anchor source snapshot request ≡ fine a → NotReady a
  unfolding anchor
  anchor-NotReady request a h =
      elim (Bool-cases (conflicts request.scope_id snapshot.active_scope_id)) [
        | inl differ ↦
            let same : settled conflict_plan ≡ a = ground arith in
            subst NotReady same (λ e. ground arith)
        | inr agree ↦ chosen-NotReady request.scope_id request.parent_scope_id a (ground arith)
      ]

  -- What a ready plan was made of: an eligible scope, the source's selection in it, and the
  -- source's package of the selected item, reconciled.
  abbrev pub IsPrepared : SelectionPlan → Option WorkPackage → Type 0
  IsPrepared chosen work_package =
      (scope_id : String) × (scope : WorkScope) × (sel : WorkSelection) × (item_id : String)
      × (w : WorkPackage) × (source.scope_of snapshot scope_id ≡ fine scope)
      × (IsEligible scope.status
          × ((source.ready_item snapshot scope_id ≡ fine sel)
              × ((sel.kind ≡ SelectionKind.ready)
                  × ((sel.item_id ≡ some item_id)
                      × ((source.package_for snapshot item_id ≡ fine w)
                          × ((chosen ≡ ready_plan scope_id item_id sel.reason_code)
                              × ((work_package ≡ some w)
                                  × (reconcile_ready_package snapshot chosen w ≡ fine tt))))))))

  at_ready :
      (scope_id : String) (scope : WorkScope) (k : SelectionKind) (sel : WorkSelection)
      (item : Option String) (chosen : SelectionPlan) (w : Option WorkPackage)
      → source.scope_of snapshot scope_id ≡ fine scope
      → IsEligible scope.status
      → source.ready_item snapshot scope_id ≡ fine sel
      → sel.kind ≡ k
      → sel.item_id ≡ item
      → outcome_of source snapshot k scope_id sel ≡ fine (chosen, w)
      → chosen.disposition ≡ SelectionDisposition.ready
      → IsPrepared chosen w
  at_ready scope_id scope SelectionKind.ready sel none chosen w at ok found k i h r =
      absurd (ground arith)
  at_ready scope_id scope SelectionKind.ready sel (some item_id) chosen w at ok found k i h r =
      let h' : packaged source snapshot scope_id sel (some item_id) ≡ fine (chosen, w) =
        ap (λ o. packaged source snapshot scope_id sel o) (sym i) ∙ h in
      let (p, built, h2) = bind-eq-fine (source.package_for snapshot item_id) _ h' in
      let (u, passed, h3) =
        bind-eq-fine
          (reconcile_ready_package snapshot (ready_plan scope_id item_id sel.reason_code) p) _ h2 in
      let is_plan : ready_plan scope_id item_id sel.reason_code ≡ chosen = ground arith in
      let is_package : some p ≡ w = ground arith in
      (
        scope_id,
        scope,
        sel,
        item_id,
        p,
        at,
        (
          ok,
          (
            found,
            (
              k,
              (
                i,
                (
                  built,
                  (
                    sym is_plan,
                    (
                      sym is_package,
                      subst (λ c. reconcile_ready_package snapshot c p ≡ fine tt) is_plan passed,
                    ),
                  ),
                ),
              ),
            ),
          ),
        ),
      )
  at_ready scope_id scope SelectionKind.scope_complete sel item chosen w at ok found k i h r =
      absurd (ground arith)
  at_ready scope_id scope SelectionKind.empty_scope sel item chosen w at ok found k i h r =
      absurd (ground arith)
  at_ready scope_id scope SelectionKind.blocked_dependencies sel item chosen w at ok found k i h r =
      absurd (ground arith)

  of_status :
      (scope_id : String) (scope : WorkScope) (status : WorkScopeStatus) (chosen : SelectionPlan)
      (w : Option WorkPackage)
      → source.scope_of snapshot scope_id ≡ fine scope
      → scope.status ≡ status
      → by_status source snapshot scope_id status ≡ fine (chosen, w)
      → chosen.disposition ≡ SelectionDisposition.ready
      → IsPrepared chosen w
  of_status scope_id scope WorkScopeStatus.planned chosen w at is_it h r =
      let (sel, found, h2) = bind-eq-fine (source.ready_item snapshot scope_id) _ h in
      at_ready scope_id scope sel.kind sel sel.item_id chosen w at (inl is_it) found refl refl h2 r
  of_status scope_id scope WorkScopeStatus.active chosen w at is_it h r =
      let (sel, found, h2) = bind-eq-fine (source.ready_item snapshot scope_id) _ h in
      at_ready scope_id scope sel.kind sel sel.item_id chosen w at (inr is_it) found refl refl h2 r
  of_status scope_id scope WorkScopeStatus.review chosen w at is_it h r = absurd (ground arith)
  of_status scope_id scope WorkScopeStatus.completed chosen w at is_it h r = absurd (ground arith)
  of_status scope_id scope WorkScopeStatus.blocked chosen w at is_it h r = absurd (ground arith)

  of_scope :
      (scope_id : String) (call : Fallible WorkError WorkScope) (chosen : SelectionPlan)
      (w : Option WorkPackage)
      → source.scope_of snapshot scope_id ≡ call
      → in_scope source snapshot scope_id call ≡ fine (chosen, w)
      → chosen.disposition ≡ SelectionDisposition.ready
      → IsPrepared chosen w
  of_scope scope_id (failed e) chosen w at h r = elim (Bool-cases (is_unknown e)) [
    | inl unknown ↦ absurd (ground arith)
    | inr other ↦ absurd (ground arith)
  ]
  of_scope scope_id (fine scope) chosen w at h r =
      elim (Bool-cases
        (same_option snapshot.active_scope_id (some scope_id) && not (is_active scope.status))) [
          | inl mismatch ↦ absurd (ground arith)
          | inr consistent ↦ of_status scope_id scope scope.status chosen w at refl (ground arith) r
        ]

  -- With any work source: a ready plan names an item that the source selected in a scope whose
  -- status is PLANNED or ACTIVE, and comes with the source's package of it, reconciled.
  pub prepare_selection-IsPrepared :
      (request : ShadowRequest) (chosen : SelectionPlan) (w : Option WorkPackage)
      → prepare_selection source snapshot request ≡ fine (chosen, w)
      → chosen.disposition ≡ SelectionDisposition.ready
      → IsPrepared chosen w
  unfolding prepare_selection
  prepare_selection-IsPrepared request chosen w h r =
      let (a, first, h2) = bind-eq-fine (anchor source snapshot request) _ h in
      from a (anchor-NotReady request a first) h2
    where
      from :
          (a : Anchor)
          → NotReady a
          → at_anchor source snapshot a ≡ fine (chosen, w)
          → IsPrepared chosen w
      from (settled decided) early h2 =
          let same : decided ≡ chosen = ground arith in
          absurd (early (ap (λ p. p.disposition) same ∙ r))
      from (anchored none) early h2 = absurd (ground arith)
      from (anchored (some scope_id)) early h2 =
          of_scope scope_id (source.scope_of snapshot scope_id) chosen w refl h2 r
