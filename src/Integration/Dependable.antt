-- ===== src/Integration/Dependable.antt =====
-- integration/selection.py with the Spec Kit adapter as its source.
use agent_graph_engine.Prelude.{String, ◌≡◌, sym, ap, ◌∙◌, subst, true, Option, some, arith, eq_iff}
use agent_graph_engine.Prelude.Text.{str_eq, same_option}
use agent_graph_engine.Prelude.Fallible.{Fallible, fine, demand-bind-eq-fine}
use agent_graph_engine.Work.Models.{WorkError, WorkItem, WorkScope, WorkSourceSnapshot, WorkPackage}
use agent_graph_engine.Speckit.Lookup.{get_scope}
use agent_graph_engine.Speckit.Progress.{IsReadyIn, next_ready_item-IsReadyIn}
use agent_graph_engine.Speckit.Source.{speckit_adapter}
use agent_graph_engine.Integration.Models.{SelectionDisposition, SelectionPlan}
use agent_graph_engine.Integration.Selection.{
  ShadowRequest, reconcile_ready_package, prepare_selection,
}
use agent_graph_engine.Integration.Eligible.{IsEligible, prepare_selection-IsPrepared}

-- The package is of the item and the scope that the plan names, and of the snapshot's revision.
reconciled_ids :
    (snapshot : WorkSourceSnapshot) (chosen : SelectionPlan) (p : WorkPackage)
    → reconcile_ready_package snapshot chosen p ≡ fine tt
    → (same_option (some p.item_id) chosen.item_id ≡ true)
      × ((same_option (some p.scope_id) chosen.scope_id ≡ true)
          × (str_eq p.source_revision.fingerprint snapshot.revision.fingerprint ≡ true))
unfolding reconcile_ready_package
reconciled_ids snapshot chosen p h =
    let (item, h2) = demand-bind-eq-fine (same_option (some p.item_id) chosen.item_id) _ _ h in
    let (scope, h3) = demand-bind-eq-fine (same_option (some p.scope_id) chosen.scope_id) _ _ h2 in
    let (print, h4) =
      demand-bind-eq-fine (str_eq p.source_revision.fingerprint snapshot.revision.fingerprint) _ _
        h3 in
    (item, (scope, print))

abbrev the_scope : WorkScope → Fallible WorkError WorkScope
the_scope s = fine s

same_value : (a b : WorkScope) → the_scope a ≡ the_scope b → a ≡ b
same_value a b h = ground arith

-- With the Spec Kit adapter, a ready plan comes with the package of an item whose dependencies
-- are all completed, that belongs to the selected scope and is not completed, and the scope's
-- status is PLANNED or ACTIVE; the package carries the ids of the item and of the scope, and the
-- snapshot's fingerprint.
pub prepare_selection-IsReadyIn :
    (snapshot : WorkSourceSnapshot) (request : ShadowRequest) (chosen : SelectionPlan)
    (w : Option WorkPackage)
    → prepare_selection speckit_adapter snapshot request ≡ fine (chosen, w)
    → chosen.disposition ≡ SelectionDisposition.ready
    → (scope_id : String) × (scope : WorkScope) × (i : WorkItem) × (p : WorkPackage) × (get_scope
          snapshot scope_id
        ≡ fine scope)
      × (IsEligible scope.status
          × (IsReadyIn snapshot.items scope.item_ids i
              × ((w ≡ some p)
                  × ((p.item_id ≡ i.item_id)
                      × ((p.scope_id ≡ scope_id)
                          × (p.source_revision.fingerprint ≡ snapshot.revision.fingerprint))))))
prepare_selection-IsReadyIn snapshot request chosen w h r =
    let (
      scope_id,
      scope,
      sel,
      item_id,
      p,
      at,
      (ok, (found, (k, (named, (built, (is_plan, (is_package, passed))))))),
    ) =
      prepare_selection-IsPrepared speckit_adapter snapshot request chosen w h r in
    let (scope', at', (i, is_ready, ready_in)) =
      next_ready_item-IsReadyIn snapshot scope_id sel found k in
    let (item_ok, (scope_ok, print)) = reconciled_ids snapshot chosen p passed in
    let one = same_value scope' scope (sym at' ∙ at) in
    let name : some i.item_id ≡ some item_id = sym (ap (λ s. s.item_id) is_ready) ∙ named in
    let planned = sym (ap (λ c. same_option (some p.item_id) c.item_id) is_plan) ∙ item_ok in
    let placed = sym (ap (λ c. same_option (some p.scope_id) c.scope_id) is_plan) ∙ scope_ok in
    let item_of : item_id ≡ i.item_id = ground arith in
    (
      scope_id,
      scope,
      i,
      p,
      at,
      (
        ok,
        (
          subst (λ s. IsReadyIn snapshot.items s.item_ids i) one ready_in,
          (
            is_package,
            (
              (eq_iff p.item_id item_id).0 planned ∙ item_of,
              (
                (eq_iff p.scope_id scope_id).0 placed,
                (eq_iff p.source_revision.fingerprint snapshot.revision.fingerprint).0 print,
              ),
            ),
          ),
        ),
      ),
    )
