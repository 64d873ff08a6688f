-- ===== src/Integration/Selection.antt =====
-- integration/selection.py: from a request to one selected item and its package.
use agent_graph_engine.Prelude.{
  String, Bool, true, false, not, ◌&&◌, Option, none, some, List, [], ◌∷◌, if◌then◌else◌, is_some,
}
use agent_graph_engine.Prelude.Text.{str_eq, same_option}
use agent_graph_engine.Prelude.Fallible.{Fallible, fine, failed, ◌>>=◌, demand}
use agent_graph_engine.Work.Models.{
  WorkError, scope_not_found, selection_error, assertion_failed, WorkItem, WorkScope,
  WorkScopeStatus, WorkSourceSnapshot, WorkSelection, ScopeSelection, SelectionKind, WorkPackage,
}
use agent_graph_engine.Work.Source.{WorkSource}
use agent_graph_engine.Speckit.Lookup.{first_item, first_scope}
use agent_graph_engine.Integration.Models.{
  IntegrationIssue, IntegrationIssueSeverity, SelectionDisposition, SelectionPlan, plan, ready_plan,
}

pub record ShadowRequest : Type 0 where
  pub scope_id : Option String
  pub parent_scope_id : Option String

-- ShadowRequestError
pub data RequestError : Type 0 where
  shadow_request_error : RequestError

-- ShadowRequest.__post_init__
abbrev pub shadow_request : ShadowRequest → Fallible RequestError ShadowRequest
shadow_request r = do
  _ ← demand (not (same_option r.scope_id (some ""))) shadow_request_error
  _ ← demand (not (same_option r.parent_scope_id (some ""))) shadow_request_error
  _ ← demand (not (is_some r.scope_id && is_some r.parent_scope_id)) shadow_request_error
  fine r

abbrev pub Prepared : Type 0
Prepared = SelectionPlan × Option WorkPackage

abbrev issue : String → String → List String → IntegrationIssue
issue code message related = record {
  code = code;
  severity = IntegrationIssueSeverity.error;
  message = message;
  related_ids = related;
}

abbrev pub blocked_plan : Option String → IntegrationIssue → SelectionPlan
blocked_plan scope_id found = record (plan SelectionDisposition.blocked scope_id) {
  issues = found ∷ [];
}

abbrev pub no_work_plan : Option String → String → SelectionPlan
no_work_plan scope_id reason = record (plan SelectionDisposition.no_work scope_id) {
  reason_code = reason;
}

-- `blocked_plan` with the reason and the ids that block.
abbrev pub waiting_plan : Option String → String → String → String → List String → SelectionPlan
waiting_plan scope_id code message reason blocking =
    record (blocked_plan scope_id (issue code message blocking)) {
      reason_code = reason;
      blocking_ids = blocking;
    }

abbrev pub required_plan : SelectionPlan
required_plan = record (plan SelectionDisposition.selection_required none) {
  issues = issue "selection_required" "an explicit or active scope is required" [] ∷ [];
}

-- What the first half decides: a plan at once, or the scope to look at.
pub data Anchor : Type 0 where
  settled : SelectionPlan → Anchor
  anchored : Option String → Anchor

abbrev pub conflicts : Option String → Option String → Bool
conflicts (some asked) (some active) = not (str_eq asked active)
conflicts _ _ = false

-- The answer of `next_ready_scope`, by its kind.
abbrev pub anchor_of : SelectionKind → ScopeSelection → Anchor
anchor_of SelectionKind.ready selection = anchored selection.scope_id
anchor_of SelectionKind.scope_complete selection = settled (no_work_plan none selection.reason_code)
anchor_of SelectionKind.empty_scope selection = settled (no_work_plan none selection.reason_code)
anchor_of SelectionKind.blocked_dependencies selection = settled (
    waiting_plan none "blocked_scope_dependencies" "no child scope is dependency-ready"
      selection.reason_code selection.blocking_scope_ids)

abbrev pub of_parent : ScopeSelection → Anchor
of_parent selection = anchor_of selection.kind selection

abbrev pub is_unknown : WorkError → Bool
is_unknown (scope_not_found id) = true
is_unknown _ = false

-- except WorkScopeNotFoundError
abbrev pub unless_unknown {ℓ} : {A : Type ℓ} → A → Fallible WorkError A → Fallible WorkError A
unless_unknown instead (failed e) = if is_unknown e then fine instead else failed e
unless_unknown instead (fine a) = fine a

abbrev pub unknown_parent : String → SelectionPlan
unknown_parent parent =
    blocked_plan none
      (issue "unknown_parent_scope" "selected parent scope does not exist" (parent ∷ []))

abbrev pub asked_or_active : Option String → Option String → Option String
asked_or_active (some asked) active = some asked
asked_or_active none active = active

abbrev pub conflict_plan : SelectionPlan
conflict_plan =
    blocked_plan none
      (issue "active_scope_conflict" "explicit scope conflicts with active scope" [])

abbrev pub unknown_plan : String → SelectionPlan
unknown_plan scope_id =
    blocked_plan (some scope_id)
      (issue "unknown_scope" "selected scope does not exist" (scope_id ∷ []))

abbrev pub mismatch_plan : String → SelectionPlan
mismatch_plan scope_id = blocked_plan (some scope_id) (
    issue "active_scope_status_mismatch" "active scope evidence requires ACTIVE source status"
      (scope_id ∷ []))

abbrev pub is_active : WorkScopeStatus → Bool
is_active WorkScopeStatus.active = true
is_active _ = false

module _ (source : WorkSource) (snapshot : WorkSourceSnapshot) where
  -- prepare_selection, up to the choice of the scope
  abbrev pub chosen_scope : Option String → Option String → Fallible WorkError Anchor
  chosen_scope asked none = fine (anchored (asked_or_active asked snapshot.active_scope_id))
  chosen_scope asked (some parent) =
      unless_unknown (settled (unknown_parent parent))
        (source.ready_scope snapshot parent >>= λ s. fine (of_parent s))

  unfoldable pub anchor : ShadowRequest → Fallible WorkError Anchor
  anchor request =
      let chosen = chosen_scope request.scope_id request.parent_scope_id in
      if conflicts request.scope_id snapshot.active_scope_id
      then fine (settled conflict_plan)
      else chosen

module _ (snapshot : WorkSourceSnapshot) where
  -- `_reconcile_ready_package`: the item and the scope that own the package
  abbrev owned : WorkPackage → Option WorkItem → Fallible WorkError (Unit {0})
  owned work_package none =
      failed (selection_error "work package item ownership differs from snapshot")
  owned work_package (some item) =
      demand (str_eq item.scope_id work_package.scope_id)
        (selection_error "work package item ownership differs from snapshot")

  abbrev placed : WorkPackage → Option WorkScope → Fallible WorkError (Unit {0})
  placed work_package none = failed (selection_error "work package scope is absent from snapshot")
  placed work_package (some scope) =
      demand
        (not (
          is_some scope.parent_scope_id
          && not (same_option work_package.parent_scope_id scope.parent_scope_id)))
        (selection_error "work package parent scope differs from snapshot hierarchy")

  unfoldable pub reconcile_ready_package :
      SelectionPlan → WorkPackage → Fallible WorkError (Unit {0})
  reconcile_ready_package selection work_package = do
    _ ←
        demand (same_option (some work_package.item_id) selection.item_id)
          (selection_error "work package item differs from selected item")
    _ ←
        demand (same_option (some work_package.scope_id) selection.scope_id)
          (selection_error "work package scope differs from selected scope")
    _ ←
        demand (str_eq work_package.source_revision.fingerprint snapshot.revision.fingerprint)
          (selection_error "work package source revision is stale")
    _ ← owned work_package (first_item work_package.item_id snapshot.items)
    placed work_package (first_scope work_package.scope_id snapshot.scopes)

module _ (source : WorkSource) (snapshot : WorkSourceSnapshot) where
  -- The package of the selected item; `assert selection.item_id is not None`.
  abbrev pub packaged : String → WorkSelection → Option String → Fallible WorkError Prepared
  packaged scope_id selection none = failed assertion_failed
  packaged scope_id selection (some item_id) = do
    work_package ← source.package_for snapshot item_id
    let chosen = ready_plan scope_id item_id selection.reason_code
    _ ← reconcile_ready_package snapshot chosen work_package
    fine (chosen, some work_package)

  -- The answer of `next_ready_item`, by its kind.
  abbrev pub outcome_of : SelectionKind → String → WorkSelection → Fallible WorkError Prepared
  outcome_of SelectionKind.ready scope_id selection = packaged scope_id selection selection.item_id
  outcome_of SelectionKind.scope_complete scope_id selection =
      fine (no_work_plan (some scope_id) selection.reason_code, none)
  outcome_of SelectionKind.empty_scope scope_id selection =
      fine (no_work_plan (some scope_id) selection.reason_code, none)
  outcome_of SelectionKind.blocked_dependencies scope_id selection = fine (
    waiting_plan (some scope_id) "blocked_item_dependencies"
        "no pending work item is dependency-ready" selection.reason_code
        selection.blocking_item_ids,
    none,
  )

  abbrev pub of_selection : String → WorkSelection → Fallible WorkError Prepared
  of_selection scope_id selection = outcome_of selection.kind scope_id selection

  abbrev ineligible : String → Prepared
  ineligible scope_id = (
    blocked_plan (some scope_id) (
        issue "scope_not_eligible" "selected scope status does not permit new work"
          (scope_id ∷ [])),
    none,
  )

  -- The checks of the scope's status, and the selection in it.
  abbrev pub by_status : String → WorkScopeStatus → Fallible WorkError Prepared
  by_status scope_id WorkScopeStatus.completed =
      fine (no_work_plan (some scope_id) "scope_completed", none)
  by_status scope_id WorkScopeStatus.blocked = fine (ineligible scope_id)
  by_status scope_id WorkScopeStatus.review = fine (ineligible scope_id)
  by_status scope_id _ = source.ready_item snapshot scope_id >>= of_selection scope_id

  abbrev pub in_scope : String → Fallible WorkError WorkScope → Fallible WorkError Prepared
  in_scope scope_id (failed e) =
      if is_unknown e then fine (unknown_plan scope_id, none) else failed e
  in_scope scope_id (fine scope) =
      let go = by_status scope_id scope.status in
      if same_option snapshot.active_scope_id (some scope_id) && not (is_active scope.status)
      then fine (mismatch_plan scope_id, none)
      else go

  abbrev pub at_anchor : Anchor → Fallible WorkError Prepared
  at_anchor (settled decided) = fine (decided, none)
  at_anchor (anchored none) = fine (required_plan, none)
  at_anchor (anchored (some scope_id)) = in_scope scope_id (source.scope_of snapshot scope_id)

  unfoldable pub prepare_selection : ShadowRequest → Fallible WorkError Prepared
  prepare_selection request = anchor source snapshot request >>= at_anchor
