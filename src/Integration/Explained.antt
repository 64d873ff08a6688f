-- ===== src/Integration/Explained.antt =====
-- integration/selection.py and integration/preflight.py: the codes and messages of issues.
use agent_graph_engine.Prelude.{
  String, ◌≡◌, refl, ap, subst, inl, inr, Bool, true, false, not, ◌&&◌, Option, none, some, List,
  ◌++◌, is_empty, is_some, arith, Bool-cases, All, All-append,
}
use agent_graph_engine.Prelude.Text.{str_eq, same_option}
use agent_graph_engine.Prelude.Fallible.{Fallible, fine, failed, ◌>>=◌, bind-eq-fine}
use agent_graph_engine.Work.Models.{
  WorkError, WorkScope, WorkScopeStatus, WorkSourceSnapshot, WorkSelection, ScopeSelection,
  SelectionKind, WorkPackage,
}
use agent_graph_engine.Work.Source.{WorkSource}
use agent_graph_engine.Speckit.Lookup.{first_scope}
use agent_graph_engine.Integration.Models.{IntegrationIssue, SelectionPlan, ready_plan}
use agent_graph_engine.Integration.Selection.{
  ShadowRequest, Anchor, settled, anchored, anchor_of, outcome_of, chosen_scope, is_unknown,
  unknown_parent, asked_or_active, conflict_plan, is_active, conflicts, of_parent, unless_unknown,
  anchor, reconcile_ready_package, packaged, by_status, in_scope, at_anchor, prepare_selection,
  no_work_plan, required_plan, unknown_plan, mismatch_plan,
}
use agent_graph_engine.Integration.Preflight.{
  RepositorySnapshot, repository_issues, branch_of, scope_branch, assess_preflight, found_branch,
  active_branch, planned_branch, when_so, conflicts_present, dirty_worktree, unborn_head,
  head_detached, stops,
}

-- An issue that a reason may be made of.
abbrev pub IsExplained : IntegrationIssue → Type 0
IsExplained i = (str_eq i.code "" ≡ false) × (str_eq i.message "" ≡ false)

abbrev pub AreExplained : SelectionPlan → Type 0
AreExplained chosen = All IsExplained chosen.issues

abbrev AnchorExplained : Anchor → Type 0
AnchorExplained (settled decided) = AreExplained decided
AnchorExplained (anchored scope_id) = Unit

of_parent-Explained : (k : SelectionKind) (s : ScopeSelection) → AnchorExplained (anchor_of k s)
of_parent-Explained SelectionKind.ready s = tt
of_parent-Explained SelectionKind.scope_complete s = tt
of_parent-Explained SelectionKind.empty_scope s = tt
of_parent-Explained SelectionKind.blocked_dependencies s = ((refl, refl), tt)

abbrev plan_of : Fallible WorkError (SelectionPlan × Option WorkPackage) → SelectionPlan
plan_of (fine p) = p.0
plan_of (failed e) = required_plan

module _ (source : WorkSource) (snapshot : WorkSourceSnapshot) where
  parent-Explained :
      (parent : String) (call : Fallible WorkError ScopeSelection) (a : Anchor)
      → unless_unknown (settled (unknown_parent parent)) (call >>= λ s. fine (of_parent s)) ≡ fine a
      → AnchorExplained a
  parent-Explained parent (fine s) a h =
      let same : of_parent s ≡ a = ground arith in
      subst AnchorExplained same (of_parent-Explained s.kind s)
  parent-Explained parent (failed e) a h = elim (Bool-cases (is_unknown e)) [
    | inl unknown ↦
        let same : settled (unknown_parent parent) ≡ a = ground arith in
        subst AnchorExplained same ((refl, refl), tt)
    | inr other ↦ absurd (ground arith)
  ]

  chosen-Explained :
      (asked parent : Option String) (a : Anchor)
      → chosen_scope source snapshot asked parent ≡ fine a
      → AnchorExplained a
  chosen-Explained asked none a h =
      let same : anchored (asked_or_active asked snapshot.active_scope_id) ≡ a = ground arith in
      subst AnchorExplained same tt
  chosen-Explained asked (some parent) a h =
      parent-Explained parent (source.ready_scope snapshot parent) a h

  anchor-Explained :
      (request : ShadowRequest) (a : Anchor)
      → anchor source snapshot request ≡ fine a
      → AnchorExplained a
  unfolding anchor
  anchor-Explained request a h =
      elim (Bool-cases (conflicts request.scope_id snapshot.active_scope_id)) [
        | inl differ ↦
            let same : settled conflict_plan ≡ a = ground arith in
            subst AnchorExplained same ((refl, refl), tt)
        | inr agree ↦ chosen-Explained request.scope_id request.parent_scope_id a (ground arith)
      ]

  -- The plan of the second half, once it is known.
  told :
      (decided chosen : SelectionPlan)
      → AreExplained decided
      → decided ≡ chosen
      → AreExplained chosen
  told decided chosen held same = subst AreExplained same held

  at_kind :
      (scope_id : String) (k : SelectionKind) (sel : WorkSelection) (chosen : SelectionPlan)
      (w : Option WorkPackage)
      → outcome_of source snapshot k scope_id sel ≡ fine (chosen, w)
      → AreExplained chosen
  at_kind scope_id SelectionKind.ready sel chosen w h = of_item sel.item_id h
    where
      of_item :
          (item : Option String)
          → packaged source snapshot scope_id sel item ≡ fine (chosen, w)
          → AreExplained chosen
      of_item none h = absurd (ground arith)
      of_item (some item_id) h =
          let (p, built, h2) = bind-eq-fine (source.package_for snapshot item_id) _ h in
          let (u, passed, h3) =
            bind-eq-fine
              (reconcile_ready_package snapshot (ready_plan scope_id item_id sel.reason_code) p) _
              h2 in
          told (ready_plan scope_id item_id sel.reason_code) chosen tt (ground arith)
  at_kind scope_id SelectionKind.scope_complete sel chosen w h =
      told (no_work_plan (some scope_id) sel.reason_code) chosen tt (ground arith)
  at_kind scope_id SelectionKind.empty_scope sel chosen w h =
      told (no_work_plan (some scope_id) sel.reason_code) chosen tt (ground arith)
  at_kind scope_id SelectionKind.blocked_dependencies sel chosen w h =
      told _ chosen ((refl, refl), tt) (ap plan_of h)

  by_status-Explained :
      (scope_id : String) (status : WorkScopeStatus) (chosen : SelectionPlan)
      (w : Option WorkPackage)
      → by_status source snapshot scope_id status ≡ fine (chosen, w)
      → AreExplained chosen
  by_status-Explained scope_id WorkScopeStatus.planned chosen w h =
      let (sel, found, h2) = bind-eq-fine (source.ready_item snapshot scope_id) _ h in
      at_kind scope_id sel.kind sel chosen w h2
  by_status-Explained scope_id WorkScopeStatus.active chosen w h =
      let (sel, found, h2) = bind-eq-fine (source.ready_item snapshot scope_id) _ h in
      at_kind scope_id sel.kind sel chosen w h2
  by_status-Explained scope_id WorkScopeStatus.review chosen w h =
      told _ chosen ((refl, refl), tt) (ap plan_of h)
  by_status-Explained scope_id WorkScopeStatus.blocked chosen w h =
      told _ chosen ((refl, refl), tt) (ap plan_of h)
  by_status-Explained scope_id WorkScopeStatus.completed chosen w h =
      told (no_work_plan (some scope_id) "scope_completed") chosen tt (ground arith)

  in_scope-Explained :
      (scope_id : String) (call : Fallible WorkError WorkScope) (chosen : SelectionPlan)
      (w : Option WorkPackage)
      → in_scope source snapshot scope_id call ≡ fine (chosen, w)
      → AreExplained chosen
  in_scope-Explained scope_id (failed e) chosen w h = elim (Bool-cases (is_unknown e)) [
    | inl unknown ↦ told (unknown_plan scope_id) chosen ((refl, refl), tt) (ground arith)
    | inr other ↦ absurd (ground arith)
  ]
  in_scope-Explained scope_id (fine scope) chosen w h =
      elim (Bool-cases
        (same_option snapshot.active_scope_id (some scope_id) && not (is_active scope.status))) [
          | inl mismatch ↦ told (mismatch_plan scope_id) chosen ((refl, refl), tt) (ground arith)
          | inr consistent ↦ by_status-Explained scope_id scope.status chosen w (ground arith)
        ]

  -- With any work source: every issue of a plan that `prepare_selection` makes has a code and a
  -- message.
  pub prepare_selection-IsExplained :
      (request : ShadowRequest) (chosen : SelectionPlan) (w : Option WorkPackage)
      → prepare_selection source snapshot request ≡ fine (chosen, w)
      → AreExplained chosen
  unfolding prepare_selection
  prepare_selection-IsExplained request chosen w h =
      let (a, first, h2) = bind-eq-fine (anchor source snapshot request) _ h in
      from a (anchor-Explained request a first) h2
    where
      from :
          (a : Anchor)
          → AnchorExplained a
          → at_anchor source snapshot a ≡ fine (chosen, w)
          → AreExplained chosen
      from (settled decided) early h2 = told decided chosen early (ground arith)
      from (anchored none) early h2 = told required_plan chosen ((refl, refl), tt) (ground arith)
      from (anchored (some scope_id)) early h2 =
          in_scope-Explained scope_id (source.scope_of snapshot scope_id) chosen w h2

when_so-Explained :
    (b : Bool) (i : IntegrationIssue) → IsExplained i → All IsExplained (when_so b i)
when_so-Explained true i held = (held, tt)
when_so-Explained false i held = tt

when_so-append :
    (b : Bool) (i : IntegrationIssue) (rest : List IntegrationIssue)
    → IsExplained i
    → All IsExplained rest
    → All IsExplained (when_so b i ++ rest)
when_so-append b i rest held others =
    All-append IsExplained (when_so b i) rest (when_so-Explained b i held) others

repository_issues-Explained : (git : RepositorySnapshot) → All IsExplained (repository_issues git)
repository_issues-Explained git =
    let unclean = when_so git.dirty (dirty_worktree git) in
    let unmerged =
      when_so (not (is_empty git.conflicted_paths)) (conflicts_present git) ++ unclean in
    let detached = when_so git.detached_head head_detached ++ unmerged in
    when_so-append (not (is_some git.head_sha)) unborn_head detached (refl, refl)
      (when_so-append git.detached_head head_detached unmerged (refl, refl)
        (when_so-append (not (is_empty git.conflicted_paths)) (conflicts_present git) unclean
          (refl, refl) (when_so-Explained git.dirty (dirty_worktree git) (refl, refl))))

active_branch-Explained :
    (scope_id : String) (b : Bool) → All IsExplained (active_branch scope_id b).1
active_branch-Explained scope_id true = tt
active_branch-Explained scope_id false = ((refl, refl), tt)

planned_branch-Explained :
    (scope_id : String) (own on_base : Bool)
    → All IsExplained (planned_branch scope_id own on_base).1
planned_branch-Explained scope_id true on_base = tt
planned_branch-Explained scope_id false true = tt
planned_branch-Explained scope_id false false = ((refl, refl), tt)

scope_branch-Explained :
    (git : RepositorySnapshot) (scope_id : String) (scope : WorkScope) (status : WorkScopeStatus)
    → All IsExplained (scope_branch git scope_id scope status).1
scope_branch-Explained git scope_id scope WorkScopeStatus.planned =
    planned_branch-Explained scope_id (same_option git.branch scope.branch_hint)
      (same_option git.branch scope.base_branch_hint)
scope_branch-Explained git scope_id scope WorkScopeStatus.active =
    active_branch-Explained scope_id (same_option git.branch scope.branch_hint)
scope_branch-Explained git scope_id scope WorkScopeStatus.review = tt
scope_branch-Explained git scope_id scope WorkScopeStatus.completed = tt
scope_branch-Explained git scope_id scope WorkScopeStatus.blocked = tt

branch_of-Explained :
    (git : RepositorySnapshot) (snapshot : WorkSourceSnapshot) (chosen : Option String)
    → All IsExplained (branch_of git snapshot chosen).1
branch_of-Explained git snapshot none = tt
branch_of-Explained git snapshot (some scope_id) = of_found (first_scope scope_id snapshot.scopes)
  where
    of_found : (scope : Option WorkScope) → All IsExplained (found_branch git scope_id scope).1
    of_found none = tt
    of_found (some scope) = scope_branch-Explained git scope_id scope scope.status

-- Every issue of an assessment has a code and a message, if every issue of its selection has.
pub assess_preflight-IsExplained :
    (git : RepositorySnapshot) (snapshot : WorkSourceSnapshot) (chosen : SelectionPlan)
    → AreExplained chosen
    → All IsExplained (assess_preflight git snapshot chosen).issues
unfolding assess_preflight
assess_preflight-IsExplained git snapshot chosen held =
    let branch = (branch_of git snapshot chosen.scope_id).1 in
    let problems = repository_issues git ++ branch in
    let found : All IsExplained problems =
      All-append IsExplained (repository_issues git) branch (repository_issues-Explained git)
        (branch_of-Explained git snapshot chosen.scope_id) in
    elim (Bool-cases (stops chosen)) [
      | inl stopped ↦ rw stopped (All-append IsExplained problems chosen.issues found held)
      | inr going ↦ rw going found
    ]
