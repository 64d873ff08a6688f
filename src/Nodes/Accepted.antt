-- ===== src/Nodes/Accepted.antt =====
-- nodes/deterministic.py against core/patches.py and integration/preflight.py: the node PREFLIGHT
-- and the applier.
use agent_graph_engine.Prelude.{
  suc, String, ◌≡◌, ◌⊎◌, ap, ◌∙◌, is_empty, inl, inr, refl, Bool, true, false, Option, none, some,
  List, [], ◌∷◌, ◌==◌, arith, All, Bool-cases,
}
use agent_graph_engine.Prelude.Text.{str_eq, ends_with, drop_last}
use agent_graph_engine.Core.Enums.{NodeStatus}
use agent_graph_engine.Core.Errors.{ok}
use agent_graph_engine.Core.State.{GraphState}
use agent_graph_engine.Core.Graph.{lookup}
use agent_graph_engine.Core.V1.Nodes.{v1_node}
use agent_graph_engine.Core.NodeResult.{NodeResult, NodeContext, node_result}
use agent_graph_engine.Core.Patches.Paths.{lookup_path, find_key, path_rule}
use agent_graph_engine.Core.Patches.Ownership.{authorize, engine_owned, under_prefix, path_matches}
use agent_graph_engine.Core.Patches.Groups.{set_texts}
use agent_graph_engine.Core.Patches.Access.{get_path, replace_path}
use agent_graph_engine.Core.Patches.Apply.{
  StatePatch, apply, apply_operations, apply_operation, operation_value, set_value, check_tuple,
  validate_items,
}
use agent_graph_engine.Prelude.Fallible.{fine}
use agent_graph_engine.Work.Models.{WorkSourceSnapshot, WorkPackage}
use agent_graph_engine.Work.Source.{WorkSource}
use agent_graph_engine.Integration.Models.{IntegrationIssue, SelectionPlan}
use agent_graph_engine.Integration.Selection.{ShadowRequest, prepare_selection}
use agent_graph_engine.Integration.Explained.{
  IsExplained, prepare_selection-IsExplained, assess_preflight-IsExplained,
}
use agent_graph_engine.Integration.Preflight.{
  PreflightAssessment, RepositorySnapshot, assess_preflight, stops,
}
use agent_graph_engine.Nodes.Preflight.{
  preflight_node, preflight_patch, invariants, pinned, by_assessment, blocked_by, ready_result,
  blocked_result,
}

same_version : (s : GraphState) → (s.state_version == s.state_version) ≡ true
same_version s = ground arith

abbrev pinned_state : Bool → String → Option String → GraphState → GraphState
pinned_state shadow revision head s = record s {
  state_version = suc s.state_version;
  architecture_invariants = record { items = invariants shadow };
  requirements = record { items = pinned revision head };
}

preflight_patch-apply :
    (shadow : Bool) (revision : String) (head : Option String) (s : GraphState)
    → apply s
        (preflight_patch shadow revision head s)
        (v1_node "PREFLIGHT").allowed_patch_paths
        true
      ≡ ok (pinned_state shadow revision head s)
unfolding apply apply_operations apply_operation authorize engine_owned under_prefix path_matches
    ends_with drop_last lookup_path find_key path_rule operation_value set_value check_tuple
    validate_items get_path replace_path set_texts v1_node lookup
preflight_patch-apply true revision head s = elim (Bool-cases s.scope.locked) [
  | inl closed ↦ ground (arith, same_version s)
  | inr loose ↦ ground (arith, same_version s)
]
preflight_patch-apply false revision head s = elim (Bool-cases s.scope.locked) [
  | inl closed ↦ ground (arith, same_version s)
  | inr loose ↦ ground (arith, same_version s)
]

honest :
    (git : RepositorySnapshot) (snapshot : WorkSourceSnapshot) (selection : SelectionPlan)
    → (assess_preflight git snapshot selection).ready
      ≡ is_empty (assess_preflight git snapshot selection).issues
unfolding assess_preflight
honest git snapshot selection = elim (Bool-cases (stops selection)) [
  | inl stopped ↦ rw stopped refl
  | inr going ↦ rw going refl
]

-- What the node returns: a result that keeps the contract, and either the patch, which the applier
-- takes, or a block with the first issue of the assessment as its reason.
abbrev pub IsAnswered :
    Bool → String → Option String → PreflightAssessment → GraphState → NodeResult → Type 0
IsAnswered shadow revision head a s r =
    (node_result r ≡ ok r)
    × (((a.ready ≡ true)
          × ((r.status ≡ NodeStatus.succeeded)
              × ((patch : StatePatch) × (r.state_patch ≡ some patch)
                  × (apply s patch (v1_node "PREFLIGHT").allowed_patch_paths true
                      ≡ ok (pinned_state shadow revision head s)))))
        ⊎ ((a.ready ≡ false)
            × ((r.status ≡ NodeStatus.blocked)
                × ((r.state_patch ≡ none)
                    × ((i : IntegrationIssue) × (rest : List IntegrationIssue) × (a.issues
                          ≡ i ∷ rest)
                        × (r.reason ≡ some (record { code = i.code; message = i.message })))))))

answered :
    (shadow : Bool) (revision : String) (head : Option String) (a : PreflightAssessment)
    (issues : List IntegrationIssue) (s : GraphState) (context : NodeContext)
    → str_eq context.node_attempt_id "" ≡ false
    → a.issues ≡ issues
    → All IsExplained issues
    → a.ready ≡ is_empty issues
    → (r : NodeResult) × (preflight_node shadow revision head a s context ≡ some (ok r))
      × IsAnswered shadow revision head a s r
unfolding preflight_node node_result
answered shadow revision head a [] s context named these told ready = (
  ready_result shadow revision head s context,
  ap (by_assessment shadow revision head a.issues s context) ready ∙ ground (arith, named),
  (
    ground (arith, named),
    inl (
      ready,
      (
        refl,
        (
          preflight_patch shadow revision head s,
          refl,
          preflight_patch-apply shadow revision head s,
        ),
      ),
    ),
  ),
)
answered shadow revision head a (i ∷ rest) s context named these told ready =
    let (coded, worded) = told.0 in
    (
      blocked_result context (record { code = i.code; message = i.message }),
      ap (by_assessment shadow revision head a.issues s context) ready
          ∙ ap (blocked_by context) these
          ∙ ground (arith, named, coded, worded),
      (ground (arith, named), inr (ready, (refl, (refl, (i, rest, these, refl))))),
    )

-- The node PREFLIGHT, called with the assessment that `assess_preflight` makes of a selection that
-- `prepare_selection` made of any work source, and with a context that names an attempt, returns a
-- result that keeps the contract of results: if the assessment is ready it succeeds, and the
-- applier takes its patch at the paths of the canonical graph, in any state; if not it is blocked,
-- without a patch, and its reason is the code and the message of the assessment's first issue.
pub preflight_node-IsAnswered :
    (shadow : Bool) (revision : String) (head : Option String) (git : RepositorySnapshot)
    (source : WorkSource) (snapshot : WorkSourceSnapshot) (request : ShadowRequest)
    (selection : SelectionPlan) (w : Option WorkPackage) (s : GraphState) (context : NodeContext)
    → prepare_selection source snapshot request ≡ fine (selection, w)
    → str_eq context.node_attempt_id "" ≡ false
    → (r : NodeResult) × (preflight_node shadow revision head
          (assess_preflight git snapshot selection)
          s
          context
        ≡ some (ok r))
      × IsAnswered shadow revision head (assess_preflight git snapshot selection) s r
preflight_node-IsAnswered shadow revision head git source snapshot request selection w s context
      made named =
    let a = assess_preflight git snapshot selection in
    let told = prepare_selection-IsExplained source snapshot request selection w made in
    answered shadow revision head a a.issues s context named refl
      (assess_preflight-IsExplained git snapshot selection told) (honest git snapshot selection)
