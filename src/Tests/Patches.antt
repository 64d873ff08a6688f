-- ===== src/Tests/Patches.antt =====
-- The properties of patches at concrete instances.
use agent_graph_engine.Prelude.{◌≡◌, ◌⊎◌, inl, refl, true, String, List, [], ◌∷◌, arith}
use agent_graph_engine.Core.Errors.{
  ok, err, stale_state_patch, unauthorized_state_patch, invalid_state_patch,
}
use agent_graph_engine.Core.State.{GraphState}
use agent_graph_engine.Core.Patches.Values.{Value, Atom}
use agent_graph_engine.Core.Patches.Paths.{Leaf, ScopeField, find_key, lookup_path, path_rule}
use agent_graph_engine.Core.Patches.Ownership.{authorize, engine_owned, under_prefix, path_matches}
use agent_graph_engine.Core.Patches.Groups.{set_texts}
use agent_graph_engine.Core.Patches.Access.{get_path, replace_path}
use agent_graph_engine.Core.Patches.Apply.{
  PatchOperation, StatePatch, apply, apply_operations, apply_operation, operation_value, set_value,
  check_tuple, validate_items, bump_version,
}
use agent_graph_engine.Core.Patches.Failures.{apply_failures}
use agent_graph_engine.Core.Patches.Idempotence.{apply_operation_again}
use agent_graph_engine.Core.Patches.Frame.{SameOwned}
use agent_graph_engine.Core.Patches.Laws.{apply-SameOwned, apply-get_path, apply-locked_scope}
use agent_graph_engine.Prelude.Text.{ends_with, drop_last}
use agent_graph_engine.Tests.Samples.{sample_start, put}

-- A state with a locked scope, a patch of the requirements and the state that it makes.
abbrev locked_start : GraphState
locked_start = record sample_start { scope = record sample_start.scope { locked = true } }

abbrev texts_patch : StatePatch
texts_patch = record {
  base_state_version = 0;
  operations = put "requirements.items" (Value.tuple (Atom.text "a" ∷ Atom.text "b" ∷ [])) ∷ [];
}

abbrev texts_paths : List String
texts_paths = "requirements.*" ∷ []

abbrev patched_start : GraphState
patched_start = record locked_start {
  state_version = 1;
  requirements = record { items = "a" ∷ "b" ∷ [] };
}

texts_applied : apply locked_start texts_patch texts_paths true ≡ ok patched_start
unfolding apply apply_operations apply_operation authorize engine_owned under_prefix path_matches
    ends_with drop_last lookup_path find_key path_rule operation_value set_value check_tuple
    validate_items get_path replace_path set_texts
texts_applied = refl

scope_refused : ¬ (authorize locked_start texts_paths "scope.included" ≡ ok tt)
unfolding authorize engine_owned under_prefix
scope_refused h = ground arith

apply-SameOwned_example : SameOwned (bump_version true locked_start locked_start) patched_start
apply-SameOwned_example = apply-SameOwned locked_start texts_patch texts_paths true texts_applied

apply-get_path_example :
    get_path patched_start (Leaf.scope ScopeField.included)
    ≡ get_path locked_start (Leaf.scope ScopeField.included)
apply-get_path_example =
    apply-get_path locked_start texts_patch texts_paths true (Leaf.scope ScopeField.included)
      texts_applied scope_refused

apply-locked_scope_example : patched_start.scope ≡ locked_start.scope
apply-locked_scope_example =
    apply-locked_scope locked_start texts_patch texts_paths true texts_applied refl

-- A patch that goes to a scope that is locked.
abbrev scope_patch : StatePatch
scope_patch = record {
  base_state_version = 0;
  operations = put "scope.included" (Value.tuple (Atom.text "a" ∷ [])) ∷ [];
}

scope_patch_refused :
    apply locked_start scope_patch ("scope.*" ∷ []) true ≡ err unauthorized_state_patch
unfolding apply apply_operations authorize engine_owned under_prefix
scope_patch_refused = refl

apply_failures_example :
    (¬ (scope_patch.base_state_version ≡ locked_start.state_version)
      × (unauthorized_state_patch ≡ stale_state_patch))
    ⊎ ((scope_patch.base_state_version ≡ locked_start.state_version)
        × ((unauthorized_state_patch ≡ unauthorized_state_patch)
            ⊎ (unauthorized_state_patch ≡ invalid_state_patch)))
apply_failures_example =
    apply_failures locked_start scope_patch ("scope.*" ∷ []) true scope_patch_refused

abbrev texts_operation : PatchOperation
texts_operation = put "requirements.items" (Value.tuple (Atom.text "a" ∷ Atom.text "b" ∷ []))

texts_operation_applied :
    apply_operation locked_start texts_operation
    ≡ ok (record locked_start { requirements = record { items = "a" ∷ "b" ∷ [] } })
unfolding apply_operation lookup_path find_key path_rule operation_value set_value check_tuple
    validate_items get_path replace_path set_texts
texts_operation_applied = refl

apply_operation_again_example :
    apply_operation
      (record locked_start { requirements = record { items = "a" ∷ "b" ∷ [] } })
      texts_operation
    ≡ ok (record locked_start { requirements = record { items = "a" ∷ "b" ∷ [] } })
apply_operation_again_example =
    apply_operation_again locked_start texts_operation (inl refl) texts_operation_applied
