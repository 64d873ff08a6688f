-- ===== src/Core/Patches/Failures.antt =====
-- core/patches.py: how an application of a patch can fail.
use agent_graph_engine.Prelude.{
  String, ◌≡◌, refl, ◌⊎◌, Bool, true, false, Option, none, some, List, [], ◌∷◌, arith,
}
use agent_graph_engine.Core.Enums.{member, operation_enumerated}
use agent_graph_engine.Core.Errors.{
  Error, Result, ok, err, contract_validation, value_error, stale_state_patch,
  unauthorized_state_patch, invalid_state_patch, ◌>>=◌, require,
}
use agent_graph_engine.Core.State.{GraphState}
use agent_graph_engine.Core.Patches.Values.{Class, Atom, Value, absent, atom, tuple, mapping}
use agent_graph_engine.Core.Patches.Paths.{Leaf, PathRule, lookup_path, path_rule}
use agent_graph_engine.Core.Patches.Groups.{
  each, as_work_item, as_hierarchy_item, as_repair_record, set_repository, set_project,
  set_baseline, set_work, set_package, set_texts, set_scope, set_risk, set_changes, set_validation,
  set_review, set_repair, set_failure, set_cancellation,
}
use agent_graph_engine.Core.Patches.Values.{atom_text}
use agent_graph_engine.Core.Patches.Access.{get_path, replace_path}
use agent_graph_engine.Core.Patches.Ownership.{authorize}
use agent_graph_engine.Core.Patches.Apply.{
  PatchOperation, StatePatch, validate_items, item_id, merge_items, any_item, as_item, clear_value,
  check_tuple, set_value, append_value, merge_value, increment_value, operation_value, known_path,
  apply_at, apply_operation, guarded, apply_operations, bump_version, apply,
}

-- The failures that the operations of a patch have.
abbrev is_mild : Error → Bool
is_mild contract_validation = true
is_mild value_error = true
is_mild unauthorized_state_patch = true
is_mild invalid_state_patch = true
is_mild _ = false

abbrev mild {ℓ} : {A : Type ℓ} → Result A → Bool
mild (ok a) = true
mild (err e) = is_mild e

bind-mild {ℓ κ} :
    {A : Type ℓ} {B : Type κ} (m : Result A) (f : A → Result B)
    → mild m ≡ true
    → ((a : A) → mild (f a) ≡ true)
    → mild (m >>= f) ≡ true
bind-mild (ok a) f h k = k a
bind-mild (err e) f h k = h

each-mild {ℓ} : {A : Type ℓ} (f : Atom → Option A) (xs : List Atom) → mild (each f xs) ≡ true
each-mild f [] = refl
each-mild f (x ∷ xs) = ground (arith, each-mild f xs)

replace_path-mild : (s : GraphState) (l : Leaf) (v : Value) → mild (replace_path s l v) ≡ true
unfolding replace_path set_repository set_project set_baseline set_work set_package set_texts
    set_scope set_risk set_changes set_validation set_review set_repair set_failure set_cancellation
replace_path-mild s l absent = ground arith
replace_path-mild s l (atom a) = ground arith
replace_path-mild s l (mapping m) = ground arith
replace_path-mild s l (tuple xs) = ground (
  arith,
  each-mild atom_text xs,
  each-mild as_work_item xs,
  each-mild as_hierarchy_item xs,
  each-mild as_repair_record xs,
)

item_id-mild : (x : Atom) → mild (item_id x) ≡ true
unfolding item_id
item_id-mild x = ground arith

validate_items-mild : (xs : List Atom) (cs : List Class) → mild (validate_items xs cs) ≡ true
unfolding validate_items
validate_items-mild xs cs = ground arith

merge_items-mild : (i : String) (v : Atom) (xs : List Atom) → mild (merge_items i v xs) ≡ true
unfolding merge_items item_id
merge_items-mild i v [] = refl
merge_items-mild i v (x ∷ xs) = ground (arith, merge_items-mild i v xs)

any_item-mild : (i : String) (xs : List Atom) → mild (any_item i xs) ≡ true
unfolding any_item item_id
any_item-mild i [] = refl
any_item-mild i (x ∷ xs) = ground (arith, any_item-mild i xs)

authorize-mild :
    (s : GraphState) (allowed : List String) (path : String)
    → mild (authorize s allowed path) ≡ true
unfolding authorize
authorize-mild s allowed path = ground arith

merge_value-mild : (v w : Value) (rule : PathRule) → mild (merge_value v w rule) ≡ true
unfolding merge_value
merge_value-mild (tuple xs) w rule =
    bind-mild (validate_items (as_item w ∷ []) rule.item_types) _
      (validate_items-mild (as_item w ∷ []) rule.item_types)
      (λ _. bind-mild (item_id (as_item w)) _ (item_id-mild (as_item w)) (λ i.
        bind-mild (merge_items i (as_item w) xs) _ (merge_items-mild i (as_item w) xs)
          (λ _. bind-mild (any_item i xs) _ (any_item-mild i xs) (λ _. refl))))
merge_value-mild absent w rule = refl
merge_value-mild (atom a) w rule = refl
merge_value-mild (mapping m) w rule = refl

operation_value-mild :
    (v : Value) (op : PatchOperation) (rule : PathRule) → mild (operation_value v op rule) ≡ true
unfolding operation_value clear_value set_value check_tuple append_value increment_value
    validate_items
operation_value-mild v op rule = ground (arith, merge_value-mild v op.value rule)

checked : (b : Bool) → mild (require b invalid_state_patch) ≡ true
checked true = refl
checked false = refl

apply_operation-mild : (s : GraphState) (op : PatchOperation) → mild (apply_operation s op) ≡ true
unfolding apply_operation
apply_operation-mild s op =
    bind-mild (known_path (lookup_path op.path)) (apply_at s op) (known (lookup_path op.path))
      at_leaf
  where
    known : (o : Option Leaf) → mild (known_path o) ≡ true
    known none = refl
    known (some l) = refl

    at_leaf : (l : Leaf) → mild (apply_at s op l) ≡ true
    at_leaf l =
        bind-mild (require (member op.operation (path_rule l).operations) invalid_state_patch) _
          (checked (member op.operation (path_rule l).operations))
          (λ _.
            bind-mild (operation_value (get_path s l) op (path_rule l)) (replace_path s l)
              (operation_value-mild (get_path s l) op (path_rule l)) (replace_path-mild s l))

apply_operations-mild :
    (s : GraphState) (allowed : List String) (c : GraphState) (ops : List PatchOperation)
    → mild (apply_operations s allowed c ops) ≡ true
unfolding apply_operations
apply_operations-mild s allowed c [] = refl
apply_operations-mild s allowed c (op ∷ ops) =
    bind-mild (authorize s allowed op.path) _ (authorize-mild s allowed op.path) (λ _.
      bind-mild (apply_operation c op) (λ d. apply_operations s allowed d ops)
        (apply_operation-mild c op) (λ d. apply_operations-mild s allowed d ops))

guarded_failure :
    (m : Result GraphState) {e : Error}
    → mild m ≡ true
    → guarded m ≡ err e
    → (e ≡ unauthorized_state_patch) ⊎ (e ≡ invalid_state_patch)
guarded_failure (ok a) h k = absurd (ground arith)
guarded_failure (err x) h k = ground arith

abbrev ended : Bool → GraphState → GraphState → Result GraphState
ended b s c = ok (bump_version b s c)

-- A patch that is not applied fails in one of three ways: it was made from another version and is
-- stale, or it was made from the version of the state and is not authorized or invalid. No other
-- error comes out of an application.
pub apply_failures :
    (s : GraphState) (patch : StatePatch) (allowed : List String) (b : Bool) {e : Error}
    → apply s patch allowed b ≡ err e
    → (¬ (patch.base_state_version ≡ s.state_version) × (e ≡ stale_state_patch))
      ⊎ ((patch.base_state_version ≡ s.state_version)
          × ((e ≡ unauthorized_state_patch) ⊎ (e ≡ invalid_state_patch)))
unfolding apply
apply_failures s patch allowed b {e} h = ground (
  arith,
  guarded_failure (apply_operations s allowed s patch.operations >>= ended b s) {e = e} (
      bind-mild (apply_operations s allowed s patch.operations) (ended b s)
        (apply_operations-mild s allowed s patch.operations) (λ _. refl)),
)
