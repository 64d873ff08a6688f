-- ===== src/Core/Patches/Apply.antt =====
-- core/patches.py: the operations and the applier.
use agent_graph_engine.Prelude.{
  ℕ, suc, String, Bool, true, false, not, ◌&&◌, ◌||◌, Option, none, some, List, [], ◌∷◌, ◌++◌, all,
  any, ◌==◌, if◌then◌else◌,
}
use agent_graph_engine.Prelude.Int.{◌+ℤ◌}
use agent_graph_engine.Prelude.Text.{str_eq, starts_with, ends_with}
use agent_graph_engine.Core.Enums.{OperationType, member, operation_enumerated}
use agent_graph_engine.Core.Errors.{
  Error, Result, ok, err, contract_validation, value_error, stale_state_patch, invalid_state_patch,
  ◌>>=◌, ◌>>◌, require, refuse,
}
use agent_graph_engine.Core.Metadata.{empty}
use agent_graph_engine.Core.State.{GraphState}
use agent_graph_engine.Core.Patches.Values.{
  Class, Atom, Value, absent, atom, tuple, mapping, tuple_class, mapping_class, instance_of,
  atom_instance_of, equal_atoms,
}
use agent_graph_engine.Core.Patches.Paths.{Leaf, PathRule, lookup_path, path_rule}
use agent_graph_engine.Core.Patches.Access.{get_path, replace_path}
use agent_graph_engine.Core.Patches.Ownership.{authorize}

pub record PatchOperation : Type 0 where
  pub operation : OperationType
  pub path : String
  pub value : Value

abbrev is_absent : Value → Bool
is_absent absent = true
is_absent _ = false

abbrev is_clear : OperationType → Bool
is_clear OperationType.clear = true
is_clear _ = false

-- PatchOperation(…), with its __post_init__
unfoldable pub patch_operation : OperationType → String → Value → Result PatchOperation
unfolding ends_with
patch_operation operation path value = do
  refuse (str_eq path "" || starts_with path "." || ends_with path ".") contract_validation
  refuse (is_clear operation && not (is_absent value)) contract_validation
  ok (record { operation = operation; path = path; value = value })

pub record StatePatch : Type 0 where
  pub base_state_version : ℕ
  pub operations : List PatchOperation

-- _validate_items
unfoldable pub validate_items : List Atom → List Class → Result (Unit {0})
validate_items items [] = err invalid_state_patch
validate_items items (c ∷ cs) = require (all (atom_instance_of (c ∷ cs)) items) invalid_state_patch

-- _item_id
unfoldable pub item_id : Atom → Result String
item_id (Atom.work_item w) = ok w.id
item_id (Atom.hierarchy_item w) = ok w.id
item_id (Atom.repair_record r) = ok r.id
item_id _ = err invalid_state_patch

-- tuple(value if _item_id(item) == identifier else item for item in current)
unfoldable pub merge_items : String → Atom → List Atom → Result (List Atom)
merge_items identifier value [] = ok []
merge_items identifier value (item ∷ rest) = do
  id ← item_id item
  merged ← merge_items identifier value rest
  ok ((if str_eq id identifier then value else item) ∷ merged)

-- any(_item_id(item) == identifier for item in current)
unfoldable pub any_item : String → List Atom → Result Bool
any_item identifier [] = ok false
any_item identifier (item ∷ rest) = do
  id ← item_id item
  found ← any_item identifier rest
  ok (str_eq id identifier || found)

abbrev is_tuple_class : Class → Bool
is_tuple_class tuple_class = true
is_tuple_class _ = false

abbrev is_mapping_class : Class → Bool
is_mapping_class mapping_class = true
is_mapping_class _ = false

unfoldable pub clear_value : PathRule → Result Value
clear_value rule =
    if rule.nullable
    then ok absent
    else if any is_tuple_class rule.value_types
    then ok (tuple [])
    else if any is_mapping_class rule.value_types
    then ok (mapping empty)
    else err invalid_state_patch

-- The item checks of a SET: only a tuple under a rule with item types has any.
unfoldable pub check_tuple : Value → List Class → Result (Unit {0})
unfolding validate_items
check_tuple (tuple xs) (c ∷ cs) = validate_items xs (c ∷ cs)
check_tuple _ _ = ok tt

unfoldable pub set_value : Value → PathRule → Result Value
unfolding check_tuple
set_value value rule = if is_absent value && rule.nullable then ok absent else (do
  require (instance_of value rule.value_types) invalid_state_patch
  check_tuple value rule.item_types
  ok value)

-- `(value,)`, as the items that are checked: None and containers are of no item class.
abbrev pub as_item : Value → Atom
as_item (atom a) = a
as_item _ = Atom.other

unfoldable pub append_value : Value → Value → PathRule → Result Value
unfolding validate_items
append_value (tuple xs) value rule = do
  validate_items (as_item value ∷ []) rule.item_types
  ok (tuple (if any (equal_atoms (as_item value)) xs then xs else xs ++ as_item value ∷ []))
append_value _ value rule = err invalid_state_patch

unfoldable pub merge_value : Value → Value → PathRule → Result Value
unfolding validate_items item_id merge_items any_item
merge_value (tuple xs) value rule = do
  validate_items (as_item value ∷ []) rule.item_types
  identifier ← item_id (as_item value)
  merged ← merge_items identifier (as_item value) xs
  already_present ← any_item identifier xs
  ok (tuple (if already_present then merged else xs ++ as_item value ∷ []))
merge_value _ value rule = err invalid_state_patch

-- `type(…) is int` on both: bools are refused
unfoldable pub increment_value : Value → Value → Result Value
unfolding ◌+ℤ◌
increment_value (atom (Atom.int m)) (atom (Atom.int n)) = ok (atom (Atom.int (m +ℤ n)))
increment_value _ _ = err invalid_state_patch

-- _operation_value
unfoldable pub operation_value : Value → PatchOperation → PathRule → Result Value
unfolding clear_value set_value append_value merge_value increment_value
operation_value current op rule = elim op.operation [
  | OperationType.clear ↦ clear_value rule
  | OperationType.set ↦ set_value op.value rule
  | OperationType.append_unique ↦ append_value current op.value rule
  | OperationType.merge_by_id ↦ merge_value current op.value rule
  | OperationType.increment ↦ increment_value current op.value
]

abbrev pub known_path : Option Leaf → Result Leaf
known_path none = err invalid_state_patch
known_path (some l) = ok l

-- `_apply_operation`, once the rule of the path is found.
abbrev pub apply_at : GraphState → PatchOperation → Leaf → Result GraphState
apply_at state op leaf = do
  require (member op.operation (path_rule leaf).operations) invalid_state_patch
  value ← operation_value (get_path state leaf) op (path_rule leaf)
  replace_path state leaf value

-- _apply_operation
unfoldable pub apply_operation : GraphState → PatchOperation → Result GraphState
apply_operation state op = do leaf ← known_path (lookup_path op.path); apply_at state op leaf

-- The `except` clauses of `apply`.
abbrev pub patch_error : Error → Error
patch_error contract_validation = invalid_state_patch
patch_error value_error = invalid_state_patch
patch_error e = e

abbrev pub guarded {ℓ} : {A : Type ℓ} → Result A → Result A
guarded (ok a) = ok a
guarded (err e) = err (patch_error e)

-- The loop of `apply`: authorization looks at the state before the patch.
unfoldable pub apply_operations :
    GraphState → List String → GraphState → List PatchOperation → Result GraphState
apply_operations state allowed candidate [] = ok candidate
apply_operations state allowed candidate (op ∷ ops) = do
  authorize state allowed op.path
  next ← apply_operation candidate op
  apply_operations state allowed next ops

abbrev pub bump_version : Bool → GraphState → GraphState → GraphState
bump_version true state candidate = record candidate { state_version = suc state.state_version }
bump_version false state candidate = candidate

-- StatePatchApplier.apply
unfoldable pub apply : GraphState → StatePatch → List String → Bool → Result GraphState
apply state patch allowed_paths increment_version = do
  require (patch.base_state_version == state.state_version) stale_state_patch
  guarded (
      apply_operations state allowed_paths state patch.operations >>= λ candidate.
      ok (bump_version increment_version state candidate))
