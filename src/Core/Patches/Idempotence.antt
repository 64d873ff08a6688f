-- ===== src/Core/Patches/Idempotence.antt =====
-- core/patches.py: operations that may be applied again.
use agent_graph_engine.Prelude.{◌≡◌, ap, ◌∙◌, ◌⊎◌, arith}
use agent_graph_engine.Core.Enums.{OperationType, member, operation_enumerated}
use agent_graph_engine.Core.Errors.{
  ok, ◌>>=◌, ◌>>◌, bind-eq-ok, require-eq-ok, invalid_state_patch, require,
}
use agent_graph_engine.Core.State.{GraphState}
use agent_graph_engine.Core.Patches.Values.{Value}
use agent_graph_engine.Core.Patches.Paths.{Leaf, PathRule, lookup_path, path_rule}
use agent_graph_engine.Core.Patches.Groups.{
  set_repository, set_project, set_baseline, set_work, set_package, set_texts, set_scope, set_risk,
  set_changes, set_validation, set_review, set_repair, set_failure, set_cancellation,
}
use agent_graph_engine.Core.Patches.Access.{get_path, replace_path}
use agent_graph_engine.Core.Patches.Apply.{
  PatchOperation, operation_value, apply_operation, apply_at, known_path,
}

rewrite_same :
    (s : GraphState) (l : Leaf) (v : Value) {t : GraphState}
    → replace_path s l v ≡ ok t
    → replace_path t l v ≡ ok t
unfolding replace_path set_repository set_project set_baseline set_work set_package set_texts
    set_scope set_risk set_changes set_validation set_review set_repair set_failure set_cancellation
rewrite_same s (Leaf.repository f) v h = ground arith
rewrite_same s (Leaf.work f) v h = ground arith
rewrite_same s _ v h = ground arith

same_value :
    (u v : Value) (op : PatchOperation) (rule : PathRule)
    → (op.operation ≡ OperationType.set) ⊎ (op.operation ≡ OperationType.clear)
    → operation_value u op rule ≡ operation_value v op rule
unfolding operation_value
same_value u v op rule h = ground arith

-- A SET or a CLEAR may be applied again: where it was applied, applying it to the state that it
-- made succeeds and changes nothing.
pub apply_operation_again :
    (s : GraphState) (op : PatchOperation) {t : GraphState}
    → (op.operation ≡ OperationType.set) ⊎ (op.operation ≡ OperationType.clear)
    → apply_operation s op ≡ ok t
    → apply_operation t op ≡ ok t
unfolding apply_operation
apply_operation_again s op {t} kind h =
    let (l, located, applied) = bind-eq-ok (known_path (lookup_path op.path)) (apply_at s op) h in
    let (legal, valued) =
      require-eq-ok (member op.operation (path_rule l).operations) invalid_state_patch _ applied in
    let (v, made, wrote) =
      bind-eq-ok (operation_value (get_path s l) op (path_rule l)) (replace_path s l) valued in
    let made' = same_value (get_path t l) (get_path s l) op (path_rule l) kind ∙ made in
    let wrote' = rewrite_same s l v wrote in
    ap (λ x. x >>= apply_at t op) located
    ∙ ap
        (λ b.
          require b invalid_state_patch
          >> (operation_value (get_path t l) op (path_rule l) >>= replace_path t l))
        legal
    ∙ ap (λ x. x >>= replace_path t l) made'
    ∙ wrote'
