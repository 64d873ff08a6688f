-- ===== src/Core/Patches/Laws.antt =====
-- core/patches.py, `StatePatchApplier.apply`: what a whole patch may and may not do.
use agent_graph_engine.Prelude.{
  String, ◌≡◌, refl, sym, ap, ◌∙◌, subst, inl, inr, Bool, true, false, Option, none, some, List, [],
  ◌∷◌, arith, eq_iff, Bool-cases, ◌==◌, map,
}
use agent_graph_engine.Prelude.Text.{str_eq}
use agent_graph_engine.Core.Enums.{member, operation_enumerated}
use agent_graph_engine.Core.Errors.{
  Result, ok, err, stale_state_patch, bind-eq-ok, then-eq-ok, require-eq-ok, ok_inj,
}
use agent_graph_engine.Core.State.{GraphState}
use agent_graph_engine.Core.Patches.Values.{Atom, Value, tuple}
use agent_graph_engine.Core.Patches.Paths.{
  Leaf, ScopeField, path_text, path_keys, find_key, lookup_path, path_rule,
}
use agent_graph_engine.Core.Patches.Access.{get_path, replace_path}
use agent_graph_engine.Core.Patches.Ownership.{authorize, engine_owned}
use agent_graph_engine.Core.Patches.Apply.{
  PatchOperation, StatePatch, operation_value, apply_operation, apply_operations, apply,
  bump_version, guarded, apply_at, known_path,
}
use agent_graph_engine.Core.Patches.Frame.{
  SameOwned, SameOwned-refl, SameOwned-trans, replace_path-SameOwned,
}
use agent_graph_engine.Core.Patches.Reads.{get_path-replace_path_ne}

find_key-path_text :
    (path : String) (ls : List Leaf) {l : Leaf} → find_key path ls ≡ some l → path_text l ≡ path
unfolding find_key
find_key-path_text path [] h = absurd (ground arith)
find_key-path_text path (k ∷ ks) {l = l} h = elim (Bool-cases (str_eq (path_text k) path)) [
  | inl here ↦
      subst (λ x. path_text x ≡ path) (some_inj (ground arith)) ((eq_iff (path_text k) path).0 here)
  | inr there ↦ find_key-path_text path ks (ground arith)
]
  where
    some_inj : {a b : Leaf} → some a ≡ some b → a ≡ b
    some_inj e = cc

-- An operation that is applied writes one leaf, the one that its path spells.
operation_writes :
    (s : GraphState) (op : PatchOperation) {t : GraphState}
    → apply_operation s op ≡ ok t
    → (l : Leaf) × (v : Value) × (path_text l ≡ op.path) × (replace_path s l v ≡ ok t)
unfolding apply_operation lookup_path
operation_writes s op h =
    let (l, located, applied) = bind-eq-ok (known_path (lookup_path op.path)) (apply_at s op) h in
    let (_, valued) = require-eq-ok (member op.operation (path_rule l).operations) _ _ applied in
    let (v, _, wrote) =
      bind-eq-ok (operation_value (get_path s l) op (path_rule l)) (replace_path s l) valued in
    (l, v, find_key-path_text op.path path_keys (known (find_key op.path path_keys) located), wrote)
  where
    known : (o : Option Leaf) {l : Leaf} → known_path o ≡ ok l → o ≡ some l
    known none e = absurd (ground arith)
    known (some l) e = ground arith

apply_operation-SameOwned :
    (s : GraphState) (op : PatchOperation) {t : GraphState}
    → apply_operation s op ≡ ok t
    → SameOwned s t
apply_operation-SameOwned s op h =
    let (l, v, _, wrote) = operation_writes s op h in replace_path-SameOwned s l v wrote

apply_operation-get_path :
    (s : GraphState) (op : PatchOperation) (k : Leaf) {t : GraphState}
    → apply_operation s op ≡ ok t
    → str_eq op.path (path_text k) ≡ false
    → get_path t k ≡ get_path s k
apply_operation-get_path s op k {t = t} h n =
    let (l, v, spelled, wrote) = operation_writes s op h in
    get_path-replace_path_ne l k s v t wrote (ap (λ p. str_eq p (path_text k)) spelled ∙ n)

module _ (s : GraphState) (allowed : List String) where
  operations-SameOwned :
      (c : GraphState) (ops : List PatchOperation) {t : GraphState}
      → apply_operations s allowed c ops ≡ ok t
      → SameOwned c t
  unfolding apply_operations
  operations-SameOwned c [] h = subst (SameOwned c) (ok_inj h) (SameOwned-refl c)
  operations-SameOwned c (op ∷ ops) h =
      let (_, applied) = then-eq-ok (authorize s allowed op.path) _ h in
      let (d, one, rest) =
        bind-eq-ok (apply_operation c op) (λ d. apply_operations s allowed d ops) applied in
      SameOwned-trans (apply_operation-SameOwned c op one) (operations-SameOwned d ops rest)

  operations-get_path :
      (c : GraphState) (ops : List PatchOperation) (k : Leaf) {t : GraphState}
      → apply_operations s allowed c ops ≡ ok t
      → ¬ (authorize s allowed (path_text k) ≡ ok tt)
      → get_path t k ≡ get_path c k
  unfolding apply_operations
  operations-get_path c [] k h n = ap (λ u. get_path u k) (sym (ok_inj h))
  operations-get_path c (op ∷ ops) k h n =
      let (granted, applied) = then-eq-ok (authorize s allowed op.path) _ h in
      let (d, one, rest) =
        bind-eq-ok (apply_operation c op) (λ d. apply_operations s allowed d ops) applied in
      let later = operations-get_path d ops k rest n in
      elim (Bool-cases (str_eq op.path (path_text k))) [
        | inl same' ↦ absurd (
            n (
              subst (λ p. authorize s allowed p ≡ ok tt) ((eq_iff op.path (path_text k)).0 same')
                granted))
        | inr other ↦ later ∙ apply_operation-get_path c op k one other
      ]

-- The state of a patch's result before any operation: the version may count up at once.
unguarded : (m : Result GraphState) {t : GraphState} → guarded m ≡ ok t → m ≡ ok t
unguarded (ok a) h = h
unguarded (err e) h = absurd (ground arith)

abbrev ended : Bool → GraphState → GraphState → Result GraphState
ended b s c = ok (bump_version b s c)

-- A patch that is applied: the operations all went through, and then the version was settled.
pub applied_operations :
    (s : GraphState) (patch : StatePatch) (allowed : List String) (b : Bool) {t : GraphState}
    → apply s patch allowed b ≡ ok t
    → (c : GraphState) × (apply_operations s allowed s patch.operations ≡ ok c)
      × (t ≡ bump_version b s c)
unfolding apply
applied_operations s patch allowed b h =
    let (_, rest) =
      require-eq-ok (patch.base_state_version == s.state_version) stale_state_patch _ h in
    let (c, went, e) =
      bind-eq-ok (apply_operations s allowed s patch.operations) (ended b s) (unguarded _ rest) in
    (c, went, sym (ok_inj e))

-- Whatever the operations are, a patch that is applied leaves all that the engine owns as it was:
-- the run, the cursor, the repair counters, the programmer route, the scope lock and the receipt
-- collections. Only the version changes, to the next one, and only where that is asked for.
pub apply-SameOwned :
    (s : GraphState) (patch : StatePatch) (allowed : List String) (b : Bool) {t : GraphState}
    → apply s patch allowed b ≡ ok t
    → SameOwned (bump_version b s s) t
apply-SameOwned s patch allowed b h =
    let (c, went, e) = applied_operations s patch allowed b h in
    subst (SameOwned (bump_version b s s)) (sym e)
      (bumped b c (operations-SameOwned s allowed s patch.operations went))
  where
    bumped :
        (b : Bool) (c : GraphState)
        → SameOwned s c
        → SameOwned (bump_version b s s) (bump_version b s c)
    bumped true c k = ground arith
    bumped false c k = k

get_path-bump_version :
    (b : Bool) (s c : GraphState) (k : Leaf) → get_path (bump_version b s c) k ≡ get_path c k
unfolding get_path
get_path-bump_version true s c k = refl
get_path-bump_version false s c k = refl

-- A patch that is applied changes nothing at a path that `authorize` refuses in the state before
-- the patch: an engine-owned path, a scope path while the scope is locked, or a path that no
-- pattern of the node allows.
pub apply-get_path :
    (s : GraphState) (patch : StatePatch) (allowed : List String) (b : Bool) (k : Leaf)
    {t : GraphState}
    → apply s patch allowed b ≡ ok t
    → ¬ (authorize s allowed (path_text k) ≡ ok tt)
    → get_path t k ≡ get_path s k
apply-get_path s patch allowed b k h n =
    let (c, went, e) = applied_operations s patch allowed b h in
    ap (λ u. get_path u k) e
    ∙ get_path-bump_version b s c k
    ∙ operations-get_path s allowed s patch.operations k went n

tuple_texts_inj :
    (xs ys : List String) → tuple (map Atom.text xs) ≡ tuple (map Atom.text ys) → xs ≡ ys
tuple_texts_inj [] [] h = refl
tuple_texts_inj [] (y ∷ ys) h = absurd (ground arith)
tuple_texts_inj (x ∷ xs) [] h = absurd (ground arith)
tuple_texts_inj (x ∷ xs) (y ∷ ys) h = ground (arith, tuple_texts_inj xs ys)

refused_included :
    (s : GraphState) (allowed : List String)
    → s.scope.locked ≡ true
    → ¬ (authorize s allowed "scope.included" ≡ ok tt)
unfolding authorize engine_owned
refused_included s allowed locked h = absurd (ground arith)

refused_excluded :
    (s : GraphState) (allowed : List String)
    → s.scope.locked ≡ true
    → ¬ (authorize s allowed "scope.excluded" ≡ ok tt)
unfolding authorize engine_owned
refused_excluded s allowed locked h = absurd (ground arith)

-- Once the scope is locked, a patch that is applied leaves the whole scope as it was.
pub apply-locked_scope :
    (s : GraphState) (patch : StatePatch) (allowed : List String) (b : Bool) {t : GraphState}
    → apply s patch allowed b ≡ ok t
    → s.scope.locked ≡ true
    → t.scope ≡ s.scope
unfolding get_path
apply-locked_scope s patch allowed b {t = t} h locked = ground (
  arith,
  (apply-SameOwned s patch allowed b h).locked,
  tuple_texts_inj t.scope.included s.scope.included (
      apply-get_path s patch allowed b (Leaf.scope ScopeField.included) h
        (refused_included s allowed locked)),
  tuple_texts_inj t.scope.excluded s.scope.excluded (
      apply-get_path s patch allowed b (Leaf.scope ScopeField.excluded) h
        (refused_excluded s allowed locked)),
  locked_bump b,
)
  where
    locked_bump : (b : Bool) → (bump_version b s s).scope.locked ≡ s.scope.locked
    locked_bump true = refl
    locked_bump false = refl
