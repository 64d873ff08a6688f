-- ===== src/Write/Reconciled.antt =====
-- adapters/speckit/adapter.py and write/capability.py: the adapter's package and the capability
-- that a write expects of it.
use agent_graph_engine.Prelude.{
  String, ◌≡◌, refl, sym, ap, ◌∙◌, subst, inl, inr, Bool, true, false, Option, none, some, List, [],
  ◌∷◌, ◌++◌, map, same_bool, any, select, All, arith, eq_iff, Bool-cases,
}
use agent_graph_engine.Prelude.Text.{str_eq, contains, same_option}
use agent_graph_engine.Prelude.Select.{All-map, All-both}
use agent_graph_engine.Prelude.Fallible.{fine, ◌>>=◌}
use agent_graph_engine.Work.Models.{RepoPathSpec, WorkItem, WorkScope, WorkSourceSnapshot}
use agent_graph_engine.Speckit.Lookup.{first_item, first_scope}
use agent_graph_engine.Speckit.Package.{first_of_each_path, build_package, package_of}
use agent_graph_engine.Integration.Models.{ready_plan}
use agent_graph_engine.Write.Capability.{
  same_spec, same_specs, first_of_each, stable_path_union, sole, is_id, one_item, one_scope,
  comparisons, normalize_all, reconcile_write_capability,
}

-- Two specs with one path have one hint.
abbrev pub Agrees : RepoPathSpec → RepoPathSpec → Type 0
Agrees p q = str_eq p.path q.path ≡ true → p.directory_hint ≡ q.directory_hint

abbrev pub HasOneHint : List RepoPathSpec → Type 0
HasOneHint ps = All (λ p. All (Agrees p) ps) ps

str_eq_sym : (a b : String) → str_eq a b ≡ str_eq b a
str_eq_sym a b = ground (arith, eq_iff a b, eq_iff b a)

same_bool_refl : (b : Bool) → same_bool b b ≡ true
same_bool_refl true = refl
same_bool_refl false = refl

same_spec_of_path : (p q : RepoPathSpec) → Agrees p q → same_spec p q ≡ str_eq q.path p.path
same_spec_of_path p q agree = elim (Bool-cases (str_eq p.path q.path)) [
  | inl same ↦
      ground (arith, same, str_eq_sym p.path q.path, agree same, same_bool_refl q.directory_hint)
  | inr other ↦ ground (arith, other, str_eq_sym p.path q.path)
]

same_seen :
    (p : RepoPathSpec) (seen : List RepoPathSpec)
    → All (Agrees p) seen
    → any (same_spec p) seen ≡ contains (map (λ q. q.path) seen) p.path
same_seen p [] h = refl
same_seen p (q ∷ seen) h = ground (arith, same_spec_of_path p q h.0, same_seen p seen h.1)

same_union :
    (seen ps : List RepoPathSpec)
    → All (λ p. All (Agrees p) seen) ps
    → HasOneHint ps
    → first_of_each_path (map (λ q. q.path) seen) ps ≡ first_of_each seen ps
unfolding first_of_each_path first_of_each
same_union seen [] h one = refl
same_union seen (p ∷ ps) (own, others) one =
    let one' =
      All-map (λ q. All (Agrees q) (p ∷ ps)) (λ q. All (Agrees q) ps) ps (λ q a. a.1) one.1 in
    let firsts = All-map (λ q. All (Agrees q) (p ∷ ps)) (λ q. Agrees q p) ps (λ q a. a.0) one.1 in
    let later = All-both (λ q. Agrees q p) (λ q. All (Agrees q) seen) ps firsts others in
    ground (
      arith,
      same_seen p seen own,
      same_union seen ps others one',
      same_union (p ∷ seen) ps later one',
    )

-- `_one` and the lookup of the adapter find the same element.
sole_head {ℓ} : {A : Type ℓ} (x : A) (rest : List A) {y : A} → sole (x ∷ rest) ≡ fine y → x ≡ y
sole_head x [] h = ground arith
sole_head x (z ∷ rest) h = absurd (ground arith)

first_of_one_item :
    (id : String) (items : List WorkItem) (i : WorkItem)
    → one_item items (some id) ≡ fine i
    → first_item id items ≡ some i
unfolding first_item
first_of_one_item id [] i h = absurd (ground arith)
first_of_one_item id (j ∷ items) i h = elim (Bool-cases (str_eq j.item_id id)) [
  | inl here ↦
      let same = sole_head j (select (λ x. is_id (some id) x.item_id) items) (rw here at h) in
      ground (arith, same, here)
  | inr later ↦ ground (arith, first_of_one_item id items i (ground arith))
]

first_of_one_scope :
    (id : String) (scopes : List WorkScope) (s : WorkScope)
    → one_scope scopes (some id) ≡ fine s
    → first_scope id scopes ≡ some s
unfolding first_scope
first_of_one_scope id [] s h = absurd (ground arith)
first_of_one_scope id (j ∷ scopes) s h = elim (Bool-cases (str_eq j.scope_id id)) [
  | inl here ↦
      let same = sole_head j (select (λ x. is_id (some id) x.scope_id) scopes) (rw here at h) in
      ground (arith, same, here)
  | inr later ↦ ground (arith, first_of_one_scope id scopes s (ground arith))
]

first_scope-id :
    (id : String) (scopes : List WorkScope) (s : WorkScope)
    → first_scope id scopes ≡ some s
    → str_eq s.scope_id id ≡ true
unfolding first_scope
first_scope-id id [] s h = absurd (ground arith)
first_scope-id id (j ∷ scopes) s h = elim (Bool-cases (str_eq j.scope_id id)) [
  | inl here ↦ let same : j ≡ s = ground arith in subst (λ x. str_eq x.scope_id id ≡ true) same here
  | inr later ↦ first_scope-id id scopes s (ground arith)
]

same_specs_refl : (ps : List RepoPathSpec) → same_specs ps ps ≡ true
same_specs_refl [] = refl
same_specs_refl (p ∷ ps) =
    ground
      (arith, (eq_iff p.path p.path).1 refl, same_bool_refl p.directory_hint, same_specs_refl ps)

same_option_refl : (o : Option String) → same_option o o ≡ true
same_option_refl none = refl
same_option_refl (some a) = (eq_iff a a).1 refl

nothing_seen : (ps : List RepoPathSpec) → All (λ p. All (Agrees p) []) ps
nothing_seen [] = tt
nothing_seen (p ∷ ps) = (tt, nothing_seen ps)

package-allows :
    (snapshot : WorkSourceSnapshot) (item : WorkItem) (scope : WorkScope)
    → HasOneHint (item.implementation_paths ++ item.test_paths)
    → same_specs
        (package_of snapshot item scope).allowed_paths
        (stable_path_union item.implementation_paths item.test_paths)
      ≡ true
package-allows snapshot item scope hints =
    let ps = item.implementation_paths ++ item.test_paths in
    let same = same_union [] ps (nothing_seen ps) hints in
    ap (λ qs. same_specs qs (first_of_each [] ps)) same ∙ same_specs_refl (first_of_each [] ps)

package-compares :
    (snapshot : WorkSourceSnapshot) (item : WorkItem) (scope : WorkScope) (reason : String)
    → first_scope item.scope_id snapshot.scopes ≡ some scope
    → item.parent_scope_id ≡ scope.parent_scope_id
    → comparisons snapshot
        (ready_plan item.scope_id item.item_id reason)
        (package_of snapshot item scope)
        item
        scope
      ≡ true
package-compares snapshot item scope reason found parent =
    let of_scope =
      str_eq_sym item.scope_id scope.scope_id
      ∙ first_scope-id item.scope_id snapshot.scopes scope found in
    let own_parent : same_option item.parent_scope_id scope.parent_scope_id ≡ true =
      ap (λ o. same_option item.parent_scope_id o) (sym parent)
      ∙ same_option_refl item.parent_scope_id in
    let id = (eq_iff item.item_id item.item_id).1 refl in
    let own = (eq_iff item.scope_id item.scope_id).1 refl in
    let print = (eq_iff snapshot.revision.fingerprint snapshot.revision.fingerprint).1 refl in
    let code = same_specs_refl item.implementation_paths in
    let tests = same_specs_refl item.test_paths in
    let branch = same_option_refl scope.branch_hint in
    let base = same_option_refl scope.base_branch_hint in
    ground (arith, id, own, of_scope, own_parent, print, code, tests, branch, base)

-- The adapter's package of an item is the capability that a write expects: it passes every
-- comparison, and the paths it allows are the stable union. The item and its scope are the only
-- ones with their ids, the item names its scope's parent, no path is declared with two hints, and
-- the paths are normal.
pub build_package-reconciles :
    (snapshot : WorkSourceSnapshot) (item : WorkItem) (scope : WorkScope) (reason : String)
    → one_item snapshot.items (some item.item_id) ≡ fine item
    → one_scope snapshot.scopes (some item.scope_id) ≡ fine scope
    → item.parent_scope_id ≡ scope.parent_scope_id
    → HasOneHint (item.implementation_paths ++ item.test_paths)
    → normalize_all (stable_path_union item.implementation_paths item.test_paths) ≡ fine tt
    → (build_package snapshot item.item_id
        >>= reconcile_write_capability snapshot (ready_plan item.scope_id item.item_id reason))
      ≡ fine (stable_path_union item.implementation_paths item.test_paths)
unfolding build_package reconcile_write_capability
build_package-reconciles snapshot item scope reason one_i one_s parent hints normal =
    let found = first_of_one_item item.item_id snapshot.items item one_i in
    let found_scope = first_of_one_scope item.scope_id snapshot.scopes scope one_s in
    let built : build_package snapshot item.item_id ≡ fine (package_of snapshot item scope) =
      ground (arith, found, found_scope) in
    let compared = package-compares snapshot item scope reason found_scope parent in
    let allowed = package-allows snapshot item scope hints in
    ap
      (λ r.
        r >>= reconcile_write_capability snapshot (ready_plan item.scope_id item.item_id reason))
      built
    ∙ ground (arith, one_i, one_s, compared, allowed, normal)
