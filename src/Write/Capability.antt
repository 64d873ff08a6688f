-- ===== src/Write/Capability.antt =====
-- write/capability.py: which paths an item may write, and whether a path is one of them.
use agent_graph_engine.Prelude.{
  ℕ, zero, suc, String, Bool, true, false, ◌&&◌, Option, some, List, [], ◌∷◌, ◌++◌, if◌then◌else◌,
  length, ltb, same_bool, any, select,
}
use agent_graph_engine.Prelude.Text.{str_eq, same_option}
use agent_graph_engine.Prelude.Fallible.{Fallible, fine, failed, ◌>>=◌, demand}
use agent_graph_engine.Work.Models.{
  WorkError, RepoPathSpec, WorkItem, WorkScope, WorkSourceSnapshot, WorkPackage,
  capability_mismatch,
}
use agent_graph_engine.Integration.Models.{SelectionPlan}
use agent_graph_engine.Write.Paths.{normalize_repo_path}

abbrev pub same_spec : RepoPathSpec → RepoPathSpec → Bool
same_spec a b = str_eq a.path b.path && same_bool a.directory_hint b.directory_hint

abbrev pub same_specs : List RepoPathSpec → List RepoPathSpec → Bool
same_specs [] [] = true
same_specs (a ∷ as') (b ∷ bs) = same_spec a b && same_specs as' bs
same_specs _ _ = false

-- The loop of `stable_path_union`; a key is both fields of a spec.
unfoldable pub first_of_each : List RepoPathSpec → List RepoPathSpec → List RepoPathSpec
first_of_each seen [] = []
first_of_each seen (p ∷ ps) =
    let skipped = first_of_each seen ps in
    let kept = p ∷ first_of_each (p ∷ seen) ps in if any (same_spec p) seen then skipped else kept

abbrev pub stable_path_union : List RepoPathSpec → List RepoPathSpec → List RepoPathSpec
stable_path_union first second = first_of_each [] (first ++ second)

-- parts[:n]
abbrev pub take {ℓ} : {A : Type ℓ} → ℕ → List A → List A
take zero xs = []
take (suc n) [] = []
take (suc n) (x ∷ xs) = x ∷ take n xs

abbrev pub same_parts : List String → List String → Bool
same_parts [] [] = true
same_parts (a ∷ as') (b ∷ bs) = str_eq a b && same_parts as' bs
same_parts _ _ = false

-- One round of the loop of `path_is_allowed`.
abbrev pub covers : Bool → List String → List String → Bool
covers true candidate authority =
    ltb (length authority) (length candidate)
    && same_parts (take (length authority) candidate) authority
covers false candidate authority = same_parts candidate authority

unfoldable pub allowed_by : List String → List RepoPathSpec → Fallible WorkError Bool
allowed_by candidate [] = fine false
allowed_by candidate (spec ∷ rest) =
    let later = allowed_by candidate rest in
    normalize_repo_path spec.path >>= λ authority.
    if covers spec.directory_hint candidate authority then fine true else later

unfoldable pub path_is_allowed : String → List RepoPathSpec → Fallible WorkError Bool
path_is_allowed path allowed = do candidate ← normalize_repo_path path; allowed_by candidate allowed

-- `_one`, after its search
abbrev pub sole {ℓ} : {A : Type ℓ} → List A → Fallible WorkError A
sole (x ∷ []) = fine x
sole _ = failed (capability_mismatch "selected source object is absent or ambiguous")

abbrev pub is_id : Option String → String → Bool
is_id expected id = same_option (some id) expected

abbrev pub one_item : List WorkItem → Option String → Fallible WorkError WorkItem
one_item items expected = sole (select (λ i. is_id expected i.item_id) items)

abbrev pub one_scope : List WorkScope → Option String → Fallible WorkError WorkScope
one_scope scopes expected = sole (select (λ s. is_id expected s.scope_id) scopes)

-- all(comparisons)
abbrev pub comparisons :
    WorkSourceSnapshot → SelectionPlan → WorkPackage → WorkItem → WorkScope → Bool
comparisons snapshot selection work_package item scope =
    is_id selection.item_id work_package.item_id
    && is_id selection.item_id item.item_id
    && is_id selection.scope_id work_package.scope_id
    && is_id selection.scope_id item.scope_id
    && str_eq item.scope_id scope.scope_id
    && same_option work_package.parent_scope_id scope.parent_scope_id
    && str_eq work_package.source_revision.fingerprint snapshot.revision.fingerprint
    && same_specs work_package.implementation_paths item.implementation_paths
    && same_specs work_package.test_paths item.test_paths
    && same_option work_package.branch_hint scope.branch_hint
    && same_option work_package.base_branch_hint scope.base_branch_hint

-- for spec in expected: normalize_repo_path(spec.path)
unfoldable pub normalize_all : List RepoPathSpec → Fallible WorkError (Unit {0})
normalize_all [] = fine tt
normalize_all (p ∷ ps) = let rest = normalize_all ps in normalize_repo_path p.path >>= λ _. rest

unfoldable pub reconcile_write_capability :
    WorkSourceSnapshot → SelectionPlan → WorkPackage → Fallible WorkError (List RepoPathSpec)
reconcile_write_capability snapshot selection work_package = do
  item ← one_item snapshot.items selection.item_id
  scope ← one_scope snapshot.scopes selection.scope_id
  let expected = stable_path_union item.implementation_paths item.test_paths
  _ ←
      demand
        (comparisons snapshot selection work_package item scope
          && same_specs work_package.allowed_paths expected)
        (capability_mismatch "work_package_capability_mismatch")
  _ ← normalize_all expected
  fine expected
