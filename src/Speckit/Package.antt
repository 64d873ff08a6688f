-- ===== src/Speckit/Package.antt =====
-- adapters/speckit/adapter.py: the package of one item.
use agent_graph_engine.Prelude.{String, List, [], ◌∷◌, ◌++◌, if◌then◌else◌}
use agent_graph_engine.Prelude.Text.{contains}
use agent_graph_engine.Prelude.Fallible.{Fallible, fine, ◌>>=◌}
use agent_graph_engine.Work.Models.{
  WorkError, RepoPathSpec, WorkItem, WorkScope, WorkSourceSnapshot, WorkPackage,
}
use agent_graph_engine.Speckit.Lookup.{get_item, get_scope}

-- The loop that fills `allowed`; `seen` holds the paths alone.
unfoldable pub first_of_each_path : List String → List RepoPathSpec → List RepoPathSpec
first_of_each_path seen [] = []
first_of_each_path seen (p ∷ ps) =
    let skipped = first_of_each_path seen ps in
    let kept = p ∷ first_of_each_path (p.path ∷ seen) ps in
    if contains seen p.path then skipped else kept

abbrev pub package_of : WorkSourceSnapshot → WorkItem → WorkScope → WorkPackage
package_of snapshot item scope = record {
  item_id = item.item_id;
  title = item.title;
  scope_id = item.scope_id;
  parent_scope_id = item.parent_scope_id;
  risk = item.risk;
  goal = item.goal;
  acceptance_criteria = item.acceptance_criteria;
  test_requirements = item.test_requirements;
  dependencies = item.dependencies;
  implementation_paths = item.implementation_paths;
  test_paths = item.test_paths;
  allowed_paths = first_of_each_path [] (item.implementation_paths ++ item.test_paths);
  item_validation_checks = item.validation_checks;
  scope_required_checks = scope.required_checks;
  final_review_required = item.final_review_required;
  parallelizable = item.parallelizable;
  notes = item.notes;
  branch_hint = scope.branch_hint;
  base_branch_hint = scope.base_branch_hint;
  source_location = item.source_location;
  source_revision = snapshot.revision;
}

-- SpecKitAdapter.build_package
unfoldable pub build_package : WorkSourceSnapshot → String → Fallible WorkError WorkPackage
build_package snapshot item_id = do
  item ← get_item snapshot item_id
  scope ← get_scope snapshot item.scope_id
  fine (package_of snapshot item scope)
