-- ===== src/Integration/Aligned.antt =====
-- integration/preflight.py over integration/selection.py: what a run may start from.
use agent_graph_engine.Prelude.{◌≡◌, ◌⊎◌, true, false, [], is_some}
use agent_graph_engine.Prelude.Text.{same_option}
use agent_graph_engine.Work.Models.{WorkScope, WorkScopeStatus}
use agent_graph_engine.Integration.Preflight.{RepositorySnapshot, BranchDisposition}

-- A commit is checked out on a branch, without conflicts or other changes.
abbrev pub IsClean : RepositorySnapshot → Type 0
IsClean git =
    (is_some git.head_sha ≡ true)
    × ((git.detached_head ≡ false) × ((git.conflicted_paths ≡ []) × (git.dirty ≡ false)))

-- The branch is the scope's own, or, for a planned scope, the one that it starts from.
abbrev pub IsOnBranch : RepositorySnapshot → WorkScope → BranchDisposition → Type 0
IsOnBranch git scope disposition =
    ((same_option git.branch scope.branch_hint ≡ true) × (disposition ≡ BranchDisposition.aligned))
    ⊎ ((scope.status ≡ WorkScopeStatus.planned)
        × ((same_option git.branch scope.base_branch_hint ≡ true)
            × (disposition ≡ BranchDisposition.preparation_required)))
