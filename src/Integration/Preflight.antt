-- ===== src/Integration/Preflight.antt =====
-- integration/preflight.py: whether the repository is ready for the selected scope. Paths are
-- texts, and of the snapshot of a repository (infra/git.py) the root and the upstream, which
-- nothing here reads, are left out.
use agent_graph_engine.Prelude.{
  String, Bool, true, false, not, ◌&&◌, Option, none, some, List, [], ◌∷◌, ◌++◌, if◌then◌else◌,
  is_empty, is_some,
}
use agent_graph_engine.Prelude.Text.{same_option, contains}
use agent_graph_engine.Work.Models.{WorkScope, WorkScopeStatus, WorkSourceSnapshot}
use agent_graph_engine.Speckit.Lookup.{first_scope}
use agent_graph_engine.Integration.Models.{
  IntegrationIssue, IntegrationIssueSeverity, SelectionDisposition, SelectionPlan,
}

pub record RepositorySnapshot : Type 0 where
  pub head_sha : Option String
  pub branch : Option String
  pub detached_head : Bool
  pub staged_paths : List String
  pub unstaged_paths : List String
  pub untracked_paths : List String
  pub conflicted_paths : List String
  pub dirty : Bool

pub data BranchDisposition : Type 0 where
  aligned preparation_required not_applicable blocked : BranchDisposition

pub record PreflightAssessment : Type 0 where
  pub ready : Bool
  pub issues : List IntegrationIssue
  pub branch_disposition : BranchDisposition

abbrev found : String → String → List String → IntegrationIssue
found code message related = record {
  code = code;
  severity = IntegrationIssueSeverity.error;
  message = message;
  related_ids = related;
}

-- dict.fromkeys
abbrev first_of_texts : List String → List String → List String
first_of_texts seen [] = []
first_of_texts seen (x ∷ xs) =
    let skipped = first_of_texts seen xs in
    let kept = x ∷ first_of_texts (x ∷ seen) xs in if contains seen x then skipped else kept

abbrev pub when_so : Bool → IntegrationIssue → List IntegrationIssue
when_so true problem = problem ∷ []
when_so false problem = []

abbrev pub conflicts_present : RepositorySnapshot → IntegrationIssue
conflicts_present git =
    found "conflicts_present" "repository contains unresolved conflicts" git.conflicted_paths

abbrev pub dirty_worktree : RepositorySnapshot → IntegrationIssue
dirty_worktree git = found "dirty_worktree" "repository working tree is not clean" (
    first_of_texts []
      (git.staged_paths ++ git.unstaged_paths ++ git.untracked_paths ++ git.conflicted_paths))

abbrev pub unborn_head : IntegrationIssue
unborn_head = found "unborn_head" "repository HEAD has no commit" []

abbrev pub head_detached : IntegrationIssue
head_detached = found "detached_head" "detached HEAD is not execution-ready" []

-- The issues of the repository.
abbrev pub repository_issues : RepositorySnapshot → List IntegrationIssue
repository_issues git =
    when_so (not (is_some git.head_sha)) unborn_head
    ++ (when_so git.detached_head head_detached
        ++ (when_so (not (is_empty git.conflicted_paths)) (conflicts_present git)
            ++ when_so git.dirty (dirty_worktree git)))

abbrev pub Branch : Type 0
Branch = BranchDisposition × List IntegrationIssue

abbrev pub active_branch : String → Bool → Branch
active_branch scope_id true = (BranchDisposition.aligned, [])
active_branch scope_id false = (
  BranchDisposition.blocked,
  found "active_scope_branch_mismatch" "ACTIVE scope requires its declared branch" (scope_id ∷ [])
      ∷ [],
)

abbrev pub planned_branch : String → Bool → Bool → Branch
planned_branch scope_id true on_base = (BranchDisposition.aligned, [])
planned_branch scope_id false true = (BranchDisposition.preparation_required, [])
planned_branch scope_id false false = (
  BranchDisposition.blocked,
  found "branch_context_conflict" "current branch matches neither scope nor base branch hint"
        (scope_id ∷ [])
      ∷ [],
)

-- The disposition of the branch, by the status of the scope.
abbrev pub scope_branch : RepositorySnapshot → String → WorkScope → WorkScopeStatus → Branch
scope_branch git scope_id scope WorkScopeStatus.completed = (BranchDisposition.not_applicable, [])
scope_branch git scope_id scope WorkScopeStatus.active =
    active_branch scope_id (same_option git.branch scope.branch_hint)
scope_branch git scope_id scope WorkScopeStatus.planned =
    planned_branch scope_id (same_option git.branch scope.branch_hint)
      (same_option git.branch scope.base_branch_hint)
scope_branch git scope_id scope _ = (BranchDisposition.blocked, [])

abbrev pub found_branch : RepositorySnapshot → String → Option WorkScope → Branch
found_branch git scope_id none = (BranchDisposition.blocked, [])
found_branch git scope_id (some scope) = scope_branch git scope_id scope scope.status

abbrev pub branch_of : RepositorySnapshot → WorkSourceSnapshot → Option String → Branch
branch_of git snapshot none = (BranchDisposition.not_applicable, [])
branch_of git snapshot (some scope_id) =
    found_branch git scope_id (first_scope scope_id snapshot.scopes)

abbrev hard_codes : List String
hard_codes =
    "active_scope_conflict" ∷ "active_scope_status_mismatch" ∷ "scope_not_eligible"
    ∷ "unknown_scope" ∷ "unknown_parent_scope" ∷ []

abbrev first_is_hard : List IntegrationIssue → Bool
first_is_hard [] = false
first_is_hard (i ∷ rest) = contains hard_codes i.code

abbrev is_blocked : SelectionDisposition → Bool
is_blocked SelectionDisposition.blocked = true
is_blocked _ = false

-- The selection is blocked for a reason that the preflight reports again.
abbrev pub stops : SelectionPlan → Bool
stops selection = is_blocked selection.disposition && first_is_hard selection.issues

abbrev assessed : List IntegrationIssue → BranchDisposition → PreflightAssessment
assessed problems disposition = record {
  ready = is_empty problems;
  issues = problems;
  branch_disposition = disposition;
}

unfoldable pub assess_preflight :
    RepositorySnapshot → WorkSourceSnapshot → SelectionPlan → PreflightAssessment
assess_preflight git snapshot selection =
    let branch = branch_of git snapshot selection.scope_id in
    let problems = repository_issues git ++ branch.1 in
    if stops selection
    then assessed (problems ++ selection.issues) BranchDisposition.blocked
    else assessed problems branch.0
