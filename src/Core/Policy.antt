-- ===== src/Core/Policy.antt =====
-- core/policy.py: the policy of a run, and the checks of its construction.
use agent_graph_engine.Prelude.{ℕ, Bool, not, leb}
use agent_graph_engine.Prelude.Int.{ℤ, pos, negsuc}
use agent_graph_engine.Core.Enums.{CommitMode}
use agent_graph_engine.Core.Errors.{Result, ok, err, contract_validation, ◌>>=◌, ◌>>◌, require}

pub record PolicySnapshot : Type 0 where
  pub max_repair_cycles : ℕ
  pub max_work_items_per_run : ℕ
  pub commit_mode : CommitMode
  pub push_mode : Bool
  pub pull_request_mode : Bool
  pub merge_allowed : Bool
  pub deployment_allowed : Bool

-- A Python int that has to be 0 or more.
abbrev natural : ℤ → Result ℕ
natural (pos n) = ok n
natural (negsuc n) = err contract_validation

-- PolicySnapshot(…), with its __post_init__
unfoldable pub policy : ℤ → ℤ → CommitMode → Bool → Bool → Bool → Bool → Result PolicySnapshot
policy cycles items mode push pull_request merge deployment = do
  repairs ← natural cycles
  limit ← natural items
  require (leb 1 limit) contract_validation
  require (not merge) contract_validation
  require (not deployment) contract_validation
  ok (record {
    max_repair_cycles = repairs;
    max_work_items_per_run = limit;
    commit_mode = mode;
    push_mode = push;
    pull_request_mode = pull_request;
    merge_allowed = merge;
    deployment_allowed = deployment;
  })
