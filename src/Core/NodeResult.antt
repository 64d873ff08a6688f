-- ===== src/Core/NodeResult.antt =====
-- core/result.py and core/node.py: what a node returns, and what it is called with.
-- `metrics` is left out: nothing in core reads it. Messages are kept as texts.
use agent_graph_engine.Prelude.{
  ℕ, String, ◌≡◌, Bool, true, false, not, ◌&&◌, ◌||◌, Option, List, is_some,
}
use agent_graph_engine.Prelude.Text.{str_eq}
use agent_graph_engine.Core.Enums.{NodeType, NodeStatus, FailureCategory, CheckpointOutcome}
use agent_graph_engine.Core.Errors.{Result, ok, contract_validation, ◌>>◌, require, refuse}
use agent_graph_engine.Core.Metadata.{Metadata}
use agent_graph_engine.Core.State.{GraphState}
use agent_graph_engine.Core.Policy.{PolicySnapshot}
use agent_graph_engine.Core.Patches.Apply.{StatePatch}

pub record ResultReason : Type 0 where
  pub code : String
  pub message : String

pub record Evidence : Type 0 where
  pub kind : String
  pub reference : String
  pub metadata : Metadata

pub record ExternalEffect : Type 0 where
  pub kind : String
  pub reference : String

pub record CheckpointRequest : Type 0 where
  pub code : String
  pub message : String

pub record NodeResult : Type 0 where
  pub node_id : String
  pub attempt_id : String
  pub status : NodeStatus
  pub reason : Option ResultReason
  pub failure_category : Option FailureCategory
  pub state_patch : Option StatePatch
  pub evidence : List Evidence
  pub external_effects : List ExternalEffect
  pub checkpoint_request : Option CheckpointRequest
  pub checkpoint_outcome : Option CheckpointOutcome

-- The checks of the constructors: ResultReason, Evidence, ExternalEffect and CheckpointRequest.
abbrev pub checked_reason : ResultReason → Result ResultReason
checked_reason r = do refuse (str_eq r.code "" || str_eq r.message "") contract_validation; ok r

abbrev pub checked_evidence : Evidence → Result Evidence
checked_evidence r = do refuse (str_eq r.kind "" || str_eq r.reference "") contract_validation; ok r

abbrev pub checked_effect : ExternalEffect → Result ExternalEffect
checked_effect r = do refuse (str_eq r.kind "" || str_eq r.reference "") contract_validation; ok r

abbrev pub checked_request : CheckpointRequest → Result CheckpointRequest
checked_request r = do refuse (str_eq r.code "" || str_eq r.message "") contract_validation; ok r

abbrev pub is_failed : NodeStatus → Bool
is_failed NodeStatus.failed = true
is_failed _ = false

abbrev pub is_succeeded : NodeStatus → Bool
is_succeeded NodeStatus.succeeded = true
is_succeeded _ = false

abbrev is_checkpoint : NodeStatus → Bool
is_checkpoint NodeStatus.checkpoint_required = true
is_checkpoint _ = false

-- FAILED needs a reason and a category; nothing else may carry a category.
abbrev failure_fits : NodeStatus → Bool → Bool → Bool
failure_fits NodeStatus.failed reason category = reason && category
failure_fits _ reason category = not category

-- NodeResult.__post_init__
unfoldable pub node_result : NodeResult → Result NodeResult
node_result r = do
  refuse (str_eq r.node_id "" || str_eq r.attempt_id "") contract_validation
  require (failure_fits r.status (is_some r.reason) (is_some r.failure_category))
      contract_validation
  refuse (is_succeeded r.status && is_some r.reason) contract_validation
  refuse (is_checkpoint r.status && not (is_some r.checkpoint_request)) contract_validation
  refuse (is_some r.checkpoint_outcome && not (is_succeeded r.status)) contract_validation
  ok r

-- The result's contract: what `node_result` lets through.
pub record IsContractual (r : NodeResult) : Type 0 where
  pub checked : node_result r ≡ ok r

-- `deadline` is a point in time.
pub record NodeContext : Type 0 where
  pub run_id : String
  pub node_attempt_id : String
  pub idempotency_key : String
  pub policy_snapshot : PolicySnapshot
  pub allowed_state_patch_paths : List String
  pub deadline : Option ℕ

pub record NodeDefinition : Type 0 where
  pub id : String
  pub node_type : NodeType
  pub allowed_patch_paths : List String

-- A node is code outside of core: it returns a result or raises.
abbrev pub Node : Type 0
Node = GraphState → NodeContext → Result NodeResult
