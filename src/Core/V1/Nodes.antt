-- ===== src/Core/V1/Nodes.antt =====
-- core/v1_graph.py: the nodes of the canonical graph, their types and the paths that they may patch.
use agent_graph_engine.Prelude.{String, List, [], ◌∷◌, map, Option, none, some}
use agent_graph_engine.Core.Enums.{NodeType}
use agent_graph_engine.Core.NodeResult.{NodeDefinition}
use agent_graph_engine.Core.Graph.{Table, lookup}

abbrev pub v1_node_ids : List String
v1_node_ids =
    "START" ∷ "DISCOVER_PROJECT" ∷ "PREFLIGHT" ∷ "SELECT_WORK" ∷ "EXPLORE" ∷ "BUILD_TASK_PACKAGE"
    ∷ "ASSESS_RISK" ∷ "HUMAN_CHECKPOINT" ∷ "IMPLEMENT" ∷ "VALIDATE" ∷ "REVIEW" ∷ "CLASSIFY_FAILURE"
    ∷ "PROGRAMMER_REPAIR" ∷ "DEBUGGER" ∷ "CLOSE_TASK" ∷ "MORE_WORK" ∷ "DELIVERY_REVIEW"
    ∷ "CREATE_PR" ∷ "FINALIZE" ∷ "END" ∷ []

abbrev pub patch_paths : Table (List String)
patch_paths =
    ("DISCOVER_PROJECT", "repository.*" ∷ "project.*" ∷ "baseline.*" ∷ [])
    ∷ ("PREFLIGHT", "architecture_invariants.*" ∷ "requirements.*" ∷ [])
    ∷ ("SELECT_WORK", "work.*" ∷ [])
    ∷ ("EXPLORE", "baseline.*" ∷ "scope.*" ∷ "requirements.*" ∷ "acceptance_criteria.*" ∷ [])
    ∷ ("BUILD_TASK_PACKAGE", "task_package.*" ∷ [])
    ∷ ("ASSESS_RISK", "risk.level" ∷ [])
    ∷ ("IMPLEMENT", "changes.*" ∷ [])
    ∷ ("VALIDATE", "validation.*" ∷ "failure.*" ∷ [])
    ∷ ("REVIEW", "review.verdict" ∷ "review.safe_to_close" ∷ "review.findings" ∷ "failure.*" ∷ [])
    ∷ ("CLASSIFY_FAILURE", "repair.classification" ∷ "repair.history" ∷ [])
    ∷ ("PROGRAMMER_REPAIR", "changes.*" ∷ [])
    ∷ ("DEBUGGER", "changes.*" ∷ [])
    ∷ ("CLOSE_TASK", "work.item" ∷ "work.completed_items" ∷ "work.available_items" ∷ [])
    ∷ ("MORE_WORK", "work.item" ∷ "work.available_items" ∷ [])
    ∷ ("DELIVERY_REVIEW", "review.verdict" ∷ "review.safe_to_create_pr" ∷ "review.findings" ∷ [])
    ∷ []

abbrev pub special_types : Table NodeType
special_types =
    ("EXPLORE", NodeType.llm_read_only)
    ∷ ("BUILD_TASK_PACKAGE", NodeType.llm_read_only)
    ∷ ("ASSESS_RISK", NodeType.llm_read_only)
    ∷ ("HUMAN_CHECKPOINT", NodeType.human_checkpoint)
    ∷ ("IMPLEMENT", NodeType.llm_write)
    ∷ ("REVIEW", NodeType.llm_read_only)
    ∷ ("CLASSIFY_FAILURE", NodeType.llm_read_only)
    ∷ ("PROGRAMMER_REPAIR", NodeType.llm_write)
    ∷ ("DEBUGGER", NodeType.llm_write)
    ∷ ("CLOSE_TASK", NodeType.external_operation)
    ∷ ("DELIVERY_REVIEW", NodeType.llm_read_only)
    ∷ ("CREATE_PR", NodeType.external_operation)
    ∷ []

-- d.get(k, default)
abbrev or_else {ℓ} : {A : Type ℓ} → Option A → A → A
or_else none d = d
or_else (some a) d = a

unfoldable pub v1_node : String → NodeDefinition
unfolding lookup
v1_node n = record {
  id = n;
  node_type = or_else (lookup n special_types) NodeType.deterministic;
  allowed_patch_paths = or_else (lookup n patch_paths) [];
}

unfoldable pub v1_nodes : List NodeDefinition
unfolding v1_node
v1_nodes = map v1_node v1_node_ids
