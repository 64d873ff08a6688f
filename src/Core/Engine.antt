-- ===== src/Core/Engine.antt =====
-- core/engine.py: the engine over a graph and a policy.
pub mod Selection
pub mod Choice
pub mod Applied
pub mod Closure
pub mod Rounds
use Prim.Native.String.{◌++◌ as append}
use agent_graph_engine.Prelude.{
  ℕ, zero, suc, ◌+◌, String, Bool, true, false, ◌&&◌, ◌||◌, Option, none, some, List, [], ◌∷◌, map,
  all, select, ltb, leb, ◌==◌, if◌then◌else◌,
}
use agent_graph_engine.Prelude.Text.{str_eq, show}
use agent_graph_engine.Core.Enums.{RiskLevel, ProgrammerRoute, RunStatus}
use agent_graph_engine.Core.Errors.{
  Result, ok, err, contract_validation, graph_transition, no_valid_transition, ambiguous_transition,
  value_error, ◌>>=◌, ◌>>◌, require, refuse,
}
use agent_graph_engine.Core.State.{
  GraphState, GraphProgress, RiskState, ScopeState, RepairState, initial, progress, repair_state,
  new_task_package, new_texts, new_scope, new_risk, new_changes, new_validation, new_review,
  new_failure, new_repair,
}
use agent_graph_engine.Core.Policy.{PolicySnapshot}
use agent_graph_engine.Core.NodeResult.{NodeResult, NodeContext, Node, NodeDefinition}
use agent_graph_engine.Core.Edges.{Guard, GuardResult, evaluate, matches, Edge, Transition}
use agent_graph_engine.Core.Graph.{GraphDefinition, Table, lookup, node, outgoing}
use agent_graph_engine.Core.Patches.Apply.{StatePatch, apply}

pub record GraphEngine : Type 0 where
  pub graph : GraphDefinition
  pub policy : PolicySnapshot
  pub nodes : Table Node

-- GraphEngine.initial_state
unfoldable pub initial_state : GraphEngine → String → Result GraphState
unfolding initial
initial_state e run_id = initial run_id e.policy.max_repair_cycles

-- _validate_result_identity
unfoldable pub validate_result_identity : GraphState → NodeResult → Result (Unit {0})
validate_result_identity s r = require (str_eq r.node_id s.graph.current_node) contract_validation

-- _validate_state_policy
unfoldable pub validate_state_policy : PolicySnapshot → GraphState → Result (Unit {0})
validate_state_policy p s = do
  require (s.repair.max_cycles == p.max_repair_cycles) contract_validation
  require (leb s.repair.count p.max_repair_cycles) contract_validation

abbrev passes : GuardResult → Bool
passes g = g.passed

abbrev pub guard_results : Edge → GraphState → NodeResult → PolicySnapshot → List GuardResult
guard_results e s r p = map (λ (g : Guard). evaluate g s r p) e.guards

-- The test of the loop of `evaluate_transition`.
unfoldable pub eligible : GraphState → NodeResult → PolicySnapshot → Edge → Bool
unfolding matches
eligible s r p e = matches e.condition s r p && all passes (guard_results e s r p)

-- max(edge.priority for edge in matches)
unfoldable pub highest_priority : List Edge → ℕ
highest_priority [] = 0
highest_priority (e ∷ es) =
    let rest = highest_priority es in if ltb e.priority rest then rest else e.priority

unfoldable pub winners : List Edge → List Edge
unfolding highest_priority
winners es = let top = highest_priority es in select (λ (e : Edge). e.priority == top) es

abbrev pub transition : GraphState → NodeResult → PolicySnapshot → Edge → Transition
transition s r p e = record {
  edge_id = e.id;
  from_node = e.from_node;
  to_node = e.to_node;
  priority = e.priority;
  guard_results = guard_results e s r p;
  checkpoint = e.checkpoint;
  terminal = e.terminal;
  final_status = e.final_status;
  resume_node = e.resume_node;
}

abbrev pub sole : List Edge → Result Edge
sole [] = err no_valid_transition
sole (e ∷ []) = ok e
sole es = err (ambiguous_transition (map (λ (e : Edge). e.id) es))

-- The choice among the matching edges.
unfoldable pub choose : List Edge → Result Edge
unfolding winners
choose [] = err no_valid_transition
choose (e ∷ es) = sole (winners (e ∷ es))

-- GraphEngine.evaluate_transition
unfoldable pub evaluate_transition : GraphEngine → GraphState → NodeResult → Result Transition
unfolding validate_result_identity outgoing
evaluate_transition engine s r = do
  validate_result_identity s r
  edges ← outgoing engine.graph s.graph.current_node
  edge ← choose (select (eligible s r engine.policy) edges)
  ok (transition s r engine.policy edge)

-- _reset_item_state
unfoldable pub reset_item_state : PolicySnapshot → GraphState → GraphState
reset_item_state p s = record s {
  task_package = new_task_package;
  requirements = new_texts;
  acceptance_criteria = new_texts;
  scope = new_scope;
  risk = new_risk;
  changes = new_changes;
  validation = new_validation;
  review = new_review;
  failure = new_failure;
  repair = new_repair p.max_repair_cycles;
}

abbrev pub is_repair_node : String → Bool
is_repair_node n = str_eq n "PROGRAMMER_REPAIR" || str_eq n "DEBUGGER"

-- The first two statements of `_execute_transition`.
unfoldable pub reset_for : PolicySnapshot → Transition → GraphState → GraphState
unfolding reset_item_state
reset_for p t s =
    let s' =
      if str_eq t.from_node "MORE_WORK" && str_eq t.to_node "SELECT_WORK"
      then reset_item_state p s
      else s in
    if str_eq t.to_node "DELIVERY_REVIEW" then record s' { review = new_review } else s'

unfoldable pub count_repair : PolicySnapshot → Transition → RepairState → Result RepairState
count_repair p t repair =
    if is_repair_node t.to_node
    then (do
      refuse (leb p.max_repair_cycles repair.count) graph_transition
      repair_state (record repair { count = suc repair.count }))
    else ok repair

abbrev pub route_for : Option RiskLevel → Result ProgrammerRoute
route_for (some RiskLevel.low) = ok ProgrammerRoute.fast
route_for (some RiskLevel.medium) = ok ProgrammerRoute.fast
route_for (some RiskLevel.high) = ok ProgrammerRoute.high
route_for (some RiskLevel.critical) = ok ProgrammerRoute.high
route_for none = err graph_transition

unfoldable pub route_risk : Transition → RiskState → Result RiskState
route_risk t risk =
    if str_eq t.to_node "IMPLEMENT"
    then (route_for risk.level >>= λ route. ok (record risk { programmer_route = some route }))
    else ok risk

unfoldable pub lock_scope : Transition → ScopeState → ScopeState
lock_scope t scope = if str_eq t.to_node "IMPLEMENT" then record scope { locked = true } else scope

unfoldable pub pending_after : Transition → GraphProgress → Option String
pending_after t g =
    if t.checkpoint
    then t.resume_node
    else if str_eq g.current_node "HUMAN_CHECKPOINT"
    then none
    else g.pending_resume_node

abbrev or_status : Option RunStatus → RunStatus → RunStatus
or_status none s = s
or_status (some s') s = s'

-- A terminal edge completes a run that is still running.
abbrev complete : Bool → RunStatus → RunStatus
complete true RunStatus.running = RunStatus.completed
complete _ s = s

unfoldable pub status_after : Transition → RunStatus → RunStatus
status_after t s = complete t.terminal (or_status t.final_status s)

abbrev pub next_progress : Transition → GraphProgress → GraphProgress
next_progress t g = record {
  current_node = t.to_node;
  previous_node = some g.current_node;
  transition_seq = g.transition_seq + 1;
  pending_resume_node = pending_after t g;
}

-- The state that `_execute_transition` returns, from its parts.
abbrev pub settle : Transition → GraphState → RepairState → RiskState → GraphProgress → GraphState
settle t s repair risk graph = record s {
  graph = graph;
  repair = repair;
  risk = risk;
  scope = lock_scope t s.scope;
  run = record s.run { status = status_after t s.run.status };
}

-- _execute_transition
unfoldable pub execute_transition : PolicySnapshot → GraphState → Transition → Result GraphState
execute_transition p state t = do
  let s = reset_for p t state
  repair ← count_repair p t s.repair
  risk ← route_risk t s.risk
  graph ← progress (next_progress t s.graph)
  ok (settle t s repair risk graph)

unfoldable pub apply_patch : GraphState → Option StatePatch → List String → Result GraphState
apply_patch s none allowed = ok s
apply_patch s (some patch) allowed = apply s patch allowed false

abbrev pub versioned : GraphState → GraphState → GraphState
versioned state moved = record moved { state_version = state.state_version + 1 }

abbrev pub finish_result :
    GraphEngine → GraphState → Transition → GraphState → Result (GraphState × Transition)
finish_result engine state t moved = do
  validate_state_policy engine.policy (versioned state moved)
  ok (versioned state moved, t)

-- The part of `apply_result` that comes after the patch.
abbrev pub transit :
    GraphEngine → GraphState → NodeResult → GraphState → Result (GraphState × Transition)
transit engine state r patched = do
  t ← evaluate_transition engine patched r
  moved ← execute_transition engine.policy patched t
  finish_result engine state t moved

abbrev pub patch_and_transit :
    GraphEngine → GraphState → NodeResult → NodeDefinition → Result (GraphState × Transition)
patch_and_transit engine state r definition = do
  patched ← apply_patch state r.state_patch definition.allowed_patch_paths
  transit engine state r patched

-- GraphEngine.apply_result
unfoldable pub apply_result :
    GraphEngine → GraphState → NodeResult → Result (GraphState × Transition)
apply_result engine state r = do
  validate_state_policy engine.policy state
  validate_result_identity state r
  definition ← node engine.graph state.graph.current_node
  patch_and_transit engine state r definition

-- GraphEngine.build_node_context
unfoldable pub build_node_context : GraphEngine → GraphState → Option ℕ → Result NodeContext
unfolding show
build_node_context engine s deadline = do
  refuse (str_eq s.graph.current_node "END") graph_transition
  definition ← node engine.graph s.graph.current_node
  let attempt =
      append s.run.run_id
        (append ":" (append s.graph.current_node (append ":" (show (s.graph.transition_seq + 1)))))
  ok (record {
    run_id = s.run.run_id;
    node_attempt_id = attempt;
    idempotency_key = attempt;
    policy_snapshot = engine.policy;
    allowed_state_patch_paths = definition.allowed_patch_paths;
    deadline = deadline;
  })

abbrev injected : Option Node → Result Node
injected none = err contract_validation
injected (some n) = ok n

-- GraphEngine.invoke_node
unfoldable pub invoke_node : GraphEngine → GraphState → NodeContext → Result NodeResult
unfolding lookup
invoke_node engine s context = do
  n ← injected (lookup s.graph.current_node engine.nodes)
  r ← n s context
  require (str_eq r.node_id s.graph.current_node && str_eq r.attempt_id context.node_attempt_id)
      contract_validation
  ok r

-- GraphEngine.step
unfoldable pub step :
    GraphEngine → GraphState → Option ℕ → Result (GraphState × NodeResult × Transition)
step engine s deadline = do
  context ← build_node_context engine s deadline
  r ← invoke_node engine s context
  (next, t) ← apply_result engine s r
  ok (next, r, t)

-- The loop of `run`, by the rounds left.
unfoldable pub run_loop : GraphEngine → ℕ → GraphState → Result GraphState
run_loop engine zero s = err graph_transition
run_loop engine (suc k) s =
    let rest = step engine s none >>= λ (next, _, _). run_loop engine k next in
    if str_eq s.graph.current_node "END" then ok s else rest

-- GraphEngine.run
unfoldable pub run : GraphEngine → GraphState → ℕ → Result GraphState
run engine s max_steps = do refuse (ltb max_steps 1) value_error; run_loop engine max_steps s
