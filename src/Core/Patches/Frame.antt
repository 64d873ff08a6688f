-- ===== src/Core/Patches/Frame.antt =====
-- core/patches.py: what one write leaves alone.
use agent_graph_engine.Prelude.{◌≡◌, Bool, true, false, arith}
use agent_graph_engine.Core.Errors.{ok}
use agent_graph_engine.Core.State.{GraphState}
use agent_graph_engine.Core.Patches.Values.{Value}
use agent_graph_engine.Core.Patches.Paths.{Leaf}
use agent_graph_engine.Core.Patches.Paths
use agent_graph_engine.Core.Patches.Groups.{set_risk, set_scope, set_repair}
use agent_graph_engine.Core.Patches.Access.{replace_path}

-- The part of a state that belongs to the engine.
pub record SameOwned (s t : GraphState) : Type 0 where
  pub run : t.run ≡ s.run
  pub state_version : t.state_version ≡ s.state_version
  pub graph : t.graph ≡ s.graph
  pub repair_count : t.repair.count ≡ s.repair.count
  pub repair_limit : t.repair.max_cycles ≡ s.repair.max_cycles
  pub route : t.risk.programmer_route ≡ s.risk.programmer_route
  pub locked : t.scope.locked ≡ s.scope.locked
  pub checkpoints : t.checkpoints ≡ s.checkpoints
  pub commits : t.commits ≡ s.commits
  pub push : t.push ≡ s.push
  pub pull_request : t.pull_request ≡ s.pull_request

pub SameOwned-refl : (s : GraphState) → SameOwned s s
SameOwned-refl s = ground arith

pub SameOwned-trans : {s t u : GraphState} → SameOwned s t → SameOwned t u → SameOwned s u
SameOwned-trans h k = ground arith

pub replace_path-SameOwned :
    (s : GraphState) (l : Leaf) (v : Value) {t : GraphState}
    → replace_path s l v ≡ ok t
    → SameOwned s t
unfolding replace_path set_risk set_scope set_repair
replace_path-SameOwned s (Leaf.risk Paths.level) v h = ground arith
replace_path-SameOwned s (Leaf.scope Paths.included) v h = ground arith
replace_path-SameOwned s (Leaf.scope Paths.excluded) v h = ground arith
replace_path-SameOwned s (Leaf.repair Paths.classification) v h = ground arith
replace_path-SameOwned s (Leaf.repair Paths.history) v h = ground arith
replace_path-SameOwned s _ v h = ground arith

abbrev is_scope : Leaf → Bool
is_scope (Leaf.scope f) = true
is_scope _ = false

abbrev is_review : Leaf → Bool
is_review (Leaf.review f) = true
is_review _ = false
