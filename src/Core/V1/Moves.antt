-- ===== src/Core/V1/Moves.antt =====
-- What the engine does with a transition, apart from the name, the priority and the guards of its
-- edge, and the same for a route of the decision table.
use agent_graph_engine.Prelude.{String, Bool, true, false, Option, none, some, []}
use agent_graph_engine.Core.Enums.{RunStatus}
use agent_graph_engine.Core.Errors.{Result, ok, err, no_valid_transition}
use agent_graph_engine.Core.Edges.{Transition}
use agent_graph_engine.Core.V1.Routes.{Stage, stage_id, Route, onward, pause, stop, finish, stuck}

pub record Move : Type 0 where
  pub from_node : String
  pub to_node : String
  pub checkpoint : Bool
  pub terminal : Bool
  pub final_status : Option RunStatus
  pub resume_node : Option String

abbrev pub transition_move : Transition → Move
transition_move t = record {
  from_node = t.from_node;
  to_node = t.to_node;
  checkpoint = t.checkpoint;
  terminal = t.terminal;
  final_status = t.final_status;
  resume_node = t.resume_node;
}

abbrev pub result_move : Result Transition → Result Move
result_move (ok t) = ok (transition_move t)
result_move (err e) = err e

abbrev simple_move : Stage → Stage → Option RunStatus → Move
simple_move from to status = record {
  from_node = stage_id from;
  to_node = stage_id to;
  checkpoint = false;
  terminal = false;
  final_status = status;
  resume_node = none;
}

abbrev pub route_move : Stage → Route → Result Move
route_move from (onward to) = ok (simple_move from to none)
route_move from (pause resume) = ok (record (simple_move from Stage.human_checkpoint none) {
  checkpoint = true;
  resume_node = some (stage_id resume);
})
route_move from (stop status) = ok (simple_move from Stage.finalize (some status))
route_move from (finish status) =
    ok (record (simple_move from Stage.done status) { terminal = true })
route_move from stuck = err no_valid_transition

-- A transition that makes a move, with the rest left blank.
abbrev pub blank_transition : Move → Transition
blank_transition m = record {
  edge_id = "";
  from_node = m.from_node;
  to_node = m.to_node;
  priority = 0;
  guard_results = [];
  checkpoint = m.checkpoint;
  terminal = m.terminal;
  final_status = m.final_status;
  resume_node = m.resume_node;
}

-- The stage that a route leads to.
abbrev pub next_stage : Stage → Route → Stage
next_stage from (onward to) = to
next_stage from (pause resume) = Stage.human_checkpoint
next_stage from (stop status) = Stage.finalize
next_stage from (finish status) = Stage.done
next_stage from stuck = from
