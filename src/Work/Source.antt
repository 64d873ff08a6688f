-- ===== src/Work/Source.antt =====
-- work/source.py: what a work source offers to its clients, once a snapshot is taken.
use agent_graph_engine.Prelude.{String}
use agent_graph_engine.Prelude.Fallible.{Fallible}
use agent_graph_engine.Work.Models.{
  WorkError, WorkItem, WorkScope, WorkSourceSnapshot, WorkSelection, ScopeSelection, WorkPackage,
}

pub record WorkSource : Type 0 where
  pub scope_of : WorkSourceSnapshot → String → Fallible WorkError WorkScope
  pub item_of : WorkSourceSnapshot → String → Fallible WorkError WorkItem
  pub ready_item : WorkSourceSnapshot → String → Fallible WorkError WorkSelection
  pub ready_scope : WorkSourceSnapshot → String → Fallible WorkError ScopeSelection
  pub package_for : WorkSourceSnapshot → String → Fallible WorkError WorkPackage
