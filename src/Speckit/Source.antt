-- ===== src/Speckit/Source.antt =====
-- adapters/speckit/adapter.py: the adapter as a work source.
use agent_graph_engine.Work.Source.{WorkSource}
use agent_graph_engine.Speckit.Lookup.{get_scope, get_item}
use agent_graph_engine.Speckit.Ready.{next_ready_item, next_ready_scope}
use agent_graph_engine.Speckit.Package.{build_package}

abbrev pub speckit_adapter : WorkSource
speckit_adapter = record {
  scope_of = get_scope;
  item_of = get_item;
  ready_item = next_ready_item;
  ready_scope = next_ready_scope;
  package_for = build_package;
}
