-- ===== src/Speckit/Lookup.antt =====
-- adapters/speckit/adapter.py: the lookups of a snapshot.
use agent_graph_engine.Prelude.{String, Option, none, some, List, [], ◌∷◌, if◌then◌else◌}
use agent_graph_engine.Prelude.Text.{str_eq}
use agent_graph_engine.Prelude.Fallible.{Fallible, fine, failed}
use agent_graph_engine.Work.Models.{
  WorkError, WorkItem, WorkScope, WorkSourceSnapshot, missing_key, scope_not_found, item_not_found,
}

abbrev pub or_error {ℓ} : {A : Type ℓ} → WorkError → Option A → Fallible WorkError A
or_error e none = failed e
or_error e (some a) = fine a

-- the first scope with the id
unfoldable pub first_scope : String → List WorkScope → Option WorkScope
first_scope id [] = none
first_scope id (s ∷ scopes) =
    let rest = first_scope id scopes in if str_eq s.scope_id id then some s else rest

unfoldable pub first_item : String → List WorkItem → Option WorkItem
first_item id [] = none
first_item id (i ∷ items) =
    let rest = first_item id items in if str_eq i.item_id id then some i else rest

-- SpecKitAdapter.get_scope
abbrev pub get_scope : WorkSourceSnapshot → String → Fallible WorkError WorkScope
get_scope snapshot id = or_error (scope_not_found id) (first_scope id snapshot.scopes)

-- SpecKitAdapter.get_item
abbrev pub get_item : WorkSourceSnapshot → String → Fallible WorkError WorkItem
get_item snapshot id = or_error (item_not_found id) (first_item id snapshot.items)

abbrev or_this {ℓ} : {A : Type ℓ} → Option A → Option A → Option A
or_this none this = this
or_this (some a) this = some a

-- `{item.item_id: item for item in items}`: of two items with one id the later one is found.
unfoldable pub keyed_item : String → List WorkItem → Option WorkItem
keyed_item id [] = none
keyed_item id (i ∷ items) =
    or_this (keyed_item id items) (if str_eq i.item_id id then some i else none)

unfoldable pub keyed_scope : String → List WorkScope → Option WorkScope
keyed_scope id [] = none
keyed_scope id (s ∷ scopes) =
    or_this (keyed_scope id scopes) (if str_eq s.scope_id id then some s else none)

-- items[id]
abbrev pub item_at : List WorkItem → String → Fallible WorkError WorkItem
item_at items id = or_error (missing_key id) (keyed_item id items)

-- scopes[id]
abbrev pub scope_at : List WorkScope → String → Fallible WorkError WorkScope
scope_at scopes id = or_error (missing_key id) (keyed_scope id scopes)
