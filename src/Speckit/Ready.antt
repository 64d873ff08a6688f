-- ===== src/Speckit/Ready.antt =====
-- adapters/speckit/adapter.py: the next item of a scope and the next child of a parent scope.
use agent_graph_engine.Prelude.{
  String, Bool, true, false, none, some, List, [], ◌∷◌, ◌++◌, is_empty, if◌then◌else◌,
}
use agent_graph_engine.Prelude.Text.{contains}
use agent_graph_engine.Prelude.Fallible.{Fallible, fine, ◌>>=◌}
use agent_graph_engine.Work.Models.{
  WorkError, WorkItem, WorkScope, WorkSourceSnapshot, WorkSelection, ScopeSelection, SelectionKind,
  is_completed, scope_completed, scope_planned,
}
use agent_graph_engine.Speckit.Lookup.{get_scope, item_at, scope_at}

-- if dependency not in blocking: blocking.append(dependency)
unfoldable pub add_new : List String → List String → List String
add_new blocking [] = blocking
add_new blocking (d ∷ ds) =
    add_new (if contains blocking d then blocking else blocking ++ d ∷ []) ds

-- [items[i] for i in ids if items[i].status is PENDING]
unfoldable pub pending_items : List WorkItem → List String → Fallible WorkError (List WorkItem)
pending_items items [] = fine []
pending_items items (id ∷ ids) = do
  i ← item_at items id
  rest ← pending_items items ids
  fine (if is_completed i.status then rest else i ∷ rest)

-- [d for d in dependencies if items[d].status is not COMPLETED]
unfoldable pub unfinished : List WorkItem → List String → Fallible WorkError (List String)
unfinished items [] = fine []
unfinished items (d ∷ ds) = do
  i ← item_at items d
  rest ← unfinished items ds
  fine (if is_completed i.status then rest else d ∷ rest)

abbrev pub selection : SelectionKind → String → String → WorkSelection
selection kind scope_id reason = record {
  kind = kind;
  scope_id = scope_id;
  item_id = none;
  blocking_item_ids = [];
  reason_code = reason;
}

abbrev pub ready_with : String → WorkItem → WorkSelection
ready_with scope_id i = record (selection SelectionKind.ready scope_id "dependencies_completed") {
  item_id = some i.item_id;
}

abbrev pub blocked_with : String → List String → WorkSelection
blocked_with scope_id blocking =
    record (selection SelectionKind.blocked_dependencies scope_id "incomplete_dependencies") {
      blocking_item_ids = blocking;
    }

-- The loop over the incomplete items.
unfoldable pub first_ready :
    List WorkItem → String → List String → List WorkItem → Fallible WorkError WorkSelection
first_ready items scope_id blocking [] = fine (blocked_with scope_id blocking)
first_ready items scope_id blocking (i ∷ rest) = do
  open_deps ← unfinished items i.dependencies
  let later = first_ready items scope_id (add_new blocking open_deps) rest
  (if is_empty open_deps then fine (ready_with scope_id i) else later)

abbrev pub select_pending :
    WorkSourceSnapshot → String → List WorkItem → Fallible WorkError WorkSelection
select_pending snapshot scope_id [] =
    fine (selection SelectionKind.scope_complete scope_id "all_items_completed")
select_pending snapshot scope_id (i ∷ rest) = first_ready snapshot.items scope_id [] (i ∷ rest)

abbrev pub select_in : WorkSourceSnapshot → String → List String → Fallible WorkError WorkSelection
select_in snapshot scope_id [] = fine (selection SelectionKind.empty_scope scope_id "empty_scope")
select_in snapshot scope_id (id ∷ ids) =
    pending_items snapshot.items (id ∷ ids) >>= select_pending snapshot scope_id

-- SpecKitAdapter.next_ready_item
unfoldable pub next_ready_item : WorkSourceSnapshot → String → Fallible WorkError WorkSelection
next_ready_item snapshot scope_id = do
  scope ← get_scope snapshot scope_id
  select_in snapshot scope_id scope.item_ids

-- [scopes[i] for i in ids if scopes[i].status is not COMPLETED]
unfoldable pub open_scopes : List WorkScope → List String → Fallible WorkError (List WorkScope)
open_scopes scopes [] = fine []
open_scopes scopes (id ∷ ids) = do
  s ← scope_at scopes id
  rest ← open_scopes scopes ids
  fine (if scope_completed s.status then rest else s ∷ rest)

unfoldable pub unfinished_scopes : List WorkScope → List String → Fallible WorkError (List String)
unfinished_scopes scopes [] = fine []
unfinished_scopes scopes (d ∷ ds) = do
  s ← scope_at scopes d
  rest ← unfinished_scopes scopes ds
  fine (if scope_completed s.status then rest else d ∷ rest)

abbrev pub scope_selection : SelectionKind → String → String → ScopeSelection
scope_selection kind parent reason = record {
  kind = kind;
  parent_scope_id = parent;
  scope_id = none;
  blocking_scope_ids = [];
  reason_code = reason;
}

abbrev is_ready : SelectionKind → Bool
is_ready SelectionKind.ready = true
is_ready _ = false

abbrev pub ready_scope : String → WorkScope → ScopeSelection
ready_scope parent s =
    record (scope_selection SelectionKind.ready parent "scope_and_item_dependencies_completed") {
      scope_id = some s.scope_id;
    }

-- The loop over the incomplete children.
unfoldable pub first_ready_scope :
    WorkSourceSnapshot → String → List String → List WorkScope → Fallible WorkError ScopeSelection
first_ready_scope snapshot parent blocking [] =
    fine
      (record (scope_selection SelectionKind.blocked_dependencies parent "no_ready_child_scope") {
        blocking_scope_ids = blocking;
      })
first_ready_scope snapshot parent blocking (s ∷ rest) =
    let skipped = first_ready_scope snapshot parent blocking rest in
    let considered = unfinished_scopes snapshot.scopes s.dependencies >>= λ open_deps.
    let later = first_ready_scope snapshot parent (add_new blocking open_deps) rest in
    let chosen = next_ready_item snapshot s.scope_id >>= λ c.
    if is_ready c.kind then fine (ready_scope parent s) else skipped in
    if is_empty open_deps then chosen else later in
    if scope_planned s.status then considered else skipped

abbrev select_scope :
    WorkSourceSnapshot → String → List WorkScope → Fallible WorkError ScopeSelection
select_scope snapshot parent [] =
    fine (scope_selection SelectionKind.scope_complete parent "all_child_scopes_completed")
select_scope snapshot parent (s ∷ rest) = first_ready_scope snapshot parent [] (s ∷ rest)

abbrev select_child : WorkSourceSnapshot → String → List String → Fallible WorkError ScopeSelection
select_child snapshot parent [] =
    fine (scope_selection SelectionKind.empty_scope parent "no_child_scopes")
select_child snapshot parent (id ∷ ids) =
    open_scopes snapshot.scopes (id ∷ ids) >>= select_scope snapshot parent

-- SpecKitAdapter.next_ready_scope
unfoldable pub next_ready_scope : WorkSourceSnapshot → String → Fallible WorkError ScopeSelection
next_ready_scope snapshot parent_scope_id = do
  parent ← get_scope snapshot parent_scope_id
  select_child snapshot parent_scope_id parent.child_scope_ids
