-- ===== src/Core/Patches/Ownership.antt =====
-- core/patches.py, `PatchOwnershipPolicy`: which paths a node may write. The node's id is left out
-- of `authorize`, which uses it in messages only.
use Prim.Native.String.{◌++◌ as append}
use agent_graph_engine.Prelude.{String, Bool, ◌&&◌, ◌||◌, List, [], ◌∷◌, any}
use agent_graph_engine.Prelude.Text.{str_eq, starts_with, ends_with, drop_last, contains}
use agent_graph_engine.Core.Errors.{Result, unauthorized_state_patch, ◌>>◌, refuse, require}
use agent_graph_engine.Core.State.{GraphState}

abbrev pub engine_owned_paths : List String
engine_owned_paths =
    "schema_version" ∷ "state_version" ∷ "run.status" ∷ "repair.count" ∷ "repair.max_cycles"
    ∷ "risk.programmer_route" ∷ "scope.locked" ∷ []

abbrev pub engine_owned_prefixes : List String
engine_owned_prefixes = "graph" ∷ "checkpoints" ∷ "commits" ∷ "push" ∷ "pull_request" ∷ []

unfoldable pub under_prefix : String → String → Bool
under_prefix path prefix = str_eq path prefix || starts_with path (append prefix ".")

unfoldable pub engine_owned : String → Bool
unfolding under_prefix
engine_owned path =
    contains engine_owned_paths path || any (under_prefix path) engine_owned_prefixes

-- _path_matches
unfoldable pub path_matches : String → String → Bool
unfolding ends_with drop_last
path_matches path pattern =
    str_eq pattern "*"
    || str_eq path pattern
    || ends_with pattern ".*" && starts_with path (drop_last pattern)

unfoldable pub authorize : GraphState → List String → String → Result (Unit {0})
authorize state allowed_paths path = do
  refuse (engine_owned path) unauthorized_state_patch
  refuse (state.scope.locked && starts_with path "scope.") unauthorized_state_patch
  require (any (path_matches path) allowed_paths) unauthorized_state_patch
