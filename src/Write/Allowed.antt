-- ===== src/Write/Allowed.antt =====
-- write/capability.py: what `normalize_repo_path` and `path_is_allowed` let through.
use agent_graph_engine.Prelude.{
  String, ◌≡◌, sym, subst, ◌⊎◌, true, false, List, [], ◌∷◌, ◌++◌, select, All, is_empty, arith,
  eq_iff,
}
use agent_graph_engine.Prelude.Text.{str_eq, contains}
use agent_graph_engine.Prelude.Select.{All-both, All-select, none_of_any}
use agent_graph_engine.Prelude.Fallible.{fine, demand-bind-eq-fine}
use agent_graph_engine.Work.Models.{RepoPathSpec}
use agent_graph_engine.Write.Paths.{
  normalize_repo_path, pure_parts, as_posix, is_part, has_char, colon, split_slash, is_posix_text,
  is_normalized, is_plain,
}

none_contained :
    (ps : List String) (a : String) → contains ps a ≡ false → All (λ p. str_eq p a ≡ false) ps
none_contained [] a h = tt
none_contained (p ∷ ps) a h = (ground arith, none_contained ps a (ground arith))

All-parts : (ps : List String) → All (λ p. is_part p ≡ true) (select is_part ps)
All-parts ps = All-select (λ p. is_part p ≡ true) is_part ps (each ps)
  where
    each : (ps : List String) → All (λ p. is_part p ≡ true → is_part p ≡ true) ps
    each [] = tt
    each (p ∷ ps) = ((λ h. h), each ps)

-- A part that names an entry of a directory: it is no dot, no double dot, not empty, and has no
-- colon.
abbrev pub IsName : String → Type 0
IsName p = (is_part p ≡ true) × ((str_eq p ".." ≡ false) × (has_char colon p ≡ false))

-- A path that is accepted is what its parts join to, it has a part, and no part is empty, a dot,
-- two dots or holds a colon.
pub normalize_repo_path-IsName :
    (path : String) (parts : List String)
    → normalize_repo_path path ≡ fine parts
    → (as_posix parts ≡ path) × (is_empty parts ≡ false) × All IsName parts
unfolding normalize_repo_path
normalize_repo_path-IsName path parts h =
    let (text, h2) = demand-bind-eq-fine (is_posix_text path) _ _ h in
    let (normal, h3) = demand-bind-eq-fine (is_normalized path (pure_parts path)) _ _ h2 in
    let (plain, h4) = demand-bind-eq-fine (is_plain path (pure_parts path)) _ _ h3 in
    let same : pure_parts path ≡ parts = ground arith in
    subst (λ ps. (as_posix ps ≡ path) × (is_empty ps ≡ false) × All IsName ps) same
      (
        sym ((eq_iff path (as_posix (pure_parts path))).0 (ground arith)),
        ground arith,
        All-both (λ p. is_part p ≡ true) (λ p. (str_eq p ".." ≡ false) × (has_char colon p ≡ false))
            (pure_parts path) (All-parts (split_slash path))
            (All-both (λ p. str_eq p ".." ≡ false) (λ p. has_char colon p ≡ false) (pure_parts path)
              (none_contained (pure_parts path) ".." (ground arith))
              (none_of_any (has_char colon) (pure_parts path) (ground arith))),
      )

-- A path below another one: it goes on where the other one ends.
abbrev pub IsBelow : List String → List String → Type 0
IsBelow candidate authority =
    (x : String) × (rest : List String) × (candidate ≡ authority ++ x ∷ rest)

-- What a spec of the list grants: itself, or, with the hint, what lies below it.
abbrev pub IsGranted : List String → List RepoPathSpec → Type 0
IsGranted candidate allowed =
    (before : List RepoPathSpec) × (spec : RepoPathSpec) × (after : List RepoPathSpec) × (allowed
      ≡ before ++ spec ∷ after)
    × ((authority : List String) × (normalize_repo_path spec.path ≡ fine authority)
        × (((spec.directory_hint ≡ false) × (candidate ≡ authority))
            ⊎ ((spec.directory_hint ≡ true) × IsBelow candidate authority)))
