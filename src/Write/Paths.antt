-- ===== src/Write/Paths.antt =====
-- write/capability.py, `normalize_repo_path`, with what it uses of Python's `PurePosixPath`. A
-- path that is not absolute is given by its parts.
use Prim.Native.Char.{Char, code}
use Prim.Native.String.{◌++◌ as append}
use agent_graph_engine.Prelude.{
  ℕ, String, Bool, false, not, ◌&&◌, ◌||◌, List, [], ◌∷◌, ◌==◌, if◌then◌else◌, is_empty, any,
  select, ◌≡◌, refl,
}
use agent_graph_engine.Prelude.Text.{str_eq, starts_with, contains}
use agent_graph_engine.Prelude.Fallible.{Fallible, fine, failed, ◌>>=◌, demand}
use agent_graph_engine.Work.Models.{WorkError, change_path_error}

abbrev slash : ℕ
slash = 47

abbrev backslash : ℕ
backslash = 92

abbrev pub colon : ℕ
colon = 58

-- chr(n) in path
unfoldable pub has_char : ℕ → String → Bool
has_char n String.[] = false
has_char n (String.◌∷◌ c s) = code c == n || has_char n s

unfoldable pub add_char : Char → List String → List String
add_char c [] = String.◌∷◌ c "" ∷ []
add_char c (p ∷ ps) = String.◌∷◌ c p ∷ ps

-- path.split("/")
unfoldable pub split_slash : String → List String
split_slash String.[] = "" ∷ []
split_slash (String.◌∷◌ c s) =
    let rest = split_slash s in if code c == slash then "" ∷ rest else add_char c rest

-- PurePosixPath drops empty parts and single dots.
abbrev pub is_part : String → Bool
is_part p = not (str_eq p "") && not (str_eq p ".")

-- PurePosixPath(path).parts, for a path that is not absolute
abbrev pub pure_parts : String → List String
pure_parts path = select is_part (split_slash path)

unfoldable pub join_slash : List String → String
join_slash [] = ""
join_slash (p ∷ []) = p
join_slash (p ∷ q ∷ ps) = append p (String.◌∷◌ "/" (join_slash (q ∷ ps)))

-- PurePosixPath.as_posix
abbrev pub as_posix : List String → String
as_posix [] = "."
as_posix (p ∷ ps) = join_slash (p ∷ ps)

-- The three tests of `normalize_repo_path`, in their order, each passed.
abbrev pub is_posix_text : String → Bool
is_posix_text path = not (str_eq path "" || has_char 0 path || has_char backslash path)

abbrev pub is_normalized : String → List String → Bool
is_normalized path parts = not (
    starts_with path "/"
    || contains parts ".."
    || contains parts "."
    || not (str_eq path (as_posix parts)))

abbrev pub is_plain : String → List String → Bool
is_plain path parts = not (is_empty parts || any (has_char colon) parts || starts_with path "//")

unfoldable pub normalize_repo_path : String → Fallible WorkError (List String)
normalize_repo_path path = do
  _ ← demand (is_posix_text path) (change_path_error "path must be repository-relative POSIX")
  _ ←
      demand (is_normalized path (pure_parts path))
        (change_path_error "path must be normalized repository-relative POSIX")
  _ ←
      demand (is_plain path (pure_parts path))
        (change_path_error "absolute, drive, and UNC paths are forbidden")
  fine (pure_parts path)

clean_runs : normalize_repo_path "src/app/main.py" ≡ fine ("src" ∷ "app" ∷ "main.py" ∷ [])
unfolding normalize_repo_path has_char split_slash add_char join_slash
clean_runs = refl

escape_runs :
    normalize_repo_path "src/../x"
    ≡ failed (change_path_error "path must be normalized repository-relative POSIX")
unfolding normalize_repo_path has_char split_slash add_char join_slash
escape_runs = refl

trailing_runs :
    normalize_repo_path "src/"
    ≡ failed (change_path_error "path must be normalized repository-relative POSIX")
unfolding normalize_repo_path has_char split_slash add_char join_slash
trailing_runs = refl
