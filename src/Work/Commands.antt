-- ===== src/Work/Commands.antt =====
-- work/commands.py: the declared validation commands. `casefold` is a parameter: Unicode's tables
-- are not written out, and nothing below depends on them.
use Prim.Native.Char.{Char, code}
use Prim.Native.String.{◌++◌ as append, slice, len}
use Prim.Native.Nat.{◌-◌}
use agent_graph_engine.Prelude.{
  ℕ, String, ◌≡◌, refl, Bool, true, false, not, ◌&&◌, ◌||◌, Option, none, some, List, [], ◌∷◌, ◌==◌,
  if◌then◌else◌, any, is_some,
}
use agent_graph_engine.Prelude.Text.{str_eq, starts_with, ends_with, contains}
use agent_graph_engine.Prelude.Strip.{lstrip, rstrip, strip, count_char, has_text}
use agent_graph_engine.Prelude.Fallible.{Fallible, fine, failed, ◌>>=◌, demand}
use agent_graph_engine.Work.Models.{
  WorkError, format_error, ValidationCheck, ValidationOrigin, SourceLocation,
}
use agent_graph_engine.Work.Shlex.{split_words}

abbrev pub forbidden_text : List String
forbidden_text = "&&" ∷ "||" ∷ "|" ∷ ">" ∷ "<" ∷ "\n" ∷ "\r" ∷ []

abbrev pub safe_git_global_options : List String
safe_git_global_options = "--no-pager" ∷ []

abbrev pub safe_git_subcommands : List String
safe_git_subcommands = "diff" ∷ "ls-files" ∷ "rev-parse" ∷ "status" ∷ []

abbrev pub forbidden_git_diff_options : List String
forbidden_git_diff_options = "--ext-diff" ∷ "--textconv" ∷ []

abbrev pub safe_git_diff_options : List String
safe_git_diff_options = "--check" ∷ "--no-ext-diff" ∷ "--no-textconv" ∷ []

abbrev pub git_names : List String
git_names = "git" ∷ "git.exe" ∷ []

abbrev pub empty_segment : WorkError
empty_segment = format_error "validation command segment is empty"

-- `_split_segments` between two characters: the segment so far, the quote that is open, whether
-- the last character was a backslash, and the segment that it just ended.
pub record Scan : Type 0 where
  pub current : String
  pub quote : Option ℕ
  pub escaped : Bool
  pub ended : Option String

abbrev pub scan_start : Scan
scan_start = record { current = ""; quote = none; escaped = false; ended = none }

abbrev is_open_with : ℕ → Option ℕ → Bool
is_open_with n none = false
is_open_with n (some q) = q == n

-- None if quote == character else character if quote is None else quote
abbrev next_quote : ℕ → Option ℕ → Option ℕ
next_quote n none = some n
next_quote n (some q) = if q == n then none else some q

abbrev taken : Char → Scan → Scan
taken c st = record st { current = append st.current (String.◌∷◌ c ""); ended = none }

unfoldable pub scan : Char → Scan → Scan
scan c st =
    if st.escaped
    then record (taken c st) { escaped = false }
    else if code c == 92 && not (is_open_with 39 st.quote)
    then record (taken c st) { escaped = true }
    else if code c == 34 || code c == 39
    then record (taken c st) { quote = next_quote (code c) st.quote }
    else if code c == 59 && not (is_some st.quote)
    then record st { current = ""; ended = some st.current }
    else taken c st

-- "".join(current).strip(), which must not be empty
abbrev pub closed : String → Fallible WorkError String
closed text = demand (not (str_eq (strip text) "")) empty_segment >>= λ _. fine (strip text)

abbrev pub after_segment :
    Option String → Fallible WorkError (List String) → Fallible WorkError (List String)
after_segment none rest = rest
after_segment (some text) rest = do
  segment ← closed text
  segments ← rest
  fine (segment ∷ segments)

unfoldable pub segments_from : String → Scan → Fallible WorkError (List String)
segments_from String.[] st = closed st.current >>= λ segment. fine (segment ∷ [])
segments_from (String.◌∷◌ c s) st =
    let next = scan c st in after_segment next.ended (segments_from s next)

unfoldable pub split_segments : String → Fallible WorkError (List String)
split_segments raw = segments_from raw scan_start

-- _strip_markdown_code_span
unfoldable pub strip_markdown_code_span : String → Fallible WorkError String
strip_markdown_code_span value =
    let outer = strip value in
    let spanned = count_char 96 outer == 2 && starts_with outer "`" && ends_with outer "`" in
    let stripped = if spanned then strip (slice outer 1 (len outer - 1)) else outer in
    demand (not (str_eq stripped "")) empty_segment >>= λ _. fine stripped

abbrev pub words_of : Option (List String) → Fallible WorkError (List String)
words_of none = failed (format_error "validation command contains invalid quoting")
words_of (some []) = failed empty_segment
words_of (some (w ∷ ws)) = fine (w ∷ ws)

module _ (casefold : String → String) where
  abbrev pub in_set : List String → String → Bool
  in_set names argument = contains names (casefold argument)

  -- option in _FORBIDDEN_GIT_DIFF_OPTIONS, with or without a value
  abbrev pub is_hook : String → Bool
  is_hook argument =
      in_set forbidden_git_diff_options argument
      || any (λ f. starts_with (casefold argument) (append f "=")) forbidden_git_diff_options

  -- One argument of `git diff`.
  unfoldable pub check_diff_option : String → Fallible WorkError (Unit {0})
  check_diff_option argument = do
    _ ← demand (not (is_hook argument)) (format_error "Git diff execution hooks are forbidden")
    demand (in_set safe_git_diff_options argument)
        (format_error "Git diff validation option is not allowlisted")

  unfoldable pub check_diff_options : List String → Fallible WorkError (Unit {0})
  check_diff_options [] = fine tt
  check_diff_options (a ∷ rest) =
      let others = check_diff_options rest in check_diff_option a >>= λ _. others

  -- `_validate_git_command`, from `position` on
  unfoldable pub check_git_arguments : List String → Fallible WorkError (Unit {0})
  check_git_arguments [] = failed (format_error "Git validation command requires a safe subcommand")
  check_git_arguments (a ∷ rest) =
      let later = check_git_arguments rest in
      let here = do
        _ ←
            demand (in_set safe_git_subcommands a)
              (format_error "Git validation subcommand is not allowlisted")
        (if str_eq (casefold a) "diff" then check_diff_options rest else fine tt)
      in if in_set safe_git_global_options a then later else here

  abbrev pub check_git : List String → Fallible WorkError (Unit {0})
  check_git [] = fine tt
  check_git (a ∷ rest) = if in_set git_names a then check_git_arguments rest else fine tt

  module _ (origin : ValidationOrigin) (location : SourceLocation) where
    abbrev pub check_of : String → List String → ValidationCheck
    check_of segment argv = record {
      argv = argv;
      raw = segment;
      origin = origin;
      source_location = location;
    }

    unfoldable pub parse_segment : String → Fallible WorkError ValidationCheck
    parse_segment declared = do
      segment ← strip_markdown_code_span declared
      _ ←
          demand (not (has_text "`" segment))
            (format_error "validation command contains a forbidden backtick")
      argv ← words_of (split_words segment)
      _ ← check_git argv
      fine (check_of segment argv)

    unfoldable pub parse_segments : List String → Fallible WorkError (List ValidationCheck)
    parse_segments [] = fine []
    parse_segments (s ∷ segments) = do
      check ← parse_segment s
      checks ← parse_segments segments
      fine (check ∷ checks)

    unfoldable pub parse_validation_checks : String → Fallible WorkError (List ValidationCheck)
    parse_validation_checks raw = do
      _ ←
          demand (not (str_eq (strip raw) ""))
            (format_error "validation command declaration is empty")
      _ ←
          demand (not (any (λ token. has_text token raw) forbidden_text))
            (format_error "validation command contains a forbidden shell operator")
      declaration ← strip_markdown_code_span (strip raw)
      segments ← split_segments declaration
      parse_segments segments

segments_run : split_segments "a; b 'x;y' ;c" ≡ fine ("a" ∷ "b 'x;y'" ∷ "c" ∷ [])
unfolding split_segments segments_from scan lstrip rstrip
segments_run = refl
