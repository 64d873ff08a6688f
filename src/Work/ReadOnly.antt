-- ===== src/Work/ReadOnly.antt =====
-- work/commands.py: what the commands of an accepted declaration are.
use agent_graph_engine.Prelude.{
  String, ◌≡◌, refl, sym, ap, ◌∙◌, subst, inl, inr, Bool, true, false, not, Option, none, some,
  List, [], ◌∷◌, ◌++◌, any, is_empty, All, arith, Bool-cases,
}
use agent_graph_engine.Prelude.Text.{str_eq}
use agent_graph_engine.Prelude.Strip.{strip, has_text}
use agent_graph_engine.Prelude.Fallible.{Fallible, fine, demand, bind-eq-fine, demand-bind-eq-fine}
use agent_graph_engine.Work.Models.{WorkError, ValidationCheck, ValidationOrigin, SourceLocation}
use agent_graph_engine.Work.Shlex.{split_words}
use agent_graph_engine.Work.Commands.{
  forbidden_text, safe_git_global_options, safe_git_subcommands, safe_git_diff_options, git_names,
  in_set, check_of, is_hook, check_diff_option, check_diff_options, check_git_arguments, check_git,
  words_of, parse_segment, parse_segments, parse_validation_checks, strip_markdown_code_span,
  split_segments, scan_start, segments_from, Scan, after_segment, closed, scan,
}

demand-eq-fine : (b : Bool) (e : WorkError) {u : Unit {0}} → demand b e ≡ fine u → b ≡ true
demand-eq-fine true e h = refl
demand-eq-fine false e h = absurd (ground arith)

words_of-eq-fine :
    (words : Option (List String)) (argv : List String)
    → words_of words ≡ fine argv
    → (w : String) × (ws : List String) × (argv ≡ w ∷ ws) × (words ≡ some argv)
words_of-eq-fine none argv h = absurd (ground arith)
words_of-eq-fine (some []) argv h = absurd (ground arith)
words_of-eq-fine (some (w ∷ ws)) argv h =
    let same : w ∷ ws ≡ argv = ground arith in (w, ws, sym same, ap some same)

after_segment-some :
    (ended : Option String) (rest : Fallible WorkError (List String)) (segments : List String)
    → ((later : List String) → rest ≡ fine later → is_empty later ≡ false)
    → after_segment ended rest ≡ fine segments
    → is_empty segments ≡ false
after_segment-some none rest segments later h = later segments h
after_segment-some (some text) rest segments later h =
    let (first, at, h2) = bind-eq-fine (closed text) _ h in
    let (others, at2, h3) = bind-eq-fine rest _ h2 in ground arith

segments_from-some :
    (raw : String) (st : Scan) (segments : List String)
    → segments_from raw st ≡ fine segments
    → is_empty segments ≡ false
unfolding segments_from
segments_from-some String.[] st segments h =
    let (last, ended, h2) = bind-eq-fine (closed st.current) _ h in ground arith
segments_from-some (String.◌∷◌ c s) st segments h =
    after_segment-some (scan c st).ended (segments_from s (scan c st)) segments
      (segments_from-some s (scan c st)) h

module _ (casefold : String → String) where
  -- The arguments of a git command of the grammar: options before the subcommand, the subcommand,
  -- and, for `diff`, options that start nothing.
  abbrev pub IsReadOnlyGit : List String → Type 0
  IsReadOnlyGit arguments =
      (globals : List String) × (sub : String) × (options : List String) × (arguments
        ≡ globals ++ sub ∷ options)
      × (All (λ g. in_set casefold safe_git_global_options g ≡ true) globals
          × ((in_set casefold safe_git_subcommands sub ≡ true)
              × (str_eq (casefold sub) "diff" ≡ true
                  → All (λ o. in_set casefold safe_git_diff_options o ≡ true) options)))

  diff_options :
      (options : List String)
      → check_diff_options casefold options ≡ fine tt
      → All (λ o. in_set casefold safe_git_diff_options o ≡ true) options
  unfolding check_diff_options check_diff_option
  diff_options [] h = tt
  diff_options (a ∷ rest) h =
      let (u, own, others) = bind-eq-fine (check_diff_option casefold a) _ h in
      let (no_hook, own') = demand-bind-eq-fine (not (is_hook casefold a)) _ _ own in
      (demand-eq-fine (in_set casefold safe_git_diff_options a) _ own', diff_options rest others)

  git_arguments :
      (arguments : List String)
      → check_git_arguments casefold arguments ≡ fine tt
      → IsReadOnlyGit arguments
  unfolding check_git_arguments
  git_arguments [] h = absurd (ground arith)
  git_arguments (a ∷ rest) h = elim (Bool-cases (in_set casefold safe_git_global_options a)) [
    | inl skip ↦
        let (globals, sub, options, e, (before, ok)) = git_arguments rest (ground arith) in
        (a ∷ globals, sub, options, ap (λ l. a ∷ l) e, ((skip, before), ok))
    | inr here ↦
        let (listed, after) =
          demand-bind-eq-fine (in_set casefold safe_git_subcommands a) _ _ (rw here at h) in
        ([], a, rest, refl, (tt, (listed, λ is_diff. diff_options rest (rw is_diff at after))))
  ]

  -- A check that may run: its argument vector is what `shlex` reads, it is not empty, and a git
  -- command is one of the grammar.
  abbrev pub IsSafeCheck : ValidationCheck → Type 0
  IsSafeCheck check =
      (command : String) × (arguments : List String) × (check.argv ≡ command ∷ arguments)
      × ((split_words check.raw ≡ some check.argv)
          × ((has_text "`" check.raw ≡ false)
              × (in_set casefold git_names command ≡ true → IsReadOnlyGit arguments)))

  module _ (origin : ValidationOrigin) (location : SourceLocation) where
    segment-IsSafeCheck :
        (declared : String) (check : ValidationCheck)
        → parse_segment casefold origin location declared ≡ fine check
        → IsSafeCheck check
    unfolding parse_segment
    segment-IsSafeCheck declared check h =
        let (segment, span, h2) = bind-eq-fine (strip_markdown_code_span declared) _ h in
        let (no_tick, h3) = demand-bind-eq-fine (not (has_text "`" segment)) _ _ h2 in
        let (argv, words, h4) = bind-eq-fine (words_of (split_words segment)) _ h3 in
        let (u, git_ok, h5) = bind-eq-fine (check_git casefold argv) _ h4 in
        let (w, ws, parts, read) = words_of-eq-fine (split_words segment) argv words in
        let made : check_of casefold origin location segment argv ≡ check = ground arith in
        let run : check_git casefold (w ∷ ws) ≡ fine tt =
          ap (check_git casefold) (sym parts) ∙ git_ok in
        subst IsSafeCheck made
          (w, ws, parts, (read, (ground arith, λ is_git. git_arguments ws (rw is_git at run))))

    segments-IsSafeCheck :
        (segments : List String) (checks : List ValidationCheck)
        → parse_segments casefold origin location segments ≡ fine checks
        → All IsSafeCheck checks
    unfolding parse_segments
    segments-IsSafeCheck [] [] h = tt
    segments-IsSafeCheck [] (c ∷ checks) h = absurd (ground arith)
    segments-IsSafeCheck (s ∷ segments) checks h =
        let (c, own, h2) = bind-eq-fine (parse_segment casefold origin location s) _ h in
        let (cs, others, h3) =
          bind-eq-fine (parse_segments casefold origin location segments) _ h2 in
        let same : c ∷ cs ≡ checks = ground arith in
        subst (All IsSafeCheck) same
          (segment-IsSafeCheck s c own, segments-IsSafeCheck segments cs others)

    -- A declaration that is accepted gives at least one check, and each of them is safe: its
    -- argument vector is what `shlex` reads in its text, it has a command, no backtick is in it,
    -- and if the command is git then it is one of the listed read-only subcommands, behind listed
    -- options only, with listed options only where the subcommand is `diff`.
    pub parse_validation_checks-IsSafeCheck :
        (raw : String) (checks : List ValidationCheck)
        → parse_validation_checks casefold origin location raw ≡ fine checks
        → (is_empty checks ≡ false) × All IsSafeCheck checks
    unfolding parse_validation_checks split_segments parse_segments
    parse_validation_checks-IsSafeCheck raw checks h =
        let (some_text, h2) = demand-bind-eq-fine (not (str_eq (strip raw) "")) _ _ h in
        let (no_operator, h3) =
          demand-bind-eq-fine (not (any (λ token. has_text token raw) forbidden_text)) _ _ h2 in
        let (declaration, span, h4) = bind-eq-fine (strip_markdown_code_span (strip raw)) _ h3 in
        let (segments, parted, h5) = bind-eq-fine (split_segments declaration) _ h4 in
        (
          some_check segments checks (segments_from-some declaration scan_start segments parted) h5,
          segments-IsSafeCheck segments checks h5,
        )
      where
        some_check :
            (segments : List String) (checks : List ValidationCheck)
            → is_empty segments ≡ false
            → parse_segments casefold origin location segments ≡ fine checks
            → is_empty checks ≡ false
        some_check [] checks left h = absurd (ground arith)
        some_check (s ∷ segments) checks left h =
            let (c, own, h2) = bind-eq-fine (parse_segment casefold origin location s) _ h in
            let (cs, others, h3) =
              bind-eq-fine (parse_segments casefold origin location segments) _ h2 in
            ground arith
