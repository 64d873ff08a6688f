-- ===== src/Runtime/Exclusive.antt =====
-- runtime/coordinator.py: the unfinished runs of a project, before and after a start.
use agent_graph_engine.Prelude.{
  ◌≤◌, String, ◌≡◌, ◌≢◌, refl, sym, ap, subst, ◌⊎◌, inl, inr, Bool, true, false, not, Option, none,
  some, List, [], ◌∷◌, select, length, All, arith, Bool-cases,
}
use agent_graph_engine.Core.State.{GraphState}
use agent_graph_engine.Core.Errors.{ok}
use agent_graph_engine.Core.Engine.{initial_state}
use agent_graph_engine.Runtime.Failures.{Outcome, done, raised, unless, run_already_exists}
use agent_graph_engine.Runtime.Disk.{Coordinator}
use agent_graph_engine.Runtime.Project.{
  RunFolder, Project, Answer, ◌>>=◌, then_do, unchanged, has_terminal_evidence, is_initialized,
  find_unfinished_runs, found_with, refuse_unfinished, release_active, enforce_active_run_lifecycle,
  folder_of, launch, is_taken, start_run,
}
use agent_graph_engine.Runtime.Launch.{KeepsRuns, IsLaunched, launch-Launches}

module _ (c : Coordinator) where
  found_with-nil :
      (terminal : Bool) (id : String) (o : Outcome (List String))
      → found_with c terminal id o ≡ done []
      → (terminal ≡ true) × (o ≡ done [])
  found_with-nil terminal id (raised f) h = absurd (ground arith)
  found_with-nil true id (done ids) h = (refl, h)
  found_with-nil false id (done ids) h = absurd (ground arith)

  -- Where the search finds nothing, every run has terminal evidence.
  none_found :
      (runs : List RunFolder)
      → find_unfinished_runs c runs ≡ done []
      → All (λ f. has_terminal_evidence c f ≡ true) runs
  unfolding find_unfinished_runs
  none_found [] h = tt
  none_found (f ∷ rest) h = elim (Bool-cases (is_initialized c f)) [
    | inl valid ↦
        let (ends, others) =
          found_with-nil (has_terminal_evidence c f) f.name (find_unfinished_runs c rest)
            (rw valid at h) in
        (ends, none_found rest others)
    | inr broken ↦ absurd (ground arith)
  ]

  release-KeepsRuns : (a : Option String) → KeepsRuns (release_active c a)
  release-KeepsRuns none p = refl
  release-KeepsRuns (some id) p = ground arith

  refuse-KeepsRuns : (ids : List String) → KeepsRuns (refuse_unfinished c ids)
  refuse-KeepsRuns [] p = refl
  refuse-KeepsRuns (id ∷ ids) p = refl

  -- The check of the lifecycle leaves the runs, and passes only where all of them are finished.
  abbrev Enforced : List RunFolder → Answer (Unit {0}) → Type 0
  Enforced old x =
      (x.project.runs ≡ old)
      × (x.outcome ≡ done tt → All (λ f. has_terminal_evidence c f ≡ true) old)

  refused_unless_none :
      (old : List RunFolder) (q : Project) (o : Outcome (List String))
      → q.runs ≡ old
      → find_unfinished_runs c old ≡ o
      → Enforced old (then_do q o (refuse_unfinished c))
  refused_unless_none old q (raised f) same found = (same, λ e. absurd (ground arith))
  refused_unless_none old q (done []) same found = (same, λ e. none_found old found)
  refused_unless_none old q (done (id ∷ ids)) same found = (same, λ e. absurd (ground arith))

  enforced : (p : Project) → Enforced p.runs (enforce_active_run_lifecycle c p)
  unfolding enforce_active_run_lifecycle
  enforced p = released (release_active c p.active p).outcome refl
    where
      released :
          (o : Outcome (Unit {0}))
          → (release_active c p.active p).outcome ≡ o
          → Enforced p.runs (
              then_do
                (release_active c p.active p).project
                o
                (λ _. (λ q. unchanged (find_unfinished_runs c q.runs) q) >>= refuse_unfinished c))
      released (raised f) e = (release-KeepsRuns p.active p, λ e. absurd (ground arith))
      released (done a) e =
          let same = release-KeepsRuns p.active p in
          refused_unless_none p.runs (release_active c p.active p).project
            (find_unfinished_runs c (release_active c p.active p).project.runs) same
            (ap (find_unfinished_runs c) (sym same))

  -- At most one run has no terminal evidence.
  abbrev pub IsExclusive : List RunFolder → Type 0
  IsExclusive runs = length (select (λ f. not (has_terminal_evidence c f)) runs) ≤ 1

  nothing_left :
      (runs : List RunFolder)
      → All (λ f. has_terminal_evidence c f ≡ true) runs
      → select (λ f. not (has_terminal_evidence c f)) runs ≡ []
  nothing_left [] h = refl
  nothing_left (f ∷ runs) h = ground (arith, h.0, nothing_left runs h.1)

  -- What a start leaves: the runs as they were, or, where all of them are finished, one more.
  abbrev pub IsStarted : String → List RunFolder → Answer (Unit {0}) → Type 0
  IsStarted id old x =
      ((x.project.runs ≡ old) × (x.outcome ≢ done tt))
      ⊎ (All (λ f. has_terminal_evidence c f ≡ true) old × IsLaunched c id old x)

  start_run-IsStarted :
      (artifacts : Option String) (id : String) (recover : Bool) (p : Project)
      → IsStarted id p.runs (start_run c artifacts id recover p)
  unfolding start_run
  start_run-IsStarted artifacts id recover p =
      by_name (unless (not (is_taken c id p.runs)) run_already_exists)
    where
      by_check :
          (q : Project) (o : Outcome (Unit {0}))
          → q.runs ≡ p.runs
          → (o ≡ done tt → All (λ f. has_terminal_evidence c f ≡ true) p.runs)
          → IsStarted id p.runs (then_do q o (λ _. launch c artifacts id recover))
      by_check q (raised f) same finished = inl (same, λ e. ground arith)
      by_check q (done a) same finished =
          inr (finished refl, launch-Launches c id p.runs artifacts recover q same)

      by_name :
          (o : Outcome (Unit {0}))
          → IsStarted id p.runs (
              then_do p o
                (λ _. enforce_active_run_lifecycle c >>= λ _. launch c artifacts id recover))
      by_name (raised f) = inl (refl, λ e. ground arith)
      by_name (done a) =
          let x = enforce_active_run_lifecycle c p in
          by_check x.project x.outcome (enforced p).0 (enforced p).1

  -- A start of a run, with or without the recovery of its staging directory, and with any fault or
  -- failure on its way, leaves at most one run without terminal evidence, if there was at most one.
  pub start_run-IsExclusive :
      (artifacts : Option String) (id : String) (recover : Bool) (p : Project)
      → IsExclusive p.runs
      → IsExclusive (start_run c artifacts id recover p).project.runs
  start_run-IsExclusive artifacts id recover p h =
      elim (start_run-IsStarted artifacts id recover p) [
        | inl (same, failed) ↦ subst IsExclusive (sym same) h
        | inr (finished, inl (same, failed)) ↦ subst IsExclusive (sym same) h
        | inr (finished, inr (s, added, (built, owner))) ↦
            let nothing = nothing_left p.runs finished in
            subst IsExclusive (sym added) (ground (arith, nothing))
      ]

  -- A start that succeeds found every run with terminal evidence, added just the new run, with its
  -- initial state and its first journal record, and made it the owner of the project.
  pub start_run-owner :
      (artifacts : Option String) (id : String) (recover : Bool) (p : Project)
      → (start_run c artifacts id recover p).outcome ≡ done tt
      → All (λ f. has_terminal_evidence c f ≡ true) p.runs
        × ((s : GraphState) × ((initial_state c.engine id ≡ ok s)
              × (((start_run c artifacts id recover p).project.runs ≡ folder_of c id s ∷ p.runs)
                  × ((start_run c artifacts id recover p).project.active ≡ some id))))
  start_run-owner artifacts id recover p h = elim (start_run-IsStarted artifacts id recover p) [
    | inl (same, failed) ↦ absurd (failed h)
    | inr (finished, inl (same, failed)) ↦ absurd (failed h)
    | inr (finished, inr (s, added, (built, owner))) ↦ (finished, (s, (built, (added, owner h))))
  ]
