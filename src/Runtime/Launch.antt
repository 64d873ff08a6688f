-- ===== src/Runtime/Launch.antt =====
-- runtime/coordinator.py, `_start_run` from the staging directory on: what it adds to a project.
use agent_graph_engine.Prelude.{
  String, ◌≡◌, ◌≢◌, refl, ap, ◌∙◌, ◌⊎◌, inl, inr, Bool, Option, some, List, [], ◌∷◌, arith,
}
use agent_graph_engine.Core.State.{GraphState}
use agent_graph_engine.Core.Errors.{Result, ok, err}
use agent_graph_engine.Core.Engine.{initial_state}
use agent_graph_engine.Runtime.Failures.{Outcome, done, raised, from_core}
use agent_graph_engine.Runtime.Disk.{Coordinator}
use agent_graph_engine.Runtime.Project.{
  RunFolder, Project, Answer, Command, ◌>>=◌, then_do, unchanged, at_stage, clear_staging,
  stage_run, promote, folder_of, activate, launch, furnish, pass, raised_by, set_active,
}

abbrev pub KeepsRuns {ℓ} : {A : Type ℓ} → Command A → Type 0
KeepsRuns m = (p : Project) → (m p).project.runs ≡ p.runs

-- A command that fails with the runs as they were, or that adds the run and, if it succeeds, makes
-- it the owner of the project.
abbrev pub IsLaunched : Coordinator → String → List RunFolder → Answer (Unit {0}) → Type 0
IsLaunched c id old x =
    ((x.project.runs ≡ old) × (x.outcome ≢ done tt))
    ⊎ ((s : GraphState) × (x.project.runs ≡ folder_of c id s ∷ old)
        × ((initial_state c.engine id ≡ ok s) × (x.outcome ≡ done tt → x.project.active ≡ some id)))

module _ (c : Coordinator) (id : String) (old : List RunFolder) where
  abbrev Launches : Command (Unit {0}) → Type 0
  Launches m = (q : Project) → q.runs ≡ old → IsLaunched c id old (m q)

  module _ {ℓ} {A : Type ℓ} where
    IsLaunched-then_do :
        (q : Project) (o : Outcome A) (next : A → Command (Unit {0}))
        → q.runs ≡ old
        → ((a : A) → Launches (next a))
        → IsLaunched c id old (then_do q o next)
    IsLaunched-then_do q (raised f) next same later = inl (same, λ e. ground arith)
    IsLaunched-then_do q (done a) next same later = later a q same

    Launches-bind :
        (m : Command A) (next : A → Command (Unit {0}))
        → KeepsRuns m
        → ((a : A) → Launches (next a))
        → Launches (m >>= next)
    Launches-bind m next keeps later p same =
        IsLaunched-then_do (m p).project (m p).outcome next (keeps p ∙ same) later

module _ (c : Coordinator) where
  stage-KeepsRuns : (stage : String) → KeepsRuns (at_stage c stage)
  stage-KeepsRuns stage p = refl

  clear_staging-KeepsRuns : (id : String) (recover : Bool) → KeepsRuns (clear_staging c id recover)
  clear_staging-KeepsRuns id recover p = ground arith

  KeepsRuns-then_do :
      (q : Project) (o : Outcome (Unit {0})) (next : Command (Unit {0}))
      → KeepsRuns next
      → (then_do q o (λ _. next)).project.runs ≡ q.runs
  KeepsRuns-then_do q (raised f) next keeps = refl
  KeepsRuns-then_do q (done a) next keeps = keeps q

  KeepsRuns-bind :
      (m next : Command (Unit {0})) → KeepsRuns m → KeepsRuns next → KeepsRuns (m >>= λ _. next)
  KeepsRuns-bind m next first second p =
      KeepsRuns-then_do (m p).project (m p).outcome next second ∙ first p

  pass-KeepsRuns :
      (stages : List String) (m : Command (Unit {0})) → KeepsRuns m → KeepsRuns (pass c stages m)
  pass-KeepsRuns [] m keeps = keeps
  pass-KeepsRuns (stage ∷ stages) m keeps =
      KeepsRuns-bind (at_stage c stage) (pass c stages m) (stage-KeepsRuns stage)
        (pass-KeepsRuns stages m keeps)

  -- Stages pass without effect, or the command does not succeed.
  pass-done :
      (stages : List String) (m : Command (Unit {0})) (q : Project)
      → (pass c stages m q).outcome ≡ done tt
      → pass c stages m q ≡ m q
  pass-done [] m q h = refl
  pass-done (stage ∷ stages) m q h = by_fault (raised_by (c.fault stage)) h (pass-done stages m q)
    where
      by_fault :
          (o : Outcome (Unit {0}))
          → (then_do q o (λ _. pass c stages m)).outcome ≡ done tt
          → ((pass c stages m q).outcome ≡ done tt → pass c stages m q ≡ m q)
          → then_do q o (λ _. pass c stages m) ≡ m q
      by_fault (raised f) h later = absurd (ground arith)
      by_fault (done a) h later = later h

  module _ (id : String) (old : List RunFolder) where
    abbrev closing : Command (Unit {0})
    closing = pass c ("after_run_promotion" ∷ "before_run_activation" ∷ []) (set_active (some id))

    closing-KeepsRuns : KeepsRuns closing
    closing-KeepsRuns =
        pass-KeepsRuns ("after_run_promotion" ∷ "before_run_activation" ∷ []) (set_active (some id))
          (λ p. refl)

    owned_after :
        (x : Answer (Unit {0})) (o : Outcome (Unit {0}))
        → (x.outcome ≡ done tt → x.project.active ≡ some id)
        → (then_do x.project x.outcome (λ _. unchanged o)).outcome ≡ done tt
        → (then_do x.project x.outcome (λ _. unchanged o)).project.active ≡ some id
    owned_after x o owner h = by_outcome x.project x.outcome owner h
      where
        by_outcome :
            (q : Project) (o' : Outcome (Unit {0}))
            → (o' ≡ done tt → q.active ≡ some id)
            → (then_do q o' (λ _. unchanged o)).outcome ≡ done tt
            → (then_do q o' (λ _. unchanged o)).project.active ≡ some id
        by_outcome q (raised f) owner h = absurd (ground arith)
        by_outcome q (done a) owner h = owner refl

    activate-Launches :
        (s : GraphState) → initial_state c.engine id ≡ ok s → Launches c id old (activate c id s)
    activate-Launches s built q same =
        let p = (promote c id s q).project in
        inr (
          s,
          KeepsRuns-bind closing (at_stage c "after_run_activation") closing-KeepsRuns
                (stage-KeepsRuns "after_run_activation") p
              ∙ ap (λ runs. folder_of c id s ∷ runs) same,
          (
            built,
            owned_after (closing p) (raised_by (c.fault "after_run_activation")) (λ e.
                ap (λ (x : Answer (Unit {0})). x.project.active)
                  (pass-done ("after_run_promotion" ∷ "before_run_activation" ∷ [])
                    (set_active (some id)) p e)),
          ),
        )

    pass-Launches :
        (stages : List String) (m : Command (Unit {0}))
        → Launches c id old m
        → Launches c id old (pass c stages m)
    pass-Launches [] m launch_m = launch_m
    pass-Launches (stage ∷ stages) m launch_m =
        Launches-bind c id old (at_stage c stage) (λ _. pass c stages m) (stage-KeepsRuns stage)
          (λ _. pass-Launches stages m launch_m)

    furnish-Launches :
        (artifacts : Option String) (s : GraphState)
        → initial_state c.engine id ≡ ok s
        → Launches c id old (furnish c artifacts id s)
    furnish-Launches artifacts s built =
        pass-Launches
          ("after_state_initialization" ∷ "after_journal_creation" ∷ "after_run_started" ∷ []) _
          (Launches-bind c id old (unchanged (raised_by artifacts))
            (λ _.
              pass c ("after_initialization_artifacts" ∷ "before_run_promotion" ∷ [])
                (activate c id s))
            (λ p. refl)
            (λ _.
              pass-Launches ("after_initialization_artifacts" ∷ "before_run_promotion" ∷ [])
                (activate c id s) (activate-Launches s built)))

    initial-Launches :
        (artifacts : Option String) (r : Result GraphState)
        → initial_state c.engine id ≡ r
        → Launches c id old (unchanged (from_core r) >>= furnish c artifacts id)
    initial-Launches artifacts (err e) built q same = inl (same, λ h. ground arith)
    initial-Launches artifacts (ok s) built q same = furnish-Launches artifacts s built q same

    pub launch-Launches :
        (artifacts : Option String) (recover : Bool)
        → Launches c id old (launch c artifacts id recover)
    launch-Launches artifacts recover =
        Launches-bind c id old (clear_staging c id recover) (λ _. staged)
          (clear_staging-KeepsRuns id recover)
          (λ _.
            Launches-bind c id old (stage_run c id) (λ _. initialized) (λ p. refl)
              (λ _.
                Launches-bind c id old (at_stage c "after_run_staging_creation") (λ _. furnished)
                  (stage-KeepsRuns "after_run_staging_creation")
                  (λ _. initial-Launches artifacts (initial_state c.engine id) refl)))
      where
        furnished : Command (Unit {0})
        furnished = unchanged (from_core (initial_state c.engine id)) >>= furnish c artifacts id

        initialized : Command (Unit {0})
        initialized = at_stage c "after_run_staging_creation" >>= λ _. furnished

        staged : Command (Unit {0})
        staged = stage_run c id >>= λ _. initialized
