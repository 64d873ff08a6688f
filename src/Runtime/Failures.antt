-- ===== src/Runtime/Failures.antt =====
-- runtime/errors.py: the exceptions of a run. An outcome is what a call of the runtime leaves; its
-- effects on the disk stay when it raises.
use agent_graph_engine.Prelude.{String, Bool, true, false}
use agent_graph_engine.Core.Errors.{Error, Result, ok, err}

pub data Failure : Type 0 where
  core : Error → Failure
  state_conflict state_corruption : Failure
  journal_corruption : Failure
  truncated_journal : String → Failure
  recovery_failure active_run_exists run_already_exists incomplete_run_initialization : Failure
  -- What the fault hook or a reconciler raises.
  injected : String → Failure

pub data Outcome {ℓ} (A : Type ℓ) : Type ℓ where
  raised : Failure → Outcome A
  done : A → Outcome A

-- An engine's result, as an outcome.
abbrev pub from_core {ℓ} : {A : Type ℓ} → Result A → Outcome A
from_core (err e) = raised (core e)
from_core (ok a) = done a

abbrev pub unless : Bool → Failure → Outcome (Unit {0})
unless true f = done tt
unless false f = raised f
