-- ===== src/Runtime/Healthy.antt =====
-- runtime/journal.py and runtime/state_store.py on a disk that loads.
use agent_graph_engine.Prelude.{◌+◌, String, ◌≡◌, refl, true, none, ◌∷◌, arith, eq_iff}
use agent_graph_engine.Core.State.{GraphState}
use agent_graph_engine.Runtime.Failures.{done}
use agent_graph_engine.Runtime.Journal.{Payload, next_record, is_valid, load}
use agent_graph_engine.Runtime.Disk.{
  Disk, Coordinator, seal_state, load_persisted, compare_and_swap, load_journal, append, ◌>>=◌,
}
use agent_graph_engine.Runtime.History.{next_record_valid}

-- A disk whose journal and state load.
pub record IsHealthy (c : Coordinator) (run_id : String) (d : Disk) : Type 0 where
  pub whole : d.tail ≡ none
  pub valid : is_valid c.digest_record run_id d.journal ≡ true
  pub authentic : d.persisted.digest ≡ c.digest_for_state d.persisted.state

module _ (c : Coordinator) (run_id : String) where
  -- A record added to the journal.
  abbrev pub push : Payload → Disk → Disk
  push p d = record d { journal = next_record c.digest_record run_id d.journal p ∷ d.journal }

  abbrev pub store : GraphState → Disk → Disk
  store s d = record d { persisted = seal_state c s }

  pub load_healthy :
      (d : Disk)
      → IsHealthy c run_id d
      → load c.digest_record run_id d.journal d.tail ≡ done d.journal
  unfolding load
  load_healthy d h = ground (arith, h.whole, h.valid)

  pub append_healthy :
      (p : Payload) (d : Disk)
      → IsHealthy c run_id d
      → append c run_id p d ≡ record {
        disk = push p d;
        outcome = done (next_record c.digest_record run_id d.journal p);
      }
  unfolding append
  append_healthy p d h = ground (arith, load_healthy d h)

  pub push-IsHealthy :
      (p : Payload) (d : Disk) → IsHealthy c run_id d → IsHealthy c run_id (push p d)
  push-IsHealthy p d h = record {
    whole = h.whole;
    valid = next_record_valid c.digest_record run_id d.journal p h.valid;
    authentic = h.authentic;
  }

  pub store-IsHealthy :
      (s : GraphState) (d : Disk) → IsHealthy c run_id d → IsHealthy c run_id (store s d)
  store-IsHealthy s d h = record { whole = h.whole; valid = h.valid; authentic = refl }

  pub load_persisted_healthy :
      (d : Disk)
      → IsHealthy c run_id d
      → load_persisted c d ≡ record { disk = d; outcome = done d.persisted }
  unfolding load_persisted
  load_persisted_healthy d h =
      ground (arith, h.authentic, eq_iff (c.digest_for_state d.persisted.state) d.persisted.digest)

  pub swap_healthy :
      (d : Disk) (next : GraphState)
      → IsHealthy c run_id d
      → next.state_version ≡ d.persisted.state.state_version + 1
      → compare_and_swap c d.persisted.state.state_version next d
        ≡ record { disk = store next d; outcome = done (seal_state c next) }
  unfolding compare_and_swap
  swap_healthy d next h k = ground (arith, load_persisted_healthy d h)

  -- Appending to a journal that loads: the call succeeds, the journal loads again, and it is the
  -- old one with one more record, of the next number, that is chained to the last one.
  pub append-load :
      (p : Payload) (d : Disk)
      → load c.digest_record run_id d.journal d.tail ≡ done d.journal
      → (append c run_id p >>= λ _. load_journal c run_id) d ≡ record {
        disk = push p d;
        outcome = done (next_record c.digest_record run_id d.journal p ∷ d.journal);
      }
  unfolding append load
  append-load p d h = ground (arith, next_record_valid c.digest_record run_id d.journal p)
