-- ===== src/Runtime/Crash/Closing.antt =====
-- The end of a run that was interrupted while it was finalized.
use agent_graph_engine.Prelude.{String, ◌≡◌, refl, ◌⊎◌, true, false, Option, none, some, arith, any}
use agent_graph_engine.Prelude.Text.{str_eq}
use agent_graph_engine.Core.State.{GraphState}
use agent_graph_engine.Runtime.Journal.{Payload}
use agent_graph_engine.Runtime.Disk.{Disk, Coordinator, seal_state}
use agent_graph_engine.Runtime.Recovery.{execute}
use agent_graph_engine.Runtime.Session.{
  recover, finalize, finalize_at_end, finalized_of, receipt_of, cleared, is_finalized,
}
use agent_graph_engine.Runtime.Healthy.{
  IsHealthy, push, load_healthy, append_healthy, push-IsHealthy, load_persisted_healthy,
}
use agent_graph_engine.Runtime.Crash.Same.{same_receipt_refl}
use agent_graph_engine.Runtime.Crash.Redo.{assess_healthy}

-- A disk whose state stands at END and whose run is not finalized yet.
pub record IsUnfinalized (c : Coordinator) (run_id : String) (d : Disk) (s : GraphState)
    : Type 0 where
  pub healthy : IsHealthy c run_id d
  pub state : d.persisted ≡ seal_state c s
  pub ended : str_eq s.graph.current_node "END" ≡ true
  pub open_journal : any is_finalized d.journal ≡ false
  pub no_receipt : d.receipt ≡ none

module _ (c : Coordinator) (run_id : String) (s : GraphState) (d : Disk) where
  -- The disks of the finalization, in order.
  abbrev pub finalized_disk : Disk
  finalized_disk =
      push c run_id (Payload.run_finalized (finalized_of c run_id s (c.digest_for_state s))) d

  abbrev pub receipt_disk : Disk
  receipt_disk = record finalized_disk {
    receipt = some (receipt_of c run_id s (c.digest_for_state s) finalized_disk.journal);
  }

  abbrev pub closed_disk : Disk
  closed_disk = record receipt_disk { active = cleared run_id d.active }

  -- Where a finalization can stop.
  abbrev pub StopsAt : Disk → Type 0
  StopsAt x = (x ≡ finalized_disk) ⊎ (x ≡ receipt_disk) ⊎ (x ≡ closed_disk)

  module _ (u : IsUnfinalized c run_id d s) where
    finalized-IsHealthy : IsHealthy c run_id finalized_disk
    finalized-IsHealthy = push-IsHealthy c run_id _ d u.healthy

    receipt-IsHealthy : IsHealthy c run_id receipt_disk
    receipt-IsHealthy = record {
      whole = finalized-IsHealthy.whole;
      valid = finalized-IsHealthy.valid;
      authentic = finalized-IsHealthy.authentic;
    }

    pub finalize_stops : StopsAt (finalize_at_end c run_id s (c.digest_for_state s) d).disk
    unfolding finalize
    finalize_stops = ground (
      arith,
      u.ended,
      u.open_journal,
      u.no_receipt,
      load_healthy c run_id d u.healthy,
      append_healthy c run_id
          (Payload.run_finalized (finalized_of c run_id s (c.digest_for_state s))) d u.healthy,
      load_healthy c run_id finalized_disk finalized-IsHealthy,
    )

    module _ (calm : (stage : String) → c.fault stage ≡ none) where
      pub finalize_calm : (finalize_at_end c run_id s (c.digest_for_state s) d).disk ≡ closed_disk
      unfolding finalize
      finalize_calm = ground (
        arith,
        u.ended,
        u.open_journal,
        u.no_receipt,
        calm "before_final_receipt",
        calm "after_final_receipt",
        load_healthy c run_id d u.healthy,
        append_healthy c run_id
            (Payload.run_finalized (finalized_of c run_id s (c.digest_for_state s))) d u.healthy,
        load_healthy c run_id finalized_disk finalized-IsHealthy,
      )

      pub recover_finalized : (recover c run_id finalized_disk).disk ≡ closed_disk
      unfolding recover execute finalize
      recover_finalized = ground (
        arith,
        u.state,
        u.ended,
        u.no_receipt,
        calm "before_final_receipt",
        calm "after_final_receipt",
        assess_healthy c run_id finalized_disk finalized-IsHealthy,
        load_persisted_healthy c run_id finalized_disk finalized-IsHealthy,
        load_healthy c run_id finalized_disk finalized-IsHealthy,
      )

      pub recover_receipt : (recover c run_id receipt_disk).disk ≡ closed_disk
      unfolding recover execute finalize
      recover_receipt = ground (
        arith,
        u.state,
        u.ended,
        assess_healthy c run_id receipt_disk receipt-IsHealthy,
        load_persisted_healthy c run_id receipt_disk receipt-IsHealthy,
        load_healthy c run_id receipt_disk receipt-IsHealthy,
        same_receipt_refl (receipt_of c run_id s (c.digest_for_state s) finalized_disk.journal),
      )

      closed-IsHealthy : IsHealthy c run_id closed_disk
      closed-IsHealthy = record {
        whole = finalized-IsHealthy.whole;
        valid = finalized-IsHealthy.valid;
        authentic = finalized-IsHealthy.authentic;
      }

      pub recover_closed : (recover c run_id closed_disk).disk ≡ closed_disk
      unfolding recover execute finalize
      recover_closed = ground (
        arith,
        u.state,
        u.ended,
        assess_healthy c run_id closed_disk closed-IsHealthy,
        load_persisted_healthy c run_id closed_disk closed-IsHealthy,
        load_healthy c run_id closed_disk closed-IsHealthy,
        same_receipt_refl (receipt_of c run_id s (c.digest_for_state s) finalized_disk.journal),
        cleared_twice d.active,
      )
        where
          cleared_twice : (a : Option String) → cleared run_id (cleared run_id a) ≡ cleared run_id a
          cleared_twice none = refl
          cleared_twice (some owner) = ground arith
