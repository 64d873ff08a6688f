-- ===== src/Runtime/Advance.antt =====
-- runtime/recovery.py: which states recovery writes.
use agent_graph_engine.Prelude.{
  ℕ, String, ◌≡◌, refl, sym, ap, ◌∙◌, subst, ◌⊎◌, inl, inr, Bool, true, false, Option, none, some,
  List, arith, eq_iff, any, Bool-cases,
}
use agent_graph_engine.Core.Errors.{Result, ok, err}
use agent_graph_engine.Core.State.{GraphState}
use agent_graph_engine.Core.Edges.{Transition}
use agent_graph_engine.Core.Engine.{apply_result}
use agent_graph_engine.Runtime.Failures.{
  Outcome, done, raised, state_corruption, recovery_failure, from_core, unless,
}
use agent_graph_engine.Runtime.Journal.{JournalRecord, Payload, Recorded, load}
use agent_graph_engine.Runtime.Disk.{
  Disk, PersistedState, Coordinator, Action, ◌>>=◌, load_persisted, compare_and_swap, append,
  seal_state, load_journal, proceed, FinalReceipt, only, give,
}
use agent_graph_engine.Runtime.Evidence.{RecoveryAction, RecoveryAssessment, last_recorded}
use agent_graph_engine.Runtime.Recovery.{
  assess, execute, verify_recomputed, reapply, complete, execute_recorded, commit_marker, executes,
}
use agent_graph_engine.Runtime.Session.{
  recover, finalize, finalize_at_end, append_finalized, settle_receipt, finalized_of, receipt_of,
  is_finalized,
}

-- An action that leaves the state file alone.
abbrev Keeps {ℓ} : {A : Type ℓ} → Action A → Type 0
Keeps m = (d : Disk) → (m d).disk.persisted ≡ d.persisted

proceed-Keeps {ℓ κ} :
    {A : Type ℓ} {B : Type κ} (d : Disk) (o : Outcome A) (next : A → Action B)
    → ((a : A) → Keeps (next a))
    → (proceed d o next).disk.persisted ≡ d.persisted
proceed-Keeps d (raised f) next k = refl
proceed-Keeps d (done a) next k = k a d

bind-Keeps {ℓ κ} :
    {A : Type ℓ} {B : Type κ} (m : Action A) (next : A → Action B)
    → Keeps m
    → ((a : A) → Keeps (next a))
    → Keeps (m >>= next)
bind-Keeps m next h k d = proceed-Keeps (m d).disk (m d).outcome next k ∙ h d

module _ (c : Coordinator) (run_id : String) where
  -- What recovery may leave as the state: the one that it found, or the one that the engine makes
  -- of it with the result that the journal recorded last.
  abbrev pub Advances : Disk → PersistedState → Type 0
  Advances d p =
      (p ≡ d.persisted)
      ⊎ ((r : Recorded) × (next : GraphState) × (t : Transition) × (last_recorded d.journal
            ≡ some r)
          × (apply_result c.engine d.persisted.state r.node_result ≡ ok (next, t))
          × (r.expected_next_state_digest ≡ c.digest_for_state next)
          × (p ≡ seal_state c next))

  load_persisted_disk : (d : Disk) → (load_persisted c d).disk ≡ d
  unfolding load_persisted
  load_persisted_disk d = ground arith

  loaded_state :
      (d : Disk) {p : PersistedState} → (load_persisted c d).outcome ≡ done p → p ≡ d.persisted
  unfolding load_persisted
  loaded_state d h = ground arith

  loaded_journal :
      (d : Disk) {records : List JournalRecord}
      → load c.digest_record run_id d.journal d.tail ≡ done records
      → records ≡ d.journal
  unfolding load
  loaded_journal d h = ground arith

  loaded_cases :
      (d : Disk)
      → (load_persisted c d ≡ record { disk = d; outcome = raised state_corruption })
        ⊎ (load_persisted c d ≡ record { disk = d; outcome = done d.persisted })
  unfolding load_persisted
  loaded_cases d = ground arith

  append_state : (p : Payload) (d : Disk) → (append c run_id p d).disk.persisted ≡ d.persisted
  unfolding append load
  append_state p d = ground arith

  assess_disk : (d : Disk) → (assess c run_id d).disk ≡ d
  unfolding assess load
  assess_disk d = ground (arith, load_persisted_disk d)

  append_finalized-Keeps :
      (s : GraphState) (digest : String) (b : Bool) → Keeps (append_finalized c run_id s digest b)
  append_finalized-Keeps s digest true = λ d. refl
  append_finalized-Keeps s digest false =
      bind-Keeps (append c run_id (Payload.run_finalized (finalized_of c run_id s digest)))
        (λ _. load_journal c run_id) (append_state _) (λ _ d. refl)

  settle_receipt-Keeps :
      (r : FinalReceipt) (o : Option FinalReceipt) → Keeps (settle_receipt c run_id r o)
  settle_receipt-Keeps r none d = ground arith
  settle_receipt-Keeps r (some existing) d = ground arith

  finalize-Keeps : (s : GraphState) (digest : String) → Keeps (finalize c run_id s digest)
  unfolding finalize
  finalize-Keeps s digest =
      bind-Keeps (load_journal c run_id) _ (λ d. refl)
        (λ records.
          bind-Keeps (append_finalized c run_id s digest (any is_finalized records)) _
            (append_finalized-Keeps s digest (any is_finalized records))
            (λ all_records d.
              settle_receipt-Keeps (receipt_of c run_id s digest all_records) d.receipt d))

  finalize_at_end-Keeps :
      (s : GraphState) (digest : String) → Keeps (finalize_at_end c run_id s digest)
  finalize_at_end-Keeps s digest d = ground (arith, finalize-Keeps s digest d)

  marker-Keeps : (t : Transition) (p : PersistedState) → Keeps (commit_marker c run_id t p)
  marker-Keeps t p =
      bind-Keeps (append c run_id _) (λ _. assess c run_id) (append_state _)
        (λ _ d. ap (λ (x : Disk). x.persisted) (assess_disk d))

  complete-Keeps : (r : Recorded) → Keeps (complete c run_id r)
  complete-Keeps r =
      bind-Keeps (load_persisted c) _ (λ d. ap (λ (x : Disk). x.persisted) (load_persisted_disk d))
        (λ p. marker-Keeps r.transition p)

  swapped :
      (version : ℕ) (next : GraphState) (d : Disk)
      → ((compare_and_swap c version next d).disk.persisted ≡ d.persisted)
        ⊎ ((compare_and_swap c version next d).disk.persisted ≡ seal_state c next)
  unfolding compare_and_swap load_persisted
  swapped version next d = ground arith

  -- The state that an action writes, where it writes one.
  abbrev Writes : Disk → Recorded → Disk → Type 0
  Writes d r x =
      (x.persisted ≡ d.persisted)
      ⊎ ((next : GraphState) × (t : Transition) × (apply_result c.engine d.persisted.state
              r.node_result
            ≡ ok (next, t))
          × (r.expected_next_state_digest ≡ c.digest_for_state next)
          × (x.persisted ≡ seal_state c next))

  abbrev swap_and_mark : ℕ → GraphState → Transition → Action RecoveryAssessment
  swap_and_mark version next t = compare_and_swap c version next >>= commit_marker c run_id t

  marked :
      (version : ℕ) (next : GraphState) (t : Transition) (d : Disk)
      → ((swap_and_mark version next t d).disk.persisted ≡ d.persisted)
        ⊎ ((swap_and_mark version next t d).disk.persisted ≡ seal_state c next)
  marked version next t d =
      let m = compare_and_swap c version next d in
      let same = proceed-Keeps m.disk m.outcome (commit_marker c run_id t) (marker-Keeps t) in
      elim (swapped version next d) [ inl h ↦ inl (same ∙ h) | inr h ↦ inr (same ∙ h) ]

  recomputed_digest :
      (r : Recorded) (next : GraphState) (t : Transition)
      → verify_recomputed c run_id r next t ≡ true
      → r.expected_next_state_digest ≡ c.digest_for_state next
  unfolding verify_recomputed
  recomputed_digest r next t h =
      ground (arith, eq_iff r.expected_next_state_digest (c.digest_for_state next))

  -- The part of `reapply` that comes after the engine.
  abbrev verified : Recorded → ℕ → GraphState → Transition → Bool → Action RecoveryAssessment
  verified r version next t b =
      only (unless b recovery_failure) >>= λ _. swap_and_mark version next t

  verified-Writes :
      (r : Recorded) (next : GraphState) (t : Transition) (d : Disk) (b : Bool)
      → apply_result c.engine d.persisted.state r.node_result ≡ ok (next, t)
      → verify_recomputed c run_id r next t ≡ b
      → Writes d r (verified r d.persisted.state.state_version next t b d).disk
  verified-Writes r next t d false h v = inl refl
  verified-Writes r next t d true h v = elim (marked d.persisted.state.state_version next t d) [
    | inl k ↦ inl k
    | inr k ↦ inr (next, t, h, recomputed_digest r next t v, k)
  ]

  abbrev with_result :
      Recorded → PersistedState → Result (GraphState × Transition) → Action RecoveryAssessment
  with_result r p q = only (from_core q) >>= λ (next, t).
      verified r p.state.state_version next t (verify_recomputed c run_id r next t)

  with_result-Writes :
      (r : Recorded) (d : Disk) (q : Result (GraphState × Transition))
      → apply_result c.engine d.persisted.state r.node_result ≡ q
      → Writes d r (with_result r d.persisted q d).disk
  with_result-Writes r d (err e) h = inl refl
  with_result-Writes r d (ok (next, t)) h = verified-Writes r next t d _ h refl

  reapply-Writes : (r : Recorded) (d : Disk) → Writes d r (reapply c run_id r d).disk
  reapply-Writes r d = elim (loaded_cases d) [
    | inl h ↦ subst (λ m. Writes d r (proceed m.disk m.outcome next).disk) (sym h) (inl refl)
    | inr h ↦
        subst (λ m. Writes d r (proceed m.disk m.outcome next).disk) (sym h)
          (with_result-Writes r d (apply_result c.engine d.persisted.state r.node_result) refl)
  ]
    where
      next : PersistedState → Action RecoveryAssessment
      next p = with_result r p (apply_result c.engine p.state r.node_result)

  execute_recorded-Advances :
      (action : RecoveryAction) (o : Option Recorded) (d : Disk)
      → last_recorded d.journal ≡ o
      → Advances d (execute_recorded c run_id action o d).disk.persisted
  execute_recorded-Advances action none d e = inl refl
  execute_recorded-Advances RecoveryAction.reapply_recorded_result (some r) d e =
      elim (reapply-Writes r d) [
        | inl h ↦ inl h
        | inr (next, t, h, digest, k) ↦ inr (r, next, t, e, h, digest, k)
      ]
  execute_recorded-Advances RecoveryAction.clean_resume (some r) d e = inl (complete-Keeps r d)
  execute_recorded-Advances _ (some r) d e = inl (complete-Keeps r d)

  with_journal-Advances :
      (action : RecoveryAction) (d : Disk) (o : Outcome (List JournalRecord))
      → load c.digest_record run_id d.journal d.tail ≡ o
      → Advances d
          (proceed d o
            (λ records. execute_recorded c run_id action (last_recorded records))).disk.persisted
  with_journal-Advances action d (raised f) e = inl refl
  with_journal-Advances action d (done records) e =
      execute_recorded-Advances action (last_recorded records) d
        (ap last_recorded (sym (loaded_journal d e)))

  execute-Advances :
      (a : RecoveryAssessment) (d : Disk) → Advances d (execute c run_id a d).disk.persisted
  unfolding execute
  execute-Advances a d = elim (Bool-cases (executes c run_id a.action)) [
    | inl h ↦
        rw h (with_journal-Advances a.action d (load c.digest_record run_id d.journal d.tail) refl)
    | inr h ↦ rw h (inl refl)
  ]

  abbrev closing : RecoveryAssessment → Action RecoveryAssessment
  closing x = load_persisted c >>= λ p. finalize_at_end c run_id p.state p.digest >>= λ _. give x

  closing-Keeps : (x : RecoveryAssessment) → Keeps (closing x)
  closing-Keeps x =
      bind-Keeps (load_persisted c) _ (λ d. ap (λ (y : Disk). y.persisted) (load_persisted_disk d))
        (λ p.
          bind-Keeps (finalize_at_end c run_id p.state p.digest) _
            (finalize_at_end-Keeps p.state p.digest) (λ _ d. refl))

  execute_and_close : RecoveryAssessment → Action RecoveryAssessment
  execute_and_close a = execute c run_id a >>= closing

  closed-Advances :
      (d : Disk) (a : RecoveryAssessment) → Advances d (execute_and_close a d).disk.persisted
  unfolding execute_and_close
  closed-Advances d a =
      let m = execute c run_id a d in
      subst (Advances d) (sym (proceed-Keeps m.disk m.outcome closing closing-Keeps))
        (execute-Advances a d)

  assessed-Advances :
      (d x : Disk) (o : Outcome RecoveryAssessment)
      → x ≡ d
      → Advances d (proceed x o execute_and_close).disk.persisted
  assessed-Advances d x (raised f) e = inl (ap (λ (y : Disk). y.persisted) e)
  assessed-Advances d x (done a) e =
      subst (λ y. Advances d (execute_and_close a y).disk.persisted) (sym e) (closed-Advances d a)

  -- Whatever is on the disk, recovery leaves the state that it found, or the state that the engine
  -- makes of it with the result that the journal recorded last; then the digest of that state is
  -- the one that was recorded with the result.
  pub recover-Advances : (d : Disk) → Advances d (recover c run_id d).disk.persisted
  unfolding recover execute_and_close
  recover-Advances d =
      assessed-Advances d (assess c run_id d).disk (assess c run_id d).outcome (assess_disk d)
