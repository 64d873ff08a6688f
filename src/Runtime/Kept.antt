-- ===== src/Runtime/Kept.antt =====
-- runtime/journal.py: the bytes of a journal file before and after a repair.
use agent_graph_engine.Prelude.{String, ◌≡◌, ◌⊎◌, Bool, true, false, List, [], ◌∷◌, ◌++◌}
use agent_graph_engine.Prelude.Fallible.{Fallible, failed}
use agent_graph_engine.Runtime.Journal.{Content, JournalRecord}
use agent_graph_engine.Runtime.JournalFile.{
  Bytes, JournalCodec, JournalError, truncated, JournalFiles, load_file, evidence_of,
}

abbrev joined : List Bytes → Bytes
joined [] = []
joined (line ∷ rest) = line ++ joined rest

-- TruncatedJournalError
abbrev pub is_torn : Fallible JournalError (List JournalRecord) → Bool
is_torn (failed (truncated tail n)) = true
is_torn _ = false

module _ (codec : JournalCodec) (digest : Content → String) (run_id : String) where
  -- What an append leaves: the evidence, and the bytes that were there with none or more after.
  abbrev Extends : JournalFiles → JournalFiles → Type 0
  Extends files left =
      (added : Bytes) × (left.bytes ≡ files.bytes ++ added) × (left.evidence ≡ files.evidence)

  module _ (digest_bytes : Bytes → String) where
    -- The files as they were, where no torn line is found; else the bytes before it, with none or
    -- more after them, and the torn line as evidence.
    abbrev pub IsKept : JournalFiles → JournalFiles → Type 0
    IsKept files left =
        ((is_torn (load_file codec digest run_id files.bytes) ≡ false) × (left ≡ files))
        ⊎ ((is_torn (load_file codec digest run_id files.bytes) ≡ true)
            × ((front : Bytes) × (tail : Bytes) × (added : Bytes) × (files.bytes ≡ front ++ tail)
                × ((left.bytes ≡ front ++ added)
                    × (left.evidence ≡ evidence_of digest_bytes tail ∷ files.evidence))))
