-- ===== src/Runtime/Repaired.antt =====
-- runtime/journal.py: a journal file against the journal as a list of records and a tail.
use agent_graph_engine.Prelude.{
  ℕ, ◌+◌, String, ◌≡◌, refl, sym, ap, ◌∙◌, Bool, true, false, ◌&&◌, Option, none, some, List, [],
  ◌∷◌, ◌++◌, length, all, if◌then◌else◌, arith, All, Bool-cases, inl, inr,
}
use agent_graph_engine.Prelude.Fallible.{Fallible, fine, failed}
use agent_graph_engine.Runtime.Failures.{Outcome, done, raised, truncated_journal}
use agent_graph_engine.Runtime.Failures
use agent_graph_engine.Runtime.Journal.{
  Payload, Content, JournalRecord, next_record, validate_record, is_valid, load,
}
use agent_graph_engine.Runtime.History.{next_record_valid}
use agent_graph_engine.Runtime.JournalFile.{
  Bytes, JournalCodec, JournalError, corrupt, truncated, splitlines, TailEvidence, load_lines,
  load_file, line_of, append_to, append_line, evidence_of, repair_by, repair_truncated_tail,
}
use agent_graph_engine.Runtime.FileLines.{
  in_line, length-append, cut_to-append, but_last-append, ends_line-append, splitlines-torn,
  ends_line-torn, lines_assoc, append_nil, IsReadable, file_of, lines_of, splitlines-file,
}

both_tests {ℓ} :
    {A : Type ℓ} (v w : Bool) (x c : A)
    → (if v then (if w then x else c) else c) ≡ (if v && w then x else c)
both_tests true w x c = refl
both_tests false w x c = refl

-- The tail of a list of records, as the text that stands for the torn bytes.
abbrev pub tail_of : (Bytes → String) → Bytes → Option String
tail_of text [] = none
tail_of text (b ∷ tail) = some (text (b ∷ tail))

-- What the load of a list reports, as what the load of its file reports.
abbrev pub as_read :
    ℕ → Bytes → Outcome (List JournalRecord) → Fallible JournalError (List JournalRecord)
as_read valid_bytes tail (done records) = fine records
as_read valid_bytes tail (raised (Failures.truncated_journal text)) =
    failed (truncated tail valid_bytes)
as_read valid_bytes tail (raised f) = failed corrupt

-- The note of a torn line.
abbrev pub note_of :
    (Content → String) → String → (Bytes → String) → List JournalRecord → Bytes → JournalRecord
note_of digest run_id digest_bytes records tail =
    next_record digest run_id records (Payload.recovery_note (digest_bytes tail))

module _ (codec : JournalCodec) (digest : Content → String) (run_id : String) where
  -- One complete line.
  load_lines-line :
      (r : JournalRecord) (older : List JournalRecord) (n : ℕ) (more : List Bytes)
      → IsReadable codec r
      → load_lines codec digest run_id older n (line_of codec r ∷ more) ≡ (
          if validate_record digest run_id r older
          then load_lines codec digest run_id (r ∷ older) (n + length (line_of codec r)) more
          else failed corrupt)
  unfolding load_lines
  load_lines-line r older n more (back, whole) =
      ground (arith, back, but_last-append (codec.encode r), ends_line-append (codec.encode r))

  -- All the complete lines.
  load_lines-file :
      (records : List JournalRecord) (more : List Bytes)
      → All (IsReadable codec) records
      → load_lines codec digest run_id [] 0 (lines_of codec records ++ more) ≡ (
          if is_valid digest run_id records
          then load_lines codec digest run_id records (length (file_of codec records)) more
          else failed corrupt)
  unfolding is_valid
  load_lines-file [] more readable = refl
  load_lines-file (r ∷ older) more (this, rest) =
      let line = line_of codec r in
      let size = length (file_of codec older) in
      let went : Bool = is_valid digest run_id older in
      let passed : Bool = validate_record digest run_id r older in
      let next : ℕ → Fallible JournalError (List JournalRecord) =
        λ n. load_lines codec digest run_id (r ∷ older) n more in
      ap (load_lines codec digest run_id [] 0) (lines_assoc (lines_of codec older) (line ∷ []) more)
      ∙ load_lines-file older (line ∷ more) rest
      ∙ ap (λ k. if went then k else failed corrupt) (load_lines-line r older size more this)
      ∙ both_tests went passed (next (size + length line)) (failed corrupt)
      ∙ ap (λ n. if went && passed then next n else failed corrupt)
          (sym (length-append (file_of codec older) line))

  torn_load :
      (records : List JournalRecord) (n b : ℕ) (tail : Bytes)
      → all in_line (b ∷ tail) ≡ true
      → load_lines codec digest run_id records n ((b ∷ tail) ∷ []) ≡ failed (truncated (b ∷ tail) n)
  unfolding load_lines
  torn_load records n b tail h = ground (arith, ends_line-torn b tail h)

  -- The lines of the records, and what is left of them for the tail.
  load_file-append :
      (records : List JournalRecord) (tail : Bytes)
      → All (IsReadable codec) records
      → load_file codec digest run_id (file_of codec records ++ tail) ≡ (
          if is_valid digest run_id records
          then load_lines codec digest run_id records
              (length (file_of codec records))
              (splitlines tail)
          else failed corrupt)
  load_file-append records tail readable =
      ap (load_lines codec digest run_id [] 0) (splitlines-file codec records tail readable)
      ∙ load_lines-file records (splitlines tail) readable

  -- A file of a valid list, with torn bytes after it.
  load_file_torn :
      (records : List JournalRecord) (b : ℕ) (tail : Bytes)
      → is_valid digest run_id records ≡ true
      → All (IsReadable codec) records
      → all in_line (b ∷ tail) ≡ true
      → load_file codec digest run_id (file_of codec records ++ (b ∷ tail))
        ≡ failed (truncated (b ∷ tail) (length (file_of codec records)))
  load_file_torn records b tail valid readable h =
      let size = length (file_of codec records) in
      let rest : Bool → List Bytes → Fallible JournalError (List JournalRecord) =
        λ v ls. if v then load_lines codec digest run_id records size ls else failed corrupt in
      load_file-append records (b ∷ tail) readable
      ∙ ap (λ v. rest v (splitlines (b ∷ tail))) valid
      ∙ ap (rest true) (splitlines-torn b tail h)
      ∙ torn_load records size b tail h

  -- The file of records that the codec reads back, followed by any bytes without a line's end, is
  -- loaded as the list of these records with that tail is: the records, where they pass and no
  -- byte follows; where bytes follow, those bytes with the size of the file before them; and an
  -- error where a record does not pass.
  pub load_file-refines :
      (text : Bytes → String) (records : List JournalRecord) (tail : Bytes)
      → All (IsReadable codec) records
      → all in_line tail ≡ true
      → load_file codec digest run_id (file_of codec records ++ tail)
        ≡ as_read
            (length (file_of codec records))
            tail
            (load digest run_id records (tail_of text tail))
  unfolding load load_lines splitlines
  load_file-refines text records [] readable h =
      load_file-append records [] readable ∙ elim (Bool-cases (is_valid digest run_id records)) [
        | inl passed ↦ rw passed refl
        | inr broken ↦ rw broken refl
      ]
  load_file-refines text records (b ∷ tail) readable h =
      elim (Bool-cases (is_valid digest run_id records)) [
        | inl passed ↦ rw passed (load_file_torn records b tail passed readable h)
        | inr broken ↦ rw broken (load_file-append records (b ∷ tail) readable ∙ rw broken refl)
      ]

  -- The file of a valid list is read as the list.
  load_file_valid :
      (records : List JournalRecord)
      → is_valid digest run_id records ≡ true
      → All (IsReadable codec) records
      → load_file codec digest run_id (file_of codec records) ≡ fine records
  unfolding load_lines splitlines
  load_file_valid records valid readable =
      ap (load_file codec digest run_id) (sym (append_nil (file_of codec records)))
      ∙ load_file-append records [] readable
      ∙ ap (λ v. if v then fine records else failed corrupt) valid

  append_line-file :
      (p : Payload) (records : List JournalRecord) (kept : List TailEvidence)
      → is_valid digest run_id records ≡ true
      → All (IsReadable codec) records
      → append_line codec digest run_id p
          (record { bytes = file_of codec records; evidence = kept })
        ≡ (
          record {
            bytes = file_of codec (next_record digest run_id records p ∷ records);
            evidence = kept;
          },
          fine (next_record digest run_id records p),
        )
  unfolding append_line
  append_line-file p records kept valid readable =
      ap
        (append_to codec digest run_id p
          (record { bytes = file_of codec records; evidence = kept }))
        (load_file_valid records valid readable)

  module _ (digest_bytes : Bytes → String) where
    -- Take the file of valid records, followed by one or more bytes without a line's end, as an
    -- interrupted write leaves them, where the codec reads back the records and the recovery note
    -- of these bytes. The repair leaves the file of the records and the note, keeps the bytes as
    -- evidence, and the file is then loaded as the records and the note.
    pub repair_truncated_tail-load_file :
        (records : List JournalRecord) (b : ℕ) (tail : Bytes) (kept : List TailEvidence)
        → is_valid digest run_id records ≡ true
        → All (IsReadable codec) records
        → all in_line (b ∷ tail) ≡ true
        → IsReadable codec (note_of digest run_id digest_bytes records (b ∷ tail))
        → (repair_truncated_tail codec digest run_id digest_bytes
              (record { bytes = file_of codec records ++ (b ∷ tail); evidence = kept })
            ≡ (
              record {
                bytes =
                    file_of codec (note_of digest run_id digest_bytes records (b ∷ tail) ∷ records);
                evidence = evidence_of digest_bytes (b ∷ tail) ∷ kept;
              },
              fine (note_of digest run_id digest_bytes records (b ∷ tail)),
            ))
          × (load_file codec digest run_id
                (file_of codec (note_of digest run_id digest_bytes records (b ∷ tail) ∷ records))
              ≡ fine (note_of digest run_id digest_bytes records (b ∷ tail) ∷ records))
    unfolding repair_truncated_tail
    repair_truncated_tail-load_file records b tail kept valid readable h told = (
      ap (repair_by codec digest run_id digest_bytes _)
            (load_file_torn records b tail valid readable h)
          ∙ ap
              (λ left.
                append_line codec digest run_id (Payload.recovery_note (digest_bytes (b ∷ tail)))
                  (record { bytes = left; evidence = evidence_of digest_bytes (b ∷ tail) ∷ kept }))
              (cut_to-append (file_of codec records) (b ∷ tail))
          ∙ append_line-file (Payload.recovery_note (digest_bytes (b ∷ tail))) records
              (evidence_of digest_bytes (b ∷ tail) ∷ kept) valid readable,
      load_file_valid (note_of digest run_id digest_bytes records (b ∷ tail) ∷ records)
          (next_record_valid digest run_id records (Payload.recovery_note (digest_bytes (b ∷ tail)))
            valid)
          (told, readable),
    )
