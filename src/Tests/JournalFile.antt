-- ===== src/Tests/JournalFile.antt =====
-- The theorems on a journal file at a file of one record and a torn line.
use agent_graph_engine.Prelude.{
  String, ◌+◌, ◌≡◌, refl, Bool, true, false, Option, none, some, List, [], ◌∷◌, ◌++◌, ◌==◌,
  if◌then◌else◌, length, All,
}
use agent_graph_engine.Prelude.Fallible.{fine, failed}
use agent_graph_engine.Runtime.Journal.{
  Payload, Content, JournalRecord, next_record, is_valid, validate_record, load,
}
use agent_graph_engine.Runtime.JournalFile.{
  Bytes, JournalCodec, JournalFiles, truncated, evidence_of, splitlines, ends_line, but_last,
  load_lines, load_file, append_line, cut_to, repair_truncated_tail,
}
use agent_graph_engine.Runtime.FileLines.{IsReadable, file_of}
use agent_graph_engine.Runtime.Repaired.{
  tail_of, as_read, note_of, load_file-refines, repair_truncated_tail-load_file,
}

abbrev by_number : Content → String
by_number c = if c.seq == 1 then "first" else "later"

abbrev one_record : List JournalRecord
one_record = next_record by_number "run-1" [] (Payload.run_started 0 "digest") ∷ []

abbrev tail_digest_of : Bytes → String
tail_digest_of tail = "tail"

abbrev torn : Bytes
torn = 123 ∷ 34 ∷ []

abbrev noted : JournalRecord
noted = note_of by_number "run-1" tail_digest_of one_record torn

-- A record is one byte.
abbrev decode_at : Bool → Bool → Option JournalRecord
decode_at true later = some (next_record by_number "run-1" [] (Payload.run_started 0 "digest"))
decode_at false true = some noted
decode_at false false = none

abbrev decode_byte : Bytes → Option JournalRecord
decode_byte (b ∷ []) = decode_at (b == 101) (b == 102)
decode_byte _ = none

abbrev byte_codec : JournalCodec
byte_codec = record { encode = λ r. (100 + r.content.seq) ∷ []; decode = decode_byte }

one_valid : is_valid by_number "run-1" one_record ≡ true
unfolding is_valid validate_record
one_valid = refl

one_record-IsReadable : All (IsReadable byte_codec) one_record
one_record-IsReadable = ((refl, refl), tt)

load_file-refines_example :
    load_file byte_codec by_number "run-1" (file_of byte_codec one_record ++ torn)
    ≡ as_read
        (length (file_of byte_codec one_record))
        torn
        (load by_number "run-1" one_record (tail_of tail_digest_of torn))
load_file-refines_example =
    load_file-refines byte_codec by_number "run-1" tail_digest_of one_record torn
      one_record-IsReadable refl

-- The bytes of a record end at the second one.
torn_runs : load_file byte_codec by_number "run-1" (101 ∷ 10 ∷ torn) ≡ failed (truncated torn 2)
unfolding load_lines splitlines ends_line but_last validate_record
torn_runs = refl

-- A line that ends with a carriage return and a newline keeps the former.
crlf_runs :
    splitlines (65 ∷ 13 ∷ 10 ∷ 66 ∷ 13 ∷ 67 ∷ [])
    ≡ (65 ∷ 13 ∷ 10 ∷ []) ∷ (66 ∷ 13 ∷ []) ∷ (67 ∷ []) ∷ []
unfolding splitlines
crlf_runs = refl

repair_truncated_tail-load_file_example :
    (repair_truncated_tail byte_codec by_number "run-1" tail_digest_of
        (record { bytes = 101 ∷ 10 ∷ torn; evidence = [] })
      ≡ (
        record {
          bytes = 101 ∷ 10 ∷ 102 ∷ 10 ∷ [];
          evidence = evidence_of tail_digest_of torn ∷ [];
        },
        fine noted,
      ))
    × (load_file byte_codec by_number "run-1" (101 ∷ 10 ∷ 102 ∷ 10 ∷ [])
        ≡ fine (noted ∷ one_record))
repair_truncated_tail-load_file_example =
    repair_truncated_tail-load_file byte_codec by_number "run-1" tail_digest_of one_record 123
      (34 ∷ []) [] one_valid one_record-IsReadable refl (refl, refl)

-- A carriage return ends a line too, but a last line is not complete with it: the line that is cut
-- goes to the evidence, and the append after it raises.
cr_runs :
    repair_truncated_tail byte_codec by_number "run-1" tail_digest_of
      (record { bytes = 101 ∷ 13 ∷ 102 ∷ []; evidence = [] })
    ≡ (
      record { bytes = 101 ∷ 13 ∷ []; evidence = evidence_of tail_digest_of (102 ∷ []) ∷ [] },
      failed (truncated (101 ∷ 13 ∷ []) 0),
    )
unfolding repair_truncated_tail append_line load_lines splitlines ends_line but_last cut_to
    validate_record
cr_runs = refl

abbrev cr_files : JournalFiles
cr_files = record { bytes = 101 ∷ 13 ∷ 102 ∷ []; evidence = [] }
