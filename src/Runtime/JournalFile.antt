-- ===== src/Runtime/JournalFile.antt =====
-- runtime/journal.py on the bytes of a journal file: the lines that `Journal.load` reads, the count
-- of bytes at which `repair_truncated_tail` cuts, and what `append` writes. A byte is a number. The
-- JSON codec, and the digest of a tail, are parameters. Of the evidence that is kept of a tail, the
-- ids and the time are left out; of the recovery note, all but the digest.
use agent_graph_engine.Prelude.{
  ℕ, zero, suc, ◌+◌, String, Bool, false, not, ◌&&◌, ◌||◌, Option, none, some, List, [], ◌∷◌, ◌++◌,
  length, is_empty, ◌==◌, if◌then◌else◌,
}
use agent_graph_engine.Prelude.Fallible.{Fallible, fine, failed}
use agent_graph_engine.Runtime.Journal.{
  Payload, Content, JournalRecord, next_record, validate_record,
}

abbrev pub Bytes : Type 0
Bytes = List ℕ

abbrev pub newline : ℕ
newline = 10

abbrev pub carriage_return : ℕ
carriage_return = 13

-- canonical_json_bytes of a record; decode_value of parse_json_bytes, none where either raises
pub record JournalCodec : Type 0 where
  pub encode : JournalRecord → Bytes
  pub decode : Bytes → Option JournalRecord

-- JournalCorruptionError, and TruncatedJournalError with its raw_tail and valid_bytes
pub data JournalError : Type 0 where
  corrupt : JournalError
  truncated : Bytes → ℕ → JournalError

abbrev starts_new : Bytes → Bool
starts_new [] = false
starts_new (b ∷ rest) = b == newline

abbrev pub extend_first : ℕ → List Bytes → List Bytes
extend_first b [] = (b ∷ []) ∷ []
extend_first b (line ∷ rest) = (b ∷ line) ∷ rest

-- A line ends at a byte, before these: with \n, with \r\n or with \r.
abbrev pub ends_at : ℕ → Bytes → Bool
ends_at b rest = b == newline || ((b == carriage_return) && not (starts_new rest))

-- raw.splitlines(keepends=True)
unfoldable pub splitlines : Bytes → List Bytes
splitlines [] = []
splitlines (b ∷ rest) =
    let more = splitlines rest in if ends_at b rest then (b ∷ []) ∷ more else extend_first b more

-- line.endswith(b"\n")
unfoldable pub ends_line : Bytes → Bool
ends_line [] = false
ends_line (b ∷ []) = b == newline
ends_line (b ∷ c ∷ rest) = ends_line (c ∷ rest)

-- line[:-1]
unfoldable pub but_last : Bytes → Bytes
but_last [] = []
but_last (b ∷ []) = []
but_last (b ∷ c ∷ rest) = b ∷ but_last (c ∷ rest)

-- stream.truncate(size), of a file that is not smaller
unfoldable pub cut_to : ℕ → Bytes → Bytes
cut_to zero bytes = []
cut_to (suc size) [] = []
cut_to (suc size) (b ∷ rest) = b ∷ cut_to size rest

-- The file evidence_id.tail, with tail_digest and tail_size of evidence_id.json
pub record TailEvidence : Type 0 where
  pub raw_tail : Bytes
  pub tail_digest : String
  pub tail_size : ℕ

abbrev pub evidence_of : (Bytes → String) → Bytes → TailEvidence
evidence_of digest_bytes tail = record {
  raw_tail = tail;
  tail_digest = digest_bytes tail;
  tail_size = length tail;
}

-- The journal file and the folder of evidence.
pub record JournalFiles : Type 0 where
  pub bytes : Bytes
  pub evidence : List TailEvidence

-- A call leaves the files, also where it raises.
abbrev pub FileReply : Type 0
FileReply = JournalFiles × Fallible JournalError JournalRecord

-- The bytes that Journal.append writes.
abbrev pub line_of : JournalCodec → JournalRecord → Bytes
line_of codec r = codec.encode r ++ (newline ∷ [])

-- What is read next, where this line holds a record.
abbrev pub read_next {ℓ} :
    {A : Type ℓ}
    → Option JournalRecord
    → (JournalRecord → Fallible JournalError A)
    → Fallible JournalError A
read_next none next = failed corrupt
read_next (some r) next = next r

module _ (codec : JournalCodec) (digest : Content → String) (run_id : String) where
  abbrev pub checked : List JournalRecord → Option JournalRecord → Option JournalRecord
  checked records none = none
  checked records (some r) = if validate_record digest run_id r records then some r else none

  -- A complete line, decoded and validated against the records before it.
  abbrev pub read_line : Bytes → List JournalRecord → Option JournalRecord
  read_line line records = checked records (codec.decode (but_last line))

  -- The loop of Journal.load, with `records` newest first and `consumed`.
  unfoldable pub load_lines :
      List JournalRecord → ℕ → List Bytes → Fallible JournalError (List JournalRecord)
  load_lines records consumed [] = fine records
  load_lines records consumed (line ∷ rest) =
      let next : JournalRecord → Fallible JournalError (List JournalRecord) =
        λ r. load_lines (r ∷ records) (consumed + length line) rest in
      if is_empty rest && not (ends_line line)
      then failed (truncated line consumed)
      else read_next (read_line line records) next

  -- Journal.load; a file that does not exist is loaded as an empty one is
  abbrev pub load_file : Bytes → Fallible JournalError (List JournalRecord)
  load_file bytes = load_lines [] 0 (splitlines bytes)

  -- What Journal.append does, once the file is loaded.
  abbrev pub append_to :
      Payload → JournalFiles → Fallible JournalError (List JournalRecord) → FileReply
  append_to payload files (failed e) = (files, failed e)
  append_to payload files (fine records) =
      let r = next_record digest run_id records payload in
      (record files { bytes = files.bytes ++ line_of codec r }, fine r)

  -- Journal.append
  unfoldable pub append_line : Payload → JournalFiles → FileReply
  append_line payload files = append_to payload files (load_file files.bytes)

  module _ (digest_bytes : Bytes → String) where
    -- What Journal.repair_truncated_tail does, by what the load left.
    abbrev pub repair_by : JournalFiles → Fallible JournalError (List JournalRecord) → FileReply
    repair_by files (failed (truncated tail valid_bytes)) =
        append_line (Payload.recovery_note (digest_bytes tail)) (record {
          bytes = cut_to valid_bytes files.bytes;
          evidence = evidence_of digest_bytes tail ∷ files.evidence;
        })
    repair_by files (failed corrupt) = (files, failed corrupt)
    repair_by files (fine records) = (files, failed corrupt)

    -- Journal.repair_truncated_tail
    unfoldable pub repair_truncated_tail : JournalFiles → FileReply
    repair_truncated_tail files = repair_by files (load_file files.bytes)
