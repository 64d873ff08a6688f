-- ===== src/Runtime/FileLines.antt =====
-- runtime/journal.py: the lines of a journal file, and the file of a list of records.
use agent_graph_engine.Prelude.{
  ℕ, ◌+◌, ◌≡◌, refl, sym, ap, ◌∙◌, Bool, true, false, not, ◌&&◌, some, List, [], ◌∷◌, ◌++◌, length,
  all, ◌==◌, arith, All,
}
use agent_graph_engine.Runtime.Journal.{JournalRecord}
use agent_graph_engine.Runtime.JournalFile.{
  Bytes, newline, carriage_return, JournalCodec, extend_first, splitlines, ends_line, but_last,
  cut_to, line_of,
}

-- Bytes of one line, without its end.
abbrev pub in_line : ℕ → Bool
in_line b = not (b == newline) && not (b == carriage_return)

pub append_assoc : (a b c : Bytes) → (a ++ b) ++ c ≡ a ++ (b ++ c)
append_assoc [] b c = refl
append_assoc (x ∷ a) b c = ap (λ r. x ∷ r) (append_assoc a b c)

pub append_nil : (a : Bytes) → a ++ [] ≡ a
append_nil [] = refl
append_nil (x ∷ a) = ap (λ r. x ∷ r) (append_nil a)

pub lines_assoc : (a b c : List Bytes) → (a ++ b) ++ c ≡ a ++ (b ++ c)
lines_assoc [] b c = refl
lines_assoc (x ∷ a) b c = ap (λ r. x ∷ r) (lines_assoc a b c)

and_parts : (a b : Bool) → (a && b) ≡ true → (a ≡ true) × (b ≡ true)
and_parts true b h = (refl, h)
and_parts false b h = absurd (ground arith)

pub length-append : (a b : Bytes) → length (a ++ b) ≡ length a + length b
length-append [] b = ground arith
length-append (x ∷ a) b = ground (arith, length-append a b)

pub cut_to-append : (a b : Bytes) → cut_to (length a) (a ++ b) ≡ a
unfolding cut_to
cut_to-append [] b = refl
cut_to-append (x ∷ a) b = ap (λ r. x ∷ r) (cut_to-append a b)

pub but_last-append : (a : Bytes) → but_last (a ++ (newline ∷ [])) ≡ a
unfolding but_last
but_last-append [] = refl
but_last-append (x ∷ []) = refl
but_last-append (x ∷ y ∷ a) = ap (λ r. x ∷ r) (but_last-append (y ∷ a))

pub ends_line-append : (a : Bytes) → ends_line (a ++ (newline ∷ [])) ≡ true
unfolding ends_line
ends_line-append [] = refl
ends_line-append (x ∷ []) = refl
ends_line-append (x ∷ y ∷ a) = ends_line-append (y ∷ a)

-- A byte that ends no line.
splitlines-inside :
    (b : ℕ) (rest : Bytes)
    → in_line b ≡ true
    → splitlines (b ∷ rest) ≡ extend_first b (splitlines rest)
unfolding splitlines
splitlines-inside b rest h = ground (arith, h)

-- A line that is written whole is the first that is read.
splitlines-append :
    (line rest : Bytes)
    → all in_line line ≡ true
    → splitlines (line ++ (newline ∷ rest)) ≡ (line ++ (newline ∷ [])) ∷ splitlines rest
unfolding splitlines
splitlines-append [] rest h = refl
splitlines-append (b ∷ line) rest h =
    let (here, later) = and_parts (in_line b) (all in_line line) h in
    splitlines-inside b (line ++ (newline ∷ rest)) here
    ∙ ap (extend_first b) (splitlines-append line rest later)

-- A torn line is the last.
pub splitlines-torn :
    (b : ℕ) (tail : Bytes) → all in_line (b ∷ tail) ≡ true → splitlines (b ∷ tail) ≡ (b ∷ tail) ∷ []
unfolding splitlines
splitlines-torn b [] h = ground arith
splitlines-torn b (x ∷ tail) h =
    let (here, later) = and_parts (in_line b) (all in_line (x ∷ tail)) h in
    splitlines-inside b (x ∷ tail) here ∙ ap (extend_first b) (splitlines-torn x tail later)

pub ends_line-torn :
    (b : ℕ) (tail : Bytes) → all in_line (b ∷ tail) ≡ true → ends_line (b ∷ tail) ≡ false
unfolding ends_line
ends_line-torn b [] h = ground arith
ends_line-torn b (x ∷ tail) h = ends_line-torn x tail (ground arith)

module _ (codec : JournalCodec) where
  -- The codec reads the record back, and writes it in one line.
  abbrev pub IsReadable : JournalRecord → Type 0
  IsReadable r = (codec.decode (codec.encode r) ≡ some r) × (all in_line (codec.encode r) ≡ true)

  -- The file that a journal's records are written to, newest first here.
  abbrev pub file_of : List JournalRecord → Bytes
  file_of [] = []
  file_of (r ∷ older) = file_of older ++ line_of codec r

  abbrev pub lines_of : List JournalRecord → List Bytes
  lines_of [] = []
  lines_of (r ∷ older) = lines_of older ++ (line_of codec r ∷ [])

  pub splitlines-file :
      (records : List JournalRecord) (more : Bytes)
      → All IsReadable records
      → splitlines (file_of records ++ more) ≡ lines_of records ++ splitlines more
  splitlines-file [] more readable = refl
  splitlines-file (r ∷ older) more ((back, whole), rest) =
      let line = line_of codec r in
      ap splitlines (append_assoc (file_of older) line more)
      ∙ splitlines-file older (line ++ more) rest
      ∙ ap (λ ls. lines_of older ++ ls)
          (ap splitlines (append_assoc (codec.encode r) (newline ∷ []) more)
            ∙ splitlines-append (codec.encode r) more whole)
      ∙ sym (lines_assoc (lines_of older) (line ∷ []) (splitlines more))
