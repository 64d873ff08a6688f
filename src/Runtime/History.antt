-- ===== src/Runtime/History.antt =====
-- runtime/journal.py: what a journal that loads says about its history.
use agent_graph_engine.Prelude.{
  ◌+◌, String, ◌≡◌, refl, sym, ap, ◌∙◌, true, Option, none, some, List, [], ◌∷◌, length, arith,
  eq_iff, All,
}
use agent_graph_engine.Prelude.Text.{str_eq, same_option}
use agent_graph_engine.Runtime.Journal.{
  JournalRecord, Content, Payload, last_checksum, next_record, validate_record, is_valid,
}

pub str_eq_refl : (a : String) → str_eq a a ≡ true
str_eq_refl a = (eq_iff a a).1 refl

pub same_option_refl : (a : Option String) → same_option a a ≡ true
same_option_refl none = refl
same_option_refl (some a) = str_eq_refl a

same_option_eq : (a b : Option String) → same_option a b ≡ true → a ≡ b
same_option_eq none none h = refl
same_option_eq none (some b) h = absurd (ground arith)
same_option_eq (some a) none h = absurd (ground arith)
same_option_eq (some a) (some b) h = ap some ((eq_iff a b).0 h)

-- A record that is valid after the ones before it.
pub record IsLinked (digest : Content → String) (run_id : String) (r : JournalRecord)
    (older : List JournalRecord) : Type 0 where
  pub of_run : r.content.run_id ≡ run_id
  pub numbered : r.content.seq ≡ length older + 1
  pub chained : r.content.previous_checksum ≡ last_checksum older
  pub sealed : r.checksum ≡ digest r.content

module _ (digest : Content → String) (run_id : String) where
  pub validate-IsLinked :
      (r : JournalRecord) (older : List JournalRecord)
      → validate_record digest run_id r older ≡ true
      → IsLinked digest run_id r older
  unfolding validate_record
  validate-IsLinked r older h = ground (
    arith,
    eq_iff r.content.run_id run_id,
    same_option_eq r.content.previous_checksum (last_checksum older),
    eq_iff r.checksum (digest r.content),
  )

  pub next_record_valid :
      (records : List JournalRecord) (payload : Payload)
      → is_valid digest run_id records ≡ true
      → is_valid digest run_id (next_record digest run_id records payload ∷ records) ≡ true
  unfolding is_valid validate_record
  next_record_valid records payload h = ground (
    arith,
    str_eq_refl run_id,
    same_option_refl (last_checksum records),
    str_eq_refl (digest (next_record digest run_id records payload).content),
  )

  -- The digests of two records differ where their contents do.
  abbrev pub Apart : JournalRecord → JournalRecord → Type 0
  Apart r q = digest r.content ≡ digest q.content → r.content ≡ q.content

  abbrev pub NoCollision : List JournalRecord → List JournalRecord → Type 0
  NoCollision a b = All (λ r. All (Apart r) b) a

  record_eq : (r q : JournalRecord) → r.content ≡ q.content → r.checksum ≡ q.checksum → r ≡ q
  record_eq r q h k = ground arith

  rest_apart :
      (r : JournalRecord) (b : List JournalRecord) (q : JournalRecord) (a : List JournalRecord)
      → NoCollision a (q ∷ b)
      → NoCollision a b
  rest_apart r b q [] h = tt
  rest_apart r b q (x ∷ a) h = (h.0.1, rest_apart r b q a h.1)

  -- The last checksum stands for the whole history: two journals of a run that both load, whose
  -- last checksums agree and whose records have no digest collision, are the same.
  pub history_unique :
      (a b : List JournalRecord)
      → NoCollision a b
      → is_valid digest run_id a ≡ true
      → is_valid digest run_id b ≡ true
      → last_checksum a ≡ last_checksum b
      → a ≡ b
  unfolding is_valid
  history_unique [] [] apart va vb h = refl
  history_unique [] (q ∷ b) apart va vb h = absurd (ground arith)
  history_unique (r ∷ a) [] apart va vb h = absurd (ground arith)
  history_unique (r ∷ a) (q ∷ b) apart va vb h =
      let l = validate-IsLinked r a (ground arith) in
      let m = validate-IsLinked q b (ground arith) in
      let same : r.checksum ≡ q.checksum = ground arith in
      let content = apart.0.0 (sym l.sealed ∙ same ∙ m.sealed) in
      let before = sym l.chained ∙ ap (λ (x : Content). x.previous_checksum) content ∙ m.chained in
      let older =
        history_unique a b (rest_apart r b q a apart.1) (ground arith) (ground arith) before in
      ground (arith, record_eq r q content same, older)
