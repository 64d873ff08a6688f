-- ===== src/Core/Metadata.antt =====
-- The `Mapping[str, Any]` values that core carries and never looks into (core/state.py,
-- `immutable_mapping`). A mapping is given by its entries in the order of their keys, since core
-- neither walks a mapping nor tells two orders apart; a float or another object is `opaque`, by a
-- number of its own.
use agent_graph_engine.Prelude.{ℕ, String, Bool, true, false, ◌&&◌, ◌==◌, same_bool}
use agent_graph_engine.Prelude.Int.{ℤ, equal_ints}
use agent_graph_engine.Prelude.Text.{str_eq}

mutual
  pub data Metadatum : Type 0 where
    null : Metadatum
    flag : Bool → Metadatum
    number : ℤ → Metadatum
    text : String → Metadatum
    opaque : ℕ → Metadatum
    sequence : Entries → Metadatum
    mapping : Metadata → Metadatum

  pub data Entries : Type 0 where
    done : Entries
    entry : Metadatum → Entries → Entries

  pub data Metadata : Type 0 where
    empty : Metadata
    field : String → Metadatum → Metadata → Metadata

unfoldable mutual
  pub equal_datum : Metadatum → Metadatum → Bool
  equal_datum null null = true
  equal_datum (flag a) (flag b) = same_bool a b
  equal_datum (number a) (number b) = equal_ints a b
  equal_datum (text a) (text b) = str_eq a b
  equal_datum (opaque a) (opaque b) = a == b
  equal_datum (sequence a) (sequence b) = equal_entries a b
  equal_datum (mapping a) (mapping b) = equal_metadata a b
  equal_datum _ _ = false

  pub equal_entries : Entries → Entries → Bool
  equal_entries done done = true
  equal_entries (entry a as') (entry b bs) = equal_datum a b && equal_entries as' bs
  equal_entries _ _ = false

  pub equal_metadata : Metadata → Metadata → Bool
  equal_metadata empty empty = true
  equal_metadata (field j a m) (field k b n) = str_eq j k && equal_datum a b && equal_metadata m n
  equal_metadata _ _ = false
