-- ===== src/Core/Patches/Values.antt =====
-- core/patches.py: the `Any` values of patch operations, Python's `isinstance` and `==` on them.
use agent_graph_engine.Prelude.{String, Bool, true, false, ◌&&◌, Option, none, some, List, any}
use agent_graph_engine.Prelude.Int.{ℤ}
use agent_graph_engine.Prelude.Text.{str_eq, same_option}
use agent_graph_engine.Core.Enums.{
  RiskLevel, ValidationVerdict, ReviewVerdict, RepairClassification, FailureCategory, same,
  repair_enumerated, risk_text, validation_text, review_text, repair_text, category_text,
}
use agent_graph_engine.Core.Metadata.{Metadata, equal_metadata}
use agent_graph_engine.Core.State.{WorkItem, WorkHierarchyItem, DeliveryScope, RepairRecord}

-- A value that is neither None nor a container. `other` is an object of a class that no rule
-- names, a container inside a tuple included.
pub data Atom : Type 0 where
  bool : Bool → Atom
  int : ℤ → Atom
  text : String → Atom
  risk_level : RiskLevel → Atom
  validation_verdict : ValidationVerdict → Atom
  review_verdict : ReviewVerdict → Atom
  repair_classification : RepairClassification → Atom
  failure_category : FailureCategory → Atom
  work_item : WorkItem → Atom
  hierarchy_item : WorkHierarchyItem → Atom
  delivery_scope : DeliveryScope → Atom
  repair_record : RepairRecord → Atom
  other : Atom

pub data Value : Type 0 where
  absent : Value
  atom : Atom → Value
  tuple : List Atom → Value
  mapping : Metadata → Value

-- The classes that the rules name.
pub data Class : Type 0 where
  text_class bool_class int_class tuple_class mapping_class : Class
  risk_level_class validation_verdict_class review_verdict_class : Class
  repair_classification_class failure_category_class : Class
  work_item_class hierarchy_item_class delivery_scope_class repair_record_class : Class

-- The `str` that a value is: a `StrEnum` member is one.
abbrev pub atom_text : Atom → Option String
atom_text (text s) = some s
atom_text (risk_level r) = some (risk_text r)
atom_text (validation_verdict v) = some (validation_text v)
atom_text (review_verdict v) = some (review_text v)
atom_text (repair_classification c) = some (repair_text c)
atom_text (failure_category c) = some (category_text c)
atom_text _ = none

-- isinstance(atom, class), where a bool is an int and an enum member is a str
abbrev pub atom_instance : Atom → Class → Bool
atom_instance (bool b) bool_class = true
atom_instance (bool b) int_class = true
atom_instance (int n) int_class = true
atom_instance (text s) text_class = true
atom_instance (risk_level r) risk_level_class = true
atom_instance (risk_level r) text_class = true
atom_instance (validation_verdict v) validation_verdict_class = true
atom_instance (validation_verdict v) text_class = true
atom_instance (review_verdict v) review_verdict_class = true
atom_instance (review_verdict v) text_class = true
atom_instance (repair_classification c) repair_classification_class = true
atom_instance (repair_classification c) text_class = true
atom_instance (failure_category c) failure_category_class = true
atom_instance (failure_category c) text_class = true
atom_instance (work_item w) work_item_class = true
atom_instance (hierarchy_item w) hierarchy_item_class = true
atom_instance (delivery_scope d) delivery_scope_class = true
atom_instance (repair_record r) repair_record_class = true
atom_instance _ _ = false

abbrev pub value_instance : Value → Class → Bool
value_instance absent c = false
value_instance (atom a) c = atom_instance a c
value_instance (tuple xs) tuple_class = true
value_instance (mapping m) mapping_class = true
value_instance _ _ = false

-- isinstance(value, classes)
abbrev pub instance_of : Value → List Class → Bool
instance_of v = any (value_instance v)

abbrev pub atom_instance_of : List Class → Atom → Bool
atom_instance_of cs a = any (atom_instance a) cs

abbrev pub equal_work_items : WorkItem → WorkItem → Bool
equal_work_items a b =
    str_eq a.id b.id && str_eq a.title b.title && equal_metadata a.metadata b.metadata

abbrev pub equal_hierarchy_items : WorkHierarchyItem → WorkHierarchyItem → Bool
equal_hierarchy_items a b =
    str_eq a.level b.level
    && str_eq a.id b.id
    && str_eq a.title b.title
    && same_option a.status b.status
    && same_option a.revision b.revision
    && equal_metadata a.metadata b.metadata

abbrev pub equal_repair_records : RepairRecord → RepairRecord → Bool
equal_repair_records a b = str_eq a.id b.id && same a.classification b.classification

abbrev equal_texts : Option String → Option String → Bool
equal_texts (some a) (some b) = str_eq a b
equal_texts _ _ = false

-- `==` between the items of a tuple: the rules let in texts, work items, hierarchy entries and
-- repair records alone.
abbrev pub equal_atoms : Atom → Atom → Bool
equal_atoms (work_item a) (work_item b) = equal_work_items a b
equal_atoms (hierarchy_item a) (hierarchy_item b) = equal_hierarchy_items a b
equal_atoms (repair_record a) (repair_record b) = equal_repair_records a b
equal_atoms a b = equal_texts (atom_text a) (atom_text b)
