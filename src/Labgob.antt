-- ===== src/Labgob.antt =====
-- labgob/labgob.go: the check of the types that are encoded. Types are numbers in a table, as a type
-- may refer to itself; a field is its name, the test of its first letter and its type. `sync` plays
-- no part, since a run of `checkType` is followed alone, and encoding/gob is left out.
pub mod Types
pub mod Check
pub mod Complete
pub mod Default
mod Examples
use mr_and_raft.Common.{ℕ, zero, suc, ◌+◌, Bool, true, false, List, [], ◌∷◌, if◌then◌else◌, update}

pub record Field : Type 0 where
  pub is_upper : Bool
  pub type : ℕ

-- The kinds that `checkType` tells apart; `elem_of` is a slice, an array or a pointer.
pub data Kind : Type 0 where
  struct_of : List Field → Kind
  elem_of : ℕ → Kind
  map_of : ℕ → ℕ → Kind
  other : Kind

-- The variables of the package
pub record Checks : Type 0 where
  pub checked : ℕ → Bool
  pub error_count : ℕ

-- The loop over the fields, with what it does for a field's type
abbrev pub check_fields : (ℕ → Checks → Checks) → List Field → Checks → Checks
check_fields check [] s = s
check_fields check (field ∷ fields) s =
    let complained : Checks =
      if field.is_upper then s else record s { error_count = s.error_count + 1 } in
    check_fields check fields (check field.type complained)

-- What is done for the types that a type is made of
abbrev pub check_kind : (ℕ → Checks → Checks) → Kind → Checks → Checks
check_kind check (Kind.struct_of fields) s = check_fields check fields s
check_kind check (Kind.elem_of elem) s = check elem s
check_kind check (Kind.map_of key elem) s = check key (check elem s)
check_kind check Kind.other s = s

-- `checkType`; it goes down at most once into each type, so that their number is enough fuel.
unfoldable pub check_type : (ℕ → Kind) → ℕ → ℕ → Checks → Checks
check_type kind zero t s = s
check_type kind (suc fuel) t s =
    let marked : Checks = record s { checked = update s.checked t true } in
    let rest = check_kind (check_type kind fuel) (kind t) marked in if s.checked t then s else rest
