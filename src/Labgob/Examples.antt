-- ===== src/Labgob/Examples.antt =====
-- The theorem of labgob/labgob.go on a struct with a pointer to itself.
use mr_and_raft.Common.{ℕ, zero, suc, ◌<◌, ◌≡◌, ◌↔◌, some, none, refl, true, false, [], ◌∷◌, arith}
use mr_and_raft.Labgob.{Kind, Checks, check_type}
use mr_and_raft.Labgob.Types.{AllUpper, IsChecked, IsIn}
use mr_and_raft.Labgob.Check.{InTable}
use mr_and_raft.Labgob.Default.{
  Value, Fields, check_default, AllBasics, IsReadable, IsDefault, check_default_lem,
}
use mr_and_raft.Labgob.Complete.{MadeOf, check_type_lem}

-- Type 0 is a struct with the field `Next` of type 1, which is a pointer to type 0.
abbrev node : ℕ → Kind
node zero = Kind.struct_of (record { is_upper = true; type = 1 } ∷ [])
node (suc t) = Kind.elem_of 0

abbrev no_checks : Checks
no_checks = record { checked = λ t. false; error_count = 0 }

node-InTable : (t : ℕ) → t < 2 → InTable node 2 (node t)
node-InTable zero h = (omega arith, tt)
node-InTable (suc t) h = omega arith

next-MadeOf : MadeOf node 0 1
next-MadeOf = MadeOf.in_field MadeOf.itself refl (IsIn.is_first refl)

self-MadeOf : MadeOf node 0 0
self-MadeOf = MadeOf.in_element next-MadeOf refl

check_type_lem_example :
    IsChecked (check_type node 2 0 no_checks) 0
    × ((check_type node 2 0 no_checks).error_count ≡ 0 → AllUpper (node 0))
check_type_lem_example =
    check_type_lem node 2 0 no_checks node-InTable (omega arith) (λ t. refl) self-MadeOf

-- A reply with a pointer to a struct whose first field is set and whose second is unexported.
abbrev used_reply : Value
used_reply = Value.pointer (
    Value.structure (
      Fields.one_more_field (Value.basic true false)
        (Fields.one_more_field (Value.basic false true) Fields.no_fields)))

check_default_lem_example :
    (((n : ℕ) × (check_default (some used_reply) 2 ≡ some n)) ↔ AllBasics IsReadable 3 used_reply)
    × ((check_default (some used_reply) 2 ≡ none) ↔ ¬ AllBasics IsReadable 3 used_reply)
    × ((check_default (some used_reply) 2 ≡ some 2)
        ↔ AllBasics IsReadable 3 used_reply × AllBasics IsDefault 3 used_reply)
check_default_lem_example = check_default_lem used_reply 2
