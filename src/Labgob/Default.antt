-- ===== src/Labgob/Default.antt =====
-- labgob/labgob.go: `checkDefault`. A value is what reflect shows of it: `basic` is a number, a
-- Boolean or a string, with whether its `Interface` may be called, which it may not where it was
-- reached through an unexported field, and whether it is the default of its type; `opaque` is of any
-- other kind. Names and the warning's text are left out; `none` is the panic of `Interface`.
use mr_and_raft.Common.{
  ℕ, zero, suc, ◌+◌, ◌≤◌, ◌≡◌, ◌↔◌, ◌⊎◌, inl, inr, refl, Bool, true, false, Option, none, some,
  if◌then◌else◌, ◌∙◌, sym, ap, ◌>>=◌, arith, some_inj,
}

mutual
  pub data Value : Type 0 where
    structure : Fields → Value
    nil_pointer : Value
    pointer : Value → Value
    basic : Bool → Bool → Value
    opaque : Value

  pub data Fields : Type 0 where
    no_fields : Fields
    one_more_field : Value → Fields → Fields

-- The loop over the fields, with what it does for each
abbrev pub check_values : (Value → ℕ → Option ℕ) → Fields → ℕ → Option ℕ
check_values check no_fields error_count = some error_count
check_values check (one_more_field v vs) error_count = do
  counted ← check v error_count
  check_values check vs counted

-- `checkDefault1`, by the number of levels that are left: it starts with 3, and ends below them.
abbrev pub check_default1 : ℕ → Value → ℕ → Option ℕ
check_default1 zero v error_count = some error_count
check_default1 (suc levels) (structure vs) error_count =
    check_values (check_default1 levels) vs error_count
check_default1 (suc levels) nil_pointer error_count = some error_count
check_default1 (suc levels) (pointer v) error_count = check_default1 levels v error_count
check_default1 (suc levels) (basic can_interface is_default) error_count =
    if can_interface then some (if is_default then error_count else error_count + 1) else none
check_default1 (suc levels) opaque error_count = some error_count

-- `none` as a value is a nil interface.
unfoldable pub check_default : Option Value → ℕ → Option ℕ
check_default none error_count = some error_count
check_default (some v) error_count = check_default1 3 v error_count

abbrev pub AllFieldsHave : (Value → Type 0) → Fields → Type 0
AllFieldsHave P no_fields = Unit
AllFieldsHave P (one_more_field v vs) = P v × AllFieldsHave P vs

-- All numbers, Booleans and strings in the given number of levels are as `P` says.
abbrev pub AllBasics : (Bool → Bool → Type 0) → ℕ → Value → Type 0
AllBasics P zero v = Unit
AllBasics P (suc levels) (structure vs) = AllFieldsHave (AllBasics P levels) vs
AllBasics P (suc levels) nil_pointer = Unit
AllBasics P (suc levels) (pointer v) = AllBasics P levels v
AllBasics P (suc levels) (basic can_interface is_default) = P can_interface is_default
AllBasics P (suc levels) opaque = Unit

abbrev pub IsReadable : Bool → Bool → Type 0
IsReadable can_interface is_default = can_interface ≡ true

abbrev pub IsDefault : Bool → Bool → Type 0
IsDefault can_interface is_default = is_default ≡ true

-- A check returns exactly on values with the first property; its count never goes back, and stands
-- still exactly on those with the second.
abbrev Counted : Type 0 → Type 0 → ℕ → Option ℕ → Type 0
Counted R P n result =
    ((m : ℕ) × R × (result ≡ some m) × (n ≤ m) × ((m ≡ n) ↔ P)) ⊎ ((¬ R) × (result ≡ none))

stays : (n : ℕ) → Counted Unit Unit n (some n)
stays n = inl (n, tt, refl, omega arith, ((λ e. tt), λ u. refl))

check_values_lem :
    (check : Value → ℕ → Option ℕ) (R P : Value → Type 0)
    → ((v : Value) (n : ℕ) → Counted (R v) (P v) n (check v n))
    → (vs : Fields) (n : ℕ)
    → Counted (AllFieldsHave R vs) (AllFieldsHave P vs) n (check_values check vs n)
check_values_lem check R P h no_fields n = stays n
check_values_lem check R P h (one_more_field v vs) n = elim (h v n) [
  | inr (hidden, panics) ↦ inr ((λ (here, _). hidden here), rw panics refl)
  | inl (m, seen, run, more, iff) ↦ elim (check_values_lem check R P h vs m) [
    | inr (hidden, panics) ↦ inr ((λ (_, later). hidden later), rw run panics)
    | inl (m', seen', run', more', iff') ↦ inl (
      m',
      (seen, seen'),
      rw run run',
      omega (arith, more, more'),
      (
        (λ e. (iff.0 (omega (arith, e, more, more')), iff'.0 (omega (arith, e, more, more')))),
        λ (here, others). iff'.1 others ∙ iff.1 here,
      ),
    )
  ]
]

check_default1_lem :
    (levels : ℕ) (v : Value) (n : ℕ)
    → Counted
        (AllBasics IsReadable levels v)
        (AllBasics IsDefault levels v)
        n
        (check_default1 levels v n)
check_default1_lem zero v n = stays n
check_default1_lem (suc levels) (structure vs) n =
    check_values_lem (check_default1 levels) (AllBasics IsReadable levels)
      (AllBasics IsDefault levels) (check_default1_lem levels) vs n
check_default1_lem (suc levels) nil_pointer n = stays n
check_default1_lem (suc levels) (pointer v) n = check_default1_lem levels v n
check_default1_lem (suc levels) (basic true true) n =
    inl (n, refl, refl, omega arith, ((λ e. refl), λ e. refl))
check_default1_lem (suc levels) (basic true false) n =
    inl (n + 1, refl, refl, omega arith, ((λ e. absurd (omega (arith, e))), λ e. cc))
check_default1_lem (suc levels) (basic false is_default) n = inr ((λ e. cc), refl)
check_default1_lem (suc levels) opaque n = stays n

-- `checkDefault` returns exactly if no number, Boolean or string of the value, down to the third
-- level of structs and pointers, was reached through an unexported field, and panics if one was; it
-- returns without a further error counted exactly if all of these are defaults as well.
pub check_default_lem :
    (v : Value) (error_count : ℕ)
    → (((n : ℕ) × (check_default (some v) error_count ≡ some n)) ↔ AllBasics IsReadable 3 v)
      × ((check_default (some v) error_count ≡ none) ↔ ¬ AllBasics IsReadable 3 v)
      × ((check_default (some v) error_count ≡ some error_count)
          ↔ AllBasics IsReadable 3 v × AllBasics IsDefault 3 v)
unfolding check_default
check_default_lem v error_count = elim (check_default1_lem 3 v error_count) [
  | inr (hidden, panics) ↦ (
    ((λ (n, e). cc), λ seen. absurd (hidden seen)),
    ((λ e. hidden), λ h. panics),
    ((λ e. cc), λ (seen, _). absurd (hidden seen)),
  )
  | inl (m, seen, run, more, iff) ↦ (
    ((λ e. seen), λ s. (m, run)),
    ((λ e. cc), λ h. absurd (h seen)),
    ((λ e. (seen, iff.0 (some_inj (sym run ∙ e)))), λ (_, all). run ∙ ap some (iff.1 all)),
  )
]
