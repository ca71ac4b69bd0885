-- ===== src/Labgob/Types.antt =====
-- labgob/labgob.go: types and their parts, and how many of them are not checked yet.
use mr_and_raft.Common.{
  ℕ, zero, suc, ◌+◌, ◌≤◌, ◌<◌, ◌≡◌, ◌≢◌, refl, sym, ◌∙◌, ap, inl, inr, Bool, true, false, List, [],
  ◌∷◌, if◌then◌else◌, Bool-cases, ℕ_discrete, arith, update, update_here, update_there,
}
use mathlib.Core.Path.{subst}
use mr_and_raft.Labgob.{Field, Kind, Checks}

-- A property of every field of a list.
abbrev pub AllFields : (Field → Type 0) → List Field → Type 0
AllFields P [] = Unit
AllFields P (field ∷ fields) = P field × AllFields P fields

-- A property of every type that a type is made of.
abbrev pub AllParts : (ℕ → Type 0) → Kind → Type 0
AllParts P (Kind.struct_of fields) = AllFields (λ field. P field.type) fields
AllParts P (Kind.elem_of elem) = P elem
AllParts P (Kind.map_of key elem) = P key × P elem
AllParts P Kind.other = Unit

-- All fields are upper-case.
abbrev pub AllUpper : Kind → Type 0
AllUpper (Kind.struct_of fields) = AllFields (λ field. field.is_upper ≡ true) fields
AllUpper (Kind.elem_of elem) = Unit
AllUpper (Kind.map_of key elem) = Unit
AllUpper Kind.other = Unit

abbrev pub IsChecked : Checks → ℕ → Type 0
IsChecked s t = s.checked t ≡ true

-- How many types below `n` are not checked.
abbrev pub unchecked : ℕ → Checks → ℕ
unchecked zero s = 0
unchecked (suc n) s = (if s.checked n then 0 else 1) + unchecked n s

abbrev pub complained : Checks → Field → Checks
complained s field = if field.is_upper then s else record s { error_count = s.error_count + 1 }

abbrev pub marked : ℕ → Checks → Checks
marked t s = record s { checked = update s.checked t true }

pub unchecked_above : (n t : ℕ) (s : Checks) → n ≤ t → unchecked n (marked t s) ≡ unchecked n s
unchecked_above zero t s h = refl
unchecked_above (suc n) t s h =
    let there : update s.checked t true n ≡ s.checked n =
      update_there s.checked t n true (λ e. absurd (omega (arith, e, h))) in
    rw there
      (ap (λ k. (if s.checked n then 0 else 1) + k) (unchecked_above n t s (omega (arith, h))))

pub unchecked-marked :
    (n t : ℕ) (s : Checks)
    → t < n
    → s.checked t ≡ false
    → unchecked n (marked t s) + 1 ≡ unchecked n s
unchecked-marked zero t s h e = absurd (omega (arith, h))
unchecked-marked (suc n) t s h e = elim (ℕ_discrete t n) [
  | yes same ↦
      let old : s.checked n ≡ false = ap s.checked (sym same) ∙ e in
      let new : update s.checked t true n ≡ true =
        subst (λ i. update s.checked t true i ≡ true) same (update_here s.checked t true) in
      rw (new, old) (omega (arith, unchecked_above n t s (omega (arith, same))))
  | no ne ↦
      let there : update s.checked t true n ≡ s.checked n = update_there s.checked t n true ne in
      rw there (omega (arith, unchecked-marked n t s (ground arith) e))
]

pub unchecked-none : (n t : ℕ) (s : Checks) → t < n → unchecked n s ≡ 0 → IsChecked s t
unchecked-none n t s h e = elim (Bool-cases (s.checked t)) [
  | inl c ↦ c
  | inr new ↦ absurd (omega (arith, e, unchecked-marked n t s h new))
]

pub unchecked-at_most : (n : ℕ) (s : Checks) → unchecked n s ≤ n
unchecked-at_most zero s = omega arith
unchecked-at_most (suc n) s = elim (Bool-cases (s.checked n)) [
  | inl e ↦ rw e (omega (arith, unchecked-at_most n s))
  | inr e ↦ rw e (omega (arith, unchecked-at_most n s))
]

pub not_both : {b : Bool} → b ≡ false → b ≢ true
not_both e e' = cc

pub still : (t : ℕ) (s : Checks) (u : ℕ) → IsChecked s u → IsChecked (marked t s) u
still t s u c = elim (ℕ_discrete t u) [
  | yes e ↦ subst (λ i. update s.checked t true i ≡ true) e (update_here s.checked t true)
  | no ne ↦ update_there s.checked t u true ne ∙ c
]

-- A field is one of a list.
pub data IsIn (f : Field) : List Field → Type 0 where
  is_first : {g : Field} {fields : List Field} → g ≡ f → IsIn f (g ∷ fields)
  is_later : {g : Field} {fields : List Field} → IsIn f fields → IsIn f (g ∷ fields)
