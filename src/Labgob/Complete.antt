-- ===== src/Labgob/Complete.antt =====
-- labgob/labgob.go: `checkType` sees every type that a type is made of.
use mr_and_raft.Common.{ℕ, ◌<◌, ◌≡◌, inl, inr, false, List, [], ◌∷◌}
use mathlib.Core.Path.{subst}
use mr_and_raft.Labgob.{Field, Kind, Checks, check_type}
use mr_and_raft.Labgob.Types.{
  AllFields, AllParts, AllUpper, IsChecked, unchecked-at_most, not_both, IsIn, is_first, is_later,
}
use mr_and_raft.Labgob.Check.{InTable, check_type_run}

module _ (kind : ℕ → Kind) where
  -- What the type is made of: its fields, elements and keys, and theirs. An interface has no parts.
  pub data MadeOf (t : ℕ) : ℕ → Type 0 where
    itself : MadeOf t t
    in_field :
        {u : ℕ} {fields : List Field} {f : Field}
        → MadeOf t u
        → kind u ≡ Kind.struct_of fields
        → IsIn f fields
        → MadeOf t f.type
    in_element : {u elem : ℕ} → MadeOf t u → kind u ≡ Kind.elem_of elem → MadeOf t elem
    as_key : {u k elem : ℕ} → MadeOf t u → kind u ≡ Kind.map_of k elem → MadeOf t k
    as_value : {u k elem : ℕ} → MadeOf t u → kind u ≡ Kind.map_of k elem → MadeOf t elem

  AllFields-IsIn :
      (P : Field → Type 0) {f : Field} (fields : List Field)
      → AllFields P fields
      → IsIn f fields
      → P f
  AllFields-IsIn P [] h i = elim i [ ]
  AllFields-IsIn P (g ∷ fields) (h, hs) (is_first e) = subst P e h
  AllFields-IsIn P (g ∷ fields) (h, hs) (is_later i) = AllFields-IsIn P fields hs i

  -- A type that a checked type is made of is checked, where all parts of checked types are.
  MadeOf-IsChecked :
      (s : Checks)
      → ((t : ℕ) → IsChecked s t → AllParts (IsChecked s) (kind t))
      → {t u : ℕ} → IsChecked s t
      → MadeOf t u
      → IsChecked s u
  MadeOf-IsChecked s closed c itself = c
  MadeOf-IsChecked s closed c (in_field {u} {fields} h e i) =
      AllFields-IsIn (λ g. IsChecked s g.type) fields
        (subst (AllParts (IsChecked s)) e (closed u (MadeOf-IsChecked s closed c h))) i
  MadeOf-IsChecked s closed c (in_element {u} h e) =
      subst (AllParts (IsChecked s)) e (closed u (MadeOf-IsChecked s closed c h))
  MadeOf-IsChecked s closed c (as_key {u} h e) =
      (subst (AllParts (IsChecked s)) e (closed u (MadeOf-IsChecked s closed c h))).0
  MadeOf-IsChecked s closed c (as_value {u} h e) =
      (subst (AllParts (IsChecked s)) e (closed u (MadeOf-IsChecked s closed c h))).1

  -- The first check of a type of a table of `n` types, recursive ones among them, comes to its end
  -- with `n` rounds of fuel: it has gone into every type that the type is made of through fields,
  -- elements and keys, and where it counts no error none of them is a struct with a field that is
  -- not upper-case; the types that an interface may hold are not among these.
  pub check_type_lem :
      (n t : ℕ) (s : Checks)
      → ((u : ℕ) → u < n → InTable kind n (kind u))
      → t < n
      → ((u : ℕ) → s.checked u ≡ false)
      → {u : ℕ} → MadeOf t u
      → IsChecked (check_type kind n t s) u
        × ((check_type kind n t s).error_count ≡ s.error_count → AllUpper (kind u))
  check_type_lem n t s table l fresh {u} h =
      let (g, here) = check_type_run kind n table n t s l (unchecked-at_most n s) in
      let last = check_type kind n t s in
      let closed : (v : ℕ) → IsChecked last v → AllParts (IsChecked last) (kind v) =
        λ v c. elim (g.parts v c) [ inl old ↦ absurd (not_both (fresh v) old) | inr new ↦ new ] in
      let c = MadeOf-IsChecked last closed here h in
      (
        c,
        λ none_counted. elim (g.upper none_counted u c) [
          | inl old ↦ absurd (not_both (fresh u) old)
          | inr new ↦ new
        ],
      )
