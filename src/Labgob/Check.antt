-- ===== src/Labgob/Check.antt =====
-- labgob/labgob.go: what a run of `checkType` adds to the types that are checked.
use mr_and_raft.Common.{
  ℕ, zero, suc, ◌≤◌, ◌<◌, ◌≡◌, ◌⊎◌, sym, ◌∙◌, inl, inr, true, List, [], ◌∷◌, Bool-cases, ℕ_discrete,
  arith, update_here, update_there,
}
use mathlib.Core.Path.{subst}
use mr_and_raft.Labgob.{
  Field, Kind, struct_of, elem_of, map_of, other, Checks, check_fields, check_kind, check_type,
}
use mr_and_raft.Labgob.Types.{
  AllFields, AllParts, AllUpper, IsChecked, unchecked, complained, marked, unchecked-marked,
  unchecked-none, still,
}

module _ (kind : ℕ → Kind) where
  -- What a run of the check adds: it forgets nothing, goes into all parts of what it adds, and
  -- without a complaint what it adds has only upper-case fields.
  pub record Grows (s s' : Checks) : Type 0 where
    pub keeps : (t : ℕ) → IsChecked s t → IsChecked s' t
    pub parts : (t : ℕ) → IsChecked s' t → IsChecked s t ⊎ AllParts (IsChecked s') (kind t)
    pub complains : s.error_count ≤ s'.error_count
    pub upper :
        s'.error_count ≡ s.error_count
        → (t : ℕ) → IsChecked s' t
        → IsChecked s t ⊎ AllUpper (kind t)

  AllFields-map :
      {P Q : Field → Type 0}
      → ((field : Field) → P field → Q field)
      → (fields : List Field) → AllFields P fields
      → AllFields Q fields
  AllFields-map f [] h = tt
  AllFields-map f (field ∷ fields) (h, hs) = (f field h, AllFields-map f fields hs)

  AllParts-map :
      {P Q : ℕ → Type 0} → ((t : ℕ) → P t → Q t) → (k : Kind) → AllParts P k → AllParts Q k
  AllParts-map f (struct_of fields) h = AllFields-map (λ field. f field.type) fields h
  AllParts-map f (elem_of elem) h = f elem h
  AllParts-map f (map_of key elem) (h, h') = (f key h, f elem h')
  AllParts-map f other h = tt

  Grows-same : (s : Checks) → Grows s s
  Grows-same s = record {
    keeps = λ t c. c;
    parts = λ t c. inl c;
    complains = omega arith;
    upper = λ e t c. inl c;
  }

  Grows-trans : {s s' s'' : Checks} → Grows s s' → Grows s' s'' → Grows s s''
  Grows-trans g h = record {
    keeps = λ t c. h.keeps t (g.keeps t c);
    parts = λ t c. elim (h.parts t c) [
      | inr new ↦ inr new
      | inl old ↦ elim (g.parts t old) [
        | inl older ↦ inl older
        | inr new ↦ inr (AllParts-map h.keeps (kind t) new)
      ]
    ];
    complains = omega (arith, g.complains, h.complains);
    upper = λ e t c. elim (h.upper (omega (arith, e, g.complains, h.complains)) t c) [
      | inr new ↦ inr new
      | inl old ↦ g.upper (omega (arith, e, g.complains, h.complains)) t old
    ];
  }

  unchecked-Grows : (n : ℕ) {s s' : Checks} → Grows s s' → unchecked n s' ≤ unchecked n s
  unchecked-Grows zero g = omega arith
  unchecked-Grows (suc n) {s} {s'} g = elim (Bool-cases (s.checked n)) [
    | inl was ↦ rw (was, g.keeps n was) (omega (arith, unchecked-Grows n g))
    | inr new ↦ elim (Bool-cases (s'.checked n)) [
      | inl is ↦ rw (new, is) (omega (arith, unchecked-Grows n g))
      | inr still ↦ rw (new, still) (omega (arith, unchecked-Grows n g))
    ]
  ]

  Grows-complained : (s : Checks) (field : Field) → Grows s (complained s field)
  Grows-complained s field = elim (Bool-cases field.is_upper) [
    | inl e ↦ rw e (Grows-same s)
    | inr e ↦ rw e (record {
      keeps = λ t c. c;
      parts = λ t c. inl c;
      complains = omega arith;
      upper = λ e t c. inl c;
    })
  ]

  -- A field that was not complained of is upper-case.
  upper_field :
      (s : Checks) (field : Field) (last : Checks)
      → (complained s field).error_count ≤ last.error_count
      → last.error_count ≡ s.error_count
      → field.is_upper ≡ true
  upper_field s field last h e = elim (Bool-cases field.is_upper) [
    | inl up ↦ up
    | inr low ↦ absurd (omega (arith, rw low at h, e))
  ]

  module _ (n : ℕ) where
    -- All parts of a type are types of the table.
    abbrev pub InTable : Kind → Type 0
    InTable k = AllParts (λ t. t < n) k

    -- What a check does with enough fuel.
    abbrev pub ChecksAll : ℕ → (ℕ → Checks → Checks) → Type 0
    ChecksAll fuel check =
        (t : ℕ) (s : Checks)
        → t < n
        → unchecked n s ≤ fuel
        → Grows s (check t s) × IsChecked (check t s) t

    check_fields_lem :
        (fuel : ℕ) (check : ℕ → Checks → Checks)
        → ChecksAll fuel check
        → (fields : List Field) (s : Checks) → AllFields (λ field. field.type < n) fields
        → unchecked n s ≤ fuel
        → Grows s (check_fields check fields s)
          × AllFields (λ field. IsChecked (check_fields check fields s) field.type) fields
          × ((check_fields check fields s).error_count ≡ s.error_count
              → AllFields (λ field. field.is_upper ≡ true) fields)
    check_fields_lem fuel check all [] s h few = (Grows-same s, tt, λ e. tt)
    check_fields_lem fuel check all (field ∷ fields) s (h, hs) few =
        let begun = Grows-complained s field in
        let next = complained s field in
        let (g, here) = all field.type next h (omega (arith, few, unchecked-Grows n begun)) in
        let start = Grows-trans begun g in
        let (rest, checked, upper) =
          check_fields_lem fuel check all fields (check field.type next) hs
            (omega (arith, few, unchecked-Grows n start)) in
        let last = check_fields check fields (check field.type next) in
        (
          Grows-trans start rest,
          (rest.keeps field.type here, checked),
          λ e. (
            upper_field s field last (omega (arith, g.complains, rest.complains)) e,
            upper (omega (arith, e, start.complains, rest.complains)),
          ),
        )

    check_kind_lem :
        (fuel : ℕ) (check : ℕ → Checks → Checks)
        → ChecksAll fuel check
        → (k : Kind) (s : Checks) → InTable k
        → unchecked n s ≤ fuel
        → Grows s (check_kind check k s)
          × AllParts (IsChecked (check_kind check k s)) k
          × ((check_kind check k s).error_count ≡ s.error_count → AllUpper k)
    check_kind_lem fuel check all (struct_of fields) s h few =
        check_fields_lem fuel check all fields s h few
    check_kind_lem fuel check all (elem_of elem) s h few =
        let (g, here) = all elem s h few in (g, here, λ e. tt)
    check_kind_lem fuel check all (map_of key elem) s (h, h') few =
        let (g, here) = all elem s h' few in
        let (g', here') = all key (check elem s) h (omega (arith, few, unchecked-Grows n g)) in
        (Grows-trans g g', (here', g'.keeps elem here), λ e. tt)
    check_kind_lem fuel check all other s h few = (Grows-same s, tt, λ e. tt)

    -- The type itself joins what the check of its parts adds.
    Grows-marked :
        (t : ℕ) (s s' : Checks)
        → Grows (marked t s) s'
        → AllParts (IsChecked s') (kind t)
        → (s'.error_count ≡ s.error_count → AllUpper (kind t))
        → Grows s s' × IsChecked s' t
    Grows-marked t s s' g checked upper =
        let here : IsChecked (marked t s) t = update_here s.checked t true in
        (
          record {
            keeps = λ u c. g.keeps u (still t s u c);
            parts = λ u c. elim (g.parts u c) [
              | inr new ↦ inr new
              | inl old ↦ elim (ℕ_discrete t u) [
                | yes e ↦ inr (subst (λ i. AllParts (IsChecked s') (kind i)) e checked)
                | no ne ↦ inl (sym (update_there s.checked t u true ne) ∙ old)
              ]
            ];
            complains = g.complains;
            upper = λ same u c. elim (g.upper same u c) [
              | inr new ↦ inr new
              | inl old ↦ elim (ℕ_discrete t u) [
                | yes e ↦ inr (subst (λ i. AllUpper (kind i)) e (upper same))
                | no ne ↦ inl (sym (update_there s.checked t u true ne) ∙ old)
              ]
            ];
          },
          g.keeps t here,
        )

    pub check_type_run :
        ((t : ℕ) → t < n → InTable (kind t)) → (fuel : ℕ) → ChecksAll fuel (check_type kind fuel)
    unfolding check_type
    check_type_run table zero t s h few =
        (Grows-same s, unchecked-none n t s h (omega (arith, few)))
    check_type_run table (suc fuel) t s h few = elim (Bool-cases (s.checked t)) [
      | inl c ↦ rw c (Grows-same s, c)
      | inr new ↦
          let (g, checked, upper) =
            check_kind_lem fuel (check_type kind fuel) (check_type_run table fuel) (kind t)
              (marked t s) (table t h) (omega (arith, few, unchecked-marked n t s h new)) in
          rw new (Grows-marked t s _ g checked upper)
    ]
