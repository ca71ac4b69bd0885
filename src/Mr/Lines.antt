-- ===== src/Mr/Lines.antt =====
-- mr/: the values and the lines that belong to one key.
use mr_and_raft.Common.{
  ◌≡◌, refl, inl, inr, ◌∙◌, ap, sym, List, [], ◌∷◌, ◌++◌, map, length, if◌then◌else◌, Bool-cases,
  same, same→eq, arith,
}
use mathlib.Core.Path.{subst}
use mathlib.Core.List.Permᴰ.{Permᴰ, nil, cons, swap, trans}
use mathlib.Core.List.Permᴰ as PermD
use mr_and_raft.Mr.Worker.{KeyValue}
use mr_and_raft.Mr.Reducer.{groups, groups_lem, KeysTogether, values_of, lists_of, at_most_one}

Permᴰ-nil {ℓ} : {A : Type ℓ} (xs : List A) → Permᴰ xs [] → xs ≡ []
Permᴰ-nil [] d = refl
Permᴰ-nil (x ∷ xs) d = let e = PermD.length-eq d in cc

-- What the lines of an output give for a key.
abbrev pub lines_for {ℓ} : {K W : Type ℓ} → Discrete K → K → List (K × W) → List W
lines_for key_eq key [] = []
lines_for key_eq key ((k, line) ∷ lines) =
    if same key_eq key k then line ∷ lines_for key_eq key lines else lines_for key_eq key lines

module _ {ℓ} {K V : Type ℓ} (key_eq : Discrete K) where
  pub values_of-append :
      (key : K) (kvs more : List (KeyValue K V))
      → values_of key_eq key (kvs ++ more) ≡ values_of key_eq key kvs ++ values_of key_eq key more
  values_of-append key [] more = refl
  values_of-append key (kv ∷ kvs) more = elim (Bool-cases (same key_eq key kv.key)) [
    | inl here ↦ rw here (ap (λ vs. kv.value ∷ vs) (values_of-append key kvs more))
    | inr there ↦ rw there (values_of-append key kvs more)
  ]

  values_of-cons_perm :
      (key : K) (kv : KeyValue K V) (kvs more : List (KeyValue K V))
      → Permᴰ (values_of key_eq key kvs) (values_of key_eq key more)
      → Permᴰ (values_of key_eq key (kv ∷ kvs)) (values_of key_eq key (kv ∷ more))
  values_of-cons_perm key kv kvs more d = elim (Bool-cases (same key_eq key kv.key)) [
    | inl here ↦ rw here (Permᴰ.cons refl d)
    | inr there ↦ rw there d
  ]

  values_of-swap_perm :
      (key : K) (kv lv : KeyValue K V) (kvs : List (KeyValue K V))
      → Permᴰ (values_of key_eq key (kv ∷ lv ∷ kvs)) (values_of key_eq key (lv ∷ kv ∷ kvs))
  values_of-swap_perm key kv lv kvs = elim (Bool-cases (same key_eq key kv.key)) [
    | inl a ↦ elim (Bool-cases (same key_eq key lv.key)) [
      | inl b ↦ rw (a, b) (Permᴰ.swap refl refl)
      | inr b ↦ rw (a, b) (PermD.refl _)
    ]
    | inr a ↦ elim (Bool-cases (same key_eq key lv.key)) [
      | inl b ↦ rw (a, b) (PermD.refl _)
      | inr b ↦ rw (a, b) (PermD.refl _)
    ]
  ]

  pub values_of-perm :
      (key : K) {kvs more : List (KeyValue K V)}
      → Permᴰ kvs more
      → Permᴰ (values_of key_eq key kvs) (values_of key_eq key more)
  values_of-perm key nil = Permᴰ.nil
  values_of-perm key (cons {a} {b} {l₁} {l₂} e d) =
      subst (λ kv. Permᴰ (values_of key_eq key (a ∷ l₁)) (values_of key_eq key (kv ∷ l₂))) e
        (values_of-cons_perm key a l₁ l₂ (values_of-perm key d))
  values_of-perm key (swap {a} {b} {a'} {b'} {l} e e') =
      subst (λ kv. Permᴰ (values_of key_eq key (a ∷ b ∷ l)) (values_of key_eq key (kv ∷ b' ∷ l))) e'
        (subst (λ kv. Permᴰ (values_of key_eq key (a ∷ b ∷ l)) (values_of key_eq key (b ∷ kv ∷ l)))
          e (values_of-swap_perm key a b l))
  values_of-perm key (trans d d') = Permᴰ.trans (values_of-perm key d) (values_of-perm key d')

  lines_for-map :
      {W : Type ℓ} (reducef : K → List V → W) (key : K) (gs : List (K × List V))
      → lines_for key_eq key (map (λ (k, values). (k, reducef k values)) gs)
        ≡ map (reducef key) (lists_of key_eq key gs)
  lines_for-map reducef key [] = refl
  lines_for-map reducef key ((k, values) ∷ gs) = elim (Bool-cases (same key_eq key k)) [
    | inl here ↦
        let e = same→eq key_eq key k here in
        rw here (
          ap (λ line. line ∷ lines_for key_eq key (map (λ (k, values). (k, reducef k values)) gs))
            (ap (λ j. reducef j values) (sym e))
          ∙ ap (λ lines. reducef key values ∷ lines) (lines_for-map reducef key gs))
    | inr there ↦ rw there (lines_for-map reducef key gs)
  ]

  map-at_most_one :
      {W : Type ℓ} (f : List V → W) (vs ws : List V)
      → ((us xs : List V) → Permᴰ us xs → f us ≡ f xs)
      → Permᴰ vs ws
      → map f (at_most_one key_eq vs) ≡ map f (at_most_one key_eq ws)
  map-at_most_one f [] [] h d = refl
  map-at_most_one f [] (w ∷ ws) h d = let e = PermD.length-eq d in cc
  map-at_most_one f (v ∷ vs) [] h d = let e = PermD.length-eq d in cc
  map-at_most_one f (v ∷ vs) (w ∷ ws) h d = ap (λ line. line ∷ []) (h (v ∷ vs) (w ∷ ws) d)

  -- The lines that a reduce task or the sequential program makes from its pairs.
  abbrev pub made :
      {W : Type ℓ}
      → (List (KeyValue K V) → List (KeyValue K V))
      → (K → List V → W)
      → List (KeyValue K V)
      → List (K × W)
  made sort_pairs reducef kvs =
      let sorted = sort_pairs kvs in
      map (λ (key, values). (key, reducef key values)) (groups key_eq (length sorted) sorted)

  -- What is made for a key, for a sort that puts the pairs of one key together and a reduce function
  -- that does not mind the order of its values
  pub lines_for-made :
      {W : Type ℓ} (sort_pairs : List (KeyValue K V) → List (KeyValue K V))
      (reducef : K → List V → W) (key : K) (kvs : List (KeyValue K V))
      → ((pairs : List (KeyValue K V)) → KeysTogether key_eq (sort_pairs pairs))
      → ((pairs : List (KeyValue K V)) → Permᴰ (sort_pairs pairs) pairs)
      → ((vs ws : List V) → Permᴰ vs ws → reducef key vs ≡ reducef key ws)
      → lines_for key_eq key (made sort_pairs reducef kvs)
        ≡ map (reducef key) (at_most_one key_eq (values_of key_eq key kvs))
  lines_for-made sort_pairs reducef key kvs together perm any_order =
      let sorted = sort_pairs kvs in
      lines_for-map reducef key (groups key_eq (length sorted) sorted)
      ∙ ap (map (reducef key))
          (groups_lem key_eq (length sorted) key sorted (omega arith) (together kvs))
      ∙ map-at_most_one (reducef key) _ _ any_order (values_of-perm key (perm kvs))
