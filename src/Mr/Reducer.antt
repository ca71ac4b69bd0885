-- ===== src/Mr/Reducer.antt =====
-- mr/worker.go: `DoReduce`. What encoding/json reads is the parameter `decode`, the loop stopping at
-- the first line that does not decode; the sort of the standard library is the parameter
-- `sort_pairs`. `none` is the end of the worker at a file that is missing.
pub mod Output
use mr_and_raft.Common.{
  ℕ, zero, suc, ◌+◌, ◌≤◌, ◌≡◌, refl, inl, inr, ◌∙◌, sym, ap, false, Option, none, some, List, [],
  ◌∷◌, ◌++◌, map, if◌then◌else◌, Bool-cases, arith, length, same, same→eq, ◌>>=◌,
}
use mathlib.Core.List.{append-nil}
use mathlib.Core.Path.{subst}
use mr_and_raft.Mr.Worker.{KeyValue, Files}

module _ {ℓ κ μ} {K : Type ℓ} {V : Type κ} {E : Type μ} (decode : E → Option (KeyValue K V)) where
  unfoldable pub decode_lines : List E → List (KeyValue K V)
  decode_lines [] = []
  decode_lines (line ∷ lines) =
      let rest = decode_lines lines in elim (decode line) [ none ↦ [] | some kv ↦ kv ∷ rest ]

  -- The files of `count` map tasks from number `i` on; `files i` are the files of map task `i`.
  unfoldable pub read_files : ℕ → ℕ → (ℕ → Files E) → ℕ → Option (List (KeyValue K V))
  unfolding decode_lines
  read_files zero i files id = some []
  read_files (suc count) i files id = do
    lines ← files i id
    rest ← read_files count (i + 1) files id
    some (decode_lines lines ++ rest)

module _ {ℓ κ} {K : Type ℓ} {V : Type κ} (key_eq : Discrete K) where
  -- The values from the front on while the key is the same, and the pairs behind them
  unfoldable pub run_values : K → List (KeyValue K V) → List V
  run_values key [] = []
  run_values key (kv ∷ kvs) =
      let rest = run_values key kvs in if same key_eq key kv.key then kv.value ∷ rest else []

  unfoldable pub after_run : K → List (KeyValue K V) → List (KeyValue K V)
  after_run key [] = []
  after_run key (kv ∷ kvs) =
      let rest = after_run key kvs in if same key_eq key kv.key then rest else kv ∷ kvs

  -- The loop over `i`, by the pairs from `i` on: it has at most as many rounds as there are pairs.
  pub groups : ℕ → List (KeyValue K V) → List (K × List V)
  unfolding run_values after_run
  groups zero kvs = []
  groups (suc fuel) [] = []
  groups (suc fuel) (kv ∷ kvs) =
      (kv.key, kv.value ∷ run_values kv.key kvs) ∷ groups fuel (after_run kv.key kvs)

  unfoldable pub do_reduce {μ ν} :
      {E : Type μ} {W : Type ν}
      → (E → Option (KeyValue K V))
      → (List (KeyValue K V) → List (KeyValue K V))
      → (K → List V → W)
      → ℕ
      → ℕ
      → (ℕ → Files E)
      → Option (List (K × W))
  unfolding read_files groups
  do_reduce decode sort_pairs reducef id n_map files = do
    intermediate ← read_files decode n_map 0 files id
    let sorted = sort_pairs intermediate
    some (map (λ (key, values). (key, reducef key values)) (groups (length sorted) sorted))

  -- The values of a key, in the order of the pairs.
  abbrev pub values_of : K → List (KeyValue K V) → List V
  values_of key [] = []
  values_of key (kv ∷ kvs) =
      if same key_eq key kv.key then kv.value ∷ values_of key kvs else values_of key kvs

  -- The lists of values that groups give for a key.
  abbrev pub lists_of : K → List (K × List V) → List (List V)
  lists_of key [] = []
  lists_of key ((k, values) ∷ gs) =
      if same key_eq key k then values ∷ lists_of key gs else lists_of key gs

  abbrev pub at_most_one : List V → List (List V)
  at_most_one [] = []
  at_most_one (v ∷ vs) = (v ∷ vs) ∷ []

  -- Pairs of one key stand together: behind a pair, once its key has ended, it does not come back.
  abbrev pub KeysTogether : List (KeyValue K V) → Type κ
  KeysTogether [] = Unit
  KeysTogether (kv ∷ kvs) = (values_of kv.key (after_run kv.key kvs) ≡ []) × KeysTogether kvs

  values_of-split :
      (key : K) (kvs : List (KeyValue K V))
      → values_of key kvs ≡ run_values key kvs ++ values_of key (after_run key kvs)
  unfolding run_values after_run
  values_of-split key [] = refl
  values_of-split key (kv ∷ kvs) = elim (Bool-cases (same key_eq key kv.key)) [
    | inl here ↦ rw here (ap (λ vs. kv.value ∷ vs) (values_of-split key kvs))
    | inr there ↦ rw there (rw there refl)
  ]

  values_of-after_run :
      (key other : K) (kvs : List (KeyValue K V))
      → same key_eq other key ≡ false
      → values_of other (after_run key kvs) ≡ values_of other kvs
  unfolding after_run
  values_of-after_run key other [] h = refl
  values_of-after_run key other (kv ∷ kvs) h = elim (Bool-cases (same key_eq key kv.key)) [
    | inr there ↦ rw there refl
    | inl here ↦
        let e = same→eq key_eq key kv.key here in
        let apart : same key_eq other kv.key ≡ false =
          subst (λ k. same key_eq other k ≡ false) e h in
        rw (here, apart) (values_of-after_run key other kvs h)
  ]

  after_run-KeysTogether :
      (key : K) (kvs : List (KeyValue K V)) → KeysTogether kvs → KeysTogether (after_run key kvs)
  unfolding after_run
  after_run-KeysTogether key [] h = h
  after_run-KeysTogether key (kv ∷ kvs) h = elim (Bool-cases (same key_eq key kv.key)) [
    | inl here ↦ rw here (after_run-KeysTogether key kvs h.1)
    | inr there ↦ rw there h
  ]

  length-after_run : (key : K) (kvs : List (KeyValue K V)) → length (after_run key kvs) ≤ length kvs
  unfolding after_run
  length-after_run key [] = omega arith
  length-after_run key (kv ∷ kvs) = elim (Bool-cases (same key_eq key kv.key)) [
    | inl here ↦ rw here (omega (arith, length-after_run key kvs))
    | inr there ↦ rw there (omega arith)
  ]

  pub groups_lem :
      (fuel : ℕ) (key : K) (kvs : List (KeyValue K V))
      → length kvs ≤ fuel
      → KeysTogether kvs
      → lists_of key (groups fuel kvs) ≡ at_most_one (values_of key kvs)
  unfolding groups
  groups_lem zero key [] l h = refl
  groups_lem zero key (kv ∷ kvs) l h = absurd (omega arith)
  groups_lem (suc fuel) key [] l h = refl
  groups_lem (suc fuel) key (kv ∷ kvs) l h =
      let rest = after_run kv.key kvs in
      let again =
        groups_lem fuel key rest (omega (arith, length-after_run kv.key kvs))
          (after_run-KeysTogether kv.key kvs h.1) in
      elim (Bool-cases (same key_eq key kv.key)) [
        | inr there ↦ rw there (again ∙ ap at_most_one (values_of-after_run kv.key key kvs there))
        | inl here ↦
            let e = same→eq key_eq key kv.key here in
            let none_left : values_of key rest ≡ [] =
              subst (λ k. values_of k rest ≡ []) (sym e) h.0 in
            let run : values_of key kvs ≡ run_values kv.key kvs =
              subst (λ k. values_of k kvs ≡ run_values kv.key kvs) (sym e)
                (values_of-split kv.key kvs
                  ∙ ap (λ vs. run_values kv.key kvs ++ vs) h.0
                  ∙ append-nil (run_values kv.key kvs)) in
            rw (here, run)
              (ap (λ ls. (kv.value ∷ run_values kv.key kvs) ∷ ls)
                (again ∙ ap at_most_one none_left))
      ]
