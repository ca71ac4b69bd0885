-- ===== src/Mr/Reducer/Output.antt =====
-- mr/worker.go: what `DoReduce` makes of the pairs that the map tasks left in its files.
use mr_and_raft.Common.{
  ℕ, zero, suc, ◌+◌, ◌<◌, ◌≡◌, refl, ap, Option, some, List, [], ◌∷◌, ◌++◌, map, arith, length,
}
use mathlib.Core.List.Permᴰ.{Permᴰ}
use mr_and_raft.Mr.Worker.{KeyValue, Files}
use mr_and_raft.Mr.Lines.{values_of-perm}
use mr_and_raft.Mr.Reducer.{
  decode_lines, read_files, groups, groups_lem, do_reduce, values_of, lists_of, at_most_one,
  KeysTogether,
}

-- The pairs of `count` map tasks from number `i` on
abbrev pub pairs_from {ℓ} : {A : Type ℓ} → (ℕ → List A) → ℕ → ℕ → List A
pairs_from pairs zero i = []
pairs_from pairs (suc count) i = pairs i ++ pairs_from pairs count (i + 1)

module _ {ℓ μ} {K V : Type ℓ} {E : Type μ} (encode : KeyValue K V → E)
    (decode : E → Option (KeyValue K V))
    (back : (kv : KeyValue K V) → decode (encode kv) ≡ some kv) where
  decode_lines-map : (kvs : List (KeyValue K V)) → decode_lines decode (map encode kvs) ≡ kvs
  unfolding decode_lines
  decode_lines-map [] = refl
  decode_lines-map (kv ∷ kvs) = rw (back kv) (ap (λ l. kv ∷ l) (decode_lines-map kvs))

  read_files_lem :
      (count i id : ℕ) (files : ℕ → Files E) (pairs : ℕ → List (KeyValue K V))
      → ((j : ℕ) → j < i + count → files j id ≡ some (map encode (pairs j)))
      → read_files decode count i files id ≡ some (pairs_from pairs count i)
  unfolding read_files
  read_files_lem zero i id files pairs h = refl
  read_files_lem (suc count) i id files pairs h =
      rw
        (
          h i (omega arith),
          read_files_lem count (i + 1) id files pairs (λ j l. h j (omega arith)),
          decode_lines-map (pairs i),
        )
        refl

  -- Where what is written for a pair can be read back, the map tasks have left each its pairs in the
  -- file of the reduce task, and the sort rearranges pairs so that those of one key stand together:
  -- `DoReduce` ends, with one line for each key among these pairs, made by the reduce function from
  -- all values that the map tasks left for the key, in the order of the sort, and none for another key.
  pub do_reduce_lem {ν} :
      {W : Type ν} (key_eq : Discrete K) (sort_pairs : List (KeyValue K V) → List (KeyValue K V))
      (reducef : K → List V → W) (id n_map : ℕ) (files : ℕ → Files E)
      (pairs : ℕ → List (KeyValue K V))
      → ((kvs : List (KeyValue K V)) → KeysTogether key_eq (sort_pairs kvs))
      → ((kvs : List (KeyValue K V)) → Permᴰ (sort_pairs kvs) kvs)
      → ((i : ℕ) → i < n_map → files i id ≡ some (map encode (pairs i)))
      → (gs : List (K × List V)) × (do_reduce key_eq decode sort_pairs reducef id n_map files
          ≡ some (map (λ (key, values). (key, reducef key values)) gs))
        × ((key : K)
            → (values : List V) × (lists_of key_eq key gs ≡ at_most_one key_eq values)
              × (values ≡ values_of key_eq key (sort_pairs (pairs_from pairs n_map 0)))
              × Permᴰ values (values_of key_eq key (pairs_from pairs n_map 0)))
  unfolding do_reduce
  do_reduce_lem key_eq sort_pairs reducef id n_map files pairs together perm left =
      let kvs = pairs_from pairs n_map 0 in
      let sorted = sort_pairs kvs in
      let at = read_files_lem n_map 0 id files pairs (λ j l. left j (omega arith)) in
      (
        groups key_eq (length sorted) sorted,
        rw at refl,
        λ key. (
          values_of key_eq key sorted,
          groups_lem key_eq (length sorted) key sorted (omega arith) (together kvs),
          refl,
          values_of-perm key_eq key (perm kvs),
        ),
      )
