-- ===== src/Mr/Sequential.antt =====
-- mr-main/mrsequential.go: a whole job in one process. `read` gives the content of a file or `none`,
-- where the program ends; the map and reduce functions, which are a plugin, and the sort of the
-- standard library are parameters.
use mr_and_raft.Common.{
  ℕ, suc, ◌≡◌, refl, get_elem?, Option, none, some, List, [], ◌∷◌, ◌++◌, map, length, arith, ◌>>=◌,
}
use mathlib.Core.List.Permᴰ.{Permᴰ}
use mr_and_raft.Mr.Lines.{values_of-perm}
use mr_and_raft.Mr.Worker.{KeyValue}
use mr_and_raft.Mr.Reducer.{groups, groups_lem, KeysTogether, values_of, lists_of, at_most_one}

module _ {ℓ κ μ ν} {F : Type μ} {S : Type ν} {K : Type ℓ} {V : Type κ} (read : F → Option S)
    (mapf : F → S → List (KeyValue K V)) where
  -- The loop over the input files
  unfoldable pub map_inputs : List F → Option (List (KeyValue K V))
  map_inputs [] = some []
  map_inputs (filename ∷ filenames) = do
    content ← read filename
    rest ← map_inputs filenames
    some (mapf filename content ++ rest)

module _ {ℓ κ} {K : Type ℓ} {V : Type κ} (key_eq : Discrete K) where
  -- `main`, from the names of its input files on, of which there must be one; the lines of `mr-out-0`
  unfoldable pub sequential {μ ν ξ} :
      {F : Type μ} {S : Type ν} {W : Type ξ}
      → (F → Option S)
      → (F → S → List (KeyValue K V))
      → (List (KeyValue K V) → List (KeyValue K V))
      → (K → List V → W)
      → List F
      → Option (List (K × W))
  unfolding map_inputs
  sequential read mapf sort_pairs reducef [] = none
  sequential read mapf sort_pairs reducef (filename ∷ filenames) = do
    intermediate ← map_inputs read mapf (filename ∷ filenames)
    let sorted = sort_pairs intermediate
    some (map (λ (key, values). (key, reducef key values)) (groups key_eq (length sorted) sorted))

module _ {ℓ μ ν} {F : Type μ} {S : Type ν} {K V : Type ℓ} (read : F → Option S)
    (mapf : F → S → List (KeyValue K V)) (content : F → S) where
  -- What the map function gives for the contents of the files, one file behind the other
  abbrev pub emitted : List F → List (KeyValue K V)
  emitted [] = []
  emitted (filename ∷ filenames) = mapf filename (content filename) ++ emitted filenames

  map_inputs-emitted :
      (filenames : List F)
      → ((k : ℕ) (filename : F)
          → get_elem? filenames k ≡ some filename
          → read filename ≡ some (content filename))
      → map_inputs read mapf filenames ≡ some (emitted filenames)
  unfolding map_inputs
  map_inputs-emitted [] h = refl
  map_inputs-emitted (filename ∷ filenames) h =
      rw (h 0 filename refl, map_inputs-emitted filenames (λ k name at. h (suc k) name at)) refl

  -- Where each input file can be read and the sort rearranges pairs so that those of one key stand
  -- together: the sequential program ends, with one line for each key that the map function gives for
  -- the contents of the files, made by the reduce function from all values that it gives for the key,
  -- in the order of the sort, and none for another key.
  pub sequential_lem {ξ} :
      {W : Type ξ} (key_eq : Discrete K) (sort_pairs : List (KeyValue K V) → List (KeyValue K V))
      (reducef : K → List V → W) (filename : F) (filenames : List F)
      → ((kvs : List (KeyValue K V)) → KeysTogether key_eq (sort_pairs kvs))
      → ((kvs : List (KeyValue K V)) → Permᴰ (sort_pairs kvs) kvs)
      → ((k : ℕ) (name : F)
          → get_elem? (filename ∷ filenames) k ≡ some name
          → read name ≡ some (content name))
      → (gs : List (K × List V)) × (sequential key_eq read mapf sort_pairs reducef
            (filename ∷ filenames)
          ≡ some (map (λ (key, values). (key, reducef key values)) gs))
        × ((key : K)
            → (values : List V) × (lists_of key_eq key gs ≡ at_most_one key_eq values)
              × (values ≡ values_of key_eq key (sort_pairs (emitted (filename ∷ filenames))))
              × Permᴰ values (values_of key_eq key (emitted (filename ∷ filenames))))
  unfolding sequential
  sequential_lem key_eq sort_pairs reducef filename filenames together perm readable =
      let kvs = emitted (filename ∷ filenames) in
      let sorted = sort_pairs kvs in
      let at = map_inputs-emitted (filename ∷ filenames) readable in
      (
        groups key_eq (length sorted) sorted,
        rw at refl,
        λ key. (
          values_of key_eq key sorted,
          groups_lem key_eq (length sorted) key sorted (omega arith) (together kvs),
          refl,
          values_of-perm key_eq key (perm kvs),
        ),
      )
