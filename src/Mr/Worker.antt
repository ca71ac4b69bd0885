-- ===== src/Mr/Worker.antt =====
-- mr/worker.go: `DoMap`, with the pairs that the map function gives. The intermediate files of one
-- map task are a function of the number of the reduce task; what encoding/json writes for a pair is
-- the parameter `encode`, and the FNV hash of a key is `sum32`. A file that cannot be opened ends the
-- worker and is left out; `none` is the panic of a division by zero.
use mr_and_raft.Common.{
  ℕ, zero, suc, ◌%◌, ◌^◌, ◌<◌, ◌≡◌, refl, inl, inr, ◌∙◌, ap, true, false, Option, none, some, List,
  [], ◌∷◌, ◌++◌, if◌then◌else◌, ◌==◌, Bool-cases, ℕ_discrete, arith, ==_iff,
}
use mathlib.Core.List.{append-nil, append_assoc}

module _ {ℓ κ} (K : Type ℓ) (V : Type κ) where
  pub record KeyValue : Type (ℓ ⊔ κ) where
    pub key : K
    pub value : V

-- `none` is a file that is not there.
abbrev pub Files {μ} : Type μ → Type μ
Files E = ℕ → Option (List E)

abbrev pub set_file {μ} : {E : Type μ} → Files E → ℕ → List E → Files E
set_file files i lines j = if i == j then some lines else files j

abbrev pub lines_of {μ} : {E : Type μ} → Option (List E) → List E
lines_of none = []
lines_of (some lines) = lines

-- What two goroutines write, each in its order, mixed into one sequence.
pub data Interleaved {μ} {E : Type μ} : List E → List E → List E → Type μ where
  both_end : Interleaved [] [] []
  first_writes :
      {x : E} {xs ys zs : List E} → Interleaved xs ys zs → Interleaved (x ∷ xs) ys (x ∷ zs)
  second_writes :
      {y : E} {xs ys zs : List E} → Interleaved xs ys zs → Interleaved xs (y ∷ ys) (y ∷ zs)

-- `os.Create` for the numbers below the count
pub create_files {μ} : {E : Type μ} → ℕ → Files E → Files E
create_files zero files = files
create_files (suc n) files = set_file (create_files n files) n []

module _ {ℓ κ μ} {K : Type ℓ} {V : Type κ} {E : Type μ} (sum32 : K → ℕ)
    (encode : KeyValue K V → E) where
  -- `& 0x7fffffff` keeps the 31 low bits.
  unfoldable pub ihash : K → ℕ
  ihash key = sum32 key % 2 ^ 31

  -- The loop over the pairs, which appends each to the file of its partition
  pub write_pairs : ℕ → List (KeyValue K V) → Files E → Option (Files E)
  write_pairs n_reduce [] files = some files
  write_pairs n_reduce (kv ∷ kva) files =
      let partition = ihash kv.key % n_reduce in
      let rest =
        write_pairs n_reduce kva
          (set_file files partition (lines_of (files partition) ++ encode kv ∷ [])) in
      if n_reduce == 0 then none else rest

  unfoldable pub do_map : ℕ → List (KeyValue K V) → Files E → Option (Files E)
  unfolding write_pairs create_files
  do_map n_reduce kva files = write_pairs n_reduce kva (create_files n_reduce files)

  -- The pairs of a partition, in the order of the pairs.
  abbrev pub partition_of : ℕ → ℕ → List (KeyValue K V) → List E
  partition_of n_reduce p [] = []
  partition_of n_reduce p (kv ∷ kva) =
      if ihash kv.key % n_reduce == p
      then encode kv ∷ partition_of n_reduce p kva
      else partition_of n_reduce p kva

  create_files_lem : (n p : ℕ) (files : Files E) → p < n → create_files n files p ≡ some []
  unfolding create_files
  create_files_lem zero p files h = absurd (omega arith)
  create_files_lem (suc n) p files h = elim (ℕ_discrete n p) [
    | yes e ↦ let here : (n == p) ≡ true = ground arith in rw here refl
    | no ne ↦
        let there : (n == p) ≡ false = ground arith in
        rw there (create_files_lem n p files (omega arith))
  ]

  write_pairs_lem :
      (n_reduce : ℕ) (kva : List (KeyValue K V)) (files : Files E)
      → 0 < n_reduce
      → (files' : Files E) × (write_pairs n_reduce kva files ≡ some files')
        × ((p : ℕ) (lines : List E)
            → files p ≡ some lines
            → files' p ≡ some (lines ++ partition_of n_reduce p kva))
  unfolding write_pairs
  write_pairs_lem n_reduce [] files h = (files, refl, λ p lines e. rw (append-nil lines) e)
  write_pairs_lem n_reduce (kv ∷ kva) files h =
      let q = ihash kv.key % n_reduce in
      let files1 = set_file files q (lines_of (files q) ++ encode kv ∷ []) in
      let (files', run, rest) = write_pairs_lem n_reduce kva files1 h in
      let some_tasks : (n_reduce == 0) ≡ false = ground arith in
      (
        files',
        rw some_tasks run,
        λ p lines e. elim (Bool-cases (q == p)) [
          | inl here ↦
              let same : q ≡ p = (==_iff q p).0 here in
              let old : files q ≡ some lines = ap files same ∙ e in
              let at : files1 p ≡ some (lines ++ encode kv ∷ []) =
                rw here (ap (λ o. some (lines_of o ++ encode kv ∷ [])) old) in
              rw here (
                rest p (lines ++ encode kv ∷ []) at
                ∙ ap some (append_assoc lines (encode kv ∷ []) (partition_of n_reduce p kva)))
          | inr there ↦ let at : files1 p ≡ some lines = rw there e in rw there (rest p lines at)
        ],
      )

  -- With at least one reduce task, `DoMap` leaves in the file of each reduce task exactly the pairs
  -- whose hash names it, in their order, whatever the files held before.
  pub do_map_lem :
      (n_reduce : ℕ) (kva : List (KeyValue K V)) (files : Files E)
      → 0 < n_reduce
      → (files' : Files E) × (do_map n_reduce kva files ≡ some files')
        × ((p : ℕ) → p < n_reduce → files' p ≡ some (partition_of n_reduce p kva))
  unfolding do_map
  do_map_lem n_reduce kva files h =
      let (files', run, at) = write_pairs_lem n_reduce kva (create_files n_reduce files) h in
      (files', run, λ p l. at p [] (create_files_lem n_reduce p files l))

  partition_of-Interleaved :
      (n_reduce p : ℕ) {kva kvb kvs : List (KeyValue K V)}
      → Interleaved kva kvb kvs
      → Interleaved
          (partition_of n_reduce p kva)
          (partition_of n_reduce p kvb)
          (partition_of n_reduce p kvs)
  partition_of-Interleaved n_reduce p both_end = Interleaved.both_end
  partition_of-Interleaved n_reduce p (first_writes {x} mixed) =
      elim (Bool-cases (ihash x.key % n_reduce == p)) [
        | inl here ↦ rw here (Interleaved.first_writes (partition_of-Interleaved n_reduce p mixed))
        | inr there ↦ rw there (partition_of-Interleaved n_reduce p mixed)
      ]
  partition_of-Interleaved n_reduce p (second_writes {y} mixed) =
      elim (Bool-cases (ihash y.key % n_reduce == p)) [
        | inl here ↦ rw here (Interleaved.second_writes (partition_of-Interleaved n_reduce p mixed))
        | inr there ↦ rw there (partition_of-Interleaved n_reduce p mixed)
      ]

  -- Two runs of `DoMap` for one task that both create the files before either writes, with at least
  -- one reduce task: in whatever order the writes of the two runs then mix, both runs end, and the
  -- file of each reduce task holds every pair of its twice, the lines of one run mixed with those of
  -- the other.
  pub two_runs_lem :
      (n_reduce : ℕ) (kva writes : List (KeyValue K V)) (files : Files E)
      → 0 < n_reduce
      → Interleaved kva kva writes
      → (files' : Files E) × (write_pairs n_reduce writes
            (create_files n_reduce (create_files n_reduce files))
          ≡ some files')
        × ((p : ℕ)
            → p < n_reduce
            → (lines : List E) × (files' p ≡ some lines)
              × Interleaved (partition_of n_reduce p kva) (partition_of n_reduce p kva) lines)
  two_runs_lem n_reduce kva writes files h mixed =
      let created = create_files n_reduce (create_files n_reduce files) in
      let (files', run, at) = write_pairs_lem n_reduce writes created h in
      (
        files',
        run,
        λ p l. (
          partition_of n_reduce p writes,
          at p [] (create_files_lem n_reduce p (create_files n_reduce files) l),
          partition_of-Interleaved n_reduce p mixed,
        ),
      )
