-- ===== src/Mr/Job/Contents.antt =====
-- What the files of a job hold once the tasks that write them have run.
use mr_and_raft.Common.{
  ℕ, zero, suc, ◌+◌, ◌<◌, ◌≡◌, ◌≢◌, refl, sym, ap, inl, inr, Option, none, some, List, [], ◌∷◌,
  ◌++◌, map, length, get_elem?, if◌then◌else◌, ◌==◌, ◌%◌, Bool-cases, arith, some_inj, >>=-eq-some,
  update, update_here, update_there,
}
use mathlib.Core.Path.{subst}
use mr_and_raft.Mr.Worker.{KeyValue, Files, ihash, do_map_lem, partition_of}
use mr_and_raft.Mr.Reducer.{decode_lines, read_files, do_reduce, groups}
use mr_and_raft.Mr.Coordinator.{GetTaskReply}
use mr_and_raft.Mr.Job.{Program, run_map, run_reduce}

add-zero : (i : ℕ) → i + 0 ≡ i
add-zero i = omega arith

add_shift : (i k : ℕ) → i + suc k ≡ (i + 1) + k
add_shift i k = omega arith

pub zero_plus : (k : ℕ) → k ≡ 0 + k
zero_plus k = omega arith

module _ {ℓ} {F S K V E W : Type ℓ} (prog : Program F S K V E W) where
  -- The pairs of an input file, none where it cannot be read.
  abbrev pub pairs_of : F → List (KeyValue K V)
  pairs_of name = elim (prog.read name) [ none ↦ [] | some content ↦ prog.mapf name content ]

  -- Those that go to reduce task `p` of `n`, in their order.
  abbrev pub bucket : ℕ → ℕ → List (KeyValue K V) → List (KeyValue K V)
  bucket n p [] = []
  bucket n p (kv ∷ kvs) =
      if ihash prog.sum32 prog.encode kv.key % n == p then kv ∷ bucket n p kvs else bucket n p kvs

  -- What reduce task `p` of `n` reads in the whole job.
  abbrev pub job_pairs : ℕ → ℕ → List F → List (KeyValue K V)
  job_pairs n p [] = []
  job_pairs n p (name ∷ names) = bucket n p (pairs_of name) ++ job_pairs n p names

  -- The lines that reduce task `p` of `n` writes.
  abbrev pub job_lines : ℕ → ℕ → List F → List (K × W)
  job_lines n p names =
      let sorted = prog.sort_pairs (job_pairs n p names) in
      map (λ (key, values). (key, prog.reducef key values))
        (groups prog.key_eq (length sorted) sorted)

  -- The files of map task `i` hold what its input gives.
  abbrev pub Written : ℕ → (ℕ → Files E) → ℕ → F → Type ℓ
  Written n files i name =
      (p : ℕ) → p < n → files i p ≡ some (partition_of prog.sum32 prog.encode n p (pairs_of name))

  run_map_at :
      (reply : GetTaskReply F) (files files' : ℕ → Files E) (content : S)
      → prog.read reply.file_name ≡ some content
      → 0 < reply.n_reduce
      → run_map prog reply files ≡ some files'
      → Written reply.n_reduce files' reply.id reply.file_name
        × ((i : ℕ) → reply.id ≢ i → files' i ≡ files i)
  unfolding run_map
  run_map_at reply files files' content at h run =
      let (wanted, wrote, lines) =
        do_map_lem prog.sum32 prog.encode reply.n_reduce (prog.mapf reply.file_name content)
          (files reply.id) h in
      let same : update files reply.id wanted ≡ files' = some_inj (rw (at, wrote) at run) in
      let here : files' reply.id ≡ wanted =
        subst (λ fs. fs reply.id ≡ wanted) same (update_here files reply.id wanted) in
      (
        λ p l. rw (here, at, pairs_of) (lines p l),
        λ i ne. subst (λ fs. fs i ≡ files i) same (update_there files reply.id i wanted ne),
      )

  pub run_map-Written :
      (reply : GetTaskReply F) (files files' : ℕ → Files E)
      → 0 < reply.n_reduce
      → run_map prog reply files ≡ some files'
      → Written reply.n_reduce files' reply.id reply.file_name
        × ((i : ℕ) → reply.id ≢ i → files' i ≡ files i)
  unfolding run_map
  run_map-Written reply files files' h run =
      let (content, at, _) = >>=-eq-some (prog.read reply.file_name) _ run in
      run_map_at reply files files' content at h run

  decode_lines-bucket :
      ((kv : KeyValue K V) → prog.decode (prog.encode kv) ≡ some kv)
      → (n p : ℕ) (kvs : List (KeyValue K V))
      → decode_lines prog.decode (partition_of prog.sum32 prog.encode n p kvs) ≡ bucket n p kvs
  unfolding decode_lines
  decode_lines-bucket back n p [] = refl
  decode_lines-bucket back n p (kv ∷ kvs) =
      elim (Bool-cases (ihash prog.sum32 prog.encode kv.key % n == p)) [
        | inl here ↦ rw here (rw (back kv) (ap (λ l. kv ∷ l) (decode_lines-bucket back n p kvs)))
        | inr there ↦ rw there (decode_lines-bucket back n p kvs)
      ]

  pub read_files-Written :
      ((kv : KeyValue K V) → prog.decode (prog.encode kv) ≡ some kv)
      → (n p i : ℕ) (files : ℕ → Files E) (names : List F) → p < n
      → ((k : ℕ) (name : F) → get_elem? names k ≡ some name → Written n files (i + k) name)
      → read_files prog.decode (length names) i files p ≡ some (job_pairs n p names)
  unfolding read_files
  read_files-Written back n p i files [] h all = refl
  read_files-Written back n p i files (name ∷ names) h all =
      let here : files i p ≡ some (partition_of prog.sum32 prog.encode n p (pairs_of name)) =
        subst (λ j. files j p ≡ some (partition_of prog.sum32 prog.encode n p (pairs_of name)))
          (add-zero i) (all zero name refl p h) in
      let rest = read_files-Written back n p (i + 1) files names h (λ k other at.
        subst (λ j. Written n files j other) (add_shift i k) (all (suc k) other at)) in
      rw (here, rest)
        (ap (λ kvs. some (kvs ++ job_pairs n p names))
          (decode_lines-bucket back n p (pairs_of name)))

  pub run_reduce-Written :
      ((kv : KeyValue K V) → prog.decode (prog.encode kv) ≡ some kv)
      → (reply : GetTaskReply F) (n : ℕ) (files : ℕ → Files E)
        (outputs outputs' : ℕ → Option (List (K × W))) (names : List F)
      → reply.id < n
      → reply.n_map ≡ length names
      → ((k : ℕ) (name : F) → get_elem? names k ≡ some name → Written n files k name)
      → run_reduce prog reply files outputs ≡ some outputs'
      → outputs' ≡ update outputs reply.id (some (job_lines n reply.id names))
  unfolding run_reduce do_reduce
  run_reduce-Written back reply n files outputs outputs' names l count all run =
      let read =
        read_files-Written back n reply.id 0 files names l
          (λ k name at. subst (λ j. Written n files j name) (zero_plus k) (all k name at)) in
      sym (some_inj (rw (count, read) at run))
