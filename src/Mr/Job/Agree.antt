-- ===== src/Mr/Job/Agree.antt =====
-- A job and mr-main/mrsequential.go on the same inputs, key by key.
use mr_and_raft.Common.{
  ℕ, ◌<◌, ◌≡◌, ◌≢◌, refl, inl, inr, ◌∙◌, ap, sym, true, some, List, [], ◌∷◌, ◌++◌, map,
  if◌then◌else◌, Bool-cases, same, same→eq, ◌==◌, ◌%◌, arith, >>=-eq-some, some_inj,
}
use mathlib.Core.Path.{subst}
use mathlib.Core.List.Permᴰ.{Permᴰ}
use mr_and_raft.Mr.Worker.{KeyValue, ihash}
use mr_and_raft.Mr.Reducer.{KeysTogether, values_of, at_most_one}
use mr_and_raft.Mr.Sequential.{map_inputs, sequential}
use mr_and_raft.Mr.Coordinator.{is_done}
use mr_and_raft.Mr.Job.{Program, Job, Reach}
use mr_and_raft.Mr.Job.Contents.{pairs_of, bucket, job_pairs, job_lines}
use mr_and_raft.Mr.Job.Result.{job_lem}
use mr_and_raft.Mr.Lines.{lines_for, lines_for-made, made, values_of-append}

module _ {ℓ} {F S K V E W : Type ℓ} (prog : Program F S K V E W) where
  values_of-bucket :
      (n p : ℕ) (key : K) (kvs : List (KeyValue K V))
      → (ihash prog.sum32 prog.encode key % n) ≡ p
      → values_of prog.key_eq key (bucket prog n p kvs) ≡ values_of prog.key_eq key kvs
  values_of-bucket n p key [] h = refl
  values_of-bucket n p key (kv ∷ kvs) h = elim (Bool-cases (same prog.key_eq key kv.key)) [
    | inl here ↦
        let e : (ihash prog.sum32 prog.encode kv.key % n == p) ≡ true =
          subst (λ k. (ihash prog.sum32 prog.encode k % n == p) ≡ true)
            (same→eq prog.key_eq key kv.key here) (ground (arith, h)) in
        rw (e, here) (ap (λ vs. kv.value ∷ vs) (values_of-bucket n p key kvs h))
    | inr there ↦ elim (Bool-cases (ihash prog.sum32 prog.encode kv.key % n == p)) [
      | inl a ↦ rw (a, there) (values_of-bucket n p key kvs h)
      | inr a ↦ rw (a, there) (values_of-bucket n p key kvs h)
    ]
  ]

  values_of-other_bucket :
      (n p : ℕ) (key : K) (kvs : List (KeyValue K V))
      → (ihash prog.sum32 prog.encode key % n) ≢ p
      → values_of prog.key_eq key (bucket prog n p kvs) ≡ []
  values_of-other_bucket n p key [] h = refl
  values_of-other_bucket n p key (kv ∷ kvs) h =
      elim (Bool-cases (ihash prog.sum32 prog.encode kv.key % n == p)) [
        | inr a ↦ rw a (values_of-other_bucket n p key kvs h)
        | inl a ↦ elim (Bool-cases (same prog.key_eq key kv.key)) [
          | inr there ↦ rw (a, there) (values_of-other_bucket n p key kvs h)
          | inl here ↦ absurd (
              h (
                subst (λ k. (ihash prog.sum32 prog.encode k % n) ≡ p)
                  (sym (same→eq prog.key_eq key kv.key here)) (ground (arith, a))))
        ]
      ]

  abbrev pub pairs_in_order : List F → List (KeyValue K V)
  pairs_in_order [] = []
  pairs_in_order (name ∷ names) = pairs_of prog name ++ pairs_in_order names

  in_order_step :
      (name : F) (names : List F) (content : S) (rest : List (KeyValue K V))
      → prog.read name ≡ some content
      → rest ≡ pairs_in_order names
      → prog.mapf name content ++ rest ≡ pairs_in_order (name ∷ names)
  in_order_step name names content rest at e =
      rw (at, pairs_of) (ap (λ kvs. prog.mapf name content ++ kvs) e)

  map_inputs-in_order :
      (names : List F) (kvs : List (KeyValue K V))
      → map_inputs prog.read prog.mapf names ≡ some kvs
      → kvs ≡ pairs_in_order names
  unfolding map_inputs
  map_inputs-in_order [] kvs e = sym (some_inj e)
  map_inputs-in_order (name ∷ names) kvs e =
      let (content, at, e') = >>=-eq-some (prog.read name) _ e in
      let (rest, at', e'') = >>=-eq-some (map_inputs prog.read prog.mapf names) _ e' in
      sym (some_inj e'')
      ∙ in_order_step name names content rest at (map_inputs-in_order names rest at')

  values_of-job_pairs :
      (n p : ℕ) (key : K) (names : List F)
      → (ihash prog.sum32 prog.encode key % n) ≡ p
      → values_of prog.key_eq key (job_pairs prog n p names)
        ≡ values_of prog.key_eq key (pairs_in_order names)
  values_of-job_pairs n p key [] h = refl
  values_of-job_pairs n p key (name ∷ names) h =
      values_of-append prog.key_eq key (bucket prog n p (pairs_of prog name))
        (job_pairs prog n p names)
      ∙ ap (λ vs. vs ++ values_of prog.key_eq key (job_pairs prog n p names))
          (values_of-bucket n p key (pairs_of prog name) h)
      ∙ ap (λ vs. values_of prog.key_eq key (pairs_of prog name) ++ vs)
          (values_of-job_pairs n p key names h)
      ∙ sym (values_of-append prog.key_eq key (pairs_of prog name) (pairs_in_order names))

  values_of-other_pairs :
      (n p : ℕ) (key : K) (names : List F)
      → (ihash prog.sum32 prog.encode key % n) ≢ p
      → values_of prog.key_eq key (job_pairs prog n p names) ≡ []
  values_of-other_pairs n p key [] h = refl
  values_of-other_pairs n p key (name ∷ names) h =
      values_of-append prog.key_eq key (bucket prog n p (pairs_of prog name))
        (job_pairs prog n p names)
      ∙ ap (λ vs. vs ++ values_of prog.key_eq key (job_pairs prog n p names))
          (values_of-other_bucket n p key (pairs_of prog name) h)
      ∙ values_of-other_pairs n p key names h

  -- The lines of the intermediate files can be read back, the sort is one that puts the pairs of one
  -- key together, and the reduce function does not mind the order of its values.
  pub record IsOrdinary : Type ℓ where
    pub back : (kv : KeyValue K V) → prog.decode (prog.encode kv) ≡ some kv
    pub together : (pairs : List (KeyValue K V)) → KeysTogether prog.key_eq (prog.sort_pairs pairs)
    pub perm : (pairs : List (KeyValue K V)) → Permᴰ (prog.sort_pairs pairs) pairs
    pub any_order :
        (key : K) (vs ws : List V) → Permᴰ vs ws → prog.reducef key vs ≡ prog.reducef key ws

  -- What a job that is done has written for a key.
  pub job_line_lem :
      (names : List F) (n : ℕ) {job : Job F K E W}
      → IsOrdinary
      → 0 < n
      → Reach prog names n job
      → is_done job.coordinator ≡ true
      → (key : K) (p : ℕ) → p < n
      → (written : List (K × W)) × (job.outputs p ≡ some written)
        × (lines_for prog.key_eq key written ≡ (
            if ihash prog.sum32 prog.encode key % n == p
            then map
                (prog.reducef key)
                (at_most_one prog.key_eq (values_of prog.key_eq key (pairs_in_order names)))
            else []))
  job_line_lem names n {job} o some_task r done key p l =
      let line =
        lines_for-made prog.key_eq prog.sort_pairs prog.reducef key (job_pairs prog n p names)
          o.together o.perm (o.any_order key) in
      (
        job_lines prog n p names,
        job_lem prog names n o.back some_task r done p l,
        elim (Bool-cases (ihash prog.sum32 prog.encode key % n == p)) [
          | inl here ↦ rw here (
              line
              ∙ ap (λ vs. map (prog.reducef key) (at_most_one prog.key_eq vs))
                  (values_of-job_pairs n p key names (ground (arith, here))))
          | inr there ↦ rw there (
              line
              ∙ ap (λ vs. map (prog.reducef key) (at_most_one prog.key_eq vs))
                  (values_of-other_pairs n p key names (ground (arith, there))))
        ],
      )

  -- Where each run of `DoMap` and of `DoReduce` takes effect at once, the lines of the intermediate
  -- files can be read back, the sort is one that puts the pairs of one key together, there is a
  -- reduce task, and the reduce function does not mind the order of its values: once `Done` says so
  -- of a job whose inputs can be read, whatever its workers have done, the output that a key's hash
  -- names has the same lines for the key as that of the sequential program, and every other output
  -- has none.
  pub job_agrees :
      (name : F) (names : List F) (n : ℕ) {job : Job F K E W} {kvs : List (KeyValue K V)}
      → ((kv : KeyValue K V) → prog.decode (prog.encode kv) ≡ some kv)
      → ((pairs : List (KeyValue K V)) → KeysTogether prog.key_eq (prog.sort_pairs pairs))
      → ((pairs : List (KeyValue K V)) → Permᴰ (prog.sort_pairs pairs) pairs)
      → ((key : K) (vs ws : List V) → Permᴰ vs ws → prog.reducef key vs ≡ prog.reducef key ws)
      → 0 < n
      → map_inputs prog.read prog.mapf (name ∷ names) ≡ some kvs
      → Reach prog (name ∷ names) n job
      → is_done job.coordinator ≡ true
      → (lines : List (K × W)) × (sequential prog.key_eq prog.read prog.mapf prog.sort_pairs
            prog.reducef
            (name ∷ names)
          ≡ some lines)
        × ((key : K) (p : ℕ)
            → p < n
            → (written : List (K × W)) × (job.outputs p ≡ some written)
              × (lines_for prog.key_eq key written ≡ (
                  if ihash prog.sum32 prog.encode key % n == p
                  then lines_for prog.key_eq key lines
                  else [])))
  unfolding sequential
  job_agrees name names n {job} {kvs} back together perm any_order some_task at r done =
      let o : IsOrdinary = record {
        back = back;
        together = together;
        perm = perm;
        any_order = any_order;
      } in
      let read : kvs ≡ pairs_in_order (name ∷ names) = map_inputs-in_order (name ∷ names) kvs at in
      (
        made prog.key_eq prog.sort_pairs prog.reducef kvs,
        rw at refl,
        λ key p l.
            let (written, wrote, line) = job_line_lem (name ∷ names) n o some_task r done key p l in
            let sequential_line =
              lines_for-made prog.key_eq prog.sort_pairs prog.reducef key kvs together perm
                (any_order key)
              ∙ ap
                  (λ pairs.
                    map (prog.reducef key)
                      (at_most_one prog.key_eq (values_of prog.key_eq key pairs)))
                  read in
            (
              written,
              wrote,
              line
                  ∙ ap (λ lines. if ihash prog.sum32 prog.encode key % n == p then lines else [])
                      (sym sequential_line),
            ),
      )
