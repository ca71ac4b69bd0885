-- ===== src/Mr/Gather.antt =====
-- A function that puts the pairs of one key together, as the sort of mr/worker.go does, to show that
-- what the theorems ask of a sort can hold.
use mr_and_raft.Common.{
  ◌≡◌, refl, inl, inr, false, List, [], ◌∷◌, ◌++◌, if◌then◌else◌, Bool-cases, same, same→eq,
}
use mathlib.Core.Path.{subst}
use mathlib.Core.List.Permᴰ.{Permᴰ}
use mathlib.Core.List.Permᴰ as PermD
use mr_and_raft.Mr.Worker.{KeyValue}
use mr_and_raft.Mr.Reducer.{after_run, values_of, KeysTogether}

module _ {ℓ} {K V : Type ℓ} (key_eq : Discrete K) where
  abbrev with_key : K → List (KeyValue K V) → List (KeyValue K V)
  with_key key [] = []
  with_key key (kv ∷ kvs) =
      if same key_eq key kv.key then kv ∷ with_key key kvs else with_key key kvs

  abbrev without_key : K → List (KeyValue K V) → List (KeyValue K V)
  without_key key [] = []
  without_key key (kv ∷ kvs) =
      if same key_eq key kv.key then without_key key kvs else kv ∷ without_key key kvs

  abbrev pub gather : List (KeyValue K V) → List (KeyValue K V)
  gather [] = []
  gather (kv ∷ kvs) =
      let rest = gather kvs in kv ∷ (with_key kv.key rest ++ without_key kv.key rest)

  perm_middle :
      (kv : KeyValue K V) (xs ys : List (KeyValue K V)) → Permᴰ (xs ++ kv ∷ ys) (kv ∷ (xs ++ ys))
  perm_middle kv [] ys = PermD.refl (kv ∷ ys)
  perm_middle kv (x ∷ xs) ys =
      Permᴰ.trans (Permᴰ.cons refl (perm_middle kv xs ys)) (Permᴰ.swap refl refl)

  parts-perm :
      (key : K) (kvs : List (KeyValue K V)) → Permᴰ (with_key key kvs ++ without_key key kvs) kvs
  parts-perm key [] = Permᴰ.nil
  parts-perm key (kv ∷ kvs) = elim (Bool-cases (same key_eq key kv.key)) [
    | inl here ↦ rw here (Permᴰ.cons refl (parts-perm key kvs))
    | inr there ↦ rw there (
        Permᴰ.trans (perm_middle kv (with_key key kvs) (without_key key kvs))
          (Permᴰ.cons refl (parts-perm key kvs)))
  ]

  pub gather-perm : (kvs : List (KeyValue K V)) → Permᴰ (gather kvs) kvs
  gather-perm [] = Permᴰ.nil
  gather-perm (kv ∷ kvs) =
      Permᴰ.cons refl (Permᴰ.trans (parts-perm kv.key (gather kvs)) (gather-perm kvs))

  values_of-without_key :
      (key : K) (kvs : List (KeyValue K V)) → values_of key_eq key (without_key key kvs) ≡ []
  values_of-without_key key [] = refl
  values_of-without_key key (kv ∷ kvs) = elim (Bool-cases (same key_eq key kv.key)) [
    | inl here ↦ rw here (values_of-without_key key kvs)
    | inr there ↦ rw (there, there) (values_of-without_key key kvs)
  ]

  -- A list without a key has no run of it.
  values_of-after_run_none :
      (key : K) (kvs : List (KeyValue K V))
      → values_of key_eq key kvs ≡ []
      → values_of key_eq key (after_run key_eq key kvs) ≡ []
  unfolding after_run
  values_of-after_run_none key [] h = refl
  values_of-after_run_none key (kv ∷ kvs) h = elim (Bool-cases (same key_eq key kv.key)) [
    | inl here ↦ let e = rw here at h in cc
    | inr there ↦ rw there (rw there (rw there at h))
  ]

  -- Behind the pairs with the key, the others have none.
  values_of-after_parts :
      (key : K) (kvs more : List (KeyValue K V))
      → values_of key_eq key more ≡ []
      → values_of key_eq key (after_run key_eq key (with_key key kvs ++ more)) ≡ []
  unfolding after_run
  values_of-after_parts key [] more h = values_of-after_run_none key more h
  values_of-after_parts key (kv ∷ kvs) more h = elim (Bool-cases (same key_eq key kv.key)) [
    | inl here ↦ rw (here, here) (values_of-after_parts key kvs more h)
    | inr there ↦ rw there (values_of-after_parts key kvs more h)
  ]

  with_key-KeysTogether :
      (key : K) (kvs more : List (KeyValue K V))
      → values_of key_eq key more ≡ []
      → KeysTogether key_eq more
      → KeysTogether key_eq (with_key key kvs ++ more)
  with_key-KeysTogether key [] more none_left h = h
  with_key-KeysTogether key (kv ∷ kvs) more none_left h =
      elim (Bool-cases (same key_eq key kv.key)) [
        | inr there ↦ rw there (with_key-KeysTogether key kvs more none_left h)
        | inl here ↦
            let e = same→eq key_eq key kv.key here in
            rw here (
              subst (λ k. values_of key_eq k (after_run key_eq k (with_key key kvs ++ more)) ≡ []) e
                  (values_of-after_parts key kvs more none_left),
              with_key-KeysTogether key kvs more none_left h,
            )
      ]

  values_of-fewer :
      (j key : K) (kvs : List (KeyValue K V))
      → values_of key_eq j kvs ≡ []
      → values_of key_eq j (without_key key kvs) ≡ []
  values_of-fewer j key [] h = refl
  values_of-fewer j key (kv ∷ kvs) h = elim (Bool-cases (same key_eq j kv.key)) [
    | inl here ↦ let e = rw here at h in cc
    | inr other ↦ elim (Bool-cases (same key_eq key kv.key)) [
      | inl out ↦ rw out (values_of-fewer j key kvs (rw other at h))
      | inr stays ↦ rw (stays, other) (values_of-fewer j key kvs (rw other at h))
    ]
  ]

  values_of-fewer_after :
      (j key : K) (kvs : List (KeyValue K V))
      → same key_eq key j ≡ false
      → values_of key_eq j (after_run key_eq j kvs) ≡ []
      → values_of key_eq j (after_run key_eq j (without_key key kvs)) ≡ []
  unfolding after_run
  values_of-fewer_after j key [] apart h = refl
  values_of-fewer_after j key (kv ∷ kvs) apart h = elim (Bool-cases (same key_eq j kv.key)) [
    | inl here ↦
        let e = same→eq key_eq j kv.key here in
        let stays : same key_eq key kv.key ≡ false =
          subst (λ k. same key_eq key k ≡ false) e apart in
        rw (stays, here) (values_of-fewer_after j key kvs apart (rw here at h))
    | inr other ↦
        values_of-after_run_none j (without_key key (kv ∷ kvs))
          (values_of-fewer j key (kv ∷ kvs) (rw other at h))
  ]

  without_key-KeysTogether :
      (key : K) (kvs : List (KeyValue K V))
      → KeysTogether key_eq kvs
      → KeysTogether key_eq (without_key key kvs)
  without_key-KeysTogether key [] h = h
  without_key-KeysTogether key (kv ∷ kvs) h = elim (Bool-cases (same key_eq key kv.key)) [
    | inl out ↦ rw out (without_key-KeysTogether key kvs h.1)
    | inr stays ↦
        rw stays
          (values_of-fewer_after kv.key key kvs stays h.0, without_key-KeysTogether key kvs h.1)
  ]

  pub gather-KeysTogether : (kvs : List (KeyValue K V)) → KeysTogether key_eq (gather kvs)
  gather-KeysTogether [] = tt
  gather-KeysTogether (kv ∷ kvs) =
      let rest = gather kvs in
      let none_left = values_of-without_key kv.key rest in
      (
        values_of-after_parts kv.key rest (without_key kv.key rest) none_left,
        with_key-KeysTogether kv.key rest (without_key kv.key rest) none_left
            (without_key-KeysTogether kv.key rest (gather-KeysTogether kvs)),
      )
