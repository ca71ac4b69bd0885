-- ===== src/Lock/Store/Refinement.antt =====
-- The operations of lockStore.go against the queues: each is one operation on the queue of its key.
use mr_and_raft.Common.{
  same, ◌≡◌, ◌≢◌, refl, sym, ap, ◌∙◌, inl, inr, Bool, true, false, not, Option, none, some, List,
  [], ◌∷◌, ◌++◌, if◌then◌else◌, ◌==◌, length, arith, Bool-cases, Option-cases, some_inj,
}
use mathlib.Core.Path.{subst, fun_ext}
use mr_and_raft.Lock.Store.{
  MultiMap, or_nil, values, assign, clean_empty, filter_key, get_lock_owner, lock, unlock,
}
use mr_and_raft.Lock.Store.Queue.{
  same_iff, waits, without, joined, IsNodup, exists-waits, filter-without, joined-IsNodup,
  without-IsNodup, joined-ne-nil,
}

abbrev pub is_empty {ℓ} : {A : Type ℓ} → List A → Bool
is_empty [] = true
is_empty (_ ∷ _) = false

abbrev pub head_or {ℓ} : {A : Type ℓ} → A → List A → A
head_or a [] = a
head_or a (x ∷ _) = x

module _ {ℓ κ} {K : Type ℓ} {Client : Type κ} (key_eq : Discrete K) (id_eq : Discrete Client) where
  -- A key that is there has a queue with at least one client, and none twice.
  abbrev pub IsProper : MultiMap K Client → Type (ℓ ⊔ κ)
  IsProper store =
      (key : K) (ids : List Client) → store key ≡ some ids → (ids ≢ []) × IsNodup id_eq ids

  values-IsNodup :
      (store : MultiMap K Client) (key : K)
      → IsProper store
      → IsNodup id_eq (values key_eq store key)
  values-IsNodup store key h = elim (Option-cases (store key)) [
    | inl e ↦ rw (e, or_nil) tt
    | inr (ids, e) ↦ rw (e, or_nil) (h key ids e).1
  ]

  -- A table in which one key is given a queue, or cleared, stays proper.
  assign-IsProper :
      (store : MultiMap K Client) (key : K) (vs : Option (List Client))
      → IsProper store
      → ((ids : List Client) → vs ≡ some ids → (ids ≢ []) × IsNodup id_eq ids)
      → IsProper (assign key_eq store key vs)
  assign-IsProper store key vs h new k ids e = elim (Bool-cases (same key_eq key k)) [
    | inl here ↦ new ids (rw here at e)
    | inr other ↦ h k ids (rw other at e)
  ]

  values-assign :
      (store : MultiMap K Client) (key k : K) (ids : List Client)
      → values key_eq (assign key_eq store key (some ids)) k
        ≡ (if same key_eq key k then ids else values key_eq store k)
  values-assign store key k ids = elim (Bool-cases (same key_eq key k)) [
    | inl here ↦ rw (here, or_nil)
    | inr other ↦ rw (other, or_nil)
  ]

  -- The table differs from `store` by the queue of one key, and is proper.
  abbrev pub Serves : MultiMap K Client → K → List Client → MultiMap K Client → Type (ℓ ⊔ κ)
  Serves store key ids store' =
      IsProper store'
      × ((k : K)
          → values key_eq store' k ≡ (if same key_eq key k then ids else values key_eq store k))

  same_at :
      (store : MultiMap K Client) (key k : K)
      → or_nil (store k)
        ≡ (if same key_eq key k then values key_eq store key else values key_eq store k)
  same_at store key k = elim (Bool-cases (same key_eq key k)) [
    | inl here ↦ rw here (ap (λ j. or_nil (store j)) (sym ((same_iff key_eq key k).0 here)))
    | inr other ↦ rw other
  ]

  proper_queue :
      (ids : List Client)
      → ids ≢ []
      → IsNodup id_eq ids
      → (js : List Client) → some ids ≡ some js
      → (js ≢ []) × IsNodup id_eq js
  proper_queue ids ne nodup js e = subst (λ l. (l ≢ []) × IsNodup id_eq l) (some_inj e) (ne, nodup)

  -- `lock` puts a client that is not in the queue of the key at its end, and changes nothing else.
  pub lock_lem :
      (store : MultiMap K Client) (key : K) (id : Client)
      → IsProper store
      → Serves store key
          (joined id_eq id (values key_eq store key))
          (lock key_eq id_eq store key id)
  unfolding lock
  lock_lem store key id h =
      let queue = values key_eq store key in
      elim (Bool-cases (waits id_eq id queue)) [
        | inl old ↦
            let seen = exists-waits id_eq id queue ∙ old in
            rw (seen, old) (h, λ k. same_at store key k)
        | inr new ↦
            let seen = exists-waits id_eq id queue ∙ new in
            let ids = queue ++ id ∷ [] in
            let e : joined id_eq id queue ≡ ids = rw new in
            let ne : ids ≢ [] = rw e at (joined-ne-nil id_eq id queue) in
            let nodup : IsNodup id_eq ids =
              rw e at (joined-IsNodup id_eq id queue (values-IsNodup store key h)) in
            rw (seen, new)
              (
                assign-IsProper store key (some ids) h (proper_queue ids ne nodup),
                λ k. values-assign store key k ids,
              )
      ]

  clean_empty_lem :
      (store : MultiMap K Client) (key : K) (ids : List Client)
      → store key ≡ some ids
      → clean_empty key_eq store key
        ≡ (if is_empty ids then assign key_eq store key none else store)
  unfolding clean_empty
  clean_empty_lem store key [] e = rw (e, clean_empty)
  clean_empty_lem store key (x ∷ ids) e =
      let test : length (x ∷ ids) == 0 ≡ false = ground arith in rw (e, clean_empty) (rw test)

  assign-assign :
      (store : MultiMap K Client) (key : K) (vs ws : Option (List Client))
      → assign key_eq (assign key_eq store key vs) key ws ≡ assign key_eq store key ws
  assign-assign store key vs ws =
      fun_ext
        λ k. elim (Bool-cases (same key_eq key k)) [ inl here ↦ rw here | inr other ↦ rw other ]

  assign_here :
      (store : MultiMap K Client) (key : K) (vs : Option (List Client))
      → assign key_eq store key vs key ≡ vs
  assign_here store key vs = rw ((same_iff key_eq key key).1 refl)

  values-assign-none :
      (store : MultiMap K Client) (key k : K)
      → values key_eq (assign key_eq store key none) k
        ≡ (if same key_eq key k then [] else values key_eq store k)
  values-assign-none store key k = elim (Bool-cases (same key_eq key k)) [
    | inl here ↦ rw (here, or_nil)
    | inr other ↦ rw (other, or_nil)
  ]

  -- A queue that is written and, if it is empty, cleared.
  settle :
      (store : MultiMap K Client) (key : K) (ids : List Client)
      → IsProper store
      → IsNodup id_eq ids
      → Serves store key ids (clean_empty key_eq (assign key_eq store key (some ids)) key)
  settle store key [] h nodup =
      let none_ok : (js : List Client) → none ≡ some js → (js ≢ []) × IsNodup id_eq js =
        λ js e. cc in
      let cleared =
        clean_empty_lem (assign key_eq store key (some [])) key [] (assign_here store key (some []))
        ∙ assign-assign store key (some []) none in
      subst (Serves store key []) (sym cleared)
        (assign-IsProper store key none h none_ok, λ k. values-assign-none store key k)
  settle store key (x ∷ ids) h nodup =
      rw
        (clean_empty_lem (assign key_eq store key (some (x ∷ ids))) key (x ∷ ids)
          (assign_here store key (some (x ∷ ids))))
        (
          assign-IsProper store key (some (x ∷ ids)) h (proper_queue (x ∷ ids) (λ e. cc) nodup),
          λ k. values-assign store key k (x ∷ ids),
        )

  -- `unlock` takes the client out of the queue of the key, wherever it stands, keeps the others in
  -- their order, removes a key whose queue has become empty, and changes nothing else.
  pub unlock_lem :
      (store : MultiMap K Client) (key : K) (id : Client)
      → IsProper store
      → Serves store key
          (without id_eq id (values key_eq store key))
          (unlock key_eq id_eq store key id)
  unfolding unlock filter_key
  unlock_lem store key id h =
      let queue = values key_eq store key in
      rw (filter-without id_eq id queue) (
        settle store key (without id_eq id queue) h
          (without-IsNodup id_eq id queue (values-IsNodup store key h)))

  -- `getLockOwner` does not panic: it finds the first client of the queue, or none of an empty one.
  pub get_lock_owner_lem :
      (doesnt_exist : Client) (store : MultiMap K Client) (key : K)
      → IsProper store
      → get_lock_owner doesnt_exist store key
        ≡ some (
          head_or doesnt_exist (values key_eq store key),
          not (is_empty (values key_eq store key)),
        )
  unfolding get_lock_owner
  get_lock_owner_lem doesnt_exist store key h = elim (Option-cases (store key)) [
    | inl e ↦ rw (e, get_lock_owner)
    | inr ([], e) ↦ absurd ((h key [] e).0 refl)
    | inr (id ∷ ids, e) ↦ rw (e, get_lock_owner)
  ]
