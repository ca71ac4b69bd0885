-- ===== src/Lock/Store.antt =====
-- raft-lock/lockStore.go: a table of queues. A Go map is a function into `Option`, where `none` is a
-- missing key, and `m[key]` of a missing key is the empty slice; `comparable` is a decidable
-- equality.
pub mod Queue
pub mod Refinement
use mr_and_raft.Common.{
  ℕ, ◌≡◌, Bool, true, false, not, ◌&&◌, Option, none, some, List, [], ◌∷◌, ◌++◌, if◌then◌else◌,
  ◌==◌, length, ◌>>=◌, same,
}

-- `exists`
pub exists {ℓ} : {A : Type ℓ} → List A → (A → Bool) → Bool
exists [] predicate = false
exists (elem ∷ array) predicate =
    let rest = exists array predicate in if predicate elem then true else rest

-- The loop of `filter`, which appends to `result`
pub filter_from {ℓ} : {V : Type ℓ} → List V → (V → Bool) → List V → List V
filter_from [] keep_when_true result = result
filter_from (v ∷ array) keep_when_true result =
    filter_from array keep_when_true (if keep_when_true v then result ++ v ∷ [] else result)

-- `filter`, the function on slices
pub filter {ℓ} : {V : Type ℓ} → List V → (V → Bool) → List V
unfolding filter_from
filter array keep_when_true = filter_from array keep_when_true []

abbrev pub MultiMap {ℓ κ} : Type ℓ → Type κ → Type (ℓ ⊔ κ)
MultiMap K V = K → Option (List V)

-- A slice read from a map: the empty one for a missing key
abbrev pub or_nil {ℓ} : {A : Type ℓ} → Option (List A) → List A
or_nil none = []
or_nil (some vs) = vs

module _ {ℓ κ} {K : Type ℓ} {V : Type κ} (key_eq : Discrete K) where
  -- `m[key]`
  abbrev pub values : MultiMap K V → K → List V
  values m key = or_nil (m key)

  -- `m[key] = vs`
  abbrev pub assign : MultiMap K V → K → Option (List V) → MultiMap K V
  assign m key vs k = if same key_eq key k then vs else m k

  pub put : MultiMap K V → K → V → MultiMap K V
  put m key val = assign m key (some (values m key ++ val ∷ []))

  pub clean_empty : MultiMap K V → K → MultiMap K V
  clean_empty m key = elim (m key) [
    | none ↦ m
    | some vs ↦ if length vs == 0 then assign m key none else m
  ]

  -- `filter`, the method
  pub filter_key : MultiMap K V → K → (V → Bool) → MultiMap K V
  unfolding clean_empty filter
  filter_key m key keep_when_true =
      clean_empty (assign m key (some (filter (values m key) keep_when_true))) key

module _ {ℓ κ} {K : Type ℓ} {Client : Type κ} where
  -- `getLockOwner`: the outer `none` is the panic of `ids[0]` on an empty slice; `doesntExist` is the
  -- zero value of the type of the ids.
  unfoldable pub get_lock_owner : Client → MultiMap K Client → K → Option (Client × Bool)
  get_lock_owner doesnt_exist store key = elim (store key) [
    | none ↦ some (doesnt_exist, false)
    | some ids ↦ elim ids [ [] ↦ none | id ∷ _ ↦ some (id, true) ]
  ]

module _ {ℓ κ} {K : Type ℓ} {Client : Type κ} (key_eq : Discrete K) (id_eq : Discrete Client) where
  unfoldable pub lock : MultiMap K Client → K → Client → MultiMap K Client
  unfolding exists put
  lock store key id =
      if not (exists (values key_eq store key) (λ elem. same id_eq id elem))
      then put key_eq store key id
      else store

  unfoldable pub unlock : MultiMap K Client → K → Client → MultiMap K Client
  unfolding filter_key
  unlock store key id = filter_key key_eq store key (λ elem. not (same id_eq id elem))
