-- ===== src/Lock/Store/Queue.antt =====
-- The table of lockStore.go as one queue of clients for each key: the first holds the lock, the
-- others wait in the order in which they asked.
use mr_and_raft.Common.{
  same, ◌≡◌, ◌≢◌, ◌↔◌, refl, sym, ◌∙◌, inl, inr, Bool, true, false, not, List, [], ◌∷◌, ◌++◌,
  if◌then◌else◌, arith, Bool-cases,
}
use mathlib.Core.List.{append-nil, append_assoc}
use mr_and_raft.Lock.Store.{exists, filter_from, filter}

pub same_iff {ℓ} : {A : Type ℓ} (dec : Discrete A) (a b : A) → (same dec a b ≡ true) ↔ (a ≡ b)
same_iff dec a b =
    elim (dec a b) as (λ d. ((elim d [ yes _ ↦ true | no _ ↦ false ]) ≡ true) ↔ (a ≡ b)) [
      | yes e ↦ ((λ _. e), (λ _. refl))
      | no ne ↦ ((λ e. cc), (λ e. absurd (ne e)))
    ]

module _ {κ} {Client : Type κ} (id_eq : Discrete Client) where
  -- The client is in the queue.
  abbrev pub waits : Client → List Client → Bool
  waits id [] = false
  waits id (x ∷ xs) = if same id_eq id x then true else waits id xs

  -- The queue without the client, the others in their order.
  abbrev pub without : Client → List Client → List Client
  without id [] = []
  without id (x ∷ xs) = if same id_eq id x then without id xs else x ∷ without id xs

  -- The queue with the client at its end, if it is not there yet.
  abbrev pub joined : Client → List Client → List Client
  joined id xs = if waits id xs then xs else xs ++ id ∷ []

  -- No client is twice in the queue.
  abbrev pub IsNodup : List Client → Type 0
  IsNodup [] = Unit
  IsNodup (x ∷ xs) = (waits x xs ≡ false) × IsNodup xs

  pub exists-waits :
      (id : Client) (xs : List Client) → exists xs (λ elem. same id_eq id elem) ≡ waits id xs
  unfolding exists
  exists-waits id [] = refl
  exists-waits id (x ∷ xs) = rw (exists-waits id xs)

  pub filter_from-without :
      (id : Client) (xs acc : List Client)
      → filter_from xs (λ elem. not (same id_eq id elem)) acc ≡ acc ++ without id xs
  unfolding filter_from
  filter_from-without id [] acc = rw append-nil
  filter_from-without id (x ∷ xs) acc = elim (Bool-cases (same id_eq id x)) [
    | inl e ↦ rw e (filter_from-without id xs acc)
    | inr e ↦ rw e (filter_from-without id xs (acc ++ x ∷ []) ∙ append_assoc acc (x ∷ []) _)
  ]

  waits-append_other :
      (a b : Client) (xs : List Client)
      → same id_eq a b ≡ false
      → waits a xs ≡ false
      → waits a (xs ++ b ∷ []) ≡ false
  waits-append_other a b [] ne h = rw ne
  waits-append_other a b (x ∷ xs) ne h = ground (arith, waits-append_other a b xs ne)

  same-false_symm : (a b : Client) → same id_eq a b ≡ false → same id_eq b a ≡ false
  same-false_symm a b h = elim (Bool-cases (same id_eq b a)) [
    | inr e ↦ e
    | inl e ↦ let back = (same_iff id_eq a b).1 (sym ((same_iff id_eq b a).0 e)) in absurd (cc)
  ]

  pub append-IsNodup :
      (id : Client) (xs : List Client) → IsNodup xs → waits id xs ≡ false → IsNodup (xs ++ id ∷ [])
  append-IsNodup id [] h w = (refl, tt)
  append-IsNodup id (x ∷ xs) h w =
      ground (arith, append-IsNodup id xs h.1, waits-append_other x id xs, same-false_symm id x)

  waits-without :
      (a id : Client) (xs : List Client) → waits a xs ≡ false → waits a (without id xs) ≡ false
  waits-without a id [] h = refl
  waits-without a id (x ∷ xs) h = ground (arith, waits-without a id xs)

  pub without-IsNodup : (id : Client) (xs : List Client) → IsNodup xs → IsNodup (without id xs)
  without-IsNodup id [] h = tt
  without-IsNodup id (x ∷ xs) h = ground (arith, without-IsNodup id xs h.1, waits-without x id xs)

  -- A client that has left waits no more.
  pub not-waits-without : (id : Client) (xs : List Client) → waits id (without id xs) ≡ false
  not-waits-without id [] = refl
  not-waits-without id (x ∷ xs) = ground (arith, not-waits-without id xs)

  pub joined-ne-nil : (id : Client) (xs : List Client) → joined id xs ≢ []
  joined-ne-nil id [] e = cc
  joined-ne-nil id (x ∷ xs) e = ground arith

  pub filter-without :
      (id : Client) (xs : List Client)
      → filter xs (λ elem. not (same id_eq id elem)) ≡ without id xs
  unfolding filter
  filter-without id xs = filter_from-without id xs []

  pub joined-IsNodup : (id : Client) (xs : List Client) → IsNodup xs → IsNodup (joined id xs)
  joined-IsNodup id xs h = elim (Bool-cases (waits id xs)) [
    | inl e ↦ rw e h
    | inr e ↦ rw e (append-IsNodup id xs h e)
  ]
