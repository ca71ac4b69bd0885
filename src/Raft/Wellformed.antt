-- ===== src/Raft/Wellformed.antt =====
-- What holds of a peer of raft/raft.go between two of its steps, and of the requests on the network.
use mathlib.Core.Option
use mr_and_raft.Common.{
  ℕ, zero, suc, ◌-◌, ◌<◌, ◌≡◌, ◌≢◌, refl, sym, inl, inr, Bool, true, false, Option, none, some,
  List, [], ◌∷◌, ◌++◌, arith, length, get_elem?, set_elem?, take, replicate, get_elem?_total,
  Option-cases, if◌then◌else◌, ◌>>=◌,
}
use mr_and_raft.Raft.State.{
  State, is_leader, AppendEntriesArgs, LogEntry, Raft, last_entry, initial,
}

pub is_leader→leader : (s : State) → is_leader s ≡ true → s ≡ State.leader
is_leader→leader s e = ground arith

abbrev pub AllPos : List ℕ → Type 0
AllPos [] = Unit
AllPos (n ∷ ns) = (0 < n) × AllPos ns

pub AllPos-get_elem? : (xs : List ℕ) (i : ℕ) {n : ℕ} → AllPos xs → get_elem? xs i ≡ some n → 0 < n
AllPos-get_elem? [] i h e = cc
AllPos-get_elem? (x ∷ xs) zero h e = ground arith
AllPos-get_elem? (x ∷ xs) (suc i) h e = AllPos-get_elem? xs i h.1 e

map-none {ℓ κ} :
    {A : Type ℓ} {B : Type κ} (f : A → B) {o : Option A} {b : B}
    → o ≡ none
    → Option.map f o ≢ some b
map-none f p e = cc (sym (rw p at e))

map-some {ℓ κ} :
    {A : Type ℓ} {B : Type κ} (f : A → B) {o : Option A} {a : A} {b : B}
    → o ≡ some a
    → Option.map f o ≡ some b
    → b ≡ f a
map-some f p e = let q = rw p at e in cc q

pub AllPos-set_elem? :
    (xs : List ℕ) (i n : ℕ) {ys : List ℕ}
    → AllPos xs
    → 0 < n
    → set_elem? xs i n ≡ some ys
    → AllPos ys
AllPos-set_elem? [] i n h p e = cc
AllPos-set_elem? (x ∷ xs) zero n h p e = ground arith
AllPos-set_elem? (x ∷ xs) (suc i) n {ys} h p e = elim (Option-cases (set_elem? xs i n)) [
  | inl out ↦ absurd (map-none (◌∷◌ x) out e)
  | inr (zs, at) ↦ rw (map-some (◌∷◌ x) at e) (h.0, AllPos-set_elem? xs i n h.1 p at)
]

pub AllPos-replicate : (k n : ℕ) → 0 < n → AllPos (replicate k n)
AllPos-replicate zero n h = tt
AllPos-replicate (suc k) n h = (h, AllPos-replicate k n h)

module _ {ℓ} {C : Type ℓ} where
  -- The term of the entry at index 0.
  abbrev pub first_term : List (LogEntry C) → Option ℕ
  first_term [] = none
  first_term (e ∷ _) = some e.term

  -- The log starts with the sentinel of `Make`, and a leader has its two arrays.
  pub record IsValid (rf : Raft C) : Type 0 where
    pub sentinel : first_term rf.log ≡ some 0
    pub member : rf.me < rf.peers
    pub next_sized : rf.state ≡ State.leader → length rf.next_index ≡ rf.peers
    pub match_sized : rf.state ≡ State.leader → length rf.match_index ≡ rf.peers
    pub next_pos : rf.state ≡ State.leader → AllPos rf.next_index

  -- A request that names index 0 names the sentinel's term.
  abbrev pub IsSane : AppendEntriesArgs C → Type 0
  IsSane args = args.prev_log_index ≡ 0 → args.prev_log_term ≡ 0

  -- Every request of a broadcast is sane and goes to a peer.
  abbrev pub AllSane : ℕ → List (ℕ × AppendEntriesArgs C) → Type 0
  AllSane peers [] = Unit
  AllSane peers ((peer, args) ∷ rest) = (peer < peers) × IsSane args × AllSane peers rest

  -- The run returns, and leaves the peer that `peer` reads off its result well-formed.
  abbrev pub StaysValid {κ} : {X : Type κ} → Option X → (X → Raft C) → Type κ
  StaysValid {X} run peer = (x : X) × (run ≡ some x) × IsValid (peer x)

  pub StaysValid-if {κ} :
      {X : Type κ} (b : Bool) {r s : Option X} (peer : X → Raft C)
      → StaysValid r peer
      → StaysValid s peer
      → StaysValid (if b then r else s) peer
  StaysValid-if true peer h k = h
  StaysValid-if false peer h k = k

  -- A step in front that returns is run, and the rest goes on from what it returned.
  pub StaysValid-bind {κ μ} :
      {X : Type κ} {Y : Type μ} {m : Option Y} {y : Y} (f : Y → Option X) (peer : X → Raft C)
      → m ≡ some y
      → StaysValid (f y) peer
      → StaysValid (m >>= f) peer
  StaysValid-bind f peer e h = rw e h

  pub length_pos : (log : List (LogEntry C)) {t : ℕ} → first_term log ≡ some t → 0 < length log
  length_pos [] e = cc
  length_pos (x ∷ log) e = omega arith

  pub first_term-append :
      (xs ys : List (LogEntry C)) {t : ℕ} → first_term xs ≡ some t → first_term (xs ++ ys) ≡ some t
  first_term-append [] ys e = cc
  first_term-append (x ∷ xs) ys e = e

  pub first_term-take :
      (n : ℕ) (xs : List (LogEntry C)) → 0 < n → first_term (take n xs) ≡ first_term xs
  first_term-take zero xs h = absurd (omega arith)
  first_term-take (suc n) [] h = refl
  first_term-take (suc n) (x ∷ xs) h = refl

  pub first_term_of_get :
      (log : List (LogEntry C)) {e : LogEntry C} {t : ℕ}
      → first_term log ≡ some t
      → get_elem? log 0 ≡ some e
      → e.term ≡ t
  first_term_of_get [] h g = cc
  first_term_of_get (x ∷ log) h g = ground arith

  pub last_entry_total :
      (log : List (LogEntry C)) {t : ℕ}
      → first_term log ≡ some t
      → (e : LogEntry C) × (last_entry log ≡ some e)
  last_entry_total log h = get_elem?_total log (length log - 1) (omega (arith, length_pos log h))

  pub initial-IsValid : (peers me : ℕ) → me < peers → IsValid (initial {C = C} peers me)
  initial-IsValid peers me h = ground arith
