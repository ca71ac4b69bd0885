-- ===== src/Raft/Cluster/Votes/Tally.antt =====
-- How the number of counted votes moves with the calls.
use mr_and_raft.Common.{
  ℕ, zero, suc, ◌+◌, ◌≤◌, ◌<◌, ◌≡◌, refl, true, ◌==◌, arith, dec_lt, if◌then◌else◌,
}
use mr_and_raft.Raft.Cluster.{VoteCall, VoteCalls}
use mr_and_raft.Raft.Cluster.Votes.{granted, tally, supporters}

pub supporters-congr :
    (n : ℕ) (calls calls' : VoteCalls) (c t : ℕ)
    → ((v : ℕ) → tally (calls' c t v) ≡ tally (calls c t v))
    → supporters n calls' c t ≡ supporters n calls c t
unfolding supporters
supporters-congr zero calls calls' c t h = refl
supporters-congr (suc n) calls calls' c t h =
    omega (arith, supporters-congr n calls calls' c t h, h n)

pub supporters_mono :
    (n : ℕ) (calls calls' : VoteCalls) (c t : ℕ)
    → ((v : ℕ) → tally (calls c t v) ≤ tally (calls' c t v))
    → supporters n calls c t ≤ supporters n calls' c t
unfolding supporters
supporters_mono zero calls calls' c t h = omega arith
supporters_mono (suc n) calls calls' c t h =
    omega (arith, supporters_mono n calls calls' c t h, h n)

-- One more vote is one more.
pub supporters_grow :
    (n : ℕ) (calls calls' : VoteCalls) (c t v : ℕ)
    → v < n
    → ((w : ℕ) → tally (calls c t w) ≤ tally (calls' c t w))
    → tally (calls c t v) < tally (calls' c t v)
    → supporters n calls c t < supporters n calls' c t
unfolding supporters
supporters_grow zero calls calls' c t v h le lt = absurd (omega arith)
supporters_grow (suc n) calls calls' c t v h le lt = elim (dec_lt v n) [
  | yes below ↦ omega (arith, supporters_grow n calls calls' c t v below le lt, le n)
  | no at ↦
      let last : v ≡ n = omega arith in
      let lt' = rw last at lt in omega (arith, supporters_mono n calls calls' c t le)
]

-- The sum of a weight over the first `n` peers.
abbrev pub total : ℕ → (ℕ → ℕ) → ℕ
total zero f = 0
total (suc n) f = total n f + f n

-- Two parties that share no voter are no more than all the voters.
pub total_disjoint : (n : ℕ) (f g : ℕ → ℕ) → ((v : ℕ) → f v + g v ≤ 1) → total n f + total n g ≤ n
total_disjoint zero f g h = omega arith
total_disjoint (suc n) f g h = omega (arith, total_disjoint n f g h, h n)

-- Who stands behind candidate `c` in term `t`: the candidate, and who has granted.
abbrev pub backer : VoteCalls → ℕ → ℕ → ℕ → ℕ
backer calls c t v = if v == c then 1 else if granted (calls c t v) then 1 else 0

tally-le-backer :
    (calls : VoteCalls) (c t v : ℕ)
    → calls c t c ≡ VoteCall.idle
    → tally (calls c t v) + (if v == c then 1 else 0) ≤ backer calls c t v
tally-le-backer calls c t v h = ground arith

supporters-le-backers :
    (n : ℕ) (calls : VoteCalls) (c t : ℕ)
    → calls c t c ≡ VoteCall.idle
    → supporters n calls c t ≤ total n (backer calls c t)
unfolding supporters
supporters-le-backers zero calls c t h = omega arith
supporters-le-backers (suc n) calls c t h =
    omega (arith, supporters-le-backers n calls c t h, tally-le-backer calls c t n h)

-- The candidate stands behind itself, beside the votes that it has counted.
pub supporters-lt-backers :
    (n : ℕ) (calls : VoteCalls) (c t : ℕ)
    → calls c t c ≡ VoteCall.idle
    → c < n
    → supporters n calls c t < total n (backer calls c t)
unfolding supporters
supporters-lt-backers zero calls c t h lt = absurd (omega arith)
supporters-lt-backers (suc n) calls c t h lt = elim (dec_lt c n) [
  | yes below ↦
      omega (arith, supporters-lt-backers n calls c t h below, tally-le-backer calls c t n h)
  | no at ↦
      let self : n == c ≡ true = ground arith in
      let weight : if◌then◌else◌ {A = ℕ} (n == c) 1 0 ≡ 1 = rw self in
      omega (arith, supporters-le-backers n calls c t h, tally-le-backer calls c t n h)
]
