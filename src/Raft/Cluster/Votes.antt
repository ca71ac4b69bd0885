-- ===== src/Raft/Cluster/Votes.antt =====
-- Who has voted for whom in a cluster: the invariant under which there is one leader to a term.
pub mod Tally
pub mod Quiet
pub mod Campaign
pub mod Vote
pub mod Count
use mr_and_raft.Common.{
  ℕ, zero, suc, ◌+◌, ◌/◌, ◌≤◌, ◌<◌, ◌≡◌, ◌≢◌, ◌⊎◌, Bool, true, false, some, if◌then◌else◌, arith,
}
use mr_and_raft.Raft.State.{State, RequestVoteArgs, Raft, initial}
use mr_and_raft.Raft.Cluster.{VoteCall, VoteCalls, boot}

-- The voter has granted.
abbrev pub granted : VoteCall → Bool
granted VoteCall.idle = false
granted (VoteCall.calling _) = false
granted (VoteCall.replied reply) = reply.vote_granted
granted (VoteCall.counted reply) = reply.vote_granted

-- What the call has added to the candidate's `votes`.
abbrev pub tally : VoteCall → ℕ
tally VoteCall.idle = 0
tally (VoteCall.calling _) = 0
tally (VoteCall.replied _) = 0
tally (VoteCall.counted reply) = if reply.vote_granted then 1 else 0

-- The votes of the first `n` peers that candidate `c` has counted in term `t`.
pub supporters : ℕ → VoteCalls → ℕ → ℕ → ℕ
supporters zero calls c t = 0
supporters (suc n) calls c t = supporters n calls c t + tally (calls c t n)

module _ {ℓ} {C : Type ℓ} where
  pub record Inv (n : ℕ) (peer : ℕ → Raft C) (calls : VoteCalls) : Type 0 where
    -- a candidate or leader has voted for itself
    pub own : (i : ℕ) → (peer i).state ≢ State.follower → (peer i).voted_for ≡ some i
    pub addressed :
        (c t v : ℕ) (args : RequestVoteArgs)
        → calls c t v ≡ VoteCall.calling args
        → (args.term ≡ t) × (args.candidate_id ≡ c)
    pub past : (c t v : ℕ) → (peer c).current_term < t → calls c t v ≡ VoteCall.idle
    pub no_self : (c t : ℕ) → calls c t c ≡ VoteCall.idle
    -- a voter remembers whom it voted for in its present term
    pub recorded :
        (c t v : ℕ)
        → granted (calls c t v) ≡ true
        → (t < (peer v).current_term)
          ⊎ ((t ≡ (peer v).current_term) × ((peer v).voted_for ≡ some c))
    -- and votes for one candidate to a term
    pub unique :
        (c c' t v : ℕ) → granted (calls c t v) ≡ true → granted (calls c' t v) ≡ true → c ≡ c'
    pub backed :
        (c : ℕ)
        → (peer c).state ≢ State.follower
        → (peer c).votes ≤ 1 + supporters n calls c (peer c).current_term
    pub majority : (c : ℕ) → (peer c).state ≡ State.leader → n / 2 < (peer c).votes

  pub boot-Inv : (n : ℕ) → Inv n (boot {C = C} n).peer (boot {C = C} n).calls
  boot-Inv n = ground arith
