-- ===== src/Raft/Cluster/Votes/Count.antt =====
-- The rest of `sendRequestVote` keeps the invariant of the votes, if a granted vote is counted only
-- by a candidate that is still of the term of the vote.
use mr_and_raft.Common.{update, ℕ, ◌+◌, ◌<◌, ◌≤◌, ◌≡◌, ◌≢◌, arith, Bool-cases, inl, inr, ◌==◌, true}
use mr_and_raft.Raft.State.{State, Raft, RequestVoteReply}
use mr_and_raft.Raft.Election.Frame.{Tallied}
use mr_and_raft.Raft.Cluster.{VoteCall, VoteCalls, set_call}
use mr_and_raft.Raft.Cluster.Votes.{Inv, tally, supporters}
use mr_and_raft.Raft.Cluster.Votes.Tally.{supporters-congr, supporters_mono, supporters_grow}

module _ {ℓ} {C : Type ℓ} {n : ℕ} {peer : ℕ → Raft C} {calls : VoteCalls} (c0 t0 v0 : ℕ)
    (rf : Raft C) (reply : RequestVoteReply) (h : Inv n peer calls)
    (at : calls c0 t0 v0 ≡ VoteCall.replied reply) (k : Tallied reply (peer c0) rf) where
  abbrev after : VoteCalls
  after = set_call calls c0 t0 v0 (VoteCall.counted reply)

  tally_up : (c t w : ℕ) → tally (calls c t w) ≤ tally (after c t w)
  tally_up c t w = ground arith

  -- A granted vote of the present term is counted.
  one_more :
      v0 < n
      → reply.vote_granted ≡ true
      → t0 ≡ (peer c0).current_term
      → supporters n calls c0 (peer c0).current_term < supporters n after c0 (peer c0).current_term
  one_more lt g now =
      supporters_grow n calls after c0 (peer c0).current_term v0 lt
        (tally_up c0 (peer c0).current_term) (ground arith)

  backed_here :
      v0 < n
      → (reply.vote_granted ≡ true → t0 ≡ (peer c0).current_term)
      → rf.state ≢ State.follower
      → rf.votes ≤ 1 + supporters n after c0 rf.current_term
  backed_here lt now f = ground (
    arith,
    k.rest,
    h.backed c0,
    one_more lt,
    supporters_mono n calls after c0 (peer c0).current_term (tally_up c0 (peer c0).current_term),
  )

  pub Tallied-Inv :
      v0 < n
      → (peer c0).peers ≡ n
      → (reply.vote_granted ≡ true → t0 ≡ (peer c0).current_term)
      → Inv n (update peer c0 rf) after
  Tallied-Inv lt sized now = record {
    own = λ j. ground (arith, h.own j);
    addressed = λ c t v b. ground (arith, h.addressed c t v b);
    past = λ c t v. ground (arith, h.past c t v);
    no_self = λ c t. ground (arith, h.no_self c t);
    recorded = λ c t v. ground (arith, h.recorded c t v);
    unique = λ c c' t v. ground (arith, h.unique c c' t v);
    backed = λ c. elim (Bool-cases (c0 == c)) [
      | inl e ↦ ground (arith, backed_here lt now)
      | inr e ↦ rw e (
          rw (supporters-congr n calls after c (peer c).current_term (λ v. ground arith))
            (h.backed c))
    ];
    majority = λ c. ground (arith, h.majority c);
  }
