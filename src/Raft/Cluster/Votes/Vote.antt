-- ===== src/Raft/Cluster/Votes/Vote.antt =====
-- `RequestVote` keeps the invariant of the votes.
use mr_and_raft.Common.{update, ℕ, ◌≡◌, arith, inl, inr, true, false}
use mr_and_raft.Raft.State.{Raft, RequestVoteArgs, RequestVoteReply, Signal}
use mr_and_raft.Raft.Election.Frame.{Granted, Voted}
use mr_and_raft.Raft.Cluster.{VoteCall, VoteCalls, set_call}
use mr_and_raft.Raft.Cluster.Votes.{Inv, granted, tally}
use mr_and_raft.Raft.Cluster.Votes.Tally.{supporters-congr}
use mr_and_raft.Raft.Cluster.Votes.Quiet.{Ripple-Inv}

module _ {ℓ} {C : Type ℓ} {n : ℕ} {peer : ℕ → Raft C} {calls : VoteCalls} where
  -- A call that is set without a change of its grant or its tally.
  set_call-Inv :
      (c0 t0 v0 : ℕ) (call : VoteCall)
      → Inv n peer calls
      → granted call ≡ false
      → tally call ≡ tally (calls c0 t0 v0)
      → ((args : RequestVoteArgs) → call ≡ VoteCall.calling args → ⊥)
      → (calls c0 t0 v0 ≡ VoteCall.idle → ⊥)
      → Inv n peer (set_call calls c0 t0 v0 call)
  set_call-Inv c0 t0 v0 call h g e not_calling open_call = record {
    own = h.own;
    addressed = λ c t v a. ground (arith, h.addressed c t v a, not_calling a);
    past = λ c t v. ground (arith, h.past c t v);
    no_self = λ c t. ground (arith, h.no_self c t);
    recorded = λ c t v. ground (arith, h.recorded c t v);
    unique = λ c c' t v. ground (arith, h.unique c c' t v);
    backed = λ c f.
        rw
          (supporters-congr n calls (set_call calls c0 t0 v0 call) c (peer c).current_term
            (λ v. ground arith))
          (h.backed c f);
    majority = h.majority;
  }

  Granted-Inv :
      (c0 t0 v0 : ℕ) (args : RequestVoteArgs) (rf : Raft C) (reply : RequestVoteReply)
      → Inv n peer calls
      → calls c0 t0 v0 ≡ VoteCall.calling args
      → reply.vote_granted ≡ true
      → Granted args (peer v0) rf
      → Inv n (update peer v0 rf) (set_call calls c0 t0 v0 (VoteCall.replied reply))
  Granted-Inv c0 t0 v0 args rf reply h at g k = record {
    own = λ j. ground (arith, h.own j, h.no_self c0 t0, a);
    addressed = λ c t v b. ground (arith, h.addressed c t v b);
    past = λ c t v. ground (arith, h.past c t v);
    no_self = λ c t. ground (arith, h.no_self c t);
    recorded = λ c t v. ground (arith, h.recorded c t v, a);
    unique = λ c c' t v. ground (arith, h.unique c c' t v, h.recorded c t v, h.recorded c' t v, a);
    backed = λ c f.
        rw
          (supporters-congr n calls (set_call calls c0 t0 v0 (VoteCall.replied reply)) c
            (update peer v0 rf c).current_term (λ v. ground arith))
          (ground (arith, h.backed c, k.before));
    majority = λ c. ground (arith, h.majority c);
  }
    where
      a : (args.term ≡ t0) × (args.candidate_id ≡ c0)
      a = h.addressed c0 t0 v0 args at

  pub Voted-Inv :
      (c0 t0 v0 : ℕ) (args : RequestVoteArgs) (rf : Raft C) (reply : RequestVoteReply)
      (signal : Signal)
      → Inv n peer calls
      → calls c0 t0 v0 ≡ VoteCall.calling args
      → Voted args (peer v0) (rf, reply, signal)
      → Inv n (update peer v0 rf) (set_call calls c0 t0 v0 (VoteCall.replied reply))
  Voted-Inv c0 t0 v0 args rf reply signal h at (inl (g, k)) =
      Granted-Inv c0 t0 v0 args rf reply h at g k
  Voted-Inv c0 t0 v0 args rf reply signal h at (inr (g, r)) =
      Ripple-Inv v0 rf r
        (set_call-Inv c0 t0 v0 (VoteCall.replied reply) h g (ground arith) (λ b e. cc) (λ e. cc))
