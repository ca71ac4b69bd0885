-- ===== src/Raft/Election/Valid.antt =====
-- Elections keep a peer well-formed, and no step of one panics.
use mr_and_raft.Common.{
  ℕ, zero, suc, ◌+◌, ◌≤◌, refl, inl, inr, ◌==◌, Bool-cases, arith, length, length-replicate, map,
}
use mr_and_raft.Raft.State.{RequestVoteArgs, RequestVoteReply, AppendEntriesArgs, Raft, step_down}
use mr_and_raft.Raft.Wellformed.{
  AllPos-replicate, IsValid, IsSane, AllSane, StaysValid, StaysValid-if, last_entry_total,
  length_pos,
}
use mr_and_raft.Raft.Election.{
  others_from, zero_args, become_candidate, request_vote, decide_vote, receive_vote, win,
}

module _ {ℓ} {C : Type ℓ} where
  pub step_down-IsValid : (t : ℕ) {rf : Raft C} → IsValid rf → IsValid (step_down t rf)
  step_down-IsValid t v = ground arith

  pub become_candidate-IsValid :
      (rf : Raft C) → IsValid rf → StaysValid (become_candidate rf) (λ x. x.0)
  unfolding become_candidate
  become_candidate-IsValid rf v =
      let (e, p) = last_entry_total rf.log v.sentinel in rw p (_, refl, ground arith)

  decide_vote-IsValid :
      (args : RequestVoteArgs) (rf : Raft C)
      → IsValid rf
      → StaysValid (decide_vote args rf) (λ x. x.0)
  unfolding decide_vote
  decide_vote-IsValid args rf v =
      let (e, p) = last_entry_total rf.log v.sentinel in rw p (_, refl, ground arith)

  pub request_vote-IsValid :
      (args : RequestVoteArgs) (rf : Raft C)
      → IsValid rf
      → StaysValid (request_vote args rf) (λ x. x.0)
  unfolding request_vote
  request_vote-IsValid args rf v =
      StaysValid-if _ _ (_, refl, v)
        (StaysValid-if _ _ (decide_vote-IsValid args _ (step_down-IsValid args.term v))
          (decide_vote-IsValid args rf v))

  win-IsValid : (rf : Raft C) → IsValid rf → IsValid (win rf)
  win-IsValid rf v = record {
    sentinel = v.sentinel;
    member = v.member;
    next_sized = λ _. length-replicate _ _;
    match_sized = λ _. length-replicate _ _;
    next_pos = λ _. AllPos-replicate rf.peers (length rf.log) (length_pos rf.log v.sentinel);
  }

  pub receive_vote-IsValid :
      (reply : RequestVoteReply) (rf : Raft C) → IsValid rf → IsValid (receive_vote reply rf).0
  unfolding receive_vote
  receive_vote-IsValid reply rf v = ground (arith, win-IsValid (record rf { votes = rf.votes + 1 }))

  others_from-AllSane :
      (args : AppendEntriesArgs C) (peers n first me : ℕ)
      → IsSane args
      → first + n ≤ peers
      → AllSane peers (map (λ peer. (peer, args)) (others_from n first me))
  others_from-AllSane args peers zero first me s h = tt
  others_from-AllSane args peers (suc n) first me s h =
      let rest = others_from-AllSane args peers n (first + 1) me s (omega arith) in
      elim (Bool-cases (first == me)) [ inl e ↦ rw e rest | inr e ↦ rw e (omega arith, s, rest) ]

  pub receive_vote-AllSane :
      (reply : RequestVoteReply) (rf : Raft C) → AllSane rf.peers (receive_vote reply rf).1
  unfolding receive_vote
  receive_vote-AllSane reply rf =
      ground (arith, others_from-AllSane zero_args rf.peers rf.peers 0 rf.me (λ _. refl))
