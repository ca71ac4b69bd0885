-- ===== src/Raft/Election/Frame.antt =====
-- What each handler of an election changes of the part of a peer that elections rest on.
use mr_and_raft.Common.{
  ℕ, ◌+◌, ◌/◌, ◌<◌, ◌≡◌, ◌⊎◌, refl, none, some, true, false, arith, ltb, Bool-cases, inl, inr, List,
  Ensures, Ensures-some, Ensures-bind, ltb→lt, Ensures-map,
}
use mr_and_raft.Raft.State.{
  State, RequestVoteArgs, RequestVoteReply, Raft, Signal, last_entry, step_down,
}
use mr_and_raft.Raft.Ripple.{Same, Ripple, Same→Ripple, Ripple-step_down}
use mr_and_raft.Raft.Election.{others, become_candidate, decide_vote, request_vote, receive_vote}

module _ {ℓ} {C : Type ℓ} where
  pub record Campaigned (rf rf' : Raft C) (args : RequestVoteArgs) (targets : List ℕ) : Type 0 where
    pub me : rf'.me ≡ rf.me
    pub peers : rf'.peers ≡ rf.peers
    pub term : rf'.current_term ≡ rf.current_term + 1
    pub vote : rf'.voted_for ≡ some rf.me
    pub state : rf'.state ≡ State.candidate
    pub votes : rf'.votes ≡ 1
    pub asks_term : args.term ≡ rf.current_term + 1
    pub asks_for : args.candidate_id ≡ rf.me
    pub asks_whom : targets ≡ others rf.peers rf.me

  pub become_candidate-Campaigned :
      (rf : Raft C) → Ensures (λ x. Campaigned rf x.0 x.1 x.2) (become_candidate rf)
  unfolding become_candidate
  become_candidate-Campaigned rf =
      Ensures-bind (last_entry rf.log) (λ last. Ensures-some (ground arith))

  -- A granted vote: the voter is of the candidate's term, and its vote is the candidate's.
  pub record Granted (args : RequestVoteArgs) (rf rf' : Raft C) : Type 0 where
    pub me : rf'.me ≡ rf.me
    pub peers : rf'.peers ≡ rf.peers
    pub term : rf'.current_term ≡ args.term
    pub vote : rf'.voted_for ≡ some args.candidate_id
    pub before :
        ((rf.current_term < args.term) × (rf'.state ≡ State.follower))
        ⊎ ((rf.current_term ≡ args.term)
            × ((rf.voted_for ≡ none) ⊎ (rf.voted_for ≡ some args.candidate_id))
            × (rf'.state ≡ rf.state)
            × (rf'.votes ≡ rf.votes))

  abbrev pub Voted : RequestVoteArgs → Raft C → Raft C × RequestVoteReply × Signal → Type 0
  Voted args rf (rf', reply, _) =
      ((reply.vote_granted ≡ true) × Granted args rf rf')
      ⊎ ((reply.vote_granted ≡ false) × Ripple rf rf')

  abbrev Decided : RequestVoteArgs → Raft C → Raft C × RequestVoteReply × Signal → Type 0
  Decided args rf (rf', reply, _) =
      ((reply.vote_granted ≡ true)
        × ((rf.voted_for ≡ none) ⊎ (rf.voted_for ≡ some args.candidate_id))
        × (rf'.voted_for ≡ some args.candidate_id)
        × (rf'.me ≡ rf.me)
        × (rf'.peers ≡ rf.peers)
        × (rf'.current_term ≡ rf.current_term)
        × (rf'.state ≡ rf.state)
        × (rf'.votes ≡ rf.votes))
      ⊎ ((reply.vote_granted ≡ false) × Same rf rf')

  decide_vote-Decided :
      (args : RequestVoteArgs) (rf : Raft C) → Ensures (Decided args rf) (decide_vote args rf)
  unfolding decide_vote
  decide_vote-Decided args rf =
      Ensures-bind (last_entry rf.log) (λ last. Ensures-some (ground arith))

  Decided-newer :
      (args : RequestVoteArgs) (rf rf' : Raft C) (reply : RequestVoteReply) (signal : Signal)
      → rf.current_term < args.term
      → Decided args (step_down args.term rf) (rf', reply, signal)
      → Voted args rf (rf', reply, signal)
  Decided-newer args rf rf' reply signal h (inl d) = inl (d.0, ground arith)
  Decided-newer args rf rf' reply signal h (inr d) = inr (d.0, Ripple-step_down h d.1)

  Decided-same :
      (args : RequestVoteArgs) (rf rf' : Raft C) (reply : RequestVoteReply) (signal : Signal)
      → rf.current_term ≡ args.term
      → Decided args rf (rf', reply, signal)
      → Voted args rf (rf', reply, signal)
  Decided-same args rf rf' reply signal h (inl d) = inl (d.0, ground arith)
  Decided-same args rf rf' reply signal h (inr d) = inr (d.0, Same→Ripple d.1)

  pub request_vote-Voted :
      (args : RequestVoteArgs) (rf : Raft C) → Ensures (Voted args rf) (request_vote args rf)
  unfolding request_vote
  request_vote-Voted args rf = elim (Bool-cases (ltb args.term rf.current_term)) [
    | inl stale ↦ rw stale (Ensures-some (inr (refl, ground arith)))
    | inr fresh ↦ elim (Bool-cases (ltb rf.current_term args.term)) [
      | inl newer ↦
          rw (fresh, newer)
            (Ensures-map (λ x. Decided-newer args rf x.0 x.1 x.2 (ltb→lt _ _ newer))
              (decide_vote-Decided args (step_down args.term rf)))
      | inr same ↦
          rw (fresh, same)
            (Ensures-map (λ x. Decided-same args rf x.0 x.1 x.2 (ground arith))
              (decide_vote-Decided args rf))
    ]
  ]

  -- A granted vote adds one, and makes a candidate with a majority the leader.
  pub record Tallied (reply : RequestVoteReply) (rf rf' : Raft C) : Type 0 where
    pub me : rf'.me ≡ rf.me
    pub peers : rf'.peers ≡ rf.peers
    pub rest :
        ((rf.current_term < rf'.current_term) × (rf'.state ≡ State.follower))
        ⊎ ((rf'.current_term ≡ rf.current_term)
            × (rf'.voted_for ≡ rf.voted_for)
            × (((reply.vote_granted ≡ false) × (rf'.votes ≡ rf.votes) × (rf'.state ≡ rf.state))
                ⊎ ((reply.vote_granted ≡ true)
                    × (rf'.votes ≡ rf.votes + 1)
                    × ((rf'.state ≡ rf.state)
                        ⊎ ((rf.state ≡ State.candidate)
                            × (rf'.state ≡ State.leader)
                            × (rf.peers / 2 < rf.votes + 1))))))

  pub receive_vote-Tallied :
      (reply : RequestVoteReply) (rf : Raft C) → Tallied reply rf (receive_vote reply rf).0
  unfolding receive_vote
  receive_vote-Tallied reply rf = ground arith
