-- ===== src/Raft/Election.antt =====
-- raft/raft.go: `becomeCandidate`, `RequestVote`, and `sendRequestVote` from the reply on.
pub mod Valid
pub mod Voting
pub mod Frame
use mr_and_raft.Common.{
  ℕ, zero, suc, ◌+◌, ◌-◌, ◌/◌, Bool, true, false, ◌&&◌, Option, none, some, List, [], ◌∷◌, ltb, leb,
  ◌==◌, if◌then◌else◌, length, replicate, ◌>>=◌, map,
}
use mr_and_raft.Raft.State.{
  State, is_candidate, Signal, RequestVoteArgs, RequestVoteReply, AppendEntriesArgs, Raft,
  last_entry, step_down,
}

-- `for peer := range rf.peers { if peer != rf.me … }`, the peers from `first` on
abbrev pub others_from : ℕ → ℕ → ℕ → List ℕ
others_from zero first me = []
others_from (suc n) first me =
    let rest = others_from n (first + 1) me in if first == me then rest else first ∷ rest

abbrev pub others : ℕ → ℕ → List ℕ
others peers me = others_from peers 0 me

-- `rf.votedFor == -1 || rf.votedFor == args.CandidateId`
abbrev pub may_vote_for : Option ℕ → ℕ → Bool
may_vote_for none candidate = true
may_vote_for (some v) candidate = v == candidate

-- `candidateUpToDate`, from the candidate's last term and index and the voter's
abbrev pub up_to_date : ℕ → ℕ → ℕ → ℕ → Bool
up_to_date cand_term cand_index last_term last_index =
    if cand_term == last_term then leb last_index cand_index else ltb last_term cand_term

module _ {ℓ} {C : Type ℓ} where
  -- The peer, and the arguments that go out to each other peer.
  unfoldable pub become_candidate : Raft C → Option (Raft C × RequestVoteArgs × List ℕ)
  become_candidate rf =
      let rf1 = record rf {
        state = State.candidate;
        current_term = rf.current_term + 1;
        voted_for = some rf.me;
        votes = 1;
      } in
      do
        last ← last_entry rf1.log
        some (
          rf1,
          record {
            term = rf1.current_term;
            candidate_id = rf1.me;
            last_log_index = length rf1.log - 1;
            last_log_term = last.term;
          },
          others rf1.peers rf1.me,
        )

  -- From the comparison of the logs on.
  pub decide_vote : RequestVoteArgs → Raft C → Option (Raft C × RequestVoteReply × Signal)
  decide_vote args rf = do
    last ← last_entry rf.log
    let candidate_up_to_date =
        up_to_date args.last_log_term args.last_log_index last.term (length rf.log - 1)
    some (
        if may_vote_for rf.voted_for args.candidate_id && candidate_up_to_date
        then (
          record rf { voted_for = some args.candidate_id },
          record { term = 0; vote_granted = true },
          Signal.received_vote_chan,
        )
        else (rf, record { term = 0; vote_granted = false }, Signal.received_vote_chan))

  -- The reply's `Term` is set on the first branch only.
  unfoldable pub request_vote :
      RequestVoteArgs → Raft C → Option (Raft C × RequestVoteReply × Signal)
  unfolding decide_vote
  request_vote args rf =
      if ltb args.term rf.current_term
      then some
          (rf, record { term = rf.current_term; vote_granted = false }, Signal.received_vote_chan)
      else if ltb rf.current_term args.term
      then decide_vote args (step_down args.term rf)
      else decide_vote args rf

  -- The arguments of the first broadcast of a leader, `&AppendEntriesArgs{}`.
  abbrev pub zero_args : AppendEntriesArgs C
  zero_args = record {
    term = 0;
    leader_id = 0;
    prev_log_index = 0;
    prev_log_term = 0;
    entries = [];
    leader_commit = 0;
  }

  abbrev pub win : Raft C → Raft C
  win rf = record rf {
    state = State.leader;
    next_index = replicate rf.peers (length rf.log);
    match_index = replicate rf.peers 0;
  }

  -- `sendRequestVote` once `Call` has returned true: the peer, and the broadcast that it starts.
  unfoldable pub receive_vote : RequestVoteReply → Raft C → Raft C × List (ℕ × AppendEntriesArgs C)
  receive_vote reply rf =
      if ltb rf.current_term reply.term
      then (step_down reply.term rf, [])
      else if reply.vote_granted
      then (let rf1 = record rf { votes = rf.votes + 1 } in
          if ltb (rf1.peers / 2) rf1.votes && is_candidate rf1.state
          then (win rf1, map (λ peer. (peer, zero_args)) (others rf1.peers rf1.me))
          else (rf1, []))
      else (rf, [])
