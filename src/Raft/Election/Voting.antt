-- ===== src/Raft/Election/Voting.antt =====
-- When `RequestVote` grants, and what an election changes of a peer.
use mr_and_raft.Common.{
  ℕ, ◌-◌, ◌≤◌, ◌<◌, ◌≡◌, ◌⊎◌, ◌↔◌, refl, inl, inr, true, false, none, some, arith, Bool-cases, ◌&&◌,
  ltb, length, max, if◌then◌else◌, Bool, Option,
}
use mr_and_raft.Raft.State.{
  State, Signal, RequestVoteArgs, RequestVoteReply, LogEntry, Raft, last_entry, step_down,
}
use mr_and_raft.Raft.Election.{up_to_date, may_vote_for, decide_vote, request_vote}

-- The candidate's log is at least as long a history as the voter's: its last term is higher, or the
-- last terms are equal and its last index is no lower.
abbrev pub IsUpToDate : ℕ → ℕ → ℕ → ℕ → Type 0
IsUpToDate cand_term cand_index last_term last_index =
    (last_term < cand_term) ⊎ ((last_term ≡ cand_term) × (last_index ≤ cand_index))

grant_test_iff :
    (vote : Option ℕ) (candidate cand_term cand_index last_term last_index : ℕ)
    → ((may_vote_for vote candidate && up_to_date cand_term cand_index last_term last_index) ≡ true)
      ↔ (((vote ≡ none) ⊎ (vote ≡ some candidate))
          × IsUpToDate cand_term cand_index last_term last_index)
grant_test_iff none c ct ci lt li = ground arith
grant_test_iff (some v) c ct ci lt li = ground arith

module _ {ℓ} {C : Type ℓ} where
  -- What makes a voter, whose last entry is `last`, grant.
  abbrev pub MayGrant : RequestVoteArgs → Raft C → LogEntry C → Type 0
  MayGrant args rf last =
      (rf.current_term ≤ args.term)
      × ((rf.current_term < args.term)
          ⊎ ((rf.voted_for ≡ none) ⊎ (rf.voted_for ≡ some args.candidate_id)))
      × IsUpToDate args.last_log_term args.last_log_index last.term (length rf.log - 1)

  abbrev pub granted_vote : RequestVoteReply → RequestVoteArgs → Raft C → Option ℕ
  granted_vote reply args rf =
      if reply.vote_granted
      then some args.candidate_id
      else if ltb rf.current_term args.term
      then none
      else rf.voted_for

  decide_vote_lem :
      (args : RequestVoteArgs) (rf : Raft C) {last : LogEntry C}
      → last_entry rf.log ≡ some last
      → (g : Bool) × (decide_vote args rf
          ≡ some (
            record rf { voted_for = if g then some args.candidate_id else rf.voted_for },
            record { term = 0; vote_granted = g },
            Signal.received_vote_chan,
          ))
        × ((g ≡ true) ↔ (
            ((rf.voted_for ≡ none) ⊎ (rf.voted_for ≡ some args.candidate_id))
            × IsUpToDate args.last_log_term args.last_log_index last.term (length rf.log - 1)))
  unfolding decide_vote
  decide_vote_lem args rf {last} at =
      let g =
        may_vote_for rf.voted_for args.candidate_id
        && up_to_date args.last_log_term args.last_log_index last.term (length rf.log - 1) in
      (
        g,
        elim (Bool-cases g) [ inl e ↦ rw (at, e) | inr e ↦ rw (at, e) ],
        grant_test_iff rf.voted_for args.candidate_id args.last_log_term args.last_log_index
            last.term (length rf.log - 1),
      )

  -- A voter grants exactly when the request is not of an older term, its vote of that term is free or
  -- already the candidate's, and the candidate's log is up to date. It then votes for the candidate
  -- and takes over a higher term; a higher term alone clears its vote and makes it a follower; log,
  -- commit index and leader's arrays stay. Only a reply to an older term carries the voter's term.
  pub request_vote_lem :
      (args : RequestVoteArgs) (rf : Raft C) {last : LogEntry C}
      → last_entry rf.log ≡ some last
      → (reply : RequestVoteReply) × (request_vote args rf
          ≡ some (
            record rf {
              state = if ltb rf.current_term args.term then State.follower else rf.state;
              current_term = max rf.current_term args.term;
              voted_for = granted_vote reply args rf;
            },
            reply,
            Signal.received_vote_chan,
          ))
        × ((reply.vote_granted ≡ true) ↔ MayGrant args rf last)
        × (reply.term ≡ (if ltb args.term rf.current_term then rf.current_term else 0))
  unfolding request_vote
  request_vote_lem args rf {last} at = elim (Bool-cases (ltb args.term rf.current_term)) [
    | inl stale ↦
        let older : ltb rf.current_term args.term ≡ false = ground arith in
        let top : max rf.current_term args.term ≡ rf.current_term = ground arith in
        rw (stale, older, top)
          (record { term = rf.current_term; vote_granted = false }, refl, ground arith, refl)
    | inr fresh ↦ elim (Bool-cases (ltb rf.current_term args.term)) [
      | inl newer ↦
          let (g, run, iff) = decide_vote_lem args (step_down args.term rf) at in
          let top : max rf.current_term args.term ≡ args.term = ground arith in
          rw (fresh, newer, top, run)
            (record { term = 0; vote_granted = g }, refl, ground arith, refl)
      | inr same ↦
          let (g, run, iff) = decide_vote_lem args rf at in
          let top : max rf.current_term args.term ≡ rf.current_term = ground arith in
          rw (fresh, same, top, run)
            (record { term = 0; vote_granted = g }, refl, ground arith, refl)
    ]
  ]
