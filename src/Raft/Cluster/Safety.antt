-- ===== src/Raft/Cluster/Safety.antt =====
-- One leader to a term, if stale votes are not counted; what `sendRequestVote` does with them.
use mr_and_raft.Common.{ℕ, ◌+◌, ◌≤◌, ◌<◌, ◌≡◌, ◌≢◌, arith, ℕ_discrete}
use mr_and_raft.Raft.State.{State, Raft}
use mr_and_raft.Raft.Election.Frame.{
  become_candidate-Campaigned, request_vote-Voted, receive_vote-Tallied,
}
use mr_and_raft.Raft.Replication.Frame.{
  append_entries-Ripple, receive_append_reply-Ripple, start-Ripple,
}
use mr_and_raft.Raft.Cluster.{
  VoteCalls, Cluster, Step, campaign, vote, count, beat, append, learn, submit, Reach, booted,
  later, Current,
}
use mr_and_raft.Raft.Cluster.Panics.{IsSound, Reach-IsSound}
use mr_and_raft.Raft.Cluster.Votes.{Inv, boot-Inv}
use mr_and_raft.Raft.Cluster.Votes.Tally.{backer, total_disjoint, supporters-lt-backers}
use mr_and_raft.Raft.Cluster.Votes.Quiet.{Ripple-Inv}
use mr_and_raft.Raft.Cluster.Votes.Campaign.{Campaigned-Inv}
use mr_and_raft.Raft.Cluster.Votes.Vote.{Voted-Inv}
use mr_and_raft.Raft.Cluster.Votes.Count.{Tallied-Inv}

module _ {ℓ} {C : Type ℓ} where
  -- Every step that counts no stale vote keeps the invariant of the votes.
  Step-Inv :
      {n : ℕ} {s t : Cluster C}
      → IsSound n s
      → Inv n s.peer s.calls
      → Step n Current s t
      → Inv n t.peer t.calls
  Step-Inv {s} m h (campaign i {rf} {args} {targets} lt run) =
      Campaigned-Inv i rf args targets (m.member i).named
        ((become_candidate-Campaigned (s.peer i)).result _ run) h
  Step-Inv {s} m h (vote c t v {args} {rf} {reply} {signal} lt at run) =
      Voted-Inv c t v args rf reply signal h at ((request_vote-Voted args (s.peer v)).result _ run)
  Step-Inv {s} m h (count c t v {reply} lt_c lt at now) =
      Tallied-Inv c t v _ reply h at (receive_vote-Tallied reply (s.peer c)) lt (m.member c).sized
        now
  Step-Inv m h (beat i lt run) = h
  Step-Inv {s} m h (append k {req} {rf} at run) =
      Ripple-Inv req.to rf ((append_entries-Ripple req.args (s.peer req.to)).result _ run) h
  Step-Inv {s} m h (learn k {answer} {rf} at run) =
      Ripple-Inv answer.request.from rf
        ((receive_append_reply-Ripple answer.request.to answer.request.args answer.reply
            (s.peer answer.request.from)).result
          _ run)
        h
  Step-Inv {s} m h (submit i command {rf} lt run) =
      Ripple-Inv i rf ((start-Ripple command (s.peer i)).result _ run) h

  pub Reach-Inv : {n : ℕ} {s : Cluster C} → Reach n Current s → Inv n s.peer s.calls
  Reach-Inv {n} booted = boot-Inv n
  Reach-Inv (later r st) = Step-Inv (Reach-IsSound r) (Reach-Inv r) st

module _ {ℓ} {C : Type ℓ} where
  -- Two candidates that have not left the term in which both stood share no voter.
  no_shared_voter :
      {n : ℕ} {peer : ℕ → Raft C} {calls : VoteCalls}
      → Inv n peer calls
      → (a b v : ℕ) → (peer a).state ≢ State.follower
      → (peer b).state ≢ State.follower
      → (peer a).current_term ≡ (peer b).current_term
      → a ≢ b
      → backer calls a (peer a).current_term v + backer calls b (peer b).current_term v ≤ 1
  no_shared_voter {peer} h a b v fa fb same ne = ground (
    arith,
    h.own a,
    h.own b,
    h.recorded a (peer a).current_term v,
    h.recorded b (peer b).current_term v,
    h.unique a b (peer a).current_term v,
  )

  -- Where no stale vote is counted, a reachable cluster has at most one leader to a term.
  pub election_safety :
      {n : ℕ} {s : Cluster C}
      → Reach n Current s
      → (a b : ℕ) → a < n
      → b < n
      → (s.peer a).state ≡ State.leader
      → (s.peer b).state ≡ State.leader
      → (s.peer a).current_term ≡ (s.peer b).current_term
      → a ≡ b
  election_safety {n} {s} r a b lt_a lt_b lead_a lead_b same = elim (ℕ_discrete a b) [
    | yes e ↦ e
    | no ne ↦
        let h = Reach-Inv r in
        let ta = (s.peer a).current_term in
        let tb = (s.peer b).current_term in
        let fa : (s.peer a).state ≢ State.follower = λ e. ground arith in
        let fb : (s.peer b).state ≢ State.follower = λ e. ground arith in
        absurd (
          omega (
            arith,
            total_disjoint n (backer s.calls a ta) (backer s.calls b tb)
                (λ v. no_shared_voter h a b v fa fb same ne),
            supporters-lt-backers n s.calls a ta (h.no_self a ta) lt_a,
            supporters-lt-backers n s.calls b tb (h.no_self b tb) lt_b,
            h.backed a fa,
            h.backed b fb,
            h.majority a lead_a,
            h.majority b lead_b,
          ))
  ]
