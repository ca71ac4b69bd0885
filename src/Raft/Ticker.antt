-- ===== src/Raft/Ticker.antt =====
-- raft/raft.go: one round of `ticker`. It reads the state and persists under the lock, waits without
-- it, and acts on the state that it has read, whatever the peer has become meanwhile.
use mr_and_raft.Common.{
  ℕ, ◌+◌, ◌≡◌, ◌≢◌, refl, ◌⊎◌, inl, inr, Option, some, List, [], map, ◌>>=◌, arith,
}
use mr_and_raft.Raft.State.{State, Signal, RequestVoteArgs, AppendEntriesArgs, Raft}
use mr_and_raft.Raft.Election.{become_candidate, others}
use mr_and_raft.Raft.Replication.{send_heart_beats}
use mr_and_raft.Raft.Replication.HeartBeat.{send_heart_beats-AllSane, send_heart_beats-peers}
use mr_and_raft.Raft.Wellformed.{IsValid, AllSane, last_entry_total}
use mr_and_raft.Raft.Persist.{Codec, Persister, persist}

-- What ends the wait of `select`.
pub data Wake : Type 0 where
  signal : Signal → Wake
  timeout : Wake

-- What a round starts in goroutines of its own.
pub data Outgoing {ℓ} (C : Type ℓ) : Type ℓ where
  nothing : Outgoing C
  still_waiting : Outgoing C  -- the round goes on
  ask_votes : RequestVoteArgs → List ℕ → Outgoing C
  heart_beats : List (ℕ × AppendEntriesArgs C) → Outgoing C

module _ {ℓ} {C : Type ℓ} where
  unfoldable pub before_wait : Codec C → Raft C → Persister → State × Persister
  before_wait codec rf ps = (rf.state, persist codec rf ps)

  abbrev campaign : Raft C → Option (Raft C × Outgoing C)
  campaign rf = do
    (rf', args, targets) ← become_candidate rf
    some (rf', Outgoing.ask_votes args targets)

  abbrev broadcast : Raft C → Option (Raft C × Outgoing C)
  broadcast rf = do out ← send_heart_beats rf; some (rf, Outgoing.heart_beats out)

  -- By the state that was read and by what ends the wait. A leader's `select` does not receive from
  -- `receivedVoteChan`: that signal does not end its wait, and the handler that sends it stays
  -- blocked.
  unfoldable pub after_wait : State → Wake → Raft C → Option (Raft C × Outgoing C)
  after_wait State.follower (Wake.signal _) rf = some (rf, Outgoing.nothing)
  after_wait State.follower Wake.timeout rf = campaign rf
  after_wait State.candidate (Wake.signal _) rf = some (rf, Outgoing.nothing)
  after_wait State.candidate Wake.timeout rf = campaign rf
  after_wait State.leader (Wake.signal Signal.heart_beat_chan) rf = some (rf, Outgoing.nothing)
  after_wait State.leader (Wake.signal Signal.received_vote_chan) rf =
      some (rf, Outgoing.still_waiting)
  after_wait State.leader Wake.timeout rf = broadcast rf

  -- A peer that has become a candidate of the next term, with its own vote, and asks for the others
  abbrev pub Campaigns : Raft C → Raft C → RequestVoteArgs → Type 0
  Campaigns rf rf' args =
      (rf'.state ≡ State.candidate)
      × (rf'.current_term ≡ rf.current_term + 1)
      × (rf'.voted_for ≡ some rf.me)
      × (rf'.votes ≡ 1)
      × (args.term ≡ rf.current_term + 1)
      × (args.candidate_id ≡ rf.me)

  campaign_lem :
      (rf : Raft C)
      → IsValid rf
      → (rf' : Raft C) × (args : RequestVoteArgs) × (campaign rf
          ≡ some (rf', Outgoing.ask_votes args (others rf.peers rf.me)))
        × Campaigns rf rf' args
        × IsValid rf'
  unfolding become_candidate
  campaign_lem rf v =
      let (e, p) = last_entry_total rf.log v.sentinel in
      rw p (_, _, refl, (refl, refl, refl, refl, refl, refl), ground arith)

  timed_out :
      (rf : Raft C)
      → IsValid rf
      → (read : State) → read ≢ State.leader
      → (rf' : Raft C) × (args : RequestVoteArgs) × (after_wait read Wake.timeout rf
          ≡ some (rf', Outgoing.ask_votes args (others rf.peers rf.me)))
        × Campaigns rf rf' args
        × IsValid rf'
  unfolding after_wait
  timed_out rf v State.follower h = campaign_lem rf v
  timed_out rf v State.candidate h = campaign_lem rf v
  timed_out rf v State.leader h = absurd (h refl)

  signalled :
      (rf : Raft C) (read : State) (sent : Signal)
      → (out : Outgoing C) × (after_wait read (Wake.signal sent) rf ≡ some (rf, out))
        × ((out ≡ Outgoing.nothing) ⊎ (out ≡ Outgoing.still_waiting))
  unfolding after_wait
  signalled rf State.follower sent = (_, refl, inl refl)
  signalled rf State.candidate sent = (_, refl, inl refl)
  signalled rf State.leader Signal.heart_beat_chan = (_, refl, inl refl)
  signalled rf State.leader Signal.received_vote_chan = (_, refl, inr refl)

  -- A round of the ticker of a well-formed peer does not panic, whichever state it read before its
  -- wait and whatever the peer is by then. After a timeout, a peer that read that it does not lead is a
  -- candidate of the next term, has voted for itself and asks the others for their votes, and is
  -- well-formed; one that read that it leads stays as it is, and sends sane requests to all others if
  -- it still leads and none if it does not. After a signal it stays as it is and sends nothing.
  pub after_wait_lem :
      (rf : Raft C)
      → IsValid rf
      → ((read : State)
          → read ≢ State.leader
          → (rf' : Raft C) × (args : RequestVoteArgs) × (after_wait read Wake.timeout rf
              ≡ some (rf', Outgoing.ask_votes args (others rf.peers rf.me)))
            × Campaigns rf rf' args
            × IsValid rf')
        × ((out : List (ℕ × AppendEntriesArgs C)) × (after_wait State.leader Wake.timeout rf
              ≡ some (rf, Outgoing.heart_beats out))
            × (rf.state ≡ State.leader → map (λ (peer, args). peer) out ≡ others rf.peers rf.me)
            × (rf.state ≢ State.leader → out ≡ [])
            × AllSane rf.peers out)
        × ((read : State) (sent : Signal)
            → (out : Outgoing C) × (after_wait read (Wake.signal sent) rf ≡ some (rf, out))
              × ((out ≡ Outgoing.nothing) ⊎ (out ≡ Outgoing.still_waiting)))
  unfolding after_wait
  after_wait_lem rf v =
      let (out, sent, sane) = send_heart_beats-AllSane rf v in
      let (to_others, to_nobody) = send_heart_beats-peers rf sent in
      (timed_out rf v, (out, rw sent refl, to_others, to_nobody, sane), signalled rf)
