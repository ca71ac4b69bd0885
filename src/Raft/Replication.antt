-- ===== src/Raft/Replication.antt =====
-- raft/raft.go: `Start`, `AppendEntries`, `sendAppendEntries` from the reply on, `sendHeartBeats`.
pub mod Apply
pub mod Commit
pub mod Valid
pub mod HeartBeat
pub mod Follower
pub mod Convergence
pub mod Frame
use mr_and_raft.Common.{
  ℕ, zero, suc, ◌+◌, ◌-◌, ◌/◌, Bool, true, false, ◌&&◌, Option, none, some, List, [], ◌∷◌, ◌++◌,
  ltb, leb, ◌==◌, if◌then◌else◌, length, get_elem?, set_elem?, take, drop, ◌>>=◌,
}
use mr_and_raft.Raft.State.{
  is_leader, Signal, AppendEntriesArgs, AppendEntriesReply, LogEntry, ApplyMsg, Raft, last_entry,
  step_down,
}
use mr_and_raft.Raft.Election.{others}

-- `count` of `sendAppendEntries`: the servers that hold the log up to index `n`
abbrev pub replicas : ℕ → List ℕ → ℕ
replicas n [] = 0
replicas n (idx ∷ match_index) =
    let rest = replicas n match_index in if leb n idx then rest + 1 else rest

module _ {ℓ} {C : Type ℓ} where
  -- The returned index is `none` for -1.
  unfoldable pub start : Option C → Raft C → Option (Raft C × Option ℕ × ℕ × Bool)
  start command rf =
      if is_leader rf.state
      then (let log = rf.log ++ record { term = rf.current_term; command = command } ∷ [] in
          let index = length log - 1 in
          do
            match_index ← set_elem? rf.match_index rf.me index
            next_index ← set_elem? rf.next_index rf.me (index + 1)
            some (
              record rf { log = log; match_index = match_index; next_index = next_index },
              some index,
              rf.current_term,
              true,
            ))
      else some (rf, none, rf.current_term, false)

  -- `for startIndex := …; startIndex <= rf.commitIndex; startIndex++`, by the rounds left
  pub apply_loop : ℕ → ℕ → Raft C → Option (Raft C × List (ApplyMsg C))
  apply_loop zero start_index rf = some (rf, [])
  apply_loop (suc n) start_index rf = do
    entry ← get_elem? rf.log start_index
    (rf', msgs) ← apply_loop n (start_index + 1) (record rf { last_applied = start_index })
    some (
      rf',
      record { command_valid = true; command = entry.command; command_index = start_index } ∷ msgs,
    )

  -- `rf.commitIndex = n`, and the loop that sends what has become committed
  pub commit_to : ℕ → Raft C → Option (Raft C × List (ApplyMsg C))
  unfolding apply_loop
  commit_to n rf =
      apply_loop (n - rf.last_applied) (rf.last_applied + 1) (record rf { commit_index = n })

  -- `AppendEntries` once the previous entry has been found to match
  pub accept_entries :
      AppendEntriesArgs C
      → Raft C
      → Option (Raft C × AppendEntriesReply × List (ApplyMsg C) × Signal)
  unfolding commit_to
  accept_entries args rf =
      let rf1 = record rf { log = take (args.prev_log_index + 1) rf.log ++ args.entries } in
      let reply : AppendEntriesReply = record { term = rf.current_term; success = true } in
      if ltb rf1.commit_index args.leader_commit
      then (do
        (rf2, msgs) ←
            commit_to
              (if ltb (length rf1.log - 1) args.leader_commit
                then length rf1.log - 1
                else args.leader_commit)
              rf1
        some (rf2, reply, msgs, Signal.heart_beat_chan))
      else some (rf1, reply, [], Signal.heart_beat_chan)

  -- `AppendEntries` from the comparison of the logs on
  pub check_previous :
      AppendEntriesArgs C
      → Raft C
      → Option (Raft C × AppendEntriesReply × List (ApplyMsg C) × Signal)
  unfolding accept_entries
  check_previous args rf =
      let refused : AppendEntriesReply = record { term = rf.current_term; success = false } in
      if leb (length rf.log) args.prev_log_index
      then some (rf, refused, [], Signal.heart_beat_chan)
      else (do
        entry ← get_elem? rf.log args.prev_log_index
        if args.prev_log_term == entry.term
            then accept_entries args rf
            else some (
              record rf { log = take args.prev_log_index rf.log },
              refused,
              [],
              Signal.heart_beat_chan,
            ))

  unfoldable pub append_entries :
      AppendEntriesArgs C
      → Raft C
      → Option (Raft C × AppendEntriesReply × List (ApplyMsg C) × Signal)
  unfolding check_previous
  append_entries args rf =
      if ltb args.term rf.current_term
      then some (rf, record { term = rf.current_term; success = false }, [], Signal.heart_beat_chan)
      else if ltb rf.current_term args.term
      then check_previous args (step_down args.term rf)
      else check_previous args rf

  -- `log[N].term == currentTerm`, and a majority holds the log up to `N`
  abbrev pub may_commit : ℕ → LogEntry C → Raft C → Bool
  may_commit n entry rf =
      ltb (rf.peers / 2) (if entry.term == rf.current_term then replicas n rf.match_index else 0)
      && is_leader rf.state

  -- `for N := len(rf.log) - 1; N >= rf.commitIndex; N--`, by the rounds left: `N` is the commit index
  -- plus the rounds after this one.
  pub commit_scan : ℕ → Raft C → Option (Raft C × List (ApplyMsg C))
  unfolding commit_to
  commit_scan zero rf = some (rf, [])
  commit_scan (suc r) rf =
      let rest = commit_scan r rf in
      do
        entry ← get_elem? rf.log (rf.commit_index + r)
        if may_commit (rf.commit_index + r) entry rf
            then commit_to (rf.commit_index + r) rf
            else rest

  abbrev pub advance_commit : Raft C → Option (Raft C × List (ApplyMsg C))
  advance_commit rf = commit_scan (length rf.log - rf.commit_index) rf

  -- The reply of a peer that has taken the entries of `args`
  pub note_success : ℕ → AppendEntriesArgs C → Raft C → Option (Raft C × List (ApplyMsg C))
  unfolding commit_scan
  note_success server args rf =
      let matched = length args.entries + args.prev_log_index in
      do
        match_index ← set_elem? rf.match_index server matched
        next_index ← set_elem? rf.next_index server (matched + 1)
        advance_commit (record rf { match_index = match_index; next_index = next_index })

  -- The reply of a peer that has refused them
  pub back_off : ℕ → Raft C → Option (Raft C × List (ApplyMsg C))
  unfolding commit_scan
  back_off server rf = do
    next ← get_elem? rf.next_index server
    if ltb 1 next
        then (do
          next_index ← set_elem? rf.next_index server (next / 2)
          some (record rf { next_index = next_index }, []))
        else advance_commit rf

  -- `sendAppendEntries` once `Call` has returned true
  unfoldable pub receive_append_reply :
      ℕ → AppendEntriesArgs C → AppendEntriesReply → Raft C → Option (Raft C × List (ApplyMsg C))
  unfolding note_success back_off
  receive_append_reply server args reply rf =
      if is_leader rf.state
      then (if ltb rf.current_term reply.term
          then some (step_down reply.term rf, [])
          else if reply.success
          then note_success server args rf
          else back_off server rf)
      else some (rf, [])

  -- `rf.log[rf.nextIndex[peer]-1]`, where the index may be -1
  abbrev pub entry_before : ℕ → List (LogEntry C) → Option (LogEntry C)
  entry_before zero log = none
  entry_before (suc next) log = get_elem? log next

  -- What `sendHeartBeats` sends to one peer. A `nextIndex` of 0 would make `PrevLogIndex` -1; it
  -- panics where the log is longer, and the stop of `-` at 0 is not reached where it is not.
  pub heart_beat_args : ℕ → Raft C → Option (AppendEntriesArgs C)
  heart_beat_args peer rf = do
    next ← get_elem? rf.next_index peer
    previous ← if ltb next (length rf.log) then entry_before next rf.log else last_entry rf.log
    some (record {
      term = rf.current_term;
      leader_id = rf.me;
      prev_log_index = next - 1;
      prev_log_term = previous.term;
      entries = if ltb next (length rf.log) then drop next rf.log else [];
      leader_commit = rf.commit_index;
    })

  pub heart_beats_to : List ℕ → Raft C → Option (List (ℕ × AppendEntriesArgs C))
  unfolding heart_beat_args
  heart_beats_to [] rf = some []
  heart_beats_to (peer ∷ rest) rf = do
    args ← heart_beat_args peer rf
    more ← heart_beats_to rest rf
    some ((peer, args) ∷ more)

  unfoldable pub send_heart_beats : Raft C → Option (List (ℕ × AppendEntriesArgs C))
  unfolding heart_beats_to
  send_heart_beats rf =
      if is_leader rf.state then heart_beats_to (others rf.peers rf.me) rf else some []
