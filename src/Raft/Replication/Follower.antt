-- ===== src/Raft/Replication/Follower.antt =====
-- What `AppendEntries` does to a follower: when it accepts, and what its log and commit index are
-- then.
use mr_and_raft.Common.{
  ℕ, ◌+◌, ◌-◌, ◌≤◌, ◌<◌, ◌≡◌, inl, inr, true, false, some, List, [], ◌++◌, arith, Bool-cases,
  if◌then◌else◌, ◌==◌, ltb, leb, length, get_elem?, take, get_elem?_total, lt-length_of_get,
  length-append, length-take, min, max, ==_iff, ◌||◌,
}
use mr_and_raft.Raft.State.{Signal, LogEntry, ApplyMsg, Raft, AppendEntriesArgs, step_down}
use mr_and_raft.Raft.Replication.{accept_entries, check_previous, append_entries}
use mr_and_raft.Raft.Replication.Apply.{commit_to_lem, committed_at, newly_applied}

min_if : (a b : ℕ) → (if ltb b a then b else a) ≡ min a b
min_if a b = ground arith

module _ {ℓ} {C : Type ℓ} where
  -- The entry that a request names as the previous one is in the log, with the term that it names.
  abbrev pub Matches : AppendEntriesArgs C → List (LogEntry C) → Type ℓ
  Matches args log =
      (entry : LogEntry C) × (get_elem? log args.prev_log_index ≡ some entry)
      × (args.prev_log_term ≡ entry.term)

  -- The log that an accepted request leaves.
  abbrev pub merged : AppendEntriesArgs C → List (LogEntry C) → List (LogEntry C)
  merged args log = take (args.prev_log_index + 1) log ++ args.entries

  -- The peer after a request is accepted, and the entries that this commits.
  abbrev pub accepted : AppendEntriesArgs C → Raft C → Raft C × List (ApplyMsg C)
  accepted args rf =
      let rf1 = record rf { log = merged args rf.log } in
      if ltb rf.commit_index args.leader_commit
      then (let n = min args.leader_commit (length rf1.log - 1) in
          (committed_at n rf1, newly_applied n rf1))
      else (rf1, [])

  merged_pos :
      (args : AppendEntriesArgs C) (log : List (LogEntry C))
      → 0 < length log
      → 0 < length (merged args log)
  merged_pos args log h = omega (
    arith,
    length-append (take (args.prev_log_index + 1) log) args.entries,
    length-take (args.prev_log_index + 1) log,
  )

  accept_entries_lem :
      (args : AppendEntriesArgs C) (rf : Raft C)
      → 0 < length rf.log
      → let (rf', msgs) = accepted args rf in
        accept_entries args rf
        ≡ some
            (rf', record { term = rf.current_term; success = true }, msgs, Signal.heart_beat_chan)
  unfolding accept_entries
  accept_entries_lem args rf h = elim (Bool-cases (ltb rf.commit_index args.leader_commit)) [
    | inr e ↦ rw e
    | inl e ↦
        let n = min args.leader_commit (length (merged args rf.log) - 1) in
        let run =
          commit_to_lem n (record rf { log = merged args rf.log })
            (omega (arith, merged_pos args rf.log h)) in
        rw (e, min_if args.leader_commit (length (merged args rf.log) - 1), run)
  ]

  -- A peer that has seen a request of the given term.
  abbrev pub caught_up : ℕ → Raft C → Raft C
  caught_up term rf = if ltb rf.current_term term then step_down term rf else rf

  check_previous_accepts :
      (args : AppendEntriesArgs C) (rf : Raft C)
      → Matches args rf.log
      → let (rf', msgs) = accepted args rf in
        check_previous args rf
        ≡ some
            (rf', record { term = rf.current_term; success = true }, msgs, Signal.heart_beat_chan)
  unfolding check_previous
  check_previous_accepts args rf (entry, at, same) =
      let within = lt-length_of_get rf.log args.prev_log_index at in
      let inside : leb (length rf.log) args.prev_log_index ≡ false = ground arith in
      let equal : args.prev_log_term == entry.term ≡ true = ground arith in
      rw (inside, at, equal) (accept_entries_lem args rf (omega arith))

  -- A request of a current term whose previous entry matches is accepted: the entries behind the
  -- previous one become those of the request, and the commit index rises to the leader's, but no
  -- further than the last entry; what this commits is sent in order.
  pub append_entries_accepts :
      (args : AppendEntriesArgs C) (rf : Raft C)
      → rf.current_term ≤ args.term
      → Matches args rf.log
      → let (rf', msgs) = accepted args (caught_up args.term rf) in
        append_entries args rf
        ≡ some (rf', record { term = args.term; success = true }, msgs, Signal.heart_beat_chan)
  unfolding append_entries
  append_entries_accepts args rf h m =
      let fresh : ltb args.term rf.current_term ≡ false = ground arith in
      elim (Bool-cases (ltb rf.current_term args.term)) [
        | inl newer ↦ rw (fresh, newer) (check_previous_accepts args (step_down args.term rf) m)
        | inr same ↦
            let equal : args.term ≡ rf.current_term = ground arith in
            rw (fresh, same, equal) (check_previous_accepts args rf m)
      ]

  -- The log that a request leaves when it is refused: cut off at a conflicting previous entry.
  abbrev pub refused_log : AppendEntriesArgs C → Raft C → List (LogEntry C)
  refused_log args rf =
      if ltb args.term rf.current_term || leb (length rf.log) args.prev_log_index
      then rf.log
      else take args.prev_log_index rf.log

  abbrev pub refused : AppendEntriesArgs C → Raft C → Raft C
  refused args rf = record (caught_up args.term rf) { log = refused_log args rf }

  check_previous_refuses :
      (args : AppendEntriesArgs C) (rf : Raft C)
      → ¬ Matches args rf.log
      → check_previous args rf
        ≡ some (
          record rf {
            log =
                if leb (length rf.log) args.prev_log_index
                then rf.log
                else take args.prev_log_index rf.log;
          },
          record { term = rf.current_term; success = false },
          [],
          Signal.heart_beat_chan,
        )
  unfolding check_previous
  check_previous_refuses args rf no_match =
      elim (Bool-cases (leb (length rf.log) args.prev_log_index)) [
        | inl out ↦ rw out
        | inr within ↦
            let (entry, at) = get_elem?_total rf.log args.prev_log_index (ground arith) in
            elim (Bool-cases (args.prev_log_term == entry.term)) [
              | inl same ↦ absurd (no_match (entry, at, (==_iff _ _).0 same))
              | inr other ↦ rw (within, at, other)
            ]
      ]

  -- Every other request is refused: the peer takes over a higher term, its log is cut off at a
  -- previous entry of another term and else kept, and nothing is committed.
  pub append_entries_refuses :
      (args : AppendEntriesArgs C) (rf : Raft C)
      → ¬ ((rf.current_term ≤ args.term) × Matches args rf.log)
      → append_entries args rf
        ≡ some (
          refused args rf,
          record { term = max rf.current_term args.term; success = false },
          [],
          Signal.heart_beat_chan,
        )
  unfolding append_entries
  append_entries_refuses args rf no_match = elim (Bool-cases (ltb args.term rf.current_term)) [
    | inl stale ↦
        let older : ltb rf.current_term args.term ≡ false = ground arith in
        let top : max rf.current_term args.term ≡ rf.current_term = ground arith in
        rw (stale, older, top)
    | inr fresh ↦
        let le : rf.current_term ≤ args.term = ground arith in
        let top : max rf.current_term args.term ≡ args.term = omega arith in
        let unmatched : ¬ Matches args rf.log = λ m. no_match (le, m) in
        elim (Bool-cases (ltb rf.current_term args.term)) [
          | inl newer ↦
              rw (fresh, newer, top)
                (check_previous_refuses args (step_down args.term rf) unmatched)
          | inr same ↦
              let equal : args.term ≡ rf.current_term = ground arith in
              rw (fresh, same, top, equal) (check_previous_refuses args rf unmatched)
        ]
  ]

  pub log-accepted :
      (args : AppendEntriesArgs C) (rf : Raft C)
      → (accepted args (caught_up args.term rf)).0.log ≡ merged args rf.log
  log-accepted args rf = ground arith

  pub commit_index-accepted :
      (args : AppendEntriesArgs C) (rf : Raft C)
      → (accepted args (caught_up args.term rf)).0.commit_index ≡ (
          if ltb rf.commit_index args.leader_commit
          then min args.leader_commit (length (merged args rf.log) - 1)
          else rf.commit_index)
  commit_index-accepted args rf = ground arith
