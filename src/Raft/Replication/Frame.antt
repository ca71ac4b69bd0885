-- ===== src/Raft/Replication/Frame.antt =====
-- Replication takes no part in elections, but for stepping down at a higher term.
use mr_and_raft.Common.{
  ℕ, zero, suc, ◌+◌, ◌-◌, inl, inr, Option, arith, Bool-cases, if◌then◌else◌, ltb, Ensures,
  Ensures-some, Ensures-if, Ensures-bind, Ensures-after, leb, length, List, ltb→lt, Ensures-map,
  ◌/◌, ◌∷◌, [], ◌++◌, take, get_elem?, set_elem?, ◌==◌,
}
use mr_and_raft.Raft.State.{
  is_leader, LogEntry, Raft, AppendEntriesArgs, AppendEntriesReply, step_down,
}
use mr_and_raft.Raft.Ripple.{Same, Ripple, Same→Ripple, Ripple-step_down}
use mr_and_raft.Raft.Replication.{
  start, apply_loop, commit_to, accept_entries, check_previous, append_entries, commit_scan,
  note_success, back_off, receive_append_reply, may_commit, advance_commit,
}

module _ {ℓ} {C : Type ℓ} where
  Same-refl : (rf : Raft C) → Same rf rf
  Same-refl rf = ground arith

  record_log : (rf : Raft C) (log : List (LogEntry C)) → Same rf (record rf { log = log })
  record_log rf log = ground arith

  appended :
      (rf : Raft C) (log : List (LogEntry C)) (ms ns : List ℕ)
      → Same rf (record rf { log = log; match_index = ms; next_index = ns })
  appended rf log ms ns = ground arith

  apply_loop-Same :
      (n i : ℕ) (rf rf0 : Raft C) → Same rf0 rf → Ensures (λ x. Same rf0 x.0) (apply_loop n i rf)
  unfolding apply_loop
  apply_loop-Same zero i rf rf0 s = Ensures-some s
  apply_loop-Same (suc n) i rf rf0 s = Ensures-bind _ (λ entry.
      Ensures-after (apply_loop-Same n (i + 1) (record rf { last_applied = i }) rf0 (ground arith))
        (λ x h. Ensures-some h))

  commit_to-Same :
      (n : ℕ) (rf rf0 : Raft C) → Same rf0 rf → Ensures (λ x. Same rf0 x.0) (commit_to n rf)
  unfolding commit_to
  commit_to-Same n rf rf0 s =
      apply_loop-Same (n - rf.last_applied) (rf.last_applied + 1) (record rf { commit_index = n })
        rf0 (ground arith)

  accept_entries-Same :
      (args : AppendEntriesArgs C) (rf : Raft C)
      → Ensures (λ x. Same rf x.0) (accept_entries args rf)
  unfolding accept_entries
  accept_entries-Same args rf =
      let log = take (args.prev_log_index + 1) rf.log ++ args.entries in
      let target =
        if ltb (length log - 1) args.leader_commit then length log - 1 else args.leader_commit in
      Ensures-if (ltb rf.commit_index args.leader_commit)
        (Ensures-after (commit_to-Same target (record rf { log = log }) rf (ground arith))
          (λ x h. Ensures-some h))
        (Ensures-some (record_log rf log))

  check_previous-Same :
      (args : AppendEntriesArgs C) (rf : Raft C)
      → Ensures (λ x. Same rf x.0) (check_previous args rf)
  unfolding check_previous
  check_previous-Same args rf =
      Ensures-if (leb (length rf.log) args.prev_log_index) (Ensures-some (Same-refl rf)) (
        Ensures-bind (get_elem? rf.log args.prev_log_index) (λ entry.
          Ensures-if (args.prev_log_term == entry.term) (accept_entries-Same args rf)
            (Ensures-some (record_log rf (take args.prev_log_index rf.log)))))

  pub append_entries-Ripple :
      (args : AppendEntriesArgs C) (rf : Raft C)
      → Ensures (λ x. Ripple rf x.0) (append_entries args rf)
  unfolding append_entries
  append_entries-Ripple args rf = elim (Bool-cases (ltb rf.current_term args.term)) [
    | inl newer ↦ rw newer (
        Ensures-if (ltb args.term rf.current_term) (Ensures-some (Same→Ripple (Same-refl rf))) (
          Ensures-map (λ x. Ripple-step_down (ltb→lt _ _ newer))
            (check_previous-Same args (step_down args.term rf))))
    | inr same ↦ rw same (
        Ensures-if (ltb args.term rf.current_term) (Ensures-some (Same→Ripple (Same-refl rf)))
          (Ensures-map (λ x. Same→Ripple) (check_previous-Same args rf)))
  ]

  commit_scan-Same : (r : ℕ) (rf : Raft C) → Ensures (λ x. Same rf x.0) (commit_scan r rf)
  unfolding commit_scan
  commit_scan-Same zero rf = Ensures-some (Same-refl rf)
  commit_scan-Same (suc r) rf = Ensures-bind (get_elem? rf.log (rf.commit_index + r)) (λ entry.
      Ensures-if (may_commit (rf.commit_index + r) entry rf)
        (commit_to-Same (rf.commit_index + r) rf rf (Same-refl rf)) (commit_scan-Same r rf))

  arrays-Same :
      (rf : Raft C) (ms ns : List ℕ) → Same rf (record rf { match_index = ms; next_index = ns })
  arrays-Same rf ms ns = ground arith

  advance_commit-Same :
      (rf : Raft C) (ms ns : List ℕ)
      → Ensures
          (λ x. Same rf x.0)
          (advance_commit (record rf { match_index = ms; next_index = ns }))
  advance_commit-Same rf ms ns =
      Ensures-map (λ x s. ground (arith, arrays-Same rf ms ns))
        (commit_scan-Same _ (record rf { match_index = ms; next_index = ns }))

  note_success-Same :
      (server : ℕ) (args : AppendEntriesArgs C) (rf : Raft C)
      → Ensures (λ x. Same rf x.0) (note_success server args rf)
  unfolding note_success
  note_success-Same server args rf =
      let matched = length args.entries + args.prev_log_index in
      Ensures-bind (set_elem? rf.match_index server matched) (λ ms.
        Ensures-bind (set_elem? rf.next_index server (matched + 1))
          (λ ns. advance_commit-Same rf ms ns))

  back_off-Same : (server : ℕ) (rf : Raft C) → Ensures (λ x. Same rf x.0) (back_off server rf)
  unfolding back_off
  back_off-Same server rf = Ensures-bind (get_elem? rf.next_index server) (λ next.
      Ensures-if (ltb 1 next)
        (Ensures-bind (set_elem? rf.next_index server (next / 2))
          (λ ns. Ensures-some (arrays-Same rf rf.match_index ns)))
        (advance_commit-Same rf rf.match_index rf.next_index))

  pub receive_append_reply-Ripple :
      (server : ℕ) (args : AppendEntriesArgs C) (reply : AppendEntriesReply) (rf : Raft C)
      → Ensures (λ x. Ripple rf x.0) (receive_append_reply server args reply rf)
  unfolding receive_append_reply
  receive_append_reply-Ripple server args reply rf =
      elim (Bool-cases (ltb rf.current_term reply.term)) [
        | inl newer ↦ rw newer (
            Ensures-if (is_leader rf.state)
              (Ensures-some
                (Ripple-step_down (ltb→lt _ _ newer) (Same-refl (step_down reply.term rf))))
              (Ensures-some (Same→Ripple (Same-refl rf))))
        | inr same ↦ rw same (
            Ensures-if (is_leader rf.state)
              (Ensures-if reply.success
                (Ensures-map (λ x. Same→Ripple) (note_success-Same server args rf))
                (Ensures-map (λ x. Same→Ripple) (back_off-Same server rf)))
              (Ensures-some (Same→Ripple (Same-refl rf))))
      ]

  pub start-Ripple :
      (command : Option C) (rf : Raft C) → Ensures (λ x. Ripple rf x.0) (start command rf)
  unfolding start
  start-Ripple command rf =
      let log = rf.log ++ record { term = rf.current_term; command = command } ∷ [] in
      Ensures-if (is_leader rf.state)
        (Ensures-bind (set_elem? rf.match_index rf.me (length log - 1)) (λ ms.
          Ensures-bind (set_elem? rf.next_index rf.me (length log - 1 + 1))
            (λ ns. Ensures-some (Same→Ripple (appended rf log ms ns)))))
        (Ensures-some (Same→Ripple (Same-refl rf)))
