-- ===== src/Raft/Replication/Valid.antt =====
-- Replication keeps a peer well-formed, and no step of it panics on a request of a well-formed
-- leader.
use mr_and_raft.Common.{
  ℕ, ◌+◌, ◌-◌, ◌/◌, ◌<◌, ◌≡◌, refl, inl, inr, true, false, Option, some, List, [], ◌∷◌, ◌++◌, arith,
  Bool-cases, if◌then◌else◌, ◌==◌, ltb, leb, length, get_elem?, get_elem?_total, ◌∙◌, set_elem?,
  set_elem?_total, take, dec_lt,
}
use mr_and_raft.Raft.State.{State, is_leader, LogEntry, Raft, AppendEntriesArgs, AppendEntriesReply}
use mr_and_raft.Raft.Wellformed.{
  first_term, AllPos-set_elem?, IsValid, IsSane, StaysValid, StaysValid-if, StaysValid-bind,
  first_term-append, first_term-take, first_term_of_get, length_pos, is_leader→leader,
}
use mr_and_raft.Raft.Election.Valid.{step_down-IsValid}
use mr_and_raft.Raft.Replication.{
  start, accept_entries, check_previous, append_entries, advance_commit, receive_append_reply,
  note_success, back_off,
}
use mr_and_raft.Raft.Replication.Apply.{commit_to_lem}
use mr_and_raft.Raft.Replication.Commit.{advance_commit_lem}

module _ {ℓ} {C : Type ℓ} where
  with_log-IsValid :
      (rf : Raft C) (log : List (LogEntry C))
      → IsValid rf
      → first_term log ≡ some 0
      → IsValid (record rf { log = log })
  with_log-IsValid rf log v e = ground arith

  -- A leader's write to both of its arrays, for a peer.
  set_arrays :
      (rf : Raft C) (server matched : ℕ)
      → IsValid rf
      → rf.state ≡ State.leader
      → server < rf.peers
      → (ms : List ℕ) × (ns : List ℕ) × (set_elem? rf.match_index server matched ≡ some ms)
        × (set_elem? rf.next_index server (matched + 1) ≡ some ns)
        × IsValid (record rf { match_index = ms; next_index = ns })
  set_arrays rf server matched v lead h =
      let (ms, p, lm) =
        set_elem?_total rf.match_index server matched (omega (arith, v.match_sized lead)) in
      let (ns, q, ln) =
        set_elem?_total rf.next_index server (matched + 1) (omega (arith, v.next_sized lead)) in
      (
        ms,
        ns,
        p,
        q,
        record {
          sentinel = v.sentinel;
          member = v.member;
          next_sized = λ _. ln ∙ v.next_sized lead;
          match_sized = λ _. lm ∙ v.match_sized lead;
          next_pos = λ _.
              AllPos-set_elem? rf.next_index server (matched + 1) (v.next_pos lead) (omega arith) q;
        },
      )

  pub start-IsValid :
      (command : Option C) (rf : Raft C) → IsValid rf → StaysValid (start command rf) (λ x. x.0)
  unfolding start
  start-IsValid command rf v = elim (Bool-cases (is_leader rf.state)) [
    | inr e ↦ rw e (_, refl, v)
    | inl e ↦
        let log = rf.log ++ record { term = rf.current_term; command = command } ∷ [] in
        let (ms, ns, p, q, v') =
          set_arrays (record rf { log = log }) rf.me (length log - 1)
            (with_log-IsValid rf log v (first_term-append rf.log _ v.sentinel))
            (is_leader→leader rf.state e) v.member in
        rw (e, p, q) (_, refl, v')
  ]

  accept_entries-IsValid :
      (args : AppendEntriesArgs C) (rf : Raft C)
      → IsValid rf
      → StaysValid (accept_entries args rf) (λ x. x.0)
  unfolding accept_entries
  accept_entries-IsValid args rf v =
      let log = take (args.prev_log_index + 1) rf.log ++ args.entries in
      let starts : first_term log ≡ some 0 =
        first_term-append (take (args.prev_log_index + 1) rf.log) args.entries
          (first_term-take (args.prev_log_index + 1) rf.log (omega arith) ∙ v.sentinel) in
      let v1 = with_log-IsValid rf log v starts in
      let rf1 = record rf { log = log } in
      let target =
        if ltb (length log - 1) args.leader_commit then length log - 1 else args.leader_commit in
      let run = commit_to_lem target rf1 (ground (arith, length_pos log starts)) in
      StaysValid-if _ _ (StaysValid-bind _ _ run (_, refl, ground arith)) (_, refl, v1)

  -- Only an index above 0 can conflict with a sane request, so the sentinel is never cut off.
  conflict_pos :
      (args : AppendEntriesArgs C) (log : List (LogEntry C)) (entry : LogEntry C)
      → IsSane args
      → first_term log ≡ some 0
      → get_elem? log args.prev_log_index ≡ some entry
      → args.prev_log_term == entry.term ≡ false
      → 0 < args.prev_log_index
  conflict_pos args log entry sane first at other = elim (dec_lt 0 args.prev_log_index) [
    | yes p ↦ p
    | no p ↦
        let zero_index : args.prev_log_index ≡ 0 = omega arith in
        let zero_term : entry.term ≡ 0 = first_term_of_get log first (rw zero_index at at) in
        ground (arith, sane zero_index)
  ]

  check_previous-IsValid :
      (args : AppendEntriesArgs C) (rf : Raft C)
      → IsSane args
      → IsValid rf
      → StaysValid (check_previous args rf) (λ x. x.0)
  unfolding check_previous
  check_previous-IsValid args rf sane v = elim (dec_lt args.prev_log_index (length rf.log)) [
    | no out ↦
        let long : leb (length rf.log) args.prev_log_index ≡ true = ground arith in
        rw long (_, refl, v)
    | yes within ↦
        let inside : leb (length rf.log) args.prev_log_index ≡ false = ground arith in
        let (entry, at) = get_elem?_total rf.log args.prev_log_index within in
        rw (inside, at)
          (elim (Bool-cases (args.prev_log_term == entry.term)) [
            | inl same ↦ rw same (accept_entries-IsValid args rf v)
            | inr other ↦ rw other (
              _,
              refl,
              with_log-IsValid rf (take args.prev_log_index rf.log) v (
                  first_term-take args.prev_log_index rf.log
                    (conflict_pos args rf.log entry sane v.sentinel at other)
                  ∙ v.sentinel),
            )
          ])
  ]

  pub append_entries-IsValid :
      (args : AppendEntriesArgs C) (rf : Raft C)
      → IsSane args
      → IsValid rf
      → StaysValid (append_entries args rf) (λ x. x.0)
  unfolding append_entries
  append_entries-IsValid args rf sane v =
      StaysValid-if _ _ (_, refl, v)
        (StaysValid-if _ _ (check_previous-IsValid args _ sane (step_down-IsValid args.term v))
          (check_previous-IsValid args rf sane v))

  advance_commit-IsValid :
      (rf : Raft C)
      → IsValid rf
      → rf.state ≡ State.leader
      → StaysValid (advance_commit rf) (λ x. x.0)
  advance_commit-IsValid rf v lead = elim (advance_commit_lem rf lead) [
    | inl (same, _) ↦ (_, same, v)
    | inr (n, _, _, _, _, run) ↦ (_, run, ground arith)
  ]

  note_success-IsValid :
      (server : ℕ) (args : AppendEntriesArgs C) (rf : Raft C)
      → server < rf.peers
      → IsValid rf
      → rf.state ≡ State.leader
      → StaysValid (note_success server args rf) (λ x. x.0)
  unfolding note_success
  note_success-IsValid server args rf h v lead =
      let matched = length args.entries + args.prev_log_index in
      let (ms, ns, p, q, v') = set_arrays rf server matched v lead h in
      rw (p, q) (advance_commit-IsValid _ v' lead)

  back_off-IsValid :
      (server : ℕ) (rf : Raft C)
      → server < rf.peers
      → IsValid rf
      → rf.state ≡ State.leader
      → StaysValid (back_off server rf) (λ x. x.0)
  unfolding back_off
  back_off-IsValid server rf h v lead =
      let (next, at) = get_elem?_total rf.next_index server (omega (arith, v.next_sized lead)) in
      let (halved, r, l) =
        set_elem?_total rf.next_index server (next / 2) (omega (arith, v.next_sized lead)) in
      rw at (elim (Bool-cases (ltb 1 next)) [
        | inl big ↦
            rw (big, r)
              (
                _,
                refl,
                record {
                  sentinel = v.sentinel;
                  member = v.member;
                  next_sized = λ _. l ∙ v.next_sized lead;
                  match_sized = v.match_sized;
                  next_pos = λ _.
                      AllPos-set_elem? rf.next_index server (next / 2) (v.next_pos lead)
                        (ground arith) r;
                },
              )
        | inr small ↦ rw small (advance_commit-IsValid rf v lead)
      ])

  pub receive_append_reply-IsValid :
      (server : ℕ) (args : AppendEntriesArgs C) (reply : AppendEntriesReply) (rf : Raft C)
      → server < rf.peers
      → IsValid rf
      → StaysValid (receive_append_reply server args reply rf) (λ x. x.0)
  unfolding receive_append_reply
  receive_append_reply-IsValid server args reply rf h v = elim (Bool-cases (is_leader rf.state)) [
    | inr e ↦ rw e (_, refl, v)
    | inl e ↦
        let lead = is_leader→leader rf.state e in
        rw e (
          StaysValid-if _ _ (_, refl, step_down-IsValid reply.term v)
            (StaysValid-if _ _ (note_success-IsValid server args rf h v lead)
              (back_off-IsValid server rf h v lead)))
  ]
