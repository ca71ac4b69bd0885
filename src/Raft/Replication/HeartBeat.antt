-- ===== src/Raft/Replication/HeartBeat.antt =====
-- `sendHeartBeats` of a well-formed leader does not panic, and its requests name the sentinel's term
-- where they name the sentinel.
use mr_and_raft.Common.{
  ℕ, zero, suc, ◌+◌, ◌-◌, ◌≤◌, ◌<◌, ◌≡◌, refl, inl, inr, false, true, some, map, ap, sym, ◌∙◌, ◌≢◌,
  some_inj, >>=-eq-some, List, [], ◌∷◌, arith, Bool-cases, if◌then◌else◌, ◌==◌, ltb, length,
  get_elem?, get_elem?_total, dec_lt, lt→ltb,
}
use mr_and_raft.Raft.State.{State, is_leader, LogEntry, Raft, AppendEntriesArgs, last_entry}
use mr_and_raft.Raft.Wellformed.{
  first_term, AllPos-get_elem?, IsValid, IsSane, AllSane, first_term_of_get, last_entry_total,
  length_pos, is_leader→leader,
}
use mr_and_raft.Raft.Election.{others, others_from}
use mr_and_raft.Raft.Replication.{entry_before, heart_beat_args, heart_beats_to, send_heart_beats}

module _ {ℓ} {C : Type ℓ} where
  entry_before_total :
      (next : ℕ) (log : List (LogEntry C))
      → 0 < next
      → next < length log
      → (e : LogEntry C) × (entry_before next log ≡ some e) × (next ≡ 1 → get_elem? log 0 ≡ some e)
  entry_before_total zero log p h = absurd (omega arith)
  entry_before_total (suc k) log p h =
      let (e, at) = get_elem?_total log k (omega arith) in
      (e, at, λ one. let first : k ≡ 0 = omega arith in rw first at at)

  -- The entry that `sendHeartBeats` names as the previous one
  previous_total :
      (next : ℕ) (log : List (LogEntry C))
      → first_term log ≡ some 0
      → 0 < next
      → (e : LogEntry C) × ((if ltb next (length log)
            then entry_before next log
            else last_entry log)
          ≡ some e)
        × (next ≡ 1 → e.term ≡ 0)
  previous_total next log first pos = elim (dec_lt next (length log)) [
    | yes short ↦
        let (e, at, start_at) = entry_before_total next log pos short in
        (e, rw (lt→ltb _ _ short) at, λ one. first_term_of_get log first (start_at one))
    | no long ↦
        let (e, at) = last_entry_total log first in
        let test : ltb next (length log) ≡ false = ground arith in
        (
          e,
          rw test at,
          λ one.
              let only : length log - 1 ≡ 0 = omega (arith, length_pos log first) in
              first_term_of_get log first (rw only at at),
        )
  ]

  -- A valid leader's request for a peer.
  heart_beat_args-IsSane :
      (peer : ℕ) (rf : Raft C)
      → IsValid rf
      → rf.state ≡ State.leader
      → peer < rf.peers
      → (args : AppendEntriesArgs C) × (heart_beat_args peer rf ≡ some args) × IsSane args
  unfolding heart_beat_args
  heart_beat_args-IsSane peer rf v lead h =
      let (next, at) = get_elem?_total rf.next_index peer (omega (arith, v.next_sized lead)) in
      let pos = AllPos-get_elem? rf.next_index peer (v.next_pos lead) at in
      let (e, before, one) = previous_total next rf.log v.sentinel pos in
      rw (at, before) (_, refl, λ zero_index. one (omega arith))

  heart_beats_to-AllSane :
      (n first me : ℕ) (rf : Raft C)
      → IsValid rf
      → rf.state ≡ State.leader
      → first + n ≤ rf.peers
      → (out : List (ℕ × AppendEntriesArgs C)) × (heart_beats_to (others_from n first me) rf
          ≡ some out)
        × AllSane rf.peers out
  unfolding heart_beats_to
  heart_beats_to-AllSane zero first me rf v lead h = ([], refl, tt)
  heart_beats_to-AllSane (suc n) first me rf v lead h =
      let (out, run, sane) = heart_beats_to-AllSane n (first + 1) me rf v lead (omega arith) in
      let (args, p, q) = heart_beat_args-IsSane first rf v lead (omega arith) in
      elim (Bool-cases (first == me)) [
        | inl e ↦ rw e (out, run, sane)
        | inr e ↦ rw e ((first, args) ∷ out, rw (p, run), (omega arith, q, sane))
      ]

  pub send_heart_beats-AllSane :
      (rf : Raft C)
      → IsValid rf
      → (out : List (ℕ × AppendEntriesArgs C)) × (send_heart_beats rf ≡ some out)
        × AllSane rf.peers out
  unfolding send_heart_beats
  send_heart_beats-AllSane rf v = elim (Bool-cases (is_leader rf.state)) [
    | inl e ↦
        rw e
          (heart_beats_to-AllSane rf.peers 0 rf.me rf v (is_leader→leader rf.state e) (omega arith))
    | inr e ↦ rw e ([], refl, tt)
  ]

  heart_beats_to-peers :
      (peers : List ℕ) (rf : Raft C) {out : List (ℕ × AppendEntriesArgs C)}
      → heart_beats_to peers rf ≡ some out
      → map (λ (peer, args). peer) out ≡ peers
  unfolding heart_beats_to
  heart_beats_to-peers [] rf e = let same = some_inj e in rw⁻¹ same refl
  heart_beats_to-peers (peer ∷ rest) rf e =
      let (args, _, e') = >>=-eq-some (heart_beat_args peer rf) _ e in
      let (more, run, last) = >>=-eq-some (heart_beats_to rest rf) _ e' in
      let same = some_inj last in rw⁻¹ same (ap (◌∷◌ peer) (heart_beats_to-peers rest rf run))

  -- Who is sent heartbeats: the others where the peer still leads, and nobody where it does not
  pub send_heart_beats-peers :
      (rf : Raft C) {out : List (ℕ × AppendEntriesArgs C)}
      → send_heart_beats rf ≡ some out
      → (rf.state ≡ State.leader → map (λ (peer, args). peer) out ≡ others rf.peers rf.me)
        × (rf.state ≢ State.leader → out ≡ [])
  unfolding send_heart_beats
  send_heart_beats-peers rf e = elim (Bool-cases (is_leader rf.state)) [
    | inl leads ↦ (
      (λ _. heart_beats_to-peers (others rf.peers rf.me) rf (rw leads at e)),
      λ other. absurd (other (is_leader→leader rf.state leads)),
    )
    | inr follows ↦ (
      (λ lead. let wrong : true ≡ false = sym (ap is_leader lead) ∙ follows in cc),
      λ _. sym (some_inj (rw follows at e)),
    )
  ]
