-- ===== src/Raft/Replication/Commit.antt =====
-- The commit rule at the end of `sendAppendEntries`: which index a leader commits.
use mr_and_raft.Common.{
  ℕ, zero, suc, ◌+◌, ◌-◌, ◌*◌, ◌≤◌, ◌<◌, ◌≡◌, refl, ◌⊎◌, inl, inr, true, Option, some, List, [],
  arith, Bool-cases, length, get_elem?, get_elem?_total, dec_lt,
}
use mr_and_raft.Raft.State.{State, LogEntry, ApplyMsg, Raft}
use mr_and_raft.Raft.Replication.{replicas, may_commit, commit_scan, advance_commit}
use mr_and_raft.Raft.Replication.Apply.{committed_at, newly_applied, commit_to_lem}

module _ {ℓ} {C : Type ℓ} where
  -- The entry at `n` is of the leader's term, and more than half of the servers hold it.
  abbrev pub IsReplicated : ℕ → Raft C → Type ℓ
  IsReplicated n rf =
      (entry : LogEntry C) × (get_elem? rf.log n ≡ some entry)
      × (entry.term ≡ rf.current_term)
      × (rf.peers < 2 * replicas n rf.match_index)

  -- No index from `lo` on and below `hi` may be committed.
  abbrev pub NoneBetween : ℕ → ℕ → Raft C → Type ℓ
  NoneBetween lo hi rf = (n : ℕ) → lo ≤ n → n < hi → ¬ IsReplicated n rf

  -- The scan stops at the highest index that may be committed, or leaves the peer alone.
  abbrev pub Scanned : ℕ → Raft C → Option (Raft C × List (ApplyMsg C)) → Type ℓ
  Scanned hi rf result =
      (result ≡ some (rf, [])) × NoneBetween rf.commit_index hi rf
      ⊎ ((n : ℕ) × (rf.commit_index ≤ n)
          × (n < hi)
          × IsReplicated n rf
          × NoneBetween (n + 1) hi rf
          × (result ≡ some (committed_at n rf, newly_applied n rf)))

  may_commit→IsReplicated :
      (n : ℕ) (entry : LogEntry C) (rf : Raft C)
      → get_elem? rf.log n ≡ some entry
      → may_commit n entry rf ≡ true
      → IsReplicated n rf
  may_commit→IsReplicated n entry rf at h = (entry, at, ground arith, ground arith)

  IsReplicated→may_commit :
      (n : ℕ) (entry : LogEntry C) (rf : Raft C)
      → rf.state ≡ State.leader
      → get_elem? rf.log n ≡ some entry
      → IsReplicated n rf
      → may_commit n entry rf ≡ true
  IsReplicated→may_commit n entry rf lead at (e, q, term, majority) =
      let same : entry ≡ e = cc (at, q) in ground arith

  NoneBetween-extend :
      (lo hi hi' : ℕ) (rf : Raft C)
      → hi' ≡ suc hi
      → ¬ IsReplicated hi rf
      → NoneBetween lo hi rf
      → NoneBetween lo hi' rf
  NoneBetween-extend lo hi hi' rf e last none_below n l h = elim (dec_lt n hi) [
    | yes below ↦ none_below n l below
    | no above ↦ let at_end : n ≡ hi = omega arith in rw at_end last
  ]

  Scanned-extend :
      (hi hi' : ℕ) (rf : Raft C) (result : Option (Raft C × List (ApplyMsg C)))
      → hi' ≡ suc hi
      → ¬ IsReplicated hi rf
      → Scanned hi rf result
      → Scanned hi' rf result
  Scanned-extend hi hi' rf result e last (inl (same, none_below)) =
      inl (same, NoneBetween-extend rf.commit_index hi hi' rf e last none_below)
  Scanned-extend hi hi' rf result e last (inr (n, lo, h, found, none_above, run)) =
      inr (n, lo, omega arith, found, NoneBetween-extend (n + 1) hi hi' rf e last none_above, run)

  commit_scan_lem :
      (r : ℕ) (rf : Raft C)
      → rf.state ≡ State.leader
      → rf.commit_index + r ≤ length rf.log
      → Scanned (rf.commit_index + r) rf (commit_scan r rf)
  unfolding commit_scan
  commit_scan_lem zero rf lead h = inl (refl, λ n lo hi. absurd (omega arith))
  commit_scan_lem (suc r) rf lead h =
      let (entry, at) = get_elem?_total rf.log (rf.commit_index + r) (omega arith) in
      elim (Bool-cases (may_commit (rf.commit_index + r) entry rf)) [
        | inl e ↦ inr (
          rf.commit_index + r,
          omega arith,
          omega arith,
          may_commit→IsReplicated (rf.commit_index + r) entry rf at e,
          (λ m lo hi. absurd (omega arith)),
          rw (at, e) (commit_to_lem (rf.commit_index + r) rf (omega arith)),
        )
        | inr e ↦
            let refused : ¬ IsReplicated (rf.commit_index + r) rf = λ found.
              let ok = IsReplicated→may_commit (rf.commit_index + r) entry rf lead at found in cc in
            rw (at, e)
              (Scanned-extend (rf.commit_index + r) (rf.commit_index + suc r) rf (commit_scan r rf)
                (omega arith) refused (commit_scan_lem r rf lead (omega arith)))
      ]

  -- A leader commits the highest index, from its commit index on, that holds an entry of its own
  -- term on a majority of the servers, and sends exactly the entries after the last applied one up
  -- to it; where there is no such index it stays as it is.
  pub advance_commit_lem :
      (rf : Raft C) → rf.state ≡ State.leader → Scanned (length rf.log) rf (advance_commit rf)
  advance_commit_lem rf lead = elim (dec_lt (length rf.log) rf.commit_index) [
    | yes short ↦
        let zero_rounds : length rf.log - rf.commit_index ≡ 0 = omega arith in
        inl (rw zero_rounds (unfold commit_scan in refl), λ n lo hi. absurd (omega arith))
    | no long ↦
        let rounds : rf.commit_index + (length rf.log - rf.commit_index) ≡ length rf.log =
          omega arith in
        rw rounds at (commit_scan_lem (length rf.log - rf.commit_index) rf lead (omega arith))
  ]
