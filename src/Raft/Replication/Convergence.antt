-- ===== src/Raft/Replication/Convergence.antt =====
-- raft/raft.go: one exchange of `sendHeartBeats` and `AppendEntries` between a leader and a
-- follower, up to what `sendAppendEntries` makes of the answer.
use mr_and_raft.Common.{ℕ, zero, suc, ◌≤◌, ◌≡◌, ap, refl, List, [], ◌∷◌, arith, length, take, drop}
use mr_and_raft.Raft.State.{State, LogEntry, Raft, AppendEntriesArgs}

module _ {ℓ} {C : Type ℓ} where
  take_all : (n : ℕ) (xs : List (LogEntry C)) → length xs ≤ n → take n xs ≡ xs
  take_all zero [] h = refl
  take_all zero (x ∷ xs) h = absurd (omega arith)
  take_all (suc n) [] h = refl
  take_all (suc n) (x ∷ xs) h = ap (◌∷◌ x) (take_all n xs (omega arith))

  -- The request for a peer whose next index is `k + 1`.
  abbrev pub request_at : ℕ → ℕ → LogEntry C → Raft C → AppendEntriesArgs C
  request_at k next entry ld = record {
    term = ld.current_term;
    leader_id = ld.me;
    prev_log_index = k;
    prev_log_term = entry.term;
    entries = drop next ld.log;
    leader_commit = ld.commit_index;
  }
