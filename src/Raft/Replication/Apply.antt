-- ===== src/Raft/Replication/Apply.antt =====
-- The loops of `AppendEntries` and `sendAppendEntries` that send committed entries to `applyCh`.
use mr_and_raft.Common.{
  ℕ, zero, suc, ◌+◌, ◌-◌, ◌≤◌, ◌<◌, ◌≡◌, refl, true, some, List, [], ◌∷◌, arith, length, take, drop,
  get_elem?_total, drop-eq-cons, dec_lt,
}
use native.Mathlib.Nat.{add-zero}
use mr_and_raft.Raft.State.{LogEntry, ApplyMsg, Raft}
use mr_and_raft.Raft.Replication.{apply_loop, commit_to}

module _ {ℓ} {C : Type ℓ} where
  -- The messages for entries that stand at the indices from `i` on.
  abbrev pub messages : ℕ → List (LogEntry C) → List (ApplyMsg C)
  messages i [] = []
  messages i (e ∷ es) =
      record { command_valid = true; command = e.command; command_index = i } ∷ messages (i + 1) es

  -- The entries at the `n` indices from `i` on.
  abbrev pub window : ℕ → ℕ → List (LogEntry C) → List (LogEntry C)
  window i n log = take n (drop i log)

  pub apply_loop_lem :
      (n i : ℕ) (rf : Raft C)
      → i ≡ rf.last_applied + 1
      → i + n ≤ length rf.log
      → apply_loop n i rf
        ≡ some (record rf { last_applied = rf.last_applied + n }, messages i (window i n rf.log))
  unfolding apply_loop
  apply_loop_lem zero i rf e h = ground arith
  apply_loop_lem (suc n) i rf e h =
      let (entry, at) = get_elem?_total rf.log i (omega arith) in
      let ih = apply_loop_lem n (i + 1) (record rf { last_applied = i }) refl (omega arith) in
      let shift : rf.last_applied + suc n ≡ i + n = omega arith in
      rw (at, ih, drop-eq-cons rf.log i at, shift)

  -- What a commit up to `n` leaves and sends.
  abbrev pub committed_at : ℕ → Raft C → Raft C
  committed_at n rf = record rf {
    commit_index = n;
    last_applied = rf.last_applied + (n - rf.last_applied);
  }

  abbrev pub newly_applied : ℕ → Raft C → List (ApplyMsg C)
  newly_applied n rf =
      messages (rf.last_applied + 1) (window (rf.last_applied + 1) (n - rf.last_applied) rf.log)

  -- A commit up to an index of the log does not panic.
  pub commit_to_lem :
      (n : ℕ) (rf : Raft C)
      → n < length rf.log
      → commit_to n rf ≡ some (committed_at n rf, newly_applied n rf)
  unfolding commit_to apply_loop
  commit_to_lem n rf h = elim (dec_lt rf.last_applied n) [
    | yes p ↦
        apply_loop_lem (n - rf.last_applied) (rf.last_applied + 1) (record rf { commit_index = n })
          refl (omega arith)
    | no p ↦
        let done : n - rf.last_applied ≡ 0 = omega arith in rw (done, add-zero, apply_loop) refl
  ]
