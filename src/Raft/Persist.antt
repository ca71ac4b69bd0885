-- ===== src/Raft/Persist.antt =====
-- raft/persister.go, and `persist`, `readPersist` and `Make` of raft/raft.go. Byte slices are lists
-- of numbers, and `clone` copies no more than their content. The encoding of encoding/gob, to which
-- labgob hands its calls on, is a parameter; on variables of these types the checks of labgob only
-- warn.
use mr_and_raft.Common.{
  ℕ, ◌<◌, ◌≡◌, refl, Option, some, false, List, [], none, ◌∷◌, ◌++◌, ap, sym, ◌∙◌, ltb,
  if◌then◌else◌, length, length-append, arith, ◌>>=◌,
}
use mathlib.Core.List.{append-nil}
use mr_and_raft.Raft.State.{LogEntry, Raft, initial}
use mr_and_raft.Raft.Wellformed.{IsValid}

pub record Persister : Type 0 where
  pub raftstate : List ℕ
  pub snapshot : List ℕ

-- `MakePersister`
unfoldable pub make_persister : Persister
make_persister = record { raftstate = []; snapshot = [] }

-- `Copy`
unfoldable pub copy : Persister → Persister
copy ps = record { raftstate = ps.raftstate; snapshot = ps.snapshot }

unfoldable pub save_raft_state : List ℕ → Persister → Persister
save_raft_state state ps = record ps { raftstate = state }

unfoldable pub read_raft_state : Persister → List ℕ
read_raft_state ps = ps.raftstate

unfoldable pub raft_state_size : Persister → ℕ
raft_state_size ps = length ps.raftstate

unfoldable pub save_state_and_snapshot : List ℕ → List ℕ → Persister → Persister
save_state_and_snapshot state snapshot ps = record { raftstate = state; snapshot = snapshot }

unfoldable pub read_snapshot : Persister → List ℕ
read_snapshot ps = ps.snapshot

unfoldable pub snapshot_size : Persister → ℕ
snapshot_size ps = length ps.snapshot

-- Entries that are zero values, as in a log that was only just made.
abbrev pub AllZero {ℓ} : {C : Type ℓ} → List (LogEntry C) → Type ℓ
AllZero [] = Unit
AllZero (entry ∷ log) = (entry.term ≡ 0) × (entry.command ≡ none) × AllZero log

-- What `Encode` writes behind what was written before, and what `Decode` makes of the variable that it
-- is given and of the bytes that are left: the variable's new value and the bytes behind. A number
-- that stands alone is always transmitted, also a zero, and takes the place of whatever the variable
-- held. A field that is zero is not transmitted and keeps what the variable's element held, so that a
-- log is only known to come back in a variable whose entries are zero.
pub record Codec {ℓ} (C : Type ℓ) : Type ℓ where
  pub encode_log : List (LogEntry C) → List ℕ
  pub encode_term : ℕ → List ℕ
  pub encode_vote : Option ℕ → List ℕ
  pub decode_log : List (LogEntry C) → List ℕ → Option (List (LogEntry C) × List ℕ)
  pub decode_term : ℕ → List ℕ → Option (ℕ × List ℕ)
  pub decode_vote : Option ℕ → List ℕ → Option (Option ℕ × List ℕ)
  pub log_back :
      (held log : List (LogEntry C)) (rest : List ℕ)
      → AllZero held
      → decode_log held (encode_log log ++ rest) ≡ some (log, rest)
  pub term_back :
      (held term : ℕ) (rest : List ℕ)
      → decode_term held (encode_term term ++ rest) ≡ some (term, rest)
  pub vote_back :
      (held vote : Option ℕ) (rest : List ℕ)
      → decode_vote held (encode_vote vote ++ rest) ≡ some (vote, rest)
  pub log_pos : (log : List (LogEntry C)) → 0 < length (encode_log log)

module _ {ℓ} {C : Type ℓ} (codec : Codec C) where
  -- The buffer that the three calls of `Encode` fill
  abbrev pub encoded : Raft C → List ℕ
  encoded rf =
      codec.encode_log rf.log
      ++ (codec.encode_term rf.current_term ++ codec.encode_vote rf.voted_for)

  unfoldable pub persist : Raft C → Persister → Persister
  persist rf ps = save_raft_state (encoded rf) ps

  -- The calls of `Decode` one after the other, each into the field as it is; `none` is the panic on
  -- bytes that do not decode.
  unfoldable pub read_persist : List ℕ → Raft C → Option (Raft C)
  read_persist bytes rf = if ltb (length bytes) 1 then some rf else (do
    (log, bytes1) ← codec.decode_log rf.log bytes
    (term, bytes2) ← codec.decode_term rf.current_term bytes1
    (vote, _) ← codec.decode_vote rf.voted_for bytes2
    some (record rf { log = log; current_term = term; voted_for = vote }))

  unfoldable pub make : ℕ → ℕ → Persister → Option (Raft C)
  unfolding read_persist
  make peers me ps = read_persist (read_raft_state ps) (initial peers me)

  -- A peer that starts with no state saved is a follower of term 0 with the sentinel alone.
  make-make_persister : (peers me : ℕ) → make peers me make_persister ≡ some (initial peers me)
  unfolding make make_persister read_raft_state
  make-make_persister peers me = refl

  read_persist_lem :
      (rf held : Raft C)
      → AllZero held.log
      → read_persist (encoded rf) held
        ≡ some
            (record held { log = rf.log; current_term = rf.current_term; voted_for = rf.voted_for })
  unfolding read_persist
  read_persist_lem rf held zeros =
      let later = codec.encode_term rf.current_term ++ codec.encode_vote rf.voted_for in
      let full : ltb (length (encoded rf)) 1 ≡ false =
        ground (arith, codec.log_pos rf.log, length-append (codec.encode_log rf.log) later) in
      let vote : codec.decode_vote held.voted_for (codec.encode_vote rf.voted_for)
          ≡ some (rf.voted_for, []) =
        ap (codec.decode_vote held.voted_for) (sym (append-nil (codec.encode_vote rf.voted_for)))
        ∙ codec.vote_back held.voted_for rf.voted_for [] in
      rw
        (
          full,
          codec.log_back held.log rf.log later zeros,
          codec.term_back held.current_term rf.current_term (codec.encode_vote rf.voted_for),
          vote,
        )
        refl

  -- A peer that restarts from what it last persisted, in the log of one zero entry and with no vote
  -- as `Make` sets them, has its log, its term and its vote back, is a follower that has committed
  -- and applied nothing, and is well-formed if it was; saving leaves the snapshot alone. The same
  -- holds for what `readPersist` makes of any peer whose log has only zero entries, whatever vote and
  -- term it has.
  pub make-persist :
      (rf : Raft C) (ps : Persister)
      → (make rf.peers rf.me (persist rf ps)
          ≡ some (record (initial rf.peers rf.me) {
            log = rf.log;
            current_term = rf.current_term;
            voted_for = rf.voted_for;
          }))
        × (read_snapshot (persist rf ps) ≡ read_snapshot ps)
        × (IsValid rf
            → IsValid (record (initial rf.peers rf.me) {
              log = rf.log;
              current_term = rf.current_term;
              voted_for = rf.voted_for;
            }))
        × ((held : Raft C)
            → AllZero held.log
            → read_persist (read_raft_state (persist rf ps)) held
              ≡ some (record held {
                log = rf.log;
                current_term = rf.current_term;
                voted_for = rf.voted_for;
              }))
  unfolding make persist save_raft_state read_raft_state read_snapshot
  make-persist rf ps = (
    read_persist_lem rf (initial rf.peers rf.me) (refl, refl, tt),
    refl,
    (λ v. ground arith),
    λ held zeros. read_persist_lem rf held zeros,
  )
