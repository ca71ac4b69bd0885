-- ===== src/Raft/Examples.antt =====
-- The theorems of raft/raft.go and raft/persister.go at small peers.
use mr_and_raft.Common.{
  ℕ, zero, suc, ◌≡◌, refl, true, false, Option, none, some, List, [], ◌∷◌, ◌++◌, arith, length,
  Returns, ◌↔◌, ◌>>=◌, ◌⊎◌, ◌≢◌, map,
}
use mr_and_raft.Raft.State.{
  State, Signal, RequestVoteArgs, RequestVoteReply, AppendEntriesArgs, LogEntry, Raft, initial,
}
use mr_and_raft.Raft.Wellformed.{IsValid, AllSane}
use mr_and_raft.Raft.Election.{become_candidate, request_vote}
use mr_and_raft.Raft.Election.Voting.{request_vote_lem, MayGrant, granted_vote}
use mr_and_raft.Raft.Replication.{append_entries, advance_commit}
use mr_and_raft.Raft.Replication.Commit.{advance_commit_lem, Scanned}
use mr_and_raft.Raft.Replication.Follower.{append_entries_accepts, append_entries_refuses}
use mr_and_raft.Raft.Persist.{
  Codec, AllZero, make, persist, make_persister, make-persist, read_snapshot, read_persist,
  read_raft_state,
}
use mr_and_raft.Raft.Ticker.{Wake, Outgoing, Campaigns, after_wait, after_wait_lem}
use mr_and_raft.Raft.Cluster.Panics.{no_panic}
use mr_and_raft.Raft.Cluster.Examples.{one_command}

abbrev entry : ℕ → ℕ → LogEntry ℕ
entry t c = record { term = t; command = some c }

abbrev sentinel : LogEntry ℕ
sentinel = record { term = 0; command = none }

abbrev leader : Raft ℕ
leader = record (initial 3 0) {
  state = State.leader;
  current_term = 2;
  voted_for = some 0;
  log = sentinel ∷ entry 1 10 ∷ entry 2 20 ∷ [];
  commit_index = 1;
  last_applied = 1;
  next_index = 3 ∷ 2 ∷ 3 ∷ [];
  match_index = 0 ∷ 1 ∷ 2 ∷ [];
}

-- It holds an entry of term 1 that the leader does not have.
abbrev follower : Raft ℕ
follower = record (initial 3 1) { current_term = 1; log = sentinel ∷ entry 1 10 ∷ entry 1 11 ∷ [] }

no_panic_example : Returns (become_candidate (one_command.last.peer 2))
no_panic_example = ((no_panic one_command.reach).0 2 (omega arith)).0

leader-IsValid : IsValid leader
leader-IsValid = ground arith

advance_commit_lem_example : Scanned 3 leader (advance_commit leader)
advance_commit_lem_example = advance_commit_lem leader refl

abbrev ballot : RequestVoteArgs
ballot = record { term = 3; candidate_id = 2; last_log_index = 2; last_log_term = 2 }

request_vote_lem_example :
    (reply : RequestVoteReply) × (request_vote ballot leader
      ≡ some (
        record leader {
          state = State.follower;
          current_term = 3;
          voted_for = granted_vote reply ballot leader;
        },
        reply,
        Signal.received_vote_chan,
      ))
    × ((reply.vote_granted ≡ true) ↔ MayGrant ballot leader (entry 2 20))
    × (reply.term ≡ 0)
request_vote_lem_example = request_vote_lem ballot leader refl

-- The leader's request to the follower, that of an older leader, and one for a missing entry.
abbrev append_at : ℕ → ℕ → List (LogEntry ℕ) → AppendEntriesArgs ℕ
append_at term prev entries = record {
  term = term;
  leader_id = 0;
  prev_log_index = prev;
  prev_log_term = 1;
  entries = entries;
  leader_commit = 1;
}

append_entries_accepts_example :
    append_entries (append_at 2 1 (entry 2 20 ∷ [])) follower
    ≡ some (
      record follower { current_term = 2; log = leader.log; commit_index = 1; last_applied = 1 },
      record { term = 2; success = true },
      record { command_valid = true; command = some 10; command_index = 1 } ∷ [],
      Signal.heart_beat_chan,
    )
append_entries_accepts_example =
    append_entries_accepts (append_at 2 1 (entry 2 20 ∷ [])) follower (omega arith)
      (entry 1 10, refl, refl)

append_entries_refuses_example :
    append_entries (append_at 2 3 []) follower
    ≡ some (
      record follower { current_term = 2 },
      record { term = 2; success = false },
      [],
      Signal.heart_beat_chan,
    )
append_entries_refuses_example =
    append_entries_refuses (append_at 2 3 []) follower (λ (_, (_, at, _)). cc)

after_wait_lem_example :
    ((read : State)
      → read ≢ State.leader
      → (rf' : Raft ℕ) × (args : RequestVoteArgs) × (after_wait read Wake.timeout leader
          ≡ some (rf', Outgoing.ask_votes args (1 ∷ 2 ∷ [])))
        × Campaigns leader rf' args
        × IsValid rf')
    × ((out : List (ℕ × AppendEntriesArgs ℕ)) × (after_wait State.leader Wake.timeout leader
          ≡ some (leader, Outgoing.heart_beats out))
        × (State.leader ≡ State.leader → map (λ (peer, args). peer) out ≡ 1 ∷ 2 ∷ [])
        × (State.leader ≢ State.leader → out ≡ [])
        × AllSane 3 out)
    × ((read : State) (sent : Signal)
        → (out : Outgoing ℕ) × (after_wait read (Wake.signal sent) leader ≡ some (leader, out))
          × ((out ≡ Outgoing.nothing) ⊎ (out ≡ Outgoing.still_waiting)))
after_wait_lem_example = after_wait_lem leader leader-IsValid

-- A codec of numbers: the term, the vote and the entries, with 0 for a missing value.
abbrev option_code : Option ℕ → ℕ
option_code none = 0
option_code (some n) = suc n

abbrev code_option : ℕ → Option ℕ
code_option zero = none
code_option (suc n) = some n

abbrev entries_code : List (LogEntry ℕ) → List ℕ
entries_code [] = []
entries_code (e ∷ es) = e.term ∷ option_code e.command ∷ entries_code es

abbrev code_entries : ℕ → List ℕ → Option (List (LogEntry ℕ) × List ℕ)
code_entries zero bytes = some ([], bytes)
code_entries (suc n) [] = none
code_entries (suc n) (t ∷ []) = none
code_entries (suc n) (t ∷ c ∷ bytes) = do
  (log, rest) ← code_entries n bytes
  some (record { term = t; command = code_option c } ∷ log, rest)

code_option_lem : (o : Option ℕ) → code_option (option_code o) ≡ o
code_option_lem none = refl
code_option_lem (some n) = refl

code_entries_lem :
    (es : List (LogEntry ℕ)) (rest : List ℕ)
    → code_entries (length es) (entries_code es ++ rest) ≡ some (es, rest)
code_entries_lem [] rest = refl
code_entries_lem (e ∷ es) rest = rw (code_option_lem e.command, code_entries_lem es rest) refl

abbrev decode_entries : List ℕ → Option (List (LogEntry ℕ) × List ℕ)
decode_entries [] = none
decode_entries (n ∷ bytes) = code_entries n bytes

abbrev decode_number : List ℕ → Option (ℕ × List ℕ)
decode_number [] = none
decode_number (n ∷ bytes) = some (n, bytes)

abbrev decode_option : List ℕ → Option (Option ℕ × List ℕ)
decode_option [] = none
decode_option (n ∷ bytes) = some (code_option n, bytes)

abbrev numbers : Codec ℕ
numbers = record {
  encode_log = λ log. length log ∷ entries_code log;
  encode_term = λ term. term ∷ [];
  encode_vote = λ vote. option_code vote ∷ [];
  decode_log = λ held. decode_entries;
  decode_term = λ held. decode_number;
  decode_vote = λ held. decode_option;
  log_back = λ held log rest zeros. code_entries_lem log rest;
  term_back = λ held term rest. refl;
  vote_back = λ held vote rest. rw (code_option_lem vote) refl;
  log_pos = λ log. omega arith;
}

abbrev restarted : Raft ℕ
restarted = record (initial 3 0) { log = leader.log; current_term = 2; voted_for = some 0 }

make-persist_example :
    (make numbers 3 0 (persist numbers leader make_persister) ≡ some restarted)
    × (read_snapshot (persist numbers leader make_persister) ≡ read_snapshot make_persister)
    × (IsValid leader → IsValid restarted)
    × ((held : Raft ℕ)
        → AllZero held.log
        → read_persist numbers (read_raft_state (persist numbers leader make_persister)) held
          ≡ some (record held { log = leader.log; current_term = 2; voted_for = some 0 }))
make-persist_example = make-persist numbers leader make_persister
