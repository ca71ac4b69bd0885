-- ===== src/Raft/State.antt =====
-- raft/raft.go: the types of a peer and of its messages. Terms and indices are Go's 64-bit `int`s,
-- held as plain numbers: they count elections and log entries, and no run reaches 2 ^ 63 of either.
-- `none` stands for the `-1` of `votedFor` and for a nil `interface{}`.
use mr_and_raft.Common.{ℕ, Bool, true, false, Option, none, List, [], ◌∷◌, length, get_elem?, ◌-◌}

pub data State : Type 0 where
  leader follower candidate : State

abbrev pub is_leader : State → Bool
is_leader State.leader = true
is_leader State.follower = false
is_leader State.candidate = false

abbrev pub is_candidate : State → Bool
is_candidate State.leader = false
is_candidate State.follower = false
is_candidate State.candidate = true

-- The channel on which a handler wakes the ticker.
pub data Signal : Type 0 where
  heart_beat_chan received_vote_chan : Signal

pub record RequestVoteArgs : Type 0 where
  pub term : ℕ
  pub candidate_id : ℕ
  pub last_log_index : ℕ
  pub last_log_term : ℕ

pub record RequestVoteReply : Type 0 where
  pub term : ℕ
  pub vote_granted : Bool

pub record AppendEntriesReply : Type 0 where
  pub term : ℕ
  pub success : Bool

pub record LogEntry {ℓ} (C : Type ℓ) : Type ℓ where
  pub term : ℕ
  pub command : Option C

pub record ApplyMsg {ℓ} (C : Type ℓ) : Type ℓ where
  pub command_valid : Bool
  pub command : Option C
  pub command_index : ℕ

pub record AppendEntriesArgs {ℓ} (C : Type ℓ) : Type ℓ where
  pub term : ℕ
  pub leader_id : ℕ
  pub prev_log_index : ℕ
  pub prev_log_term : ℕ
  pub entries : List (LogEntry C)
  pub leader_commit : ℕ

-- `peers` is `len(rf.peers)`. The lock, the channels and the RPC end points are no data of the peer.
pub record Raft {ℓ} (C : Type ℓ) : Type ℓ where
  pub peers : ℕ
  pub me : ℕ
  pub dead : Bool
  pub state : State
  pub votes : ℕ
  pub current_term : ℕ
  pub voted_for : Option ℕ
  pub log : List (LogEntry C)
  pub commit_index : ℕ
  pub last_applied : ℕ
  pub next_index : List ℕ
  pub match_index : List ℕ

module _ {ℓ} {C : Type ℓ} where
  -- The peer of `Make`, before it reads what was persisted.
  abbrev pub initial : ℕ → ℕ → Raft C
  initial peers me = record {
    peers = peers;
    me = me;
    dead = false;
    state = State.follower;
    votes = 0;
    current_term = 0;
    voted_for = none;
    log = record { term = 0; command = none } ∷ [];
    commit_index = 0;
    last_applied = 0;
    next_index = [];
    match_index = [];
  }

  -- `rf.log[len(rf.log)-1]`
  abbrev pub last_entry : List (LogEntry C) → Option (LogEntry C)
  last_entry log = get_elem? log (length log - 1)

  -- What each handler does on seeing a higher term.
  abbrev pub step_down : ℕ → Raft C → Raft C
  step_down term rf = record rf { state = State.follower; current_term = term; voted_for = none }

  -- `GetState`
  unfoldable pub get_state : Raft C → ℕ × Bool
  get_state rf = (rf.current_term, is_leader rf.state)

  -- `Kill`
  unfoldable pub kill : Raft C → Raft C
  kill rf = record rf { dead = true }

  unfoldable pub killed : Raft C → Bool
  killed rf = rf.dead
