-- ===== src/Raft/Cluster.antt =====
-- A cluster of peers of raft/raft.go, interleaved handler by handler: each handler runs under the
-- peer's lock, so a step is one handler's run at one peer. Each `go rf.sendRequestVote(peer, …)` is
-- named by its candidate, its term and its voter; labrpc executes a call at most once and may lose or
-- delay it at will, so a call may stay in any of its states for ever. What `AppendEntries` calls were
-- started and answered is only ever added to: a step may use any of them again, which allows more
-- than the network does. No peer crashes.
pub mod Panics
pub mod Votes
pub mod Safety
pub mod Schedule
pub mod Examples
use mr_and_raft.Common.{
  update, ℕ, zero, suc, ◌<◌, ◌≡◌, Bool, true, false, ◌&&◌, ◌||◌, Option, none, some, List, [], ◌∷◌,
  ◌++◌, map, ◌==◌, if◌then◌else◌, get_elem?,
}
use mr_and_raft.Raft.State.{
  Signal, RequestVoteArgs, RequestVoteReply, AppendEntriesArgs, AppendEntriesReply, ApplyMsg, Raft,
  initial,
}
use mr_and_raft.Raft.Election.{become_candidate, request_vote, receive_vote}
use mr_and_raft.Raft.Replication.{start, append_entries, receive_append_reply, send_heart_beats}

abbrev pub contains : ℕ → List ℕ → Bool
contains i [] = false
contains i (x ∷ xs) = x == i || contains i xs

-- One goroutine of `sendRequestVote`.
pub data VoteCall : Type 0 where
  idle : VoteCall
  calling : RequestVoteArgs → VoteCall
  replied : RequestVoteReply → VoteCall  -- the handler has run
  counted : RequestVoteReply → VoteCall  -- the candidate has run the rest of `sendRequestVote`

-- By candidate, term and voter.
abbrev pub VoteCalls : Type 0
VoteCalls = ℕ → ℕ → ℕ → VoteCall

abbrev pub set_call : VoteCalls → ℕ → ℕ → ℕ → VoteCall → VoteCalls
set_call calls c t v call c' t' v' =
    if c == c' && (t == t' && v == v') then call else calls c' t' v'

-- The goroutines that a candidate starts.
abbrev pub open_calls : VoteCalls → ℕ → RequestVoteArgs → List ℕ → VoteCalls
open_calls calls c args targets c' t' v' =
    if c == c' && (args.term == t' && contains v' targets)
    then VoteCall.calling args
    else calls c' t' v'

pub record Request {ℓ} (C : Type ℓ) : Type ℓ where
  pub from : ℕ
  pub to : ℕ
  pub args : AppendEntriesArgs C

pub record Answer {ℓ} (C : Type ℓ) : Type ℓ where
  pub request : Request C
  pub reply : AppendEntriesReply

pub record Cluster {ℓ} (C : Type ℓ) : Type ℓ where
  pub peer : ℕ → Raft C
  pub calls : VoteCalls
  pub sent : List (Request C)
  pub answered : List (Answer C)

module _ {ℓ} {C : Type ℓ} where
  abbrev pub requests : ℕ → List (ℕ × AppendEntriesArgs C) → List (Request C)
  requests from out = map (λ p. record { from = from; to = p.0; args = p.1 }) out

  -- `n` peers, as `Make` leaves them with nothing persisted.
  abbrev pub boot : ℕ → Cluster C
  boot n = record { peer = initial n; calls = λ c t v. VoteCall.idle; sent = []; answered = [] }

-- `Counts t now`: a candidate of term `now` may run the rest of a call that granted in term `t`.
pub data Step {ℓ} {C : Type ℓ} (n : ℕ) (Counts : ℕ → ℕ → Type 0) (s : Cluster C)
    : Cluster C → Type ℓ where
  -- `becomeCandidate`, at any time: the ticker calls it with the state that it read before its wait.
  campaign :
      (i : ℕ) {rf : Raft C} {args : RequestVoteArgs} {targets : List ℕ}
      → i < n
      → become_candidate (s.peer i) ≡ some (rf, args, targets)
      → Step n Counts s
          (record s { peer = update s.peer i rf; calls = open_calls s.calls i args targets })
  vote :
      (c t v : ℕ) {args : RequestVoteArgs} {rf : Raft C} {reply : RequestVoteReply}
      {signal : Signal}
      → v < n
      → s.calls c t v ≡ VoteCall.calling args
      → request_vote args (s.peer v) ≡ some (rf, reply, signal)
      → Step n Counts s (record s {
        peer = update s.peer v rf;
        calls = set_call s.calls c t v (VoteCall.replied reply);
      })
  count :
      (c t v : ℕ) {reply : RequestVoteReply}
      → c < n
      → v < n
      → s.calls c t v ≡ VoteCall.replied reply
      → (reply.vote_granted ≡ true → Counts t (s.peer c).current_term)
      → Step n Counts s (record s {
        peer = update s.peer c (receive_vote reply (s.peer c)).0;
        calls = set_call s.calls c t v (VoteCall.counted reply);
        sent = requests c (receive_vote reply (s.peer c)).1 ++ s.sent;
      })
  beat :
      (i : ℕ) {out : List (ℕ × AppendEntriesArgs C)}
      → i < n
      → send_heart_beats (s.peer i) ≡ some out
      → Step n Counts s (record s { sent = requests i out ++ s.sent })
  append :
      (k : ℕ) {req : Request C} {rf : Raft C} {reply : AppendEntriesReply}
      {msgs : List (ApplyMsg C)} {signal : Signal}
      → get_elem? s.sent k ≡ some req
      → append_entries req.args (s.peer req.to) ≡ some (rf, reply, msgs, signal)
      → Step n Counts s (record s {
        peer = update s.peer req.to rf;
        answered = record { request = req; reply = reply } ∷ s.answered;
      })
  learn :
      (k : ℕ) {answer : Answer C} {rf : Raft C} {msgs : List (ApplyMsg C)}
      → get_elem? s.answered k ≡ some answer
      → receive_append_reply answer.request.to answer.request.args answer.reply
          (s.peer answer.request.from)
        ≡ some (rf, msgs)
      → Step n Counts s (record s { peer = update s.peer answer.request.from rf })
  submit :
      (i : ℕ) (command : Option C) {rf : Raft C} {index : Option ℕ} {term : ℕ} {accepted : Bool}
      → i < n
      → start command (s.peer i) ≡ some (rf, index, term, accepted)
      → Step n Counts s (record s { peer = update s.peer i rf })

pub data Reach {ℓ} {C : Type ℓ} (n : ℕ) (Counts : ℕ → ℕ → Type 0) : Cluster C → Type ℓ where
  booted : Reach n Counts (boot n)
  later : {s t : Cluster C} → Reach n Counts s → Step n Counts s t → Reach n Counts t

-- Every granted vote counts, whenever it arrives: what `sendRequestVote` does.
abbrev pub Any : ℕ → ℕ → Type 0
Any t now = Unit

-- Only a vote of the candidate's present term counts.
abbrev pub Current : ℕ → ℕ → Type 0
Current t now = t ≡ now
