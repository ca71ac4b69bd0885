-- ===== src/Raft/Cluster/Schedule.antt =====
-- Reachable clusters by evaluation: the handlers run in a given order, and an event that is not
-- enabled is passed over.
use mr_and_raft.Common.{ℕ, ◌≡◌, refl, Option, none, some, List, dec_lt, get_elem?}
use mathlib.Core.List.{foldl}
use mr_and_raft.Raft.State.{RequestVoteArgs, RequestVoteReply}
use mr_and_raft.Raft.Election.{become_candidate, request_vote}
use mr_and_raft.Raft.Replication.{send_heart_beats, append_entries, receive_append_reply, start}
use mr_and_raft.Raft.Cluster.{VoteCall, Cluster, Step, Reach, booted, later}

pub data Event (C : Type 0) : Type 0 where
  campaign : ℕ → Event C
  vote : ℕ → ℕ → ℕ → Event C
  count : ℕ → ℕ → ℕ → Event C
  beat : ℕ → Event C
  append : ℕ → Event C
  learn : ℕ → Event C
  submit : ℕ → C → Event C

pub record Run (C : Type 0) (n : ℕ) (Counts : ℕ → ℕ → Type 0) : Type 0 where
  pub last : Cluster C
  pub reach : Reach n Counts last

calling_cases :
    (call : VoteCall) → Option ((args : RequestVoteArgs) × (call ≡ VoteCall.calling args))
calling_cases VoteCall.idle = none
calling_cases (VoteCall.calling args) = some (args, refl)
calling_cases (VoteCall.replied _) = none
calling_cases (VoteCall.counted _) = none

replied_cases :
    (call : VoteCall) → Option ((reply : RequestVoteReply) × (call ≡ VoteCall.replied reply))
replied_cases VoteCall.idle = none
replied_cases (VoteCall.calling _) = none
replied_cases (VoteCall.replied reply) = some (reply, refl)
replied_cases (VoteCall.counted _) = none

result_of {ℓ} : {A : Type ℓ} (o : Option A) → Option ((a : A) × (o ≡ some a))
result_of none = none
result_of (some a) = some (a, refl)

module _ {C : Type 0} {n : ℕ} {Counts : ℕ → ℕ → Type 0}
    (check : (t now : ℕ) → Option (Counts t now)) where
  took : {s t : Cluster C} → Reach n Counts s → Step n Counts s t → Run C n Counts
  took r st = record { last = _; reach = later r st }

  turn : Run C n Counts → Event C → Run C n Counts
  unfolding took calling_cases replied_cases result_of dec_lt
  turn r (Event.campaign i) = elim (dec_lt i n) [
    | no _ ↦ r
    | yes lt ↦ elim (result_of (become_candidate (r.last.peer i))) [
      | none ↦ r
      | some (x, e) ↦ took r.reach (Step.campaign i lt e)
    ]
  ]
  turn r (Event.vote c t v) = elim (dec_lt v n) [
    | no _ ↦ r
    | yes lt ↦ elim (calling_cases (r.last.calls c t v)) [
      | none ↦ r
      | some (args, at) ↦ elim (result_of (request_vote args (r.last.peer v))) [
        | none ↦ r
        | some (x, e) ↦ took r.reach (Step.vote c t v lt at e)
      ]
    ]
  ]
  turn r (Event.count c t v) = elim (dec_lt c n) [
    | no _ ↦ r
    | yes lt_c ↦ elim (dec_lt v n) [
      | no _ ↦ r
      | yes lt ↦ elim (replied_cases (r.last.calls c t v)) [
        | none ↦ r
        | some (reply, at) ↦ elim (check t (r.last.peer c).current_term) [
          | none ↦ r
          | some now ↦ took r.reach (Step.count c t v lt_c lt at (λ _. now))
        ]
      ]
    ]
  ]
  turn r (Event.beat i) = elim (dec_lt i n) [
    | no _ ↦ r
    | yes lt ↦ elim (result_of (send_heart_beats (r.last.peer i))) [
      | none ↦ r
      | some (x, e) ↦ took r.reach (Step.beat i lt e)
    ]
  ]
  turn r (Event.append k) = elim (result_of (get_elem? r.last.sent k)) [
    | none ↦ r
    | some (req, at) ↦ elim (result_of (append_entries req.args (r.last.peer req.to))) [
      | none ↦ r
      | some (x, e) ↦ took r.reach (Step.append k at e)
    ]
  ]
  turn r (Event.learn k) = elim (result_of (get_elem? r.last.answered k)) [
    | none ↦ r
    | some (answer, at) ↦
        elim (result_of (
          receive_append_reply answer.request.to answer.request.args answer.reply
            (r.last.peer answer.request.from))) [
              | none ↦ r
              | some (x, e) ↦ took r.reach (Step.learn k at e)
            ]
  ]
  turn r (Event.submit i command) = elim (dec_lt i n) [
    | no _ ↦ r
    | yes lt ↦ elim (result_of (start (some command) (r.last.peer i))) [
      | none ↦ r
      | some (x, e) ↦ took r.reach (Step.submit i (some command) lt e)
    ]
  ]

  unfoldable pub run : List (Event C) → Run C n Counts
  unfolding turn
  run events = foldl turn (record { last = _; reach = booted }) events
