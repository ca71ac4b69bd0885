-- ===== src/Lock/Examples.antt =====
-- The theorems of raft-lock/ at small tables, messages and clerks.
use mr_and_raft.Common.{
  ℕ, zero, suc, ◌<◌, ◌≡◌, refl, true, false, Option, none, some, List, [], ◌∷◌, ℕ_discrete, arith,
  ◌==◌,
}
use mr_and_raft.Lock.Store.{MultiMap, get_lock_owner, lock, unlock}
use mr_and_raft.Lock.Store.Refinement.{IsProper, Serves, lock_lem, unlock_lem, get_lock_owner_lem}
use mr_and_raft.Lock.Store.Queue.{joined, without}
use mr_and_raft.Lock.Server.{OpType, Err, Op, Effect, LockServer, Outcome, Answers, apply_ops_loop}
use mr_and_raft.Lock.Server.Machine.{step, replay, numbered, apply_ops_loop_lem, replay_again}
use mr_and_raft.Lock.Clerk.{Clerk, Sent, MutexArgs, send_mutex, send_mutex_lem, is_taken, request}

abbrev empty : MultiMap ℕ ℕ
empty key = none

empty-IsProper : IsProper ℕ_discrete ℕ_discrete empty
empty-IsProper = λ key ids e. cc

-- Key 5 is held by client 1, and client 2 waits for it.
abbrev queued : MultiMap ℕ ℕ
queued = lock ℕ_discrete ℕ_discrete (lock ℕ_discrete ℕ_discrete empty 5 1) 5 2

lock_lem_example :
    Serves ℕ_discrete ℕ_discrete empty 5
      (joined ℕ_discrete 1 [])
      (lock ℕ_discrete ℕ_discrete empty 5 1)
lock_lem_example = lock_lem ℕ_discrete ℕ_discrete empty 5 1 empty-IsProper

queued-IsProper : IsProper ℕ_discrete ℕ_discrete queued
queued-IsProper =
    (lock_lem ℕ_discrete ℕ_discrete (lock ℕ_discrete ℕ_discrete empty 5 1) 5 2
      (lock_lem ℕ_discrete ℕ_discrete empty 5 1 empty-IsProper).0).0

unlock_lem_example :
    Serves ℕ_discrete ℕ_discrete queued 5
      (without ℕ_discrete 1 (1 ∷ 2 ∷ []))
      (unlock ℕ_discrete ℕ_discrete queued 5 1)
unfolding ℕ_discrete lock
unlock_lem_example = unlock_lem ℕ_discrete ℕ_discrete queued 5 1 queued-IsProper

get_lock_owner_lem_example : get_lock_owner 0 queued 5 ≡ some (1, true)
unfolding ℕ_discrete lock
get_lock_owner_lem_example = get_lock_owner_lem ℕ_discrete ℕ_discrete 0 queued 5 queued-IsProper

abbrev ask : OpType → ℕ → ℕ → Op ℕ
ask op_type client_id request_id = record {
  op_type = op_type;
  key = 5;
  client_id = client_id;
  request_id = request_id;
}

abbrev server : LockServer ℕ
server = record {
  clerk_ends = λ id. true;
  dead = false;
  store = empty;
  results = λ index. none;
  last_applied = λ id. none;
}

-- Client 1 asks twice, the second time with the same number.
abbrev asked : List (Op ℕ)
asked = ask OpType.lock_op 1 1 ∷ ask OpType.lock_op 1 1 ∷ ask OpType.lock_op 2 1 ∷ []

-- Raft calls the server the leader, and `Kill` comes before index 3.
abbrev meets : ℕ → Answers
meets index = record {
  kill_comes = index == 3;
  leads = some true;
  event_taken = true;
  leads_still = some true;
  call_returns = true;
}

apply_ops_loop_lem_example :
    (ls' : LockServer ℕ) × (effects : List (Effect ℕ)) × (apply_ops_loop ℕ_discrete meets
        (numbered ℕ_discrete 1 asked)
        server
      ≡ Outcome.done (ls', effects))
    × ((ls'.store, ls'.last_applied)
        ≡ replay ℕ_discrete
            (ask OpType.lock_op 1 1 ∷ ask OpType.lock_op 1 1 ∷ [])
            (empty, λ id. none))
    × IsProper ℕ_discrete ℕ_discrete ls'.store
apply_ops_loop_lem_example =
    apply_ops_loop_lem ℕ_discrete meets 1 asked server
      (λ j. ((true, refl), refl, (true, refl), refl)) refl empty-IsProper (λ j l. refl)

replay_again_example :
    step ℕ_discrete (ask OpType.lock_op 1 1) (
      replay ℕ_discrete
        (ask OpType.lock_op 1 1 ∷ ask OpType.unlock_op 1 2 ∷ [])
        (empty, λ id. none))
    ≡ replay ℕ_discrete (ask OpType.lock_op 1 1 ∷ ask OpType.unlock_op 1 2 ∷ []) (empty, λ id. none)
replay_again_example =
    replay_again ℕ_discrete [] (ask OpType.unlock_op 1 2 ∷ []) (ask OpType.lock_op 1 1)
      (empty, λ id. none)

-- Three servers, of which the first does not lead and the second cannot be reached.
abbrev answers : MutexArgs ℕ → ℕ → ℕ → Option Err
answers args call zero = some Err.err_wrong_leader
answers args call (suc zero) = none
answers args call (suc (suc _)) = some Err.ok

abbrev clerk : Clerk
clerk = record { servers = 3; leader_id = 0; client_id = 1; request_id = 4 }

send_mutex_lem_example :
    (r call : ℕ) × (send_mutex 3 answers clerk 5 OpType.lock_op
      ≡ Sent.sent (record clerk { leader_id = r; request_id = 5 }))
    × (r < 3)
    × (is_taken (answers (request clerk 5 OpType.lock_op) call r) ≡ true)
send_mutex_lem_example =
    send_mutex_lem answers clerk 5 OpType.lock_op 2 (omega arith) (omega arith) (λ call. refl)
