-- ===== src/Lock/Server/Machine.antt =====
-- The state machine of `applyOpsLoop`: what committed operations make of the table.
use mr_and_raft.Common.{
  update, update_here, update_there, ℕ, ◌+◌, ◌≤◌, ◌<◌, ◌≡◌, refl, ap, ◌∙◌, inl, inr, Bool, true,
  false, Option, none, some, List, [], ◌∷◌, ◌++◌, if◌then◌else◌, ◌&&◌, ◌==◌, Bool-cases, ℕ_discrete,
  arith, if_case,
}
use mathlib.Core.Path.{subst}
use mr_and_raft.Raft.State.{ApplyMsg}
use mr_and_raft.Lock.Store.{MultiMap}
use mr_and_raft.Lock.Store.Refinement.{IsProper, lock_lem, unlock_lem, get_lock_owner_lem}
use mr_and_raft.Lock.Server.{
  Op, Effect, LockServer, Outcome, done, is_lock, is_unlock, applied, is_fresh, channel_at,
  apply_to_state_machine, post, apply_once, apply_message, after_outcome, Answers,
  give_lock_to_owner, apply_ops_loop, kill,
}

-- Every call and send of the round comes back.
abbrev pub IsAnswered : Answers → Type 0
IsAnswered answers =
    ((leads : Bool) × (answers.leads ≡ some leads))
    × (answers.event_taken ≡ true)
    × ((leads : Bool) × (answers.leads_still ≡ some leads))
    × (answers.call_returns ≡ true)

fresh_request : (last_id r : ℕ) → is_fresh (some last_id) r ≡ true → last_id < r
fresh_request last_id r h = ground arith

stale_request :
    (o : Option ℕ) (r : ℕ)
    → is_fresh o r ≡ false
    → (last_id : ℕ) × (o ≡ some last_id) × (r ≤ last_id)
stale_request none r h = cc
stale_request (some last_id) r h = (last_id, refl, ground arith)

module _ {ℓ} {K : Type ℓ} (key_eq : Discrete K) where
  -- The table, and the last request of each client.
  abbrev pub Machine : Type ℓ
  Machine = MultiMap K ℕ × (ℕ → Option ℕ)

  -- One committed operation: applied unless the client's last request was as late.
  abbrev pub step : Op K → Machine → Machine
  step op (store, last) =
      if is_fresh (last op.client_id) op.request_id
      then (applied key_eq op store, update last op.client_id (some op.request_id))
      else (store, last)

  abbrev pub replay : List (Op K) → Machine → Machine
  replay [] s = s
  replay (op ∷ ops) s = replay ops (step op s)

  pub applied-IsProper :
      (op : Op K) (store : MultiMap K ℕ)
      → IsProper key_eq ℕ_discrete store
      → IsProper key_eq ℕ_discrete (applied key_eq op store)
  applied-IsProper op store h =
      let P = IsProper key_eq ℕ_discrete in
      let locked =
        if_case P (is_lock op.op_type) (lock_lem key_eq ℕ_discrete store op.key op.client_id h).0
          h in
      if_case P (is_unlock op.op_type) (unlock_lem key_eq ℕ_discrete _ op.key op.client_id locked).0
        locked

  give_lock_to_owner_lem :
      (answers : Answers) (clerk_ends : ℕ → Bool) (key : K) (owner : ℕ)
      → IsAnswered answers
      → (calls : List (Effect K)) × (give_lock_to_owner answers clerk_ends key owner ≡ done calls)
  unfolding give_lock_to_owner
  give_lock_to_owner_lem answers clerk_ends key owner (_, _, (still, e), returns) =
      elim (Bool-cases (still && clerk_ends owner)) [
        | inl told ↦ rw (e, told, returns) (_, refl)
        | inr quiet ↦ rw (e, quiet) (_, refl)
      ]

  told_lem :
      (b : Bool) (ls : LockServer K) (told : Effect K) {given : Outcome (List (Effect K))}
      {calls : List (Effect K)}
      → given ≡ done calls
      → (effects : List (Effect K)) × (◌≡◌ {A = Outcome (LockServer K × List (Effect K))}
          (if b then done (ls, told ∷ []) else after_outcome given (λ more. done (ls, told ∷ more)))
          (done (ls, effects)))
  told_lem true ls told e = (_, refl)
  told_lem false ls told {given} {calls} e = (told ∷ calls, rw e refl)

  apply_to_state_machine_lem :
      (answers : Answers) (op : Op K) (ls : LockServer K)
      → IsAnswered answers
      → IsProper key_eq ℕ_discrete ls.store
      → (effects : List (Effect K)) × (apply_to_state_machine key_eq answers op ls
          ≡ done (record ls { store = applied key_eq op ls.store }, effects))
  unfolding apply_to_state_machine
  apply_to_state_machine_lem answers op ls ok h =
      let before = get_lock_owner_lem key_eq ℕ_discrete 0 ls.store op.key h in
      let after =
        get_lock_owner_lem key_eq ℕ_discrete 0 (applied key_eq op ls.store) op.key
          (applied-IsProper op ls.store h) in
      let ((leads, first), taken, still, returns) = ok in
      elim (Bool-cases leads) [
        | inr e ↦ rw (first, before, e) (_, refl)
        | inl e ↦
            rw (first, before, e, taken, after)
              (told_lem _ _ _ (give_lock_to_owner_lem answers ls.clerk_ends op.key _ ok).1)
      ]

  apply_once_lem :
      (answers : Answers) (op : Op K) (ls : LockServer K)
      → IsAnswered answers
      → IsProper key_eq ℕ_discrete ls.store
      → (effects : List (Effect K)) × (apply_once key_eq answers op ls
          ≡ done (
            record ls {
              store = (step op (ls.store, ls.last_applied)).0;
              last_applied = (step op (ls.store, ls.last_applied)).1;
            },
            effects,
          ))
  unfolding apply_once
  apply_once_lem answers op ls ok h =
      elim (Bool-cases (is_fresh (ls.last_applied op.client_id) op.request_id)) [
        | inr e ↦ rw e (_, refl)
        | inl e ↦
            let (effects, run) = apply_to_state_machine_lem answers op ls ok h in
            rw (e, run) (effects, refl)
      ]

  -- The messages of consecutive commits from index `i` on.
  abbrev pub numbered : ℕ → List (Op K) → List (ApplyMsg (Op K))
  numbered i [] = []
  numbered i (op ∷ ops) =
      record { command_valid = true; command = some op; command_index = i } ∷ numbered (i + 1) ops

  -- The operations of the rounds before the first one that `Kill` comes before
  abbrev pub until_killed : (ℕ → Answers) → ℕ → List (Op K) → List (Op K)
  until_killed answers i [] = []
  until_killed answers i (op ∷ ops) =
      if (answers i).kill_comes then [] else op ∷ until_killed answers (i + 1) ops

  -- No channel from index `i` on holds an operation that was not received.
  abbrev pub AllOpen : ℕ → LockServer K → Type ℓ
  AllOpen i ls = (j : ℕ) → i ≤ j → channel_at ls.results j ≡ none

  post_lem :
      (i : ℕ) (op : Op K) (ls : LockServer K)
      → channel_at ls.results i ≡ none
      → post i op ls ≡ done (record ls { results = update ls.results i (some (some op)) })
  unfolding post
  post_lem i op ls o = rw (post, o) refl

  -- The server after a round that took the operation of index `i`
  abbrev took : ℕ → Op K → LockServer K → LockServer K
  took i op ls = record ls {
    store = (step op (ls.store, ls.last_applied)).0;
    last_applied = (step op (ls.store, ls.last_applied)).1;
    results = update ls.results i (some (some op));
  }

  apply_message_lem :
      (answers : Answers) (i : ℕ) (op : Op K) (ls : LockServer K)
      → IsAnswered answers
      → IsProper key_eq ℕ_discrete ls.store
      → channel_at ls.results i ≡ none
      → (effects : List (Effect K)) × (apply_message key_eq answers
            (record { command_valid = true; command = some op; command_index = i })
            ls
          ≡ done (took i op ls, effects))
  unfolding apply_message
  apply_message_lem answers i op ls ok h o =
      let (effects, run) = apply_once_lem answers op ls ok h in
      let ls1 = record ls {
        store = (step op (ls.store, ls.last_applied)).0;
        last_applied = (step op (ls.store, ls.last_applied)).1;
      } in
      (effects, rw (run, post_lem i op ls1 o) refl)

  step-IsProper :
      (op : Op K) (store : MultiMap K ℕ) (last : ℕ → Option ℕ)
      → IsProper key_eq ℕ_discrete store
      → IsProper key_eq ℕ_discrete (step op (store, last)).0
  step-IsProper op store last h =
      if_case {A = Machine} (λ s. IsProper key_eq ℕ_discrete s.0)
        (is_fresh (last op.client_id) op.request_id) (applied-IsProper op store h) h

  channel_at-post :
      (i : ℕ) (op : Op K) (ls : LockServer K)
      → AllOpen i ls
      → (j : ℕ) → i + 1 ≤ j
      → channel_at (update ls.results i (some (some op))) j ≡ none
  channel_at-post i op ls o j l =
      let differs : (i == j) ≡ false = ground arith in rw (channel_at, differs) (o j (omega arith))

  loop_round :
      (answers : ℕ → Answers) (msg : ApplyMsg (Op K)) (msgs : List (ApplyMsg (Op K)))
      (ls : LockServer K) {ls1 ls' : LockServer K} {effects more : List (Effect K)}
      → (answers msg.command_index).kill_comes ≡ false
      → ls.dead ≡ false
      → apply_message key_eq (answers msg.command_index) msg ls ≡ done (ls1, effects)
      → apply_ops_loop key_eq answers msgs ls1 ≡ done (ls', more)
      → apply_ops_loop key_eq answers (msg ∷ msgs) ls ≡ done (ls', effects ++ more)
  loop_round answers msg msgs ls {ls1} {ls'} {effects} {more} runs alive run rest =
      let first : apply_ops_loop key_eq answers (msg ∷ msgs) ls
          ≡ after_outcome (apply_message key_eq (answers msg.command_index) msg ls)
              (λ (ls1, effects).
                after_outcome (apply_ops_loop key_eq answers msgs ls1)
                  (λ (ls2, more). done (ls2, effects ++ more))) =
        unfold apply_ops_loop in rw (runs, alive) refl in
      rw (first, run, rest) refl

  -- A lock server that runs, with a proper table and channels that are open from index `i` on, gets
  -- operations committed from there: where each call of `isLeader` and of a clerk comes back and each
  -- event is taken, it neither panics nor blocks; its table and its record of requests are then those
  -- of the state machine on the operations before the first round that `Kill` comes before, whichever
  -- servers Raft calls the leader meanwhile.
  pub apply_ops_loop_lem :
      (answers : ℕ → Answers) (i : ℕ) (ops : List (Op K)) (ls : LockServer K)
      → ((j : ℕ) → IsAnswered (answers j))
      → ls.dead ≡ false
      → IsProper key_eq ℕ_discrete ls.store
      → AllOpen i ls
      → (ls' : LockServer K) × (effects : List (Effect K)) × (apply_ops_loop key_eq answers
            (numbered i ops)
            ls
          ≡ done (ls', effects))
        × ((ls'.store, ls'.last_applied)
            ≡ replay (until_killed answers i ops) (ls.store, ls.last_applied))
        × IsProper key_eq ℕ_discrete ls'.store
  unfolding apply_ops_loop kill
  apply_ops_loop_lem answers i [] ls ok alive h o = (ls, [], refl, refl, h)
  apply_ops_loop_lem answers i (op ∷ ops) ls ok alive h o =
      elim (Bool-cases (answers i).kill_comes) [
        | inl killed ↦ rw killed (record ls { dead = true }, [], refl, refl, h)
        | inr runs ↦
            let (effects, run) =
              apply_message_lem (answers i) i op ls (ok i) h (o i (omega arith)) in
            let (ls', more, rest, same, proper) =
              apply_ops_loop_lem answers (i + 1) ops (took i op ls) ok alive
                (step-IsProper op ls.store ls.last_applied h) (channel_at-post i op ls o) in
            (
              ls',
              effects ++ more,
              loop_round answers
                  (record { command_valid = true; command = some op; command_index = i })
                  (numbered (i + 1) ops) ls runs alive run rest,
              rw runs same,
              proper,
            )
      ]

  -- The client's last request is as late as the operation.
  Taken : Op K → Machine → Type 0
  Taken op (_, last) =
      (last_id : ℕ) × (last op.client_id ≡ some last_id) × (op.request_id ≤ last_id)

  step-Taken : (op : Op K) (s : Machine) → Taken op (step op s)
  unfolding Taken
  step-Taken op (store, last) = elim (Bool-cases (is_fresh (last op.client_id) op.request_id)) [
    | inl fresh ↦ rw fresh (op.request_id, update_here last op.client_id _, omega arith)
    | inr stale ↦ rw stale (stale_request (last op.client_id) op.request_id stale)
  ]

  stays-Taken : (op other : Op K) (s : Machine) → Taken op s → Taken op (step other s)
  unfolding Taken
  stays-Taken op other (store, last) (last_id, e, l) =
      elim (Bool-cases (is_fresh (last other.client_id) other.request_id)) [
        | inr stale ↦ rw stale (last_id, e, l)
        | inl fresh ↦ elim (ℕ_discrete other.client_id op.client_id) [
          | no differs ↦
              rw fresh (last_id, update_there last other.client_id op.client_id _ differs ∙ e, l)
          | yes same ↦
              let later : last_id < other.request_id =
                fresh_request last_id other.request_id
                  (subst (λ o. is_fresh o other.request_id ≡ true) (ap last same ∙ e) fresh) in
              rw fresh (
                other.request_id,
                subst
                    (λ i.
                      update last other.client_id (some other.request_id) i ≡ some other.request_id)
                    same (update_here last other.client_id _),
                omega arith,
              )
        ]
      ]

  step_again : (op : Op K) (s : Machine) → Taken op s → step op s ≡ s
  unfolding Taken
  step_again op (store, last) (last_id, e, l) =
      let stale : is_fresh (last op.client_id) op.request_id ≡ false = rw e (ground arith) in
      rw stale refl

  replay-Taken :
      (op : Op K) (ops : List (Op K)) (s : Machine) → Taken op s → Taken op (replay ops s)
  replay-Taken op [] s t = t
  replay-Taken op (other ∷ ops) s t = replay-Taken op ops (step other s) (stays-Taken op other s t)

  replay_append :
      (xs ys : List (Op K)) (s : Machine) → replay (xs ++ ys) s ≡ replay ys (replay xs s)
  replay_append [] ys s = refl
  replay_append (op ∷ xs) ys s = replay_append xs ys (step op s)

  -- An operation that the state machine has taken changes nothing when it is committed again,
  -- whatever was committed before it and since: a request that a clerk sends twice is applied once.
  pub replay_again :
      (before after : List (Op K)) (op : Op K) (s : Machine)
      → step op (replay (before ++ op ∷ after) s) ≡ replay (before ++ op ∷ after) s
  replay_again before after op s =
      rw (replay_append before (op ∷ after) s)
        (step_again op _ (replay-Taken op after _ (step-Taken op (replay before s))))
