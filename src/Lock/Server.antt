-- ===== src/Lock/Server.antt =====
-- raft-lock/server.go and the types of common.go. Keys are of a type with decidable equality, for
-- Go's `string`; client and request ids, `int64`, are numbers, and 0 is the zero value of an id.
-- What Raft commits is the list of messages. `events` and the RPC to a clerk are outputs; whether a
-- call or a send that may block comes back, and what `isLeader` then says, is an input for each round.
pub mod Machine
use mr_and_raft.Common.{
  update, ℕ, Bool, true, false, not, Option, none, some, List, [], ◌∷◌, ◌++◌, if◌then◌else◌, ltb,
  ◌==◌, ◌&&◌, ℕ_discrete,
}
use mr_and_raft.Raft.State.{ApplyMsg}
use mr_and_raft.Lock.Store.{MultiMap, get_lock_owner, lock, unlock}

pub data OpType : Type 0 where
  lock_op unlock_op request_lock_op acquire_lock_op request_unlock_op : OpType

abbrev pub is_lock : OpType → Bool
is_lock OpType.lock_op = true
is_lock OpType.unlock_op = false
is_lock OpType.request_lock_op = false
is_lock OpType.acquire_lock_op = false
is_lock OpType.request_unlock_op = false

abbrev pub is_unlock : OpType → Bool
is_unlock OpType.lock_op = false
is_unlock OpType.unlock_op = true
is_unlock OpType.request_lock_op = false
is_unlock OpType.acquire_lock_op = false
is_unlock OpType.request_unlock_op = false

pub data EventType : Type 0 where
  server_event client_event : EventType

pub data Err : Type 0 where
  ok err_wrong_leader : Err

module _ {ℓ} (K : Type ℓ) where
  pub record Op : Type ℓ where
    pub op_type : OpType
    pub key : K
    pub client_id : ℕ
    pub request_id : ℕ

  pub record Event : Type ℓ where
    pub op : OpType
    pub event_type : EventType
    pub key : K
    pub id : ℕ

  -- What a server sends: an event to its tester, or `Clerk.ReceiveLock` to a clerk.
  pub data Effect : Type ℓ where
    event : Event → Effect
    receive_lock : ℕ → K → Effect

  -- `results`: `none` is no channel, `some none` an empty channel of capacity 1.
  pub record LockServer : Type ℓ where
    pub clerk_ends : ℕ → Bool
    pub dead : Bool
    pub store : MultiMap K ℕ
    pub results : ℕ → Option (Option Op)
    pub last_applied : ℕ → Option ℕ

-- What a round of `applyOpsLoop` meets: whether `Kill` runs before it, what each of the two calls of
-- `isLeader` gives, `none` where Raft's lock stays held, whether `ls.events` takes the event, and
-- whether the call of a clerk comes back.
pub record Answers : Type 0 where
  pub kill_comes : Bool
  pub leads : Option Bool
  pub event_taken : Bool
  pub leads_still : Option Bool
  pub call_returns : Bool

-- How a step ends: it may panic, or block for ever, holding the lock.
pub data Outcome {ℓ} (A : Type ℓ) : Type ℓ where
  done : A → Outcome A
  panicked : Outcome A
  blocked : Outcome A

abbrev pub or_panic {ℓ κ} : {A : Type ℓ} {B : Type κ} → Option A → (A → Outcome B) → Outcome B
or_panic none f = Outcome.panicked
or_panic (some a) f = f a

abbrev pub or_block {ℓ κ} : {A : Type ℓ} {B : Type κ} → Option A → (A → Outcome B) → Outcome B
or_block none f = Outcome.blocked
or_block (some a) f = f a

abbrev pub after_outcome {μ ν} : {A : Type μ} {B : Type ν} → Outcome A → (A → Outcome B) → Outcome B
after_outcome (Outcome.done a) f = f a
after_outcome Outcome.panicked f = Outcome.panicked
after_outcome Outcome.blocked f = Outcome.blocked

-- `!ok || op.RequestId > lastId`
abbrev pub is_fresh : Option ℕ → ℕ → Bool
is_fresh none request_id = true
is_fresh (some last_id) request_id = ltb last_id request_id

module _ {ℓ} {K : Type ℓ} where
  -- `giveLockToOwner`
  pub give_lock_to_owner : Answers → (ℕ → Bool) → K → ℕ → Outcome (List (Effect K))
  give_lock_to_owner answers clerk_ends key owner = or_block answers.leads_still λ leads.
      if leads && clerk_ends owner
      then (if answers.call_returns
          then Outcome.done (Effect.receive_lock owner key ∷ [])
          else Outcome.blocked)
      else Outcome.done []

  -- The channel of an index, made where it is missing
  abbrev pub channel_at : (ℕ → Option (Option (Op K))) → ℕ → Option (Op K)
  channel_at results index = elim (results index) [ none ↦ none | some op_ch ↦ op_ch ]

  -- `opCh <- op`
  pub post : ℕ → Op K → LockServer K → Outcome (LockServer K)
  post index op ls = elim (channel_at ls.results index) [
    | none ↦ Outcome.done (record ls { results = update ls.results index (some (some op)) })
    | some _ ↦ Outcome.blocked
  ]

  -- `isSameOp`
  unfoldable pub is_same_op : Op K → Op K → Bool
  is_same_op issued other =
      issued.client_id == other.client_id && issued.request_id == other.request_id

  -- `waitForApplied` up to its wait: the index that `Start` has given, or `none` where Raft does not
  -- lead, and the server with a channel for the index.
  unfoldable pub open_channel : Option ℕ → LockServer K → LockServer K
  open_channel none ls = ls
  open_channel (some index) ls = record ls {
    results = update ls.results index (some (channel_at ls.results index));
  }

  -- `waitForApplied` from its wait on, and the reply of `Mutex`: `none` is the timeout, and an
  -- operation is what was received from the channel of the index, which is then empty.
  unfoldable pub finish_wait : Op K → Option ℕ → Option (Op K) → LockServer K → LockServer K × Err
  unfolding is_same_op
  finish_wait op none received ls = (ls, Err.err_wrong_leader)
  finish_wait op (some index) none ls = (ls, Err.err_wrong_leader)
  finish_wait op (some index) (some applied_op) ls = (
    record ls { results = update ls.results index (some none) },
    if is_same_op op applied_op then Err.ok else Err.err_wrong_leader,
  )

  -- `Kill`
  unfoldable pub kill : LockServer K → LockServer K
  kill ls = record ls { dead = true }

  -- `StartLockServer`
  unfoldable pub start_lock_server : (ℕ → Bool) → LockServer K
  start_lock_server clerk_ends = record {
    clerk_ends = clerk_ends;
    dead = false;
    store = λ key. none;
    results = λ index. none;
    last_applied = λ id. none;
  }

module _ {ℓ} {K : Type ℓ} (key_eq : Discrete K) where
  -- The two tests of `applyToStateMachine` on the operation's type
  abbrev pub applied : Op K → MultiMap K ℕ → MultiMap K ℕ
  applied op store =
      let store1 =
        if is_lock op.op_type then lock key_eq ℕ_discrete store op.key op.client_id else store in
      if is_unlock op.op_type then unlock key_eq ℕ_discrete store1 op.key op.client_id else store1

  -- `applyToStateMachine`
  unfoldable pub apply_to_state_machine :
      Answers → Op K → LockServer K → Outcome (LockServer K × List (Effect K))
  unfolding give_lock_to_owner
  apply_to_state_machine answers op ls = or_panic (get_lock_owner 0 ls.store op.key) λ (owner, _).
      let ls1 = record ls { store = applied op ls.store } in
      let told : Effect K = Effect.event (record {
        op = op.op_type;
        event_type = EventType.server_event;
        key = op.key;
        id = op.client_id;
      }) in
      or_block answers.leads λ leads.
        if leads
        then (if answers.event_taken
            then (or_panic (get_lock_owner 0 ls1.store op.key) λ (new_owner, _).
                if new_owner == owner
                then Outcome.done (ls1, told ∷ [])
                else after_outcome (give_lock_to_owner answers ls.clerk_ends op.key new_owner)
                    (λ calls. Outcome.done (ls1, told ∷ calls)))
            else Outcome.blocked)
        else Outcome.done (ls1, [])

  -- `applyOpsLoop`, one operation: what has not been applied yet is applied and noted.
  pub apply_once : Answers → Op K → LockServer K → Outcome (LockServer K × List (Effect K))
  unfolding apply_to_state_machine
  apply_once answers op ls =
      if is_fresh (ls.last_applied op.client_id) op.request_id
      then after_outcome (apply_to_state_machine answers op ls) (λ (ls1, effects). Outcome.done (
        record ls1 { last_applied = update ls1.last_applied op.client_id (some op.request_id) },
        effects,
      ))
      else Outcome.done (ls, [])

  -- One round of `applyOpsLoop`; a command that is no `Op` fails the type assertion.
  unfoldable pub apply_message :
      Answers → ApplyMsg (Op K) → LockServer K → Outcome (LockServer K × List (Effect K))
  unfolding apply_once post
  apply_message answers msg ls =
      if msg.command_valid
      then or_panic msg.command (λ op. after_outcome (apply_once answers op ls) (λ (ls1, effects).
        after_outcome (post msg.command_index op ls1) (λ ls2. Outcome.done (ls2, effects))))
      else Outcome.done (ls, [])

  -- `applyOpsLoop` on messages in a row, by what each round meets: its test of `killed` ends it where
  -- `Kill` has come before, and where no message is left it waits for the next.
  pub apply_ops_loop :
      (ℕ → Answers)
      → List (ApplyMsg (Op K))
      → LockServer K
      → Outcome (LockServer K × List (Effect K))
  unfolding apply_message kill
  apply_ops_loop answers [] ls = Outcome.done (ls, [])
  apply_ops_loop answers (msg ∷ msgs) ls =
      let met = answers msg.command_index in
      if met.kill_comes
      then Outcome.done (kill ls, [])
      else if ls.dead
      then Outcome.done (ls, [])
      else after_outcome (apply_message met msg ls) (λ (ls1, effects).
        after_outcome (apply_ops_loop answers msgs ls1)
          (λ (ls2, more). Outcome.done (ls2, effects ++ more)))
