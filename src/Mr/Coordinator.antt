-- ===== src/Mr/Coordinator.antt =====
-- mr/coordinator.go and the messages of mr/rpc.go. File names are of any type with an empty name, for
-- Go's `string`; the strings of a task's status and type are data types. A handler holds the
-- coordinator's lock from its start to its end; the goroutines that it starts are part of its result,
-- and `none` is the panic of an index out of range.
pub mod Tasks
pub mod Invariant
pub mod Kept
pub mod Replies
pub mod Progress
use mr_and_raft.Common.{
  ℕ, zero, suc, ◌+◌, ◌-◌, Bool, true, false, not, Option, none, some, List, [], ◌∷◌, ◌++◌,
  if◌then◌else◌, ◌==◌, length, ◌>>=◌,
}

pub data Status : Type 0 where
  unstarted in_progress completed : Status

-- `no_type` is the empty string of a reply without a task.
pub data TaskType : Type 0 where
  no_type map_task reduce_task : TaskType

abbrev pub is_unstarted : Status → Bool
is_unstarted Status.unstarted = true
is_unstarted Status.in_progress = false
is_unstarted Status.completed = false

abbrev pub is_in_progress : Status → Bool
is_in_progress Status.unstarted = false
is_in_progress Status.in_progress = true
is_in_progress Status.completed = false

module _ {ℓ} (F : Type ℓ) where
  pub record Task : Type ℓ where
    pub num : ℕ
    pub status : Status
    pub filename : F

  pub record Coordinator : Type ℓ where
    pub map_tasks : List Task
    pub reduce_tasks : List Task
    pub maps_left : ℕ
    pub reduces_left : ℕ
    pub n_reduce : ℕ

  pub record GetTaskReply : Type ℓ where
    pub file_name : F
    pub task_type : TaskType
    pub n_reduce : ℕ
    pub id : ℕ
    pub n_map : ℕ
    pub done : Bool

module _ {ℓ} {F : Type ℓ} where
  -- The loop of `GetTask`: the first unstarted task, and the tasks with that one in progress.
  pub claim : List (Task F) → Option (Task F × List (Task F))
  claim [] = none
  claim (task ∷ tasks) =
      if is_unstarted task.status
      then some (task, record task { status = Status.in_progress } ∷ tasks)
      else (do (found, tasks') ← claim tasks; some (found, task ∷ tasks'))

  -- `tasks[idx].status`, where it is "in progress", becomes `status`; the flag says whether it was.
  pub leave_progress : Status → ℕ → List (Task F) → Option (List (Task F) × Bool)
  leave_progress status idx [] = none
  leave_progress status zero (task ∷ tasks) =
      if is_in_progress task.status
      then some (record task { status = status } ∷ tasks, true)
      else some (task ∷ tasks, false)
  leave_progress status (suc idx) (task ∷ tasks) = do
    (tasks', was) ← leave_progress status idx tasks
    some (task ∷ tasks', was)

  -- `DetectStraggler` after its sleep
  unfoldable pub detect_straggler : ℕ → TaskType → Coordinator F → Option (Coordinator F)
  unfolding leave_progress
  detect_straggler idx TaskType.no_type c = some c
  detect_straggler idx TaskType.map_task c = do
    (tasks, _) ← leave_progress Status.unstarted idx c.map_tasks
    some (record c { map_tasks = tasks })
  detect_straggler idx TaskType.reduce_task c = do
    (tasks, _) ← leave_progress Status.unstarted idx c.reduce_tasks
    some (record c { reduce_tasks = tasks })

  unfoldable pub mark_complete : ℕ → TaskType → Coordinator F → Option (Coordinator F)
  unfolding leave_progress
  mark_complete id TaskType.no_type c = some c
  mark_complete id TaskType.map_task c = do
    (tasks, was) ← leave_progress Status.completed id c.map_tasks
    some (record c { map_tasks = tasks; maps_left = if was then c.maps_left - 1 else c.maps_left })
  mark_complete id TaskType.reduce_task c = do
    (tasks, was) ← leave_progress Status.completed id c.reduce_tasks
    some (record c {
      reduce_tasks = tasks;
      reduces_left = if was then c.reduces_left - 1 else c.reduces_left;
    })

  -- `Done`
  unfoldable pub is_done : Coordinator F → Bool
  is_done c = c.reduces_left == 0

  abbrev pub map_tasks_from : ℕ → List F → List (Task F)
  map_tasks_from i [] = []
  map_tasks_from i (file ∷ files) =
      record { num = i; status = Status.unstarted; filename = file } ∷ map_tasks_from (i + 1) files

module _ {ℓ} {F : Type ℓ} (no_name : F) where
  abbrev pub no_reply : GetTaskReply F
  no_reply = record {
    file_name = no_name;
    task_type = TaskType.no_type;
    n_reduce = 0;
    id = 0;
    n_map = 0;
    done = false;
  }

  -- The reply, and the `DetectStraggler` that is started for the task, if there is one
  unfoldable pub get_task : Coordinator F → Coordinator F × GetTaskReply F × List (ℕ × TaskType)
  unfolding claim
  get_task c =
      if not (c.maps_left == 0)
      then elim (claim c.map_tasks) [
        | none ↦ (c, no_reply, [])
        | some found ↦
            let (task, tasks) = found in
            (
              record c { map_tasks = tasks },
              record no_reply {
                file_name = task.filename;
                task_type = TaskType.map_task;
                n_reduce = c.n_reduce;
                id = task.num;
              },
              (task.num, TaskType.map_task) ∷ [],
            )
      ]
      else if c.reduces_left == 0
      then (c, record no_reply { done = true }, [])
      else elim (claim c.reduce_tasks) [
        | none ↦ (c, no_reply, [])
        | some found ↦
            let (task, tasks) = found in
            (
              record c { reduce_tasks = tasks },
              record no_reply {
                task_type = TaskType.reduce_task;
                id = task.num;
                n_map = length c.map_tasks;
              },
              (task.num, TaskType.reduce_task) ∷ [],
            )
      ]

  -- `n` tasks from number `i` on
  abbrev pub reduce_tasks_from : ℕ → ℕ → List (Task F)
  reduce_tasks_from i zero = []
  reduce_tasks_from i (suc n) =
      record { num = i; status = Status.unstarted; filename = no_name }
      ∷ reduce_tasks_from (i + 1) n

  -- `MakeCoordinator`, less the server that it starts
  unfoldable pub make_coordinator : List F → ℕ → Coordinator F
  make_coordinator files n_reduce = record {
    map_tasks = map_tasks_from 0 files;
    reduce_tasks = reduce_tasks_from 0 n_reduce;
    maps_left = length files;
    reduces_left = n_reduce;
    n_reduce = n_reduce;
  }
