-- ===== src/Mr/Job.antt =====
-- A whole job of mr/: the loop of `Worker` in worker.go, with its calls of `GetTask` and
-- `MarkComplete`, against the coordinator and the files that all workers share. `DoMap` and
-- `DoReduce` are one step each: two runs of `DoMap` for one task that mix their writes are not in
-- this model.
pub mod Contents
pub mod Invariant
pub mod Steps
pub mod Agree
pub mod Result
pub mod Progress
use mr_and_raft.Common.{
  ℕ, ◌≡◌, Bool, true, false, Option, none, some, List, ◌>>=◌, if◌then◌else◌, update,
}
use mr_and_raft.Mr.Worker.{KeyValue, Files, do_map}
use mr_and_raft.Mr.Reducer.{do_reduce}
use mr_and_raft.Mr.Coordinator.{
  TaskType, Coordinator, GetTaskReply, get_task, detect_straggler, mark_complete, make_coordinator,
}

-- What a job is run with: the plugin's two functions, the files that it reads, and what the standard
-- library does.
pub record Program {ℓ} (F S K V E W : Type ℓ) : Type ℓ where
  pub no_name : F
  pub read : F → Option S
  pub mapf : F → S → List (KeyValue K V)
  pub reducef : K → List V → W
  pub key_eq : Discrete K
  pub sum32 : K → ℕ
  pub encode : KeyValue K V → E
  pub decode : E → Option (KeyValue K V)
  pub sort_pairs : List (KeyValue K V) → List (KeyValue K V)

-- Where a worker stands in its loop. `left` is a worker that has returned or crashed.
pub data Doing {ℓ} (F : Type ℓ) : Type ℓ where
  asking : Doing F
  mapping : GetTaskReply F → Doing F
  reducing : GetTaskReply F → Doing F
  reporting : ℕ → TaskType → Doing F
  left : Doing F

-- `files i p` is the file "mr-i-p", and `outputs p` the lines of "mr-out-p".
pub record Job {ℓ} (F K E W : Type ℓ) : Type ℓ where
  pub coordinator : Coordinator F
  pub files : ℕ → Files E
  pub outputs : ℕ → Option (List (K × W))
  pub workers : ℕ → Doing F

-- What `Worker` does after `GetTask` has returned; with neither type of task it sleeps and asks
-- again.
abbrev pub after_reply {ℓ} : {F : Type ℓ} → GetTaskReply F → Doing F
after_reply reply = if reply.done then Doing.left else elim reply.task_type [
  | TaskType.no_type ↦ Doing.asking
  | TaskType.map_task ↦ Doing.mapping reply
  | TaskType.reduce_task ↦ Doing.reducing reply
]

module _ {ℓ} {F S K V E W : Type ℓ} (prog : Program F S K V E W) where
  -- `DoMap` with the arguments that `Worker` takes from the reply
  unfoldable pub run_map : GetTaskReply F → (ℕ → Files E) → Option (ℕ → Files E)
  run_map reply files = do
    content ← prog.read reply.file_name
    written ←
        do_map prog.sum32 prog.encode reply.n_reduce (prog.mapf reply.file_name content)
          (files reply.id)
    some (update files reply.id written)

  -- `DoReduce` likewise
  unfoldable pub run_reduce :
      GetTaskReply F
      → (ℕ → Files E)
      → (ℕ → Option (List (K × W)))
      → Option (ℕ → Option (List (K × W)))
  run_reduce reply files outputs = do
    lines ←
        do_reduce prog.key_eq prog.decode prog.sort_pairs prog.reducef reply.id reply.n_map files
    some (update outputs reply.id (some lines))

  -- A call of `GetTask` by worker `w`, and what it does next
  unfoldable pub ask : ℕ → Job F K E W → Job F K E W
  ask w job =
      let (c, reply, _) = get_task prog.no_name job.coordinator in
      record job { coordinator = c; workers = update job.workers w (after_reply reply) }

  -- The steps of the workers, and of the goroutines of `DetectStraggler`, which may wake at any time
  -- for any task. A worker may crash or hang for ever at any point.
  pub data Step : Job F K E W → Job F K E W → Type ℓ where
    asks : {job : Job F K E W} (w : ℕ) → job.workers w ≡ Doing.asking → Step job (ask w job)
    maps :
        {job : Job F K E W} (w : ℕ) (reply : GetTaskReply F) {files : ℕ → Files E}
        → job.workers w ≡ Doing.mapping reply
        → run_map reply job.files ≡ some files
        → Step job (record job {
          files = files;
          workers = update job.workers w (Doing.reporting reply.id TaskType.map_task);
        })
    reduces :
        {job : Job F K E W} (w : ℕ) (reply : GetTaskReply F) {outputs : ℕ → Option (List (K × W))}
        → job.workers w ≡ Doing.reducing reply
        → run_reduce reply job.files job.outputs ≡ some outputs
        → Step job (record job {
          outputs = outputs;
          workers = update job.workers w (Doing.reporting reply.id TaskType.reduce_task);
        })
    reports :
        {job : Job F K E W} (w id : ℕ) (type : TaskType) {c : Coordinator F}
        → job.workers w ≡ Doing.reporting id type
        → mark_complete id type job.coordinator ≡ some c
        → Step job (record job { coordinator = c; workers = update job.workers w Doing.asking })
    wakes :
        {job : Job F K E W} (idx : ℕ) (type : TaskType) {c : Coordinator F}
        → detect_straggler idx type job.coordinator ≡ some c
        → Step job (record job { coordinator = c })
    crashes :
        {job : Job F K E W} (w : ℕ)
        → Step job (record job { workers = update job.workers w Doing.left })

  -- A new job, in a directory that may hold files of an older one. Every worker starts by asking.
  abbrev pub start_job : List F → ℕ → (ℕ → Files E) → (ℕ → Option (List (K × W))) → Job F K E W
  start_job inputs n_reduce files outputs = record {
    coordinator = make_coordinator prog.no_name inputs n_reduce;
    files = files;
    outputs = outputs;
    workers = λ w. Doing.asking;
  }

  pub data Reach (inputs : List F) (n_reduce : ℕ) : Job F K E W → Type ℓ where
    started :
        (files : ℕ → Files E) (outputs : ℕ → Option (List (K × W)))
        → Reach inputs n_reduce (start_job inputs n_reduce files outputs)
    later :
        {job next : Job F K E W}
        → Reach inputs n_reduce job
        → Step job next
        → Reach inputs n_reduce next
