-- ===== src/Mr/Coordinator/Replies.antt =====
-- mr/coordinator.go: what a reply of `GetTask` says of the tasks, and what `Done` says.
use mr_and_raft.Common.{
  ℕ, ◌<◌, ◌≡◌, ◌≢◌, ◌↔◌, refl, inl, inr, true, some, List, [], ◌∷◌, length, ◌==◌, Bool-cases,
  Option-cases, arith, get_elem?, Returns,
}
use mathlib.Core.Path.{subst}
use mr_and_raft.Mr.Coordinator.{
  Status, TaskType, Task, Coordinator, GetTaskReply, is_unstarted, claim, detect_straggler,
  mark_complete, is_done, no_reply, get_task,
}
use mr_and_raft.Mr.Coordinator.Tasks.{
  is_completed, open_tasks, AllStatus, Claimed, claim_lem, claim-none, leave_progress_total,
}
use mr_and_raft.Mr.Coordinator.Invariant.{IsValid, Reach, Reach-IsValid, open_tasks-zero}

one_status : (s : Status) → is_unstarted s ≡ true → is_completed s ≢ true
one_status s free all = ground arith

module _ {ℓ} {F : Type ℓ} where
  -- A task of the list is in progress.
  abbrev pub SomeInProgress : List (Task F) → Type ℓ
  SomeInProgress tasks =
      (i : ℕ) × (task : Task F) × (get_elem? tasks i ≡ some task)
      × (task.status ≡ Status.in_progress)

  -- The task at the index was unstarted.
  abbrev pub WasUnstarted : List (Task F) → ℕ → Task F → Type ℓ
  WasUnstarted tasks i task = (get_elem? tasks i ≡ some task) × (task.status ≡ Status.unstarted)

  abbrev pub AllCompleted : List (Task F) → Type 0
  AllCompleted tasks = AllStatus is_completed tasks

  -- What a reply says of the coordinator that gave it.
  pub data Answered (no_name : F) (c : Coordinator F) : GetTaskReply F → Type ℓ where
    a_map :
        (i : ℕ) (task : Task F)
        → WasUnstarted c.map_tasks i task
        → Answered no_name c (record (no_reply no_name) {
          file_name = task.filename;
          task_type = TaskType.map_task;
          n_reduce = c.n_reduce;
          id = i;
        })
    a_reduce :
        (i : ℕ) (task : Task F)
        → AllCompleted c.map_tasks
        → WasUnstarted c.reduce_tasks i task
        → Answered no_name c (record (no_reply no_name) {
          task_type = TaskType.reduce_task;
          id = i;
          n_map = length c.map_tasks;
        })
    wait_map : SomeInProgress c.map_tasks → Answered no_name c (no_reply no_name)
    wait_reduce :
        AllCompleted c.map_tasks
        → SomeInProgress c.reduce_tasks
        → Answered no_name c (no_reply no_name)
    all_done :
        AllCompleted c.map_tasks
        → AllCompleted c.reduce_tasks
        → Answered no_name c (record (no_reply no_name) { done = true })

  first_claim :
      {tasks : List (Task F)} {found : Task F × List (Task F)}
      → Claimed 0 tasks found
      → WasUnstarted tasks found.0.num found.0
  first_claim {tasks} {found} q =
      let (k, e, at) = q.stands in
      let same : k ≡ found.0.num = omega (arith, e) in
      (subst (λ i. get_elem? tasks i ≡ some found.0) same at, q.was_unstarted)

  pub get_task-Answered :
      (no_name : F) (c : Coordinator F) → IsValid c → Answered no_name c (get_task no_name c).1
  unfolding get_task
  get_task-Answered no_name c v = elim (Bool-cases (c.maps_left == 0)) [
    | inr maps ↦ elim (Option-cases (claim c.map_tasks)) [
      | inl out ↦
          let more : 0 < open_tasks c.map_tasks = ground (arith, v.maps_counted) in
          rw (maps, out) (Answered.wait_map (claim-none c.map_tasks out more))
      | inr (found, at) ↦
          let q = (claim_lem 0 c.map_tasks v.maps_numbered).result found at in
          rw (maps, at) (Answered.a_map found.0.num found.0 (first_claim q))
    ]
    | inl no_maps ↦
        let completed : AllCompleted c.map_tasks =
          (open_tasks-zero c.map_tasks).0 (ground (arith, v.maps_counted)) in
        elim (Bool-cases (c.reduces_left == 0)) [
          | inl no_reduces ↦
              rw (no_maps, no_reduces)
                (Answered.all_done completed
                  ((open_tasks-zero c.reduce_tasks).0 (ground (arith, v.reduces_counted))))
          | inr reduces ↦ elim (Option-cases (claim c.reduce_tasks)) [
            | inl out ↦
                let more : 0 < open_tasks c.reduce_tasks = ground (arith, v.reduces_counted) in
                rw (no_maps, reduces, out)
                  (Answered.wait_reduce completed (claim-none c.reduce_tasks out more))
            | inr (found, at) ↦
                let q = (claim_lem 0 c.reduce_tasks v.reduces_numbered).result found at in
                rw (no_maps, reduces, at)
                  (Answered.a_reduce found.0.num found.0 completed (first_claim q))
          ]
        ]
  ]

  -- The coordinator of a reachable state answers a request for a task with an unstarted map task and
  -- its file, or, once all map tasks are completed, with an unstarted reduce task and the number of
  -- map tasks; with no task only while a task of that kind is in progress; and with `done` when all
  -- tasks are completed.
  pub get_task_lem :
      {no_name : F} {files : List F} {n_reduce : ℕ} {c : Coordinator F}
      → Reach no_name files n_reduce c
      → Answered no_name c (get_task no_name c).1
  get_task_lem {no_name} {c} r = get_task-Answered no_name c (Reach-IsValid r)

  none_both :
      (tasks : List (Task F)) → AllStatus is_unstarted tasks → AllCompleted tasks → tasks ≡ []
  none_both [] free all = refl
  none_both (task ∷ tasks) free all = absurd (one_status task.status free.0 all.0)

  -- In a reachable state `Done` is true exactly when all reduce tasks are completed; where there is
  -- a reduce task at all, all map tasks are completed then as well.
  pub is_done_lem :
      {no_name : F} {files : List F} {n_reduce : ℕ} {c : Coordinator F}
      → Reach no_name files n_reduce c
      → ((is_done c ≡ true) ↔ AllCompleted c.reduce_tasks)
        × (is_done c ≡ true → c.reduce_tasks ≢ [] → AllCompleted c.map_tasks)
  unfolding is_done
  is_done_lem {c} r =
      let v = Reach-IsValid r in
      let (to, from) = open_tasks-zero c.reduce_tasks in
      (
        (
          (λ e. to (ground (arith, v.reduces_counted))),
          (λ all. ground (arith, v.reduces_counted, from all)),
        ),
        λ e some_reduce. elim (Bool-cases (c.maps_left == 0)) [
          | inl no_maps ↦ (open_tasks-zero c.map_tasks).0 (ground (arith, v.maps_counted))
          | inr maps ↦ absurd (
              some_reduce (
                none_both c.reduce_tasks (v.in_order (ground arith))
                  (to (ground (arith, v.reduces_counted)))))
        ],
      )

  -- A task whose number a list of that length has can be reported and be given up without a panic.
  pub task_calls_return :
      (idx : ℕ) (c : Coordinator F)
      → idx < length c.map_tasks
      → Returns (mark_complete idx TaskType.map_task c)
        × Returns (detect_straggler idx TaskType.map_task c)
  unfolding mark_complete detect_straggler
  task_calls_return idx c h =
      let (left, e) = leave_progress_total Status.completed idx c.map_tasks h in
      let (left', e') = leave_progress_total Status.unstarted idx c.map_tasks h in
      (rw e (_, refl), rw e' (_, refl))
