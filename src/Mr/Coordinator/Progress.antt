-- ===== src/Mr/Coordinator/Progress.antt =====
-- mr/coordinator.go: as long as a task is open, a worker can be given one, and its report counts.
use mr_and_raft.Common.{
  ℕ, zero, suc, ◌+◌, ◌<◌, ◌≡◌, ◌≢◌, refl, inl, inr, true, false, some, none, List, [], ◌∷◌, ◌==◌,
  get_elem?, Bool-cases, Option-cases, arith, some_inj, Returns, ap, ◌∙◌,
}
use mathlib.Core.Path.{subst}
use mr_and_raft.Mr.Coordinator.{
  Status, TaskType, Task, Coordinator, is_unstarted, claim, leave_progress, detect_straggler,
  mark_complete, get_task,
}
use mr_and_raft.Mr.Coordinator.Tasks.{NumberedFrom, claim-none, leave_progress_lem}
use mr_and_raft.Mr.Coordinator.Invariant.{IsValid}

module _ {ℓ} {F : Type ℓ} where
  leave_first :
      (i : ℕ) (task : Task F) (tasks : List (Task F)) (found : Task F × List (Task F))
      → task.num ≡ i
      → (task, record task { status = Status.in_progress } ∷ tasks) ≡ found
      → (k : ℕ) × (found.0.num ≡ i + k)
        × (tasks' : List (Task F)) × (leave_progress Status.completed k found.1
            ≡ some (tasks', true))
  unfolding leave_progress
  leave_first i task tasks found num same =
      subst
        (λ f.
          (k : ℕ) × (f.0.num ≡ i + k)
          × (tasks' : List (Task F)) × (leave_progress Status.completed k f.1
              ≡ some (tasks', true)))
        same (0, omega (arith, num), _, refl)

  -- A claimed task can be completed.
  claimed_can_leave :
      (i : ℕ) (tasks : List (Task F)) (found : Task F × List (Task F))
      → NumberedFrom i tasks
      → claim tasks ≡ some found
      → (k : ℕ) × (found.0.num ≡ i + k)
        × (tasks' : List (Task F)) × (leave_progress Status.completed k found.1
            ≡ some (tasks', true))
  unfolding claim leave_progress
  claimed_can_leave i [] found h e = cc
  claimed_can_leave i (task ∷ tasks) found h e = elim (Bool-cases (is_unstarted task.status)) [
    | inl free ↦ leave_first i task tasks found h.0 (some_inj (rw free at e))
    | inr busy ↦ elim (Option-cases (claim tasks)) [
      | inl out ↦ let none_found : none ≡ some found = rw (busy, out) at e in cc
      | inr (found', at) ↦
          let same = some_inj (rw (busy, at) at e) in
          let (k, num, tasks', left) = claimed_can_leave (i + 1) tasks found' h.1 at in
          subst
            (λ f.
              (k : ℕ) × (f.0.num ≡ i + k)
              × (tasks' : List (Task F)) × (leave_progress Status.completed k f.1
                  ≡ some (tasks', true)))
            same (suc k, omega (arith, num), task ∷ tasks', rw left refl)
    ]
  ]

  claim-cons :
      (t : Task F) (tasks : List (Task F)) (found : Task F × List (Task F))
      → claim tasks ≡ some found
      → Returns (claim (t ∷ tasks))
  unfolding claim
  claim-cons t tasks found at = elim (Bool-cases (is_unstarted t.status)) [
    | inl free ↦ rw free (_, refl)
    | inr other ↦ rw (other, at) (_, refl)
  ]

  -- A task in progress can be given up, and then there is one to claim.
  given_up :
      (i : ℕ) (tasks : List (Task F)) (task : Task F)
      → get_elem? tasks i ≡ some task
      → task.status ≡ Status.in_progress
      → (tasks' : List (Task F)) × (leave_progress Status.unstarted i tasks ≡ some (tasks', true))
        × (found : Task F × List (Task F)) × (claim tasks' ≡ some found)
  unfolding claim leave_progress
  given_up i [] task at busy = cc
  given_up zero (t ∷ tasks) task at busy =
      let s : t.status ≡ Status.in_progress = ap (λ u. u.status) (some_inj at) ∙ busy in
      (record t { status = Status.unstarted } ∷ tasks, rw s refl, _, refl)
  given_up (suc i) (t ∷ tasks) task at busy =
      let (tasks', left, found, claimed) = given_up i tasks task at busy in
      let (found', claimed') = claim-cons t tasks' found claimed in
      (t ∷ tasks', rw left refl, found', claimed')

  abbrev pub tasks_left : Coordinator F → ℕ
  tasks_left c = c.maps_left + c.reduces_left

  -- The next reply gives a task, whose report leaves one task less.
  pub record Offers (no_name : F) (type : TaskType) (c : Coordinator F) : Type ℓ where
    pub given : (get_task no_name c).1.task_type ≡ type
    pub not_done : (get_task no_name c).1.done ≡ false
    pub closed :
        (d : Coordinator F) × (mark_complete (get_task no_name c).1.id type (get_task no_name c).0
          ≡ some d)
        × (tasks_left d + 1 ≡ tasks_left c)

  map_offer :
      (no_name : F) (c : Coordinator F) (found : Task F × List (Task F))
      → NumberedFrom 0 c.map_tasks
      → 0 < c.maps_left
      → claim c.map_tasks ≡ some found
      → Offers no_name TaskType.map_task c
  unfolding get_task mark_complete
  map_offer no_name c found h more at =
      let maps : (c.maps_left == 0) ≡ false = ground arith in
      let (k, num, tasks', left) = claimed_can_leave 0 c.map_tasks found h at in
      let here : leave_progress Status.completed found.0.num found.1 ≡ some (tasks', true) =
        subst (λ i. leave_progress Status.completed i found.1 ≡ some (tasks', true))
          (omega (arith, num)) left in
      record {
        given = rw (maps, at) refl;
        not_done = rw (maps, at) refl;
        closed = rw (maps, at, here) (_, refl, omega (arith, more));
      }

  reduce_offer :
      (no_name : F) (c : Coordinator F) (found : Task F × List (Task F))
      → NumberedFrom 0 c.reduce_tasks
      → c.maps_left ≡ 0
      → 0 < c.reduces_left
      → claim c.reduce_tasks ≡ some found
      → Offers no_name TaskType.reduce_task c
  unfolding get_task mark_complete
  reduce_offer no_name c found h none_left more at =
      let maps : (c.maps_left == 0) ≡ true = ground arith in
      let reduces : (c.reduces_left == 0) ≡ false = ground arith in
      let (k, num, tasks', left) = claimed_can_leave 0 c.reduce_tasks found h at in
      let here : leave_progress Status.completed found.0.num found.1 ≡ some (tasks', true) =
        subst (λ i. leave_progress Status.completed i found.1 ≡ some (tasks', true))
          (omega (arith, num)) left in
      record {
        given = rw (maps, reduces, at) refl;
        not_done = rw (maps, reduces, at) refl;
        closed = rw (maps, reduces, at, here) (_, refl, omega (arith, more));
      }

  -- The next reply gives a task, or does once a goroutine has woken.
  pub data Ready (no_name : F) (c : Coordinator F) : Type ℓ where
    ready : (type : TaskType) → type ≢ TaskType.no_type → Offers no_name type c → Ready no_name c
    ready_awake :
        (idx : ℕ) (type : TaskType) (d : Coordinator F)
        → detect_straggler idx type c ≡ some d
        → tasks_left d ≡ tasks_left c
        → type ≢ TaskType.no_type
        → Offers no_name type d
        → Ready no_name c

  ready_map : (no_name : F) (c : Coordinator F) → IsValid c → 0 < c.maps_left → Ready no_name c
  unfolding detect_straggler
  ready_map no_name c v more = elim (Option-cases (claim c.map_tasks)) [
    | inr (found, at) ↦
        Ready.ready TaskType.map_task (λ e. cc) (map_offer no_name c found v.maps_numbered more at)
    | inl out ↦
        let (i, task, at, busy) =
          claim-none c.map_tasks out (omega (arith, more, v.maps_counted)) in
        let (tasks', left, found, claimed) = given_up i c.map_tasks task at busy in
        let numbered =
          (leave_progress_lem Status.unstarted 0 i c.map_tasks v.maps_numbered).result _ left in
        Ready.ready_awake i TaskType.map_task (record c { map_tasks = tasks' }) (rw left refl) refl
          (λ e. cc)
          (map_offer no_name (record c { map_tasks = tasks' }) found numbered.numbered more claimed)
  ]

  ready_reduce :
      (no_name : F) (c : Coordinator F)
      → IsValid c
      → c.maps_left ≡ 0
      → 0 < c.reduces_left
      → Ready no_name c
  unfolding detect_straggler
  ready_reduce no_name c v none_left more = elim (Option-cases (claim c.reduce_tasks)) [
    | inr (found, at) ↦
        Ready.ready TaskType.reduce_task (λ e. cc)
          (reduce_offer no_name c found v.reduces_numbered none_left more at)
    | inl out ↦
        let (i, task, at, busy) =
          claim-none c.reduce_tasks out (omega (arith, more, v.reduces_counted)) in
        let (tasks', left, found, claimed) = given_up i c.reduce_tasks task at busy in
        let numbered =
          (leave_progress_lem Status.unstarted 0 i c.reduce_tasks v.reduces_numbered).result _
            left in
        Ready.ready_awake i TaskType.reduce_task (record c { reduce_tasks = tasks' }) (rw left refl)
          refl (λ e. cc)
          (reduce_offer no_name (record c { reduce_tasks = tasks' }) found numbered.numbered
            none_left more claimed)
  ]

  pub IsValid-ready :
      (no_name : F) (c : Coordinator F) → IsValid c → 0 < tasks_left c → Ready no_name c
  IsValid-ready no_name c v more = elim (Bool-cases (c.maps_left == 0)) [
    | inl none_left ↦ ready_reduce no_name c v (ground (arith, none_left)) (ground arith)
    | inr some_left ↦ ready_map no_name c v (ground (arith, some_left))
  ]
