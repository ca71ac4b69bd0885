-- ===== src/Mr/Coordinator/Kept.antt =====
-- mr/coordinator.go: what stays of each task when the coordinator changes its lists.
use mr_and_raft.Common.{
  ℕ, zero, suc, ◌+◌, ◌≡◌, ◌⊎◌, refl, inl, inr, some, List, [], ◌∷◌, length, get_elem?, Bool-cases,
  Option-cases, ap, sym, ◌==◌, arith, Ensures, Ensures-some, Ensures-after, some_inj,
}
use mathlib.Core.Path.{subst, ◌∙◌}
use mr_and_raft.Mr.Coordinator.{
  Status, TaskType, Coordinator, get_task, detect_straggler, mark_complete, Task, is_unstarted,
  is_in_progress, claim, leave_progress, map_tasks_from, reduce_tasks_from,
}

module _ {ℓ} {F : Type ℓ} where
  -- Each task of the new list is one of the old list, with its file; it is completed only if it was,
  -- or if `New` holds of its number.
  abbrev pub FromOld : (ℕ → Type 0) → List (Task F) → List (Task F) → Type ℓ
  FromOld New tasks tasks' =
      (i : ℕ) (t' : Task F)
      → get_elem? tasks' i ≡ some t'
      → (t : Task F) × (get_elem? tasks i ≡ some t)
        × (t'.filename ≡ t.filename)
        × (t'.status ≡ Status.completed → (t.status ≡ Status.completed) ⊎ New i)

  pub record Kept (New : ℕ → Type 0) (tasks tasks' : List (Task F)) : Type ℓ where
    pub same_length : length tasks' ≡ length tasks
    pub from_old : FromOld New tasks tasks'

  FromOld-same : (New : ℕ → Type 0) (tasks : List (Task F)) → FromOld New tasks tasks
  FromOld-same New tasks i t' e = (t', e, refl, λ h. inl h)

  FromOld-head :
      (New : ℕ → Type 0) (t t' : Task F) (ts : List (Task F))
      → t'.filename ≡ t.filename
      → (t'.status ≡ Status.completed → (t.status ≡ Status.completed) ⊎ New zero)
      → FromOld New (t ∷ ts) (t' ∷ ts)
  FromOld-head New t t' ts f h zero u e =
      let same : t' ≡ u = some_inj e in
      (t, refl, subst (λ v. v.filename ≡ t.filename) same f, λ c. h (ap (λ v. v.status) same ∙ c))
  FromOld-head New t t' ts f h (suc i) u e = (u, e, refl, λ c. inl c)

  FromOld-cons :
      (New : ℕ → Type 0) (t : Task F) (ts ts' : List (Task F))
      → FromOld (λ i. New (suc i)) ts ts'
      → FromOld New (t ∷ ts) (t ∷ ts')
  FromOld-cons New t ts ts' h zero u e = (u, e, refl, λ c. inl c)
  FromOld-cons New t ts ts' h (suc i) u e = h i u e

  pub claim-Kept :
      (New : ℕ → Type 0) (tasks : List (Task F))
      → Ensures (λ found. Kept New tasks found.1) (claim tasks)
  unfolding claim
  claim-Kept New [] = record { result = λ found e. cc }
  claim-Kept New (task ∷ tasks) = elim (Bool-cases (is_unstarted task.status)) [
    | inl e ↦ rw e (
        Ensures-some
          (record { same_length = refl; from_old = FromOld-head New task _ tasks refl (λ c. cc) }))
    | inr e ↦ rw e (
        Ensures-after (claim-Kept (λ i. New (suc i)) tasks) λ found q. Ensures-some (record {
          same_length = ap suc q.same_length;
          from_old = FromOld-cons New task tasks found.1 q.from_old;
        }))
  ]

  pub leave_progress-Kept :
      (New : ℕ → Type 0) (status : Status) (idx : ℕ) (tasks : List (Task F))
      → (status ≡ Status.completed → New idx)
      → Ensures (λ left. Kept New tasks left.0) (leave_progress status idx tasks)
  unfolding leave_progress
  leave_progress-Kept New status idx [] h = record { result = λ left e. cc }
  leave_progress-Kept New status zero (task ∷ tasks) h =
      elim (Bool-cases (is_in_progress task.status)) [
        | inl e ↦ rw e (
            Ensures-some (record {
              same_length = refl;
              from_old = FromOld-head New task _ tasks refl (λ c. inr (h c));
            }))
        | inr e ↦ rw e (
            Ensures-some
              (record { same_length = refl; from_old = FromOld-same New (task ∷ tasks) }))
      ]
  leave_progress-Kept New status (suc idx) (task ∷ tasks) h =
      Ensures-after (leave_progress-Kept (λ i. New (suc i)) status idx tasks h) λ left q.
        Ensures-some (record {
          same_length = ap suc q.same_length;
          from_old = FromOld-cons New task tasks left.0 q.from_old;
        })

  -- What a handler does to the lists and to the count of open map tasks.
  pub record Moves (NewMap NewReduce : ℕ → Type 0) (c c' : Coordinator F) : Type ℓ where
    pub same_buckets : c'.n_reduce ≡ c.n_reduce
    pub maps : Kept NewMap c.map_tasks c'.map_tasks
    pub reduces : Kept NewReduce c.reduce_tasks c'.reduce_tasks
    pub stays_zero : c.maps_left ≡ 0 → c'.maps_left ≡ 0

  Kept-same : (New : ℕ → Type 0) (tasks : List (Task F)) → Kept New tasks tasks
  Kept-same New tasks = record { same_length = refl; from_old = FromOld-same New tasks }

  pub Moves-same : (NewMap NewReduce : ℕ → Type 0) (c : Coordinator F) → Moves NewMap NewReduce c c
  Moves-same NewMap NewReduce c = record {
    same_buckets = refl;
    maps = Kept-same NewMap c.map_tasks;
    reduces = Kept-same NewReduce c.reduce_tasks;
    stays_zero = λ e. e;
  }

  pub get_task-Moves :
      (NewMap NewReduce : ℕ → Type 0) (no_name : F) (c : Coordinator F)
      → Moves NewMap NewReduce c (get_task no_name c).0
  unfolding get_task
  get_task-Moves NewMap NewReduce no_name c = elim (Bool-cases (c.maps_left == 0)) [
    | inr maps ↦ elim (Option-cases (claim c.map_tasks)) [
      | inl out ↦ rw (maps, out) (Moves-same NewMap NewReduce c)
      | inr (found, at) ↦
          rw (maps, at)
            (record {
              same_buckets = refl;
              maps = (claim-Kept NewMap c.map_tasks).result found at;
              reduces = Kept-same NewReduce c.reduce_tasks;
              stays_zero = λ e. e;
            })
    ]
    | inl no_maps ↦ elim (Bool-cases (c.reduces_left == 0)) [
      | inl no_reduces ↦ rw (no_maps, no_reduces) (Moves-same NewMap NewReduce c)
      | inr reduces ↦ elim (Option-cases (claim c.reduce_tasks)) [
        | inl out ↦ rw (no_maps, reduces, out) (Moves-same NewMap NewReduce c)
        | inr (found, at) ↦
            rw (no_maps, reduces, at)
              (record {
                same_buckets = refl;
                maps = Kept-same NewMap c.map_tasks;
                reduces = (claim-Kept NewReduce c.reduce_tasks).result found at;
                stays_zero = λ e. e;
              })
      ]
    ]
  ]

  pub detect_straggler-Moves :
      (NewMap NewReduce : ℕ → Type 0) (idx : ℕ) (type : TaskType) (c : Coordinator F)
      → Ensures (Moves NewMap NewReduce c) (detect_straggler idx type c)
  unfolding detect_straggler
  detect_straggler-Moves NewMap NewReduce idx TaskType.no_type c =
      Ensures-some (Moves-same NewMap NewReduce c)
  detect_straggler-Moves NewMap NewReduce idx TaskType.map_task c =
      Ensures-after (leave_progress-Kept NewMap Status.unstarted idx c.map_tasks (λ e. cc))
        λ left q. Ensures-some (record {
          same_buckets = refl;
          maps = q;
          reduces = Kept-same NewReduce c.reduce_tasks;
          stays_zero = λ e. e;
        })
  detect_straggler-Moves NewMap NewReduce idx TaskType.reduce_task c =
      Ensures-after (leave_progress-Kept NewReduce Status.unstarted idx c.reduce_tasks (λ e. cc))
        λ left q. Ensures-some (record {
          same_buckets = refl;
          maps = Kept-same NewMap c.map_tasks;
          reduces = q;
          stays_zero = λ e. e;
        })

  -- A report completes no task but the one that it names.
  pub mark_complete-Moves :
      (id : ℕ) (type : TaskType) (c : Coordinator F)
      → Ensures
          (Moves
            (λ i. (type ≡ TaskType.map_task) × (id ≡ i))
            (λ i. (type ≡ TaskType.reduce_task) × (id ≡ i))
            c)
          (mark_complete id type c)
  unfolding mark_complete
  mark_complete-Moves id TaskType.no_type c = Ensures-some (Moves-same _ _ c)
  mark_complete-Moves id TaskType.map_task c =
      Ensures-after
        (leave_progress-Kept (λ i. (TaskType.map_task ≡ TaskType.map_task) × (id ≡ i))
          Status.completed id c.map_tasks (λ e. (refl, refl)))
        λ left q. Ensures-some (record {
          same_buckets = refl;
          maps = q;
          reduces = Kept-same _ c.reduce_tasks;
          stays_zero = λ e. ground arith;
        })
  mark_complete-Moves id TaskType.reduce_task c =
      Ensures-after
        (leave_progress-Kept (λ i. (TaskType.reduce_task ≡ TaskType.reduce_task) × (id ≡ i))
          Status.completed id c.reduce_tasks (λ e. (refl, refl)))
        λ left q. Ensures-some (record {
          same_buckets = refl;
          maps = Kept-same _ c.map_tasks;
          reduces = q;
          stays_zero = λ e. e;
        })

  -- The first tasks are not completed, and the map tasks are for the given files.
  pub map_tasks_from-files :
      (i k : ℕ) (files : List F) (t : Task F)
      → get_elem? (map_tasks_from i files) k ≡ some t
      → (get_elem? files k ≡ some t.filename) × (t.status ≡ Status.unstarted)
  map_tasks_from-files i k [] t e = cc
  map_tasks_from-files i zero (file ∷ files) t e =
      let same = some_inj e in (ap (λ u. some u.filename) same, sym (ap (λ u. u.status) same))
  map_tasks_from-files i (suc k) (file ∷ files) t e = map_tasks_from-files (i + 1) k files t e

  pub map_tasks_from-length :
      (i : ℕ) (files : List F) → length (map_tasks_from i files) ≡ length files
  map_tasks_from-length i [] = refl
  map_tasks_from-length i (file ∷ files) = ap suc (map_tasks_from-length (i + 1) files)

  pub reduce_tasks_from-length :
      (no_name : F) (i n : ℕ) → length (reduce_tasks_from no_name i n) ≡ n
  reduce_tasks_from-length no_name i zero = refl
  reduce_tasks_from-length no_name i (suc n) = ap suc (reduce_tasks_from-length no_name (i + 1) n)

  pub reduce_tasks_from-unstarted :
      (no_name : F) (i k n : ℕ) (t : Task F)
      → get_elem? (reduce_tasks_from no_name i n) k ≡ some t
      → t.status ≡ Status.unstarted
  reduce_tasks_from-unstarted no_name i k zero t e = cc
  reduce_tasks_from-unstarted no_name i zero (suc n) t e = sym (ap (λ u. u.status) (some_inj e))
  reduce_tasks_from-unstarted no_name i (suc k) (suc n) t e =
      reduce_tasks_from-unstarted no_name (i + 1) k n t e
