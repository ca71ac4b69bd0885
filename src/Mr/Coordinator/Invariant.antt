-- ===== src/Mr/Coordinator/Invariant.antt =====
-- mr/coordinator.go: what holds of a coordinator whatever its workers ask, in any order.
use mr_and_raft.Common.{
  ℕ, zero, suc, ◌+◌, ◌-◌, ◌<◌, ◌≡◌, ◌↔◌, refl, inl, inr, ◌∙◌, sym, ◌&&◌, Bool, true, false, some,
  List, [], ◌∷◌, if◌then◌else◌, length, ◌==◌, Bool-cases, Option-cases, arith, Ensures,
  Ensures-some, Ensures-after,
}
use mathlib.Core.Path.{subst}
use mr_and_raft.Mr.Coordinator.{
  Status, TaskType, Task, Coordinator, is_unstarted, claim, detect_straggler, mark_complete,
  get_task, make_coordinator, map_tasks_from, reduce_tasks_from,
}
use mr_and_raft.Mr.Coordinator.Tasks.{
  is_completed, open_tasks, AllStatus, NumberedFrom, claim_lem, leave_progress_lem,
}

counted_off :
    (was : Bool) (left n : ℕ) {count : ℕ}
    → left ≡ count
    → n + (if was && true then 1 else 0) ≡ count
    → (if was then left - 1 else left) ≡ n
counted_off true left n e h = omega arith
counted_off false left n e h = omega arith

not_counted : (was : Bool) {n count : ℕ} → n + (if was && false then 1 else 0) ≡ count → n ≡ count
not_counted true h = omega arith
not_counted false h = omega arith

was_more : (was : Bool) (left : ℕ) → 0 < (if was then left - 1 else left) → 0 < left
was_more true left h = omega arith
was_more false left h = omega arith

module _ {ℓ} {F : Type ℓ} where
  -- The counters tell how many tasks are open, tasks stand at their numbers, and no reduce task is
  -- started while a map task is open.
  pub record IsValid (c : Coordinator F) : Type ℓ where
    pub maps_numbered : NumberedFrom 0 c.map_tasks
    pub reduces_numbered : NumberedFrom 0 c.reduce_tasks
    pub maps_counted : c.maps_left ≡ open_tasks c.map_tasks
    pub reduces_counted : c.reduces_left ≡ open_tasks c.reduce_tasks
    pub in_order : 0 < c.maps_left → AllStatus is_unstarted c.reduce_tasks

  pub open_tasks-zero :
      (tasks : List (Task F)) → (open_tasks tasks ≡ 0) ↔ AllStatus is_completed tasks
  open_tasks-zero [] = ((λ e. tt), (λ h. refl))
  open_tasks-zero (task ∷ tasks) = elim (Bool-cases (is_completed task.status)) [
    | inl e ↦ rw e (
      (λ none_open. (refl, (open_tasks-zero tasks).0 (omega (arith, none_open)))),
      (λ all. omega (arith, (open_tasks-zero tasks).1 all.1)),
    )
    | inr e ↦ rw e ((λ none_open. absurd (omega (arith, none_open))), (λ all. absurd (cc (all.0))))
  ]

  pub mark_complete-IsValid :
      (id : ℕ) (type : TaskType) (c : Coordinator F)
      → IsValid c
      → Ensures IsValid (mark_complete id type c)
  unfolding mark_complete
  mark_complete-IsValid id TaskType.no_type c v = Ensures-some v
  mark_complete-IsValid id TaskType.map_task c v =
      Ensures-after (leave_progress_lem Status.completed 0 id c.map_tasks v.maps_numbered) λ left q.
        Ensures-some (record {
          maps_numbered = q.numbered;
          reduces_numbered = v.reduces_numbered;
          maps_counted = counted_off left.1 c.maps_left _ v.maps_counted q.counted;
          reduces_counted = v.reduces_counted;
          in_order = λ more. v.in_order (was_more left.1 c.maps_left more);
        })
  mark_complete-IsValid id TaskType.reduce_task c v =
      Ensures-after (leave_progress_lem Status.completed 0 id c.reduce_tasks v.reduces_numbered)
        λ left q. Ensures-some (record {
          maps_numbered = v.maps_numbered;
          reduces_numbered = q.numbered;
          maps_counted = v.maps_counted;
          reduces_counted = counted_off left.1 c.reduces_left _ v.reduces_counted q.counted;
          in_order = λ more.
              subst (AllStatus is_unstarted) (sym (q.all_unstarted (v.in_order more)).0)
                (v.in_order more);
        })

  pub detect_straggler-IsValid :
      (idx : ℕ) (type : TaskType) (c : Coordinator F)
      → IsValid c
      → Ensures IsValid (detect_straggler idx type c)
  unfolding detect_straggler
  detect_straggler-IsValid idx TaskType.no_type c v = Ensures-some v
  detect_straggler-IsValid idx TaskType.map_task c v =
      Ensures-after (leave_progress_lem Status.unstarted 0 idx c.map_tasks v.maps_numbered)
        λ left q. Ensures-some (record {
          maps_numbered = q.numbered;
          reduces_numbered = v.reduces_numbered;
          maps_counted = v.maps_counted ∙ sym (not_counted left.1 q.counted);
          reduces_counted = v.reduces_counted;
          in_order = v.in_order;
        })
  detect_straggler-IsValid idx TaskType.reduce_task c v =
      Ensures-after (leave_progress_lem Status.unstarted 0 idx c.reduce_tasks v.reduces_numbered)
        λ left q. Ensures-some (record {
          maps_numbered = v.maps_numbered;
          reduces_numbered = q.numbered;
          maps_counted = v.maps_counted;
          reduces_counted = v.reduces_counted ∙ sym (not_counted left.1 q.counted);
          in_order = λ more.
              subst (AllStatus is_unstarted) (sym (q.all_unstarted (v.in_order more)).0)
                (v.in_order more);
        })

  pub map_tasks_lem :
      (i : ℕ) (files : List F)
      → NumberedFrom i (map_tasks_from i files)
        × (length files ≡ open_tasks (map_tasks_from i files))
  map_tasks_lem i [] = (tt, refl)
  map_tasks_lem i (file ∷ files) =
      let (numbered, count) = map_tasks_lem (i + 1) files in
      ((refl, numbered), omega (arith, count))

  pub reduce_tasks_lem :
      (no_name : F) (i n : ℕ)
      → NumberedFrom i (reduce_tasks_from no_name i n)
        × (n ≡ open_tasks (reduce_tasks_from no_name i n))
        × AllStatus is_unstarted (reduce_tasks_from no_name i n)
  reduce_tasks_lem no_name i zero = (tt, refl, tt)
  reduce_tasks_lem no_name i (suc n) =
      let (numbered, count, free) = reduce_tasks_lem no_name (i + 1) n in
      ((refl, numbered), omega (arith, count), (refl, free))

  pub make_coordinator-IsValid :
      (no_name : F) (files : List F) (n_reduce : ℕ)
      → IsValid (make_coordinator no_name files n_reduce)
  unfolding make_coordinator
  make_coordinator-IsValid no_name files n_reduce =
      let (numbered, count) = map_tasks_lem 0 files in
      let (numbered', count', free) = reduce_tasks_lem no_name 0 n_reduce in
      record {
        maps_numbered = numbered;
        reduces_numbered = numbered';
        maps_counted = count;
        reduces_counted = count';
        in_order = λ more. free;
      }

  pub get_task-IsValid :
      (no_name : F) (c : Coordinator F) → IsValid c → IsValid (get_task no_name c).0
  unfolding get_task
  get_task-IsValid no_name c v = elim (Bool-cases (c.maps_left == 0)) [
    | inr maps ↦ elim (Option-cases (claim c.map_tasks)) [
      | inl out ↦ rw (maps, out) v
      | inr (found, at) ↦
          let q = (claim_lem 0 c.map_tasks v.maps_numbered).result found at in
          rw (maps, at)
            (record {
              maps_numbered = q.numbered;
              reduces_numbered = v.reduces_numbered;
              maps_counted = v.maps_counted ∙ sym q.still_open;
              reduces_counted = v.reduces_counted;
              in_order = v.in_order;
            })
    ]
    | inl no_maps ↦ elim (Bool-cases (c.reduces_left == 0)) [
      | inl no_reduces ↦ rw (no_maps, no_reduces) v
      | inr reduces ↦ elim (Option-cases (claim c.reduce_tasks)) [
        | inl out ↦ rw (no_maps, reduces, out) v
        | inr (found, at) ↦
            let q = (claim_lem 0 c.reduce_tasks v.reduces_numbered).result found at in
            rw (no_maps, reduces, at)
              (record {
                maps_numbered = v.maps_numbered;
                reduces_numbered = q.numbered;
                maps_counted = v.maps_counted;
                reduces_counted = v.reduces_counted ∙ sym q.still_open;
                in_order = λ more. absurd (ground arith);
              })
      ]
    ]
  ]

  -- What the RPCs of workers and the sleeping goroutines do, in any order; a call that panics is no
  -- step.
  pub data Step (no_name : F) : Coordinator F → Coordinator F → Type ℓ where
    ask : {c : Coordinator F} → Step no_name c (get_task no_name c).0
    wake :
        {c d : Coordinator F} (idx : ℕ) (type : TaskType)
        → detect_straggler idx type c ≡ some d
        → Step no_name c d
    report :
        {c d : Coordinator F} (id : ℕ) (type : TaskType)
        → mark_complete id type c ≡ some d
        → Step no_name c d

  pub data Reach (no_name : F) (files : List F) (n_reduce : ℕ) : Coordinator F → Type ℓ where
    made : Reach no_name files n_reduce (make_coordinator no_name files n_reduce)
    later :
        {c d : Coordinator F}
        → Reach no_name files n_reduce c
        → Step no_name c d
        → Reach no_name files n_reduce d

  -- A coordinator that was made for any files and any number of reduce tasks is well-formed whatever
  -- its workers ask and report and whenever its goroutines wake.
  pub Reach-IsValid :
      {no_name : F} {files : List F} {n_reduce : ℕ} {c : Coordinator F}
      → Reach no_name files n_reduce c
      → IsValid c
  Reach-IsValid {no_name} {files} {n_reduce} made = make_coordinator-IsValid no_name files n_reduce
  Reach-IsValid {no_name} (later {c} r ask) = get_task-IsValid no_name c (Reach-IsValid r)
  Reach-IsValid (later {c} {d} r (wake idx type e)) =
      (detect_straggler-IsValid idx type c (Reach-IsValid r)).result d e
  Reach-IsValid (later {c} {d} r (report id type e)) =
      (mark_complete-IsValid id type c (Reach-IsValid r)).result d e
