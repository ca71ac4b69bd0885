-- ===== src/Mr/Job/Result.antt =====
-- What a job has written when it is done.
use mr_and_raft.Common.{
  ℕ, ◌<◌, ◌≡◌, refl, true, sym, Option, some, List, get_elem?_total, update, arith,
}
use mathlib.Core.Path.{subst}
use mr_and_raft.Mr.Worker.{KeyValue, Files}
use mr_and_raft.Mr.Coordinator.{
  TaskType, Coordinator, detect_straggler, mark_complete, make_coordinator, is_done,
}
use mr_and_raft.Mr.Coordinator.Kept.{
  detect_straggler-Moves, mark_complete-Moves, Moves-same, map_tasks_from-files,
  reduce_tasks_from-unstarted, reduce_tasks_from-length, map_tasks_from-length,
}
use mr_and_raft.Mr.Coordinator.Invariant.{
  detect_straggler-IsValid, mark_complete-IsValid, make_coordinator-IsValid, open_tasks-zero,
}
use mr_and_raft.Mr.Job.{
  Program, Doing, Job, Step, asks, maps, reduces, reports, wakes, crashes, Reach, started, later,
  start_job,
}
use mr_and_raft.Mr.Job.Contents.{job_lines}
use mr_and_raft.Mr.Job.Invariant.{
  Reduced, Mapped, Goes, goes_mapped, goes_reduced, goes_nothing, Grows, Goes-Grows, Goes-update,
  IsSound-after,
}
use mr_and_raft.Mr.Job.Steps.{
  Sound, Grows-coordinator, ask-IsSound, maps-IsSound, reduces-IsSound, get-AllCompleted,
}

module _ {ℓ} {F S K V E W : Type ℓ} (prog : Program F S K V E W) (inputs : List F) (n : ℕ) where
  reported_map :
      {job : Job F K E W} {id : ℕ} {type : TaskType}
      → Goes prog inputs n job (Doing.reporting id type)
      → type ≡ TaskType.map_task
      → Mapped prog inputs n id job
  reported_map goes_nothing e = cc
  reported_map (goes_mapped m) e = m
  reported_map (goes_reduced r) e = cc

  reported_reduce :
      {job : Job F K E W} {id : ℕ} {type : TaskType}
      → Goes prog inputs n job (Doing.reporting id type)
      → type ≡ TaskType.reduce_task
      → Reduced prog inputs n id job
  reported_reduce goes_nothing e = cc
  reported_reduce (goes_mapped m) e = cc
  reported_reduce (goes_reduced r) e = r

  reports-IsSound :
      (w id : ℕ) (type : TaskType) (c : Coordinator F) (job : Job F K E W)
      → Goes prog inputs n job (Doing.reporting id type)
      → mark_complete id type job.coordinator ≡ some c
      → Sound prog inputs n job
      → Sound prog inputs n
          (record job { coordinator = c; workers = update job.workers w Doing.asking })
  reports-IsSound w id type c job goes e s =
      let moved = (mark_complete-Moves id type job.coordinator).result c e in
      let next : Job F K E W = record job {
        coordinator = c;
        workers = update job.workers w Doing.asking;
      } in
      let g : Grows prog inputs n job next =
        Grows-coordinator prog inputs n moved.stays_zero refl refl in
      IsSound-after prog inputs n s
        ((mark_complete-IsValid id type job.coordinator s.valid).result c e) moved g
        (λ i (is_map, same).
          subst (λ j. Mapped prog inputs n j next) same
            (g.keeps_mapped id (reported_map goes is_map)))
        (λ i (is_reduce, same).
          subst (λ j. Reduced prog inputs n j next) same (reported_reduce goes is_reduce))
        (Goes-update prog inputs n job.workers w Doing.asking
          (λ v. Goes-Grows prog inputs n g (s.workers v)) Goes.goes_asking)

  wakes-IsSound :
      (idx : ℕ) (type : TaskType) (c : Coordinator F) (job : Job F K E W)
      → detect_straggler idx type job.coordinator ≡ some c
      → Sound prog inputs n job
      → Sound prog inputs n (record job { coordinator = c })
  wakes-IsSound idx type c job e s =
      let moved = (detect_straggler-Moves (λ i. ⊥) (λ i. ⊥) idx type job.coordinator).result c e in
      let next : Job F K E W = record job { coordinator = c } in
      let g : Grows prog inputs n job next =
        Grows-coordinator prog inputs n moved.stays_zero refl refl in
      IsSound-after prog inputs n s
        ((detect_straggler-IsValid idx type job.coordinator s.valid).result c e) moved g
        (λ i e. absurd e) (λ i e. absurd e) (λ w. Goes-Grows prog inputs n g (s.workers w))

  crashes-IsSound :
      (w : ℕ) (job : Job F K E W)
      → Sound prog inputs n job
      → Sound prog inputs n (record job { workers = update job.workers w Doing.left })
  crashes-IsSound w job s =
      let next : Job F K E W = record job { workers = update job.workers w Doing.left } in
      let g : Grows prog inputs n job next = Grows-coordinator prog inputs n (λ z. z) refl refl in
      IsSound-after prog inputs n s s.valid (Moves-same (λ i. ⊥) (λ i. ⊥) job.coordinator) g
        (λ i e. absurd e) (λ i e. absurd e)
        (Goes-update prog inputs n job.workers w Doing.left
          (λ v. Goes-Grows prog inputs n g (s.workers v)) Goes.goes_left)

  start_job-IsSound :
      (files : ℕ → Files E) (outputs : ℕ → Option (List (K × W)))
      → Sound prog inputs n (start_job prog inputs n files outputs)
  unfolding make_coordinator
  start_job-IsSound files outputs = record {
    valid = make_coordinator-IsValid prog.no_name inputs n;
    buckets = refl;
    map_count = map_tasks_from-length 0 inputs;
    reduce_count = reduce_tasks_from-length prog.no_name 0 n;
    map_names = λ i t at. (map_tasks_from-files 0 i inputs t at).0;
    mapped = λ i t at all. let (_, new) = map_tasks_from-files 0 i inputs t at in cc;
    reduced = λ i t at all. let new = reduce_tasks_from-unstarted prog.no_name 0 i n t at in cc;
    workers = λ w. Goes.goes_asking;
  }

  module _ (back : (kv : KeyValue K V) → prog.decode (prog.encode kv) ≡ some kv)
      (some_bucket : 0 < n) where
    Step-IsSound :
        {job next : Job F K E W}
        → Step prog job next
        → Sound prog inputs n job
        → Sound prog inputs n next
    Step-IsSound {job} (asks w e) s = ask-IsSound prog inputs n w job s
    Step-IsSound {job} (maps w reply {files} e run) s =
        maps-IsSound prog inputs n w reply files job some_bucket
          (subst (Goes prog inputs n job) e (s.workers w)) run s
    Step-IsSound {job} (reduces w reply {outputs} e run) s =
        reduces-IsSound prog inputs n back w reply outputs job
          (subst (Goes prog inputs n job) e (s.workers w)) run s
    Step-IsSound {job} (reports w id type {c} e run) s =
        reports-IsSound w id type c job (subst (Goes prog inputs n job) e (s.workers w)) run s
    Step-IsSound {job} (wakes idx type {c} run) s = wakes-IsSound idx type c job run s
    Step-IsSound {job} (crashes w) s = crashes-IsSound w job s

    pub Reach-IsSound : {job : Job F K E W} → Reach prog inputs n job → Sound prog inputs n job
    Reach-IsSound (started files outputs) = start_job-IsSound files outputs
    Reach-IsSound (later r step) = Step-IsSound step (Reach-IsSound r)

    -- Where each run of `DoMap` and of `DoReduce` takes effect at once: whatever its workers do, in
    -- whatever order and however often they crash or are taken for dead, a job with at least one
    -- reduce task, whose lines can be read back, has written for each reduce task the lines of a
    -- single run of that task on all the inputs, once `Done` says so.
    pub job_lem :
        {job : Job F K E W}
        → Reach prog inputs n job
        → is_done job.coordinator ≡ true
        → (p : ℕ) → p < n
        → job.outputs p ≡ some (job_lines prog n p inputs)
    unfolding is_done
    job_lem {job} r done p l =
        let s = Reach-IsSound r in
        let (t, at) =
          get_elem?_total job.coordinator.reduce_tasks p
            (subst (λ k. p < k) (sym s.reduce_count) l) in
        s.reduced p t at (
          get-AllCompleted job.coordinator.reduce_tasks p t
            ((open_tasks-zero job.coordinator.reduce_tasks).0
              (ground (arith, s.valid.reduces_counted)))
            at)
