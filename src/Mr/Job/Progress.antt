-- ===== src/Mr/Job/Progress.antt =====
-- A job can always be finished while one worker is left that asks.
use mr_and_raft.Common.{
  Star, no_step, one_more, Star-trans, ℕ, zero, suc, ◌+◌, ◌<◌, ◌≡◌, ◌≢◌, refl, ◌∙◌, sym, true,
  false, some, List, get_elem?, ◌==◌, arith, Returns, update, update_here,
}
use mathlib.Core.Path.{subst}
use mr_and_raft.Mr.Worker.{KeyValue, Files, do_map_lem}
use mr_and_raft.Mr.Reducer.{do_reduce}
use mr_and_raft.Mr.Coordinator.{TaskType, GetTaskReply, get_task, is_done}
use mr_and_raft.Mr.Coordinator.Progress.{
  Offers, Ready, ready, ready_awake, IsValid-ready, tasks_left,
}
use mr_and_raft.Mr.Job.{
  Program, Doing, Job, Step, Reach, later, ask, after_reply, run_map, run_reduce,
}
use mr_and_raft.Mr.Job.Contents.{Written, job_lines, zero_plus, read_files-Written}
use mr_and_raft.Mr.Job.Invariant.{Goes, goes_mapping, goes_reducing, IsSound}
use mr_and_raft.Mr.Job.Steps.{all_mapped}
use mr_and_raft.Mr.Job.Result.{Reach-IsSound, job_lem}

after_map {ℓ} :
    {F : Type ℓ} (reply : GetTaskReply F)
    → reply.done ≡ false
    → reply.task_type ≡ TaskType.map_task
    → after_reply reply ≡ Doing.mapping reply
after_map reply e e' = simp (e, e') refl

after_reduce {ℓ} :
    {F : Type ℓ} (reply : GetTaskReply F)
    → reply.done ≡ false
    → reply.task_type ≡ TaskType.reduce_task
    → after_reply reply ≡ Doing.reducing reply
after_reduce reply e e' = simp (e, e') refl

module _ {ℓ} {F S K V E W : Type ℓ} (prog : Program F S K V E W) where
  pub Star-Reach :
      {inputs : List F} {n : ℕ} {job next : Job F K E W}
      → Reach prog inputs n job
      → Star (Step prog) job next
      → Reach prog inputs n next
  Star-Reach r no_step = r
  Star-Reach r (one_more steps step) = later (Star-Reach r steps) step

  asked_at :
      (w : ℕ) (job : Job F K E W)
      → (ask prog w job).workers w ≡ after_reply (get_task prog.no_name job.coordinator).1
  unfolding ask
  asked_at w job = update_here job.workers w (after_reply (get_task prog.no_name job.coordinator).1)

  run_map-Returns :
      (reply : GetTaskReply F) (files : ℕ → Files E)
      → Returns (prog.read reply.file_name)
      → 0 < reply.n_reduce
      → Returns (run_map prog reply files)
  unfolding run_map
  run_map-Returns reply files (content, at) h =
      let (written, wrote, _) =
        do_map_lem prog.sum32 prog.encode reply.n_reduce (prog.mapf reply.file_name content)
          (files reply.id) h in
      (update files reply.id written, rw (at, wrote) refl)

  module _ (inputs : List F) (n : ℕ)
      (back : (kv : KeyValue K V) → prog.decode (prog.encode kv) ≡ some kv) (some_bucket : 0 < n)
      (readable : (i : ℕ) (name : F)
        → get_elem? inputs i ≡ some name
        → Returns (prog.read name)) where
    map_runs :
        (job : Job F K E W) (reply : GetTaskReply F)
        → Goes prog inputs n job (Doing.mapping reply)
        → Returns (run_map prog reply job.files)
    map_runs job reply (goes_mapping same at) =
        run_map-Returns reply job.files (readable reply.id reply.file_name at)
          (subst (λ k. 0 < k) (sym same) some_bucket)

    reduce_runs :
        (job : Job F K E W) (reply : GetTaskReply F)
        → IsSound prog inputs n job
        → Goes prog inputs n job (Doing.reducing reply)
        → Returns (run_reduce prog reply job.files job.outputs)
    unfolding run_reduce do_reduce
    reduce_runs job reply s (goes_reducing z l count) =
        let read = read_files-Written prog back n reply.id 0 job.files inputs l (λ k name at.
          subst (λ j. Written prog n job.files j name) (zero_plus k)
            (all_mapped prog inputs n job z s k name at)) in
        (
          update job.outputs reply.id (some (job_lines prog n reply.id inputs)),
          rw (count, read) refl,
        )

    -- A worker that has been given a task does it and reports it.
    does :
        (w : ℕ) (type : TaskType) (job : Job F K E W)
        → Reach prog inputs n job
        → job.workers w ≡ Doing.asking
        → type ≢ TaskType.no_type
        → Offers prog.no_name type job.coordinator
        → (next : Job F K E W) × (Star (Step prog) job next)
          × (next.workers w ≡ Doing.asking)
          × (tasks_left next.coordinator + 1 ≡ tasks_left job.coordinator)
    unfolding ask
    does w TaskType.no_type job r at some_type offer = absurd (some_type refl)
    does w TaskType.map_task job r at some_type offer =
        let reply = (get_task prog.no_name job.coordinator).1 in
        let (d, completed, less) = offer.closed in
        let asked : Job F K E W = ask prog w job in
        let at1 : asked.workers w ≡ Doing.mapping reply =
          asked_at w job ∙ after_map reply offer.not_done offer.given in
        let s1 = Reach-IsSound prog inputs n back some_bucket (later r (Step.asks w at)) in
        let (files, run) =
          map_runs asked reply (subst (Goes prog inputs n asked) at1 (s1.workers w)) in
        let step1 = Star.one_more Star.no_step (Step.asks w at) in
        let step2 = Star.one_more step1 (Step.maps w reply at1 run) in
        let reporting = Doing.reporting reply.id TaskType.map_task in
        let at2 = update_here asked.workers w reporting in
        let step3 = Star.one_more step2 (Step.reports w reply.id TaskType.map_task at2 completed) in
        (_, step3, update_here (update asked.workers w reporting) w Doing.asking, less)
    does w TaskType.reduce_task job r at some_type offer =
        let reply = (get_task prog.no_name job.coordinator).1 in
        let (d, completed, less) = offer.closed in
        let asked : Job F K E W = ask prog w job in
        let at1 : asked.workers w ≡ Doing.reducing reply =
          asked_at w job ∙ after_reduce reply offer.not_done offer.given in
        let s1 = Reach-IsSound prog inputs n back some_bucket (later r (Step.asks w at)) in
        let (outputs, run) =
          reduce_runs asked reply s1 (subst (Goes prog inputs n asked) at1 (s1.workers w)) in
        let step1 = Star.one_more Star.no_step (Step.asks w at) in
        let step2 = Star.one_more step1 (Step.reduces w reply at1 run) in
        let reporting = Doing.reporting reply.id TaskType.reduce_task in
        let at2 = update_here asked.workers w reporting in
        let step3 =
          Star.one_more step2 (Step.reports w reply.id TaskType.reduce_task at2 completed) in
        (_, step3, update_here (update asked.workers w reporting) w Doing.asking, less)

    -- Once, or twice if a goroutine has to wake first.
    goes_on :
        (w : ℕ) (job : Job F K E W)
        → Reach prog inputs n job
        → job.workers w ≡ Doing.asking
        → Ready prog.no_name job.coordinator
        → (next : Job F K E W) × (Star (Step prog) job next)
          × (next.workers w ≡ Doing.asking)
          × (tasks_left next.coordinator + 1 ≡ tasks_left job.coordinator)
    goes_on w job r at (ready type some_type offer) = does w type job r at some_type offer
    goes_on w job r at (ready_awake idx type d wakes same some_type offer) =
        let awake = Step.wakes idx type wakes in
        let (next, steps, at', less) =
          does w type (record job { coordinator = d }) (later r awake) at some_type offer in
        (next, Star-trans (Star.one_more Star.no_step awake) steps, at', less ∙ same)

    finishes_from :
        (fuel w : ℕ) (job : Job F K E W)
        → Reach prog inputs n job
        → job.workers w ≡ Doing.asking
        → tasks_left job.coordinator ≡ fuel
        → (next : Job F K E W) × (Star (Step prog) job next) × (tasks_left next.coordinator ≡ 0)
    finishes_from zero w job r at e = (job, Star.no_step, e)
    finishes_from (suc fuel) w job r at e =
        let valid = (Reach-IsSound prog inputs n back some_bucket r).valid in
        let (next, steps, at', less) =
          goes_on w job r at
            (IsValid-ready prog.no_name job.coordinator valid (omega (arith, e))) in
        let (last, more, done) =
          finishes_from fuel w next (Star-Reach r steps) at' (omega (arith, e, less)) in
        (last, Star-trans steps more, done)

    -- Where each run of `DoMap` and of `DoReduce` takes effect at once, all inputs can be read, the
    -- lines of the intermediate files can be read back and there is a reduce task, a job can be
    -- finished from every state that its workers may have left, crashed or hanging ones among them,
    -- as long as one worker is asking for a task: some steps lead to a state in which `Done` is true
    -- and each reduce task has written the lines of a single run of that task on all the inputs.
    pub job_finishes :
        (w : ℕ) {job : Job F K E W}
        → Reach prog inputs n job
        → job.workers w ≡ Doing.asking
        → (last : Job F K E W) × (Star (Step prog) job last)
          × (is_done last.coordinator ≡ true)
          × ((p : ℕ) → p < n → last.outputs p ≡ some (job_lines prog n p inputs))
    unfolding is_done
    job_finishes w {job} r at =
        let (last, steps, done) = finishes_from (tasks_left job.coordinator) w job r at refl in
        let e : (last.coordinator.reduces_left == 0) ≡ true = ground (arith, done) in
        (last, steps, e, job_lem prog inputs n back some_bucket (Star-Reach r steps) e)
