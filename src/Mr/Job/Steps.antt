-- ===== src/Mr/Job/Steps.antt =====
-- Each step of a job keeps it sound.
use mr_and_raft.Common.{
  ℕ, zero, suc, ◌<◌, ◌≡◌, refl, true, sym, ◌∙◌, ap, Option, some, List, [], ◌∷◌, get_elem?,
  get_elem?_total, lt-length_of_get, some_inj, ℕ_discrete, update, update_here, update_there,
}
use mathlib.Core.Path.{subst}
use mr_and_raft.Mr.Worker.{KeyValue, Files}
use mr_and_raft.Mr.Coordinator.{Status, TaskType, Task, GetTaskReply}
use mr_and_raft.Mr.Coordinator.Kept.{get_task-Moves, Moves-same}
use mr_and_raft.Mr.Coordinator.Invariant.{get_task-IsValid, open_tasks-zero}
use mr_and_raft.Mr.Coordinator.Tasks.{is_completed}
use mr_and_raft.Mr.Coordinator.Replies.{
  Answered, AllCompleted, a_map, a_reduce, wait_map, wait_reduce, all_done, get_task-Answered,
}
use mr_and_raft.Mr.Job.{Program, Doing, Job, ask, after_reply, run_map, run_reduce}
use mr_and_raft.Mr.Job.Contents.{Written, job_lines, run_map-Written, run_reduce-Written}
use mr_and_raft.Mr.Job.Invariant.{
  Reduced, Goes, goes_mapping, goes_reducing, IsSound, Grows, Goes-Grows, Goes-update,
  IsSound-after,
}

is_completed-true : (s : Status) → is_completed s ≡ true → s ≡ Status.completed
is_completed-true Status.unstarted e = cc
is_completed-true Status.in_progress e = cc
is_completed-true Status.completed e = refl

pub get-AllCompleted {ℓ} :
    {F : Type ℓ} (tasks : List (Task F)) (i : ℕ) (t : Task F)
    → AllCompleted tasks
    → get_elem? tasks i ≡ some t
    → t.status ≡ Status.completed
get-AllCompleted [] i t all e = cc
get-AllCompleted (task ∷ tasks) zero t (here, all) e =
    ap (λ u. u.status) (sym (some_inj e)) ∙ is_completed-true task.status here
get-AllCompleted (task ∷ tasks) (suc i) t (here, all) e = get-AllCompleted tasks i t all e

module _ {ℓ} {F S K V E W : Type ℓ} (prog : Program F S K V E W) (inputs : List F) (n : ℕ) where
  abbrev pub Sound : Job F K E W → Type ℓ
  Sound job = IsSound prog inputs n job

  pub Goes-reply :
      {job : Job F K E W} {reply : GetTaskReply F}
      → Sound job
      → Answered prog.no_name job.coordinator reply
      → Goes prog inputs n job (after_reply reply)
  Goes-reply s (a_map i task (at, _)) = Goes.goes_mapping s.buckets (s.map_names i task at)
  Goes-reply {job} s (a_reduce i task all (at, _)) =
      Goes.goes_reducing (s.valid.maps_counted ∙ (open_tasks-zero job.coordinator.map_tasks).1 all)
        (subst (λ k. i < k) s.reduce_count (lt-length_of_get job.coordinator.reduce_tasks i at))
        s.map_count
  Goes-reply s (wait_map _) = Goes.goes_asking
  Goes-reply s (wait_reduce _ _) = Goes.goes_asking
  Goes-reply s (all_done _ _) = Goes.goes_left

  -- Only the coordinator moves.
  pub Grows-coordinator :
      {job job' : Job F K E W}
      → (job.coordinator.maps_left ≡ 0 → job'.coordinator.maps_left ≡ 0)
      → job'.files ≡ job.files
      → job'.outputs ≡ job.outputs
      → Grows prog inputs n job job'
  Grows-coordinator {job} {job'} z fs os = record {
    stays_zero = z;
    keeps_mapped = λ i m name at. subst (λ files. Written prog n files i name) (sym fs) (m name at);
    keeps_reduced =
        λ i r. subst (λ outputs. outputs i ≡ some (job_lines prog n i inputs)) (sym os) r;
  }

  pub ask-IsSound : (w : ℕ) (job : Job F K E W) → Sound job → Sound (ask prog w job)
  unfolding ask
  ask-IsSound w job s =
      let moved = get_task-Moves (λ i. ⊥) (λ i. ⊥) prog.no_name job.coordinator in
      let g = Grows-coordinator moved.stays_zero refl refl in
      IsSound-after prog inputs n s (get_task-IsValid prog.no_name job.coordinator s.valid) moved g
        (λ i e. absurd e) (λ i e. absurd e)
        (Goes-update prog inputs n job.workers w _ (λ v. Goes-Grows prog inputs n g (s.workers v))
          (Goes-Grows prog inputs n g
            (Goes-reply s (get_task-Answered prog.no_name job.coordinator s.valid))))

  -- `Mapped` of the files alone
  abbrev AllWritten : (ℕ → Files E) → ℕ → Type ℓ
  AllWritten files i = (name : F) → get_elem? inputs i ≡ some name → Written prog n files i name

  run_map-AllWritten :
      (reply : GetTaskReply F) (files files' : ℕ → Files E)
      → 0 < n
      → reply.n_reduce ≡ n
      → get_elem? inputs reply.id ≡ some reply.file_name
      → run_map prog reply files ≡ some files'
      → AllWritten files' reply.id × ((i : ℕ) → AllWritten files i → AllWritten files' i)
  run_map-AllWritten reply files files' some_bucket same at run =
      let (wrote, others) =
        run_map-Written prog reply files files' (subst (λ k. 0 < k) (sym same) some_bucket) run in
      let written : Written prog n files' reply.id reply.file_name =
        subst (λ k. Written prog k files' reply.id reply.file_name) same wrote in
      let here : AllWritten files' reply.id =
        λ name e. subst (Written prog n files' reply.id) (some_inj (sym at ∙ e)) written in
      (
        here,
        λ i m. elim (ℕ_discrete reply.id i) [
          | yes e ↦ subst (AllWritten files') e here
          | no ne ↦ λ name e p l. ap (λ f. f p) (others i ne) ∙ m name e p l
        ],
      )

  pub maps-IsSound :
      (w : ℕ) (reply : GetTaskReply F) (files : ℕ → Files E) (job : Job F K E W)
      → 0 < n
      → Goes prog inputs n job (Doing.mapping reply)
      → run_map prog reply job.files ≡ some files
      → Sound job
      → Sound (record job {
        files = files;
        workers = update job.workers w (Doing.reporting reply.id TaskType.map_task);
      })
  maps-IsSound w reply files job some_bucket (goes_mapping same at) run s =
      let (here, kept) = run_map-AllWritten reply job.files files some_bucket same at run in
      let next : Job F K E W = record job {
        files = files;
        workers = update job.workers w (Doing.reporting reply.id TaskType.map_task);
      } in
      let g : Grows prog inputs n job next = record {
        stays_zero = λ z. z;
        keeps_mapped = kept;
        keeps_reduced = λ i r. r;
      } in
      IsSound-after prog inputs n s s.valid (Moves-same (λ i. ⊥) (λ i. ⊥) job.coordinator) g
        (λ i e. absurd e) (λ i e. absurd e)
        (Goes-update prog inputs n job.workers w _ (λ v. Goes-Grows prog inputs n g (s.workers v))
          (Goes.goes_mapped here))

  -- Once no map task is open, the files of all inputs are written.
  pub all_mapped :
      (job : Job F K E W)
      → job.coordinator.maps_left ≡ 0
      → Sound job
      → (i : ℕ) (name : F) → get_elem? inputs i ≡ some name
      → Written prog n job.files i name
  all_mapped job z s i name at =
      let (t, here) =
        get_elem?_total job.coordinator.map_tasks i
          (subst (λ k. i < k) (sym s.map_count) (lt-length_of_get inputs i at)) in
      s.mapped i t here
        (get-AllCompleted job.coordinator.map_tasks i t
          ((open_tasks-zero job.coordinator.map_tasks).0 (sym s.valid.maps_counted ∙ z)) here)
        name at

  pub reduces-IsSound :
      ((kv : KeyValue K V) → prog.decode (prog.encode kv) ≡ some kv)
      → (w : ℕ) (reply : GetTaskReply F) (outputs : ℕ → Option (List (K × W))) (job : Job F K E W)
      → Goes prog inputs n job (Doing.reducing reply)
      → run_reduce prog reply job.files job.outputs ≡ some outputs
      → Sound job
      → Sound (record job {
        outputs = outputs;
        workers = update job.workers w (Doing.reporting reply.id TaskType.reduce_task);
      })
  reduces-IsSound back w reply outputs job (goes_reducing z l count) run s =
      let new =
        run_reduce-Written prog back reply n job.files job.outputs outputs inputs l count
          (all_mapped job z s) run in
      let lines : Option (List (K × W)) = some (job_lines prog n reply.id inputs) in
      let here : outputs reply.id ≡ lines =
        ap (λ f. f reply.id) new ∙ update_here job.outputs reply.id lines in
      let next : Job F K E W = record job {
        outputs = outputs;
        workers = update job.workers w (Doing.reporting reply.id TaskType.reduce_task);
      } in
      let kept : (i : ℕ) → Reduced prog inputs n i job → Reduced prog inputs n i next = λ i r.
        elim (ℕ_discrete reply.id i) [
          | yes e ↦ subst (λ j. outputs j ≡ some (job_lines prog n j inputs)) e here
          | no ne ↦ ap (λ f. f i) new ∙ update_there job.outputs reply.id i lines ne ∙ r
        ] in
      let g : Grows prog inputs n job next = record {
        stays_zero = λ z. z;
        keeps_mapped = λ i m. m;
        keeps_reduced = kept;
      } in
      IsSound-after prog inputs n s s.valid (Moves-same (λ i. ⊥) (λ i. ⊥) job.coordinator) g
        (λ i e. absurd e) (λ i e. absurd e)
        (Goes-update prog inputs n job.workers w _ (λ v. Goes-Grows prog inputs n g (s.workers v))
          (Goes.goes_reduced here))
