-- ===== src/Mr/Job/Invariant.antt =====
-- What holds of a job whatever its workers do, in any order.
use mr_and_raft.Common.{
  ℕ, ◌<◌, ◌≡◌, sym, ◌∙◌, ap, inl, inr, some, List, length, get_elem?, ℕ_discrete, update,
  update_here, update_there,
}
use mathlib.Core.Path.{subst}
use mr_and_raft.Mr.Coordinator.{Status, TaskType, Task, GetTaskReply}
use mr_and_raft.Mr.Coordinator.Kept.{Moves}
use mr_and_raft.Mr.Coordinator.Invariant.{IsValid}
use mr_and_raft.Mr.Job.{Program, Doing, Job}
use mr_and_raft.Mr.Job.Contents.{Written, job_lines}

module _ {ℓ} {F S K V E W : Type ℓ} (prog : Program F S K V E W) (inputs : List F) (n : ℕ) where
  -- Reduce task `i` has written its lines.
  abbrev pub Reduced : ℕ → Job F K E W → Type ℓ
  Reduced i job = job.outputs i ≡ some (job_lines prog n i inputs)

  -- Map task `i` has written its files.
  abbrev pub Mapped : ℕ → Job F K E W → Type ℓ
  Mapped i job = (name : F) → get_elem? inputs i ≡ some name → Written prog n job.files i name

  -- What a worker is doing goes with the job's inputs and with what has been written.
  pub data Goes (job : Job F K E W) : Doing F → Type ℓ where
    goes_asking : Goes job Doing.asking
    goes_mapping :
        {reply : GetTaskReply F}
        → reply.n_reduce ≡ n
        → get_elem? inputs reply.id ≡ some reply.file_name
        → Goes job (Doing.mapping reply)
    goes_reducing :
        {reply : GetTaskReply F}
        → job.coordinator.maps_left ≡ 0
        → reply.id < n
        → reply.n_map ≡ length inputs
        → Goes job (Doing.reducing reply)
    goes_nothing : {id : ℕ} → Goes job (Doing.reporting id TaskType.no_type)
    goes_mapped : {id : ℕ} → Mapped id job → Goes job (Doing.reporting id TaskType.map_task)
    goes_reduced : {id : ℕ} → Reduced id job → Goes job (Doing.reporting id TaskType.reduce_task)
    goes_left : Goes job Doing.left

  pub record IsSound (job : Job F K E W) : Type ℓ where
    pub valid : IsValid job.coordinator
    pub buckets : job.coordinator.n_reduce ≡ n
    -- The tasks are those of the inputs, and what a completed one writes is there.
    pub map_count : length job.coordinator.map_tasks ≡ length inputs
    pub reduce_count : length job.coordinator.reduce_tasks ≡ n
    pub map_names :
        (i : ℕ) (t : Task F)
        → get_elem? job.coordinator.map_tasks i ≡ some t
        → get_elem? inputs i ≡ some t.filename
    pub mapped :
        (i : ℕ) (t : Task F)
        → get_elem? job.coordinator.map_tasks i ≡ some t
        → t.status ≡ Status.completed
        → Mapped i job
    pub reduced :
        (i : ℕ) (t : Task F)
        → get_elem? job.coordinator.reduce_tasks i ≡ some t
        → t.status ≡ Status.completed
        → Reduced i job
    pub workers : (w : ℕ) → Goes job (job.workers w)

  -- Nothing that has been written is lost.
  pub record Grows (job job' : Job F K E W) : Type ℓ where
    pub stays_zero : job.coordinator.maps_left ≡ 0 → job'.coordinator.maps_left ≡ 0
    pub keeps_mapped : (i : ℕ) → Mapped i job → Mapped i job'
    pub keeps_reduced : (i : ℕ) → Reduced i job → Reduced i job'

  pub Goes-Grows :
      {job job' : Job F K E W} {doing : Doing F} → Grows job job' → Goes job doing → Goes job' doing
  Goes-Grows g goes_asking = Goes.goes_asking
  Goes-Grows g (goes_mapping same at) = Goes.goes_mapping same at
  Goes-Grows g (goes_reducing z l count) = Goes.goes_reducing (g.stays_zero z) l count
  Goes-Grows g goes_nothing = Goes.goes_nothing
  Goes-Grows g (goes_mapped {id} m) = Goes.goes_mapped (g.keeps_mapped id m)
  Goes-Grows g (goes_reduced {id} r) = Goes.goes_reduced (g.keeps_reduced id r)
  Goes-Grows g goes_left = Goes.goes_left

  -- One worker has got on to `doing`.
  pub Goes-update :
      {job : Job F K E W} (workers : ℕ → Doing F) (w : ℕ) (doing : Doing F)
      → ((v : ℕ) → Goes job (workers v))
      → Goes job doing
      → (v : ℕ) → Goes job (update workers w doing v)
  Goes-update {job} workers w doing all h v = elim (ℕ_discrete w v) [
    | yes e ↦
        subst (λ u. Goes job (update workers w doing u)) e
          (subst (Goes job) (sym (update_here workers w doing)) h)
    | no ne ↦ subst (Goes job) (sym (update_there workers w v doing ne)) (all v)
  ]

  -- A step of the coordinator and the files after which the job is sound.
  pub IsSound-after :
      {NewMap NewReduce : ℕ → Type 0} {job job' : Job F K E W}
      → IsSound job
      → IsValid job'.coordinator
      → Moves NewMap NewReduce job.coordinator job'.coordinator
      → Grows job job'
      → ((i : ℕ) → NewMap i → Mapped i job')
      → ((i : ℕ) → NewReduce i → Reduced i job')
      → ((w : ℕ) → Goes job' (job'.workers w))
      → IsSound job'
  IsSound-after s v m g new_map new_reduce goes = record {
    valid = v;
    buckets = m.same_buckets ∙ s.buckets;
    map_count = m.maps.same_length ∙ s.map_count;
    reduce_count = m.reduces.same_length ∙ s.reduce_count;
    map_names = λ i t' at.
        let (t, old, name, _) = m.maps.from_old i t' at in s.map_names i t old ∙ ap some (sym name);
    mapped = λ i t' at all.
        let (t, old, _, was) = m.maps.from_old i t' at in
        elim (was all) [
          | inl before ↦ g.keeps_mapped i (s.mapped i t old before)
          | inr new ↦ new_map i new
        ];
    reduced = λ i t' at all.
        let (t, old, _, was) = m.reduces.from_old i t' at in
        elim (was all) [
          | inl before ↦ g.keeps_reduced i (s.reduced i t old before)
          | inr new ↦ new_reduce i new
        ];
    workers = goes;
  }
