-- ===== src/Mr/Coordinator/Tasks.antt =====
-- What the loops of mr/coordinator.go do to a list of tasks.
use mr_and_raft.Common.{
  ℕ, zero, suc, ◌+◌, ◌<◌, ◌≤◌, ◌≡◌, refl, inl, inr, Bool, true, false, none, some, List, [], ◌∷◌,
  if◌then◌else◌, length, Bool-cases, Option-cases, arith, get_elem?, Ensures, Ensures-some,
  Ensures-after, Returns, ap, ◌⊎◌, ◌≢◌, ◌&&◌,
}
use mr_and_raft.Mr.Coordinator.{Status, Task, is_unstarted, is_in_progress, claim, leave_progress}

abbrev pub is_completed : Status → Bool
is_completed Status.unstarted = false
is_completed Status.in_progress = false
is_completed Status.completed = true

status_cases :
    (s : Status) → (s ≡ Status.unstarted) ⊎ ((s ≡ Status.in_progress) ⊎ (s ≡ Status.completed))
status_cases Status.unstarted = inl refl
status_cases Status.in_progress = inr (inl refl)
status_cases Status.completed = inr (inr refl)

some-ne-none {ℓ} : {A : Type ℓ} {a : A} → some a ≢ none
some-ne-none e = cc

-- A task that leaves its progress counts as open until it is completed.
one_less :
    (s : Status) (n : ℕ)
    → ((if is_completed s then 0 else 1) + n) + (if true && is_completed s then 1 else 0) ≡ 1 + n
one_less Status.unstarted n = omega arith
one_less Status.in_progress n = omega arith
one_less Status.completed n = omega arith

module _ {ℓ} {F : Type ℓ} where
  -- How many tasks are not completed.
  abbrev pub open_tasks : List (Task F) → ℕ
  open_tasks [] = 0
  open_tasks (task ∷ tasks) = (if is_completed task.status then 0 else 1) + open_tasks tasks

  abbrev pub AllStatus : (Status → Bool) → List (Task F) → Type 0
  AllStatus test [] = Unit
  AllStatus test (task ∷ tasks) = (test task.status ≡ true) × AllStatus test tasks

  -- The tasks have the numbers from `i` on.
  abbrev pub NumberedFrom : ℕ → List (Task F) → Type 0
  NumberedFrom i [] = Unit
  NumberedFrom i (task ∷ tasks) = (task.num ≡ i) × NumberedFrom (i + 1) tasks

  -- What `claim` finds in tasks that are numbered from `i` on.
  pub record Claimed (i : ℕ) (tasks : List (Task F)) (found : Task F × List (Task F)) : Type ℓ where
    pub numbered : NumberedFrom i found.1
    pub still_open : open_tasks found.1 ≡ open_tasks tasks
    pub same_length : length found.1 ≡ length tasks
    pub stands : (k : ℕ) × (found.0.num ≡ i + k) × (get_elem? tasks k ≡ some found.0)
    pub was_unstarted : found.0.status ≡ Status.unstarted
    pub some_open : 0 < open_tasks tasks

  pub claim_lem :
      (i : ℕ) (tasks : List (Task F))
      → NumberedFrom i tasks
      → Ensures (Claimed i tasks) (claim tasks)
  unfolding claim
  claim_lem i [] h = record { result = λ found e. cc }
  claim_lem i (task ∷ tasks) h = elim (Bool-cases (is_unstarted task.status)) [
    | inl e ↦
        let free : task.status ≡ Status.unstarted = ground arith in
        rw e (
          Ensures-some (record {
            numbered = h;
            still_open = rw free refl;
            same_length = refl;
            stands = (0, omega (arith, h.0), refl);
            was_unstarted = free;
            some_open = rw free (omega arith);
          }))
    | inr e ↦ rw e (
        Ensures-after (claim_lem (i + 1) tasks h.1) λ found q. Ensures-some (record {
          numbered = (h.0, q.numbered);
          still_open = ap (λ n. (if is_completed task.status then 0 else 1) + n) q.still_open;
          same_length = ap suc q.same_length;
          stands = (suc q.stands.0, omega (arith, q.stands.1), q.stands.2);
          was_unstarted = q.was_unstarted;
          some_open = omega (arith, q.some_open);
        }))
  ]

  -- Where nothing is claimed no task is unstarted, so an open one is in progress.
  pub claim-none :
      (tasks : List (Task F))
      → claim tasks ≡ none
      → 0 < open_tasks tasks
      → (i : ℕ) × (task : Task F) × (get_elem? tasks i ≡ some task)
        × (task.status ≡ Status.in_progress)
  unfolding claim
  claim-none [] e h = absurd (omega arith)
  claim-none (task ∷ tasks) e h = elim (status_cases task.status) [
    | inl free ↦ absurd (some-ne-none (rw free at e))
    | inr (inl busy) ↦ (0, task, refl, busy)
    | inr (inr complete) ↦ elim (Option-cases (claim tasks)) [
      | inl out ↦
          let more : 1 ≤ 0 + open_tasks tasks = rw complete at h in
          let (i, found, at, busy) = claim-none tasks out (omega arith) in (suc i, found, at, busy)
      | inr (found, at) ↦ absurd (some-ne-none (rw (complete, at) at e))
    ]
  ]

  -- `leave_progress` on tasks that are numbered from `i` on.
  pub record Left (status : Status) (i : ℕ) (tasks : List (Task F)) (left : List (Task F) × Bool)
      : Type ℓ where
    pub numbered : NumberedFrom i left.0
    pub same_length : length left.0 ≡ length tasks
    pub counted :
        open_tasks left.0 + (if left.1 && is_completed status then 1 else 0) ≡ open_tasks tasks
    pub all_unstarted : AllStatus is_unstarted tasks → (left.0 ≡ tasks) × (left.1 ≡ false)
    pub all_completed : AllStatus is_completed tasks → (left.0 ≡ tasks) × (left.1 ≡ false)

  pub leave_progress_lem :
      (status : Status) (i idx : ℕ) (tasks : List (Task F))
      → NumberedFrom i tasks
      → Ensures (Left status i tasks) (leave_progress status idx tasks)
  unfolding leave_progress
  leave_progress_lem status i idx [] h = record { result = λ left e. cc }
  leave_progress_lem status i zero (task ∷ tasks) h =
      elim (Bool-cases (is_in_progress task.status)) [
        | inl e ↦
            let busy : task.status ≡ Status.in_progress = ground arith in
            rw e (
              Ensures-some (record {
                numbered = h;
                same_length = refl;
                counted = rw busy (one_less status (open_tasks tasks));
                all_unstarted = λ all. ground (arith, all.0);
                all_completed = λ all. ground (arith, all.0);
              }))
        | inr e ↦ rw e (
            Ensures-some (record {
              numbered = h;
              same_length = refl;
              counted = omega arith;
              all_unstarted = λ all. (refl, refl);
              all_completed = λ all. (refl, refl);
            }))
      ]
  leave_progress_lem status i (suc idx) (task ∷ tasks) h =
      Ensures-after (leave_progress_lem status (i + 1) idx tasks h.1) λ left q.
        Ensures-some (record {
          numbered = (h.0, q.numbered);
          same_length = ap suc q.same_length;
          counted = omega (arith, q.counted);
          all_unstarted =
              λ all. (ap (λ l. task ∷ l) (q.all_unstarted all.1).0, (q.all_unstarted all.1).1);
          all_completed =
              λ all. (ap (λ l. task ∷ l) (q.all_completed all.1).0, (q.all_completed all.1).1);
        })

  pub leave_progress_total :
      (status : Status) (idx : ℕ) (tasks : List (Task F))
      → idx < length tasks
      → Returns (leave_progress status idx tasks)
  unfolding leave_progress
  leave_progress_total status idx [] h = absurd (omega arith)
  leave_progress_total status zero (task ∷ tasks) h =
      elim (Bool-cases (is_in_progress task.status)) [
        | inl e ↦ rw e (_, refl)
        | inr e ↦ rw e (_, refl)
      ]
  leave_progress_total status (suc idx) (task ∷ tasks) h =
      let (left, e) = leave_progress_total status idx tasks (omega arith) in rw e (_, refl)
