-- ===== src/Mr/Examples.antt =====
-- The theorems of mr/coordinator.go after one request of a job with one file, and those of
-- mr/worker.go and mr-main/mrsequential.go on a few pairs.
use mr_and_raft.Common.{
  Star, ◌+◌, ℕ, zero, suc, length, map, refl, ap, ◌∙◌, none, some, ◌<◌, arith, List, ◌≡◌, ◌≢◌, ◌↔◌,
  true, [], ◌∷◌, if◌then◌else◌, ◌==◌, ◌%◌,
}
use mathlib.Core.List.Permᴰ.{Permᴰ, nil, cons, swap, trans}
use mathlib.Core.List.Permᴰ as PermD
use mr_and_raft.Mr.Coordinator.{Coordinator, make_coordinator, get_task, is_done}
use mr_and_raft.Mr.Coordinator.Invariant.{Reach, made, later, IsValid, Reach-IsValid, Step}
use mr_and_raft.Mr.Coordinator.Replies.{Answered, AllCompleted, get_task_lem, is_done_lem}
use mr_and_raft.Mr.Job.{Program, Job, start_job, started}
use mr_and_raft.Mr.Job
use mr_and_raft.Mr.Job.Contents.{job_lines}
use mr_and_raft.Mr.Job.Result.{job_lem}
use mr_and_raft.Mr.Job.Agree.{job_agrees}
use mr_and_raft.Mr.Lines.{lines_for}
use mr_and_raft.Mr.Job.Progress.{Star-Reach, job_finishes}
use mr_and_raft.Mr.Reducer.Output.{pairs_from, do_reduce_lem}
use mr_and_raft.Mr.Sequential.{map_inputs, sequential, sequential_lem}
use mr_and_raft.Mr.Worker.{
  KeyValue, Files, ihash, do_map, write_pairs, create_files, partition_of, do_map_lem, two_runs_lem,
  Interleaved,
}
use mr_and_raft.Mr.Reducer.{after_run, values_of, KeysTogether, lists_of, at_most_one, do_reduce}

-- File 7, two reduce tasks; names are numbers.
abbrev job : Coordinator ℕ
job = make_coordinator 0 (7 ∷ []) 2

abbrev asked : Coordinator ℕ
asked = (get_task 0 job).0

asked-Reach : Reach 0 (7 ∷ []) 2 asked
asked-Reach = later made Step.ask

Reach-IsValid_example : IsValid asked
Reach-IsValid_example = Reach-IsValid asked-Reach

get_task_lem_example : Answered 0 asked (get_task 0 asked).1
get_task_lem_example = get_task_lem asked-Reach

is_done_lem_example :
    ((is_done asked ≡ true) ↔ AllCompleted asked.reduce_tasks)
    × (is_done asked ≡ true → asked.reduce_tasks ≢ [] → AllCompleted asked.map_tasks)
is_done_lem_example = is_done_lem asked-Reach

-- A pair of numbers, written as itself.
abbrev pair : ℕ → ℕ → KeyValue ℕ ℕ
pair key value = record { key = key; value = value }

abbrev same_line {ℓ} : {A : Type ℓ} → A → A
same_line a = a

do_map_lem_example :
    (files' : Files (KeyValue ℕ ℕ)) × (do_map
        (λ key. key)
        same_line
        2
        (pair 4 10 ∷ pair 5 11 ∷ pair 6 12 ∷ [])
        (λ i. none)
      ≡ some files')
    × ((p : ℕ)
        → p < 2
        → files' p
          ≡ some (partition_of (λ key. key) same_line 2 p (pair 4 10 ∷ pair 5 11 ∷ pair 6 12 ∷ [])))
do_map_lem_example =
    do_map_lem (λ key. key) same_line 2 (pair 4 10 ∷ pair 5 11 ∷ pair 6 12 ∷ []) (λ i. none)
      (omega arith)

-- Pairs of one key only stand together in any order.
unit_eq : Discrete (Unit {0})
unit_eq x y = yes refl

after_run-nil : (kvs : List (KeyValue (Unit {0}) ℕ)) → after_run unit_eq tt kvs ≡ []
unfolding after_run unit_eq
after_run-nil [] = refl
after_run-nil (kv ∷ kvs) = after_run-nil kvs

all_together : (kvs : List (KeyValue (Unit {0}) ℕ)) → KeysTogether unit_eq kvs
all_together [] = tt
all_together (kv ∷ kvs) = (ap (values_of unit_eq kv.key) (after_run-nil kvs), all_together kvs)

abbrev count_line : ℕ → KeyValue (Unit {0}) ℕ
count_line value = record { key = tt; value = value }

-- Two map tasks have left two pairs and one.
abbrev left : ℕ → Files (KeyValue (Unit {0}) ℕ)
left zero id = some (count_line 3 ∷ count_line 4 ∷ [])
left (suc i) id = some (count_line 5 ∷ [])

abbrev gave : ℕ → List (KeyValue (Unit {0}) ℕ)
gave zero = count_line 3 ∷ count_line 4 ∷ []
gave (suc i) = count_line 5 ∷ []

left-gave : (i : ℕ) → i < 2 → left i 0 ≡ some (map (λ kv. kv) (gave i))
left-gave zero h = refl
left-gave (suc i) h = refl

do_reduce_lem_example :
    (gs : List (Unit {0} × List ℕ)) × (do_reduce unit_eq some same_line
        (λ key values. length values)
        0
        2
        left
      ≡ some (map (λ (key, values). (key, length values)) gs))
    × ((key : Unit {0})
        → (values : List ℕ) × (lists_of unit_eq key gs ≡ at_most_one unit_eq values)
          × (values ≡ values_of unit_eq key (same_line (pairs_from gave 2 0)))
          × Permᴰ values (values_of unit_eq key (pairs_from gave 2 0)))
do_reduce_lem_example =
    do_reduce_lem (λ kv. kv) some (λ kv. refl) unit_eq same_line (λ key values. length values) 0 2
      left gave all_together PermD.refl left-gave

-- Input files 1 and 2 hold 3 and 4, and the map function gives each number once.
abbrev emit : ℕ → ℕ → List (KeyValue (Unit {0}) ℕ)
emit filename content = count_line content ∷ []

sequential_lem_example :
    (gs : List (Unit {0} × List ℕ)) × (sequential unit_eq
        (λ f. some (f + 2))
        emit
        same_line
        (λ key values. length values)
        (1 ∷ 2 ∷ [])
      ≡ some (map (λ (key, values). (key, length values)) gs))
    × ((key : Unit {0})
        → (values : List ℕ) × (lists_of unit_eq key gs ≡ at_most_one unit_eq values)
          × (values ≡ values_of unit_eq key (count_line 3 ∷ count_line 4 ∷ []))
          × Permᴰ values (values_of unit_eq key (count_line 3 ∷ count_line 4 ∷ [])))
sequential_lem_example =
    sequential_lem (λ f. some (f + 2)) emit (λ f. f + 2) unit_eq same_line
      (λ key values. length values) 1 (2 ∷ []) all_together PermD.refl (λ k name at. refl)

-- The second run writes its first pair between the two of the first run.
abbrev mixed_writes : List (KeyValue ℕ ℕ)
mixed_writes = pair 4 10 ∷ pair 4 10 ∷ pair 5 11 ∷ pair 5 11 ∷ []

mixed_writes-Interleaved :
    Interleaved (pair 4 10 ∷ pair 5 11 ∷ []) (pair 4 10 ∷ pair 5 11 ∷ []) mixed_writes
mixed_writes-Interleaved = Interleaved.first_writes (
    Interleaved.second_writes
      (Interleaved.first_writes (Interleaved.second_writes Interleaved.both_end)))

two_runs_lem_example :
    (files' : Files (KeyValue ℕ ℕ)) × (write_pairs
        (λ key. key)
        same_line
        2
        mixed_writes
        (create_files 2 (create_files 2 (λ i. none)))
      ≡ some files')
    × ((p : ℕ)
        → p < 2
        → (lines : List (KeyValue ℕ ℕ)) × (files' p ≡ some lines)
          × Interleaved
              (partition_of (λ key. key) same_line 2 p (pair 4 10 ∷ pair 5 11 ∷ []))
              (partition_of (λ key. key) same_line 2 p (pair 4 10 ∷ pair 5 11 ∷ []))
              lines)
two_runs_lem_example =
    two_runs_lem (λ key. key) same_line 2 (pair 4 10 ∷ pair 5 11 ∷ []) mixed_writes (λ i. none)
      (omega arith) mixed_writes-Interleaved

-- A whole job that counts the input files 1 and 2, with two reduce tasks.
abbrev counting : Program ℕ ℕ (Unit {0}) ℕ (KeyValue (Unit {0}) ℕ) ℕ
counting = record {
  no_name = 0;
  read = λ f. some (f + 2);
  mapf = emit;
  reducef = λ key values. length values;
  key_eq = unit_eq;
  sum32 = λ key. 5;
  encode = same_line;
  decode = some;
  sort_pairs = same_line;
}

abbrev new_job : Job ℕ (Unit {0}) (KeyValue (Unit {0}) ℕ) ℕ
new_job = start_job counting (1 ∷ 2 ∷ []) 2 (λ i id. none) (λ p. none)

new_job-Reach : Job.Reach counting (1 ∷ 2 ∷ []) 2 new_job
new_job-Reach = started (λ i id. none) (λ p. none)

job_finishes_example :
    (last : Job ℕ (Unit {0}) (KeyValue (Unit {0}) ℕ) ℕ) × (Star (Job.Step counting) new_job last)
    × (is_done last.coordinator ≡ true)
    × ((p : ℕ) → p < 2 → last.outputs p ≡ some (job_lines counting 2 p (1 ∷ 2 ∷ [])))
job_finishes_example =
    job_finishes counting (1 ∷ 2 ∷ []) 2 (λ kv. refl) (omega arith) (λ i name at. (name + 2, refl))
      0 new_job-Reach refl

finished :
    (last : Job ℕ (Unit {0}) (KeyValue (Unit {0}) ℕ) ℕ) × (Star (Job.Step counting) new_job last)
    × (is_done last.coordinator ≡ true)
    × ((p : ℕ) → p < 2 → last.outputs p ≡ some (job_lines counting 2 p (1 ∷ 2 ∷ [])))
finished =
    job_finishes counting (1 ∷ 2 ∷ []) 2 (λ kv. refl) (omega arith) (λ i name at. (name + 2, refl))
      0 new_job-Reach refl

job_lem_example : finished.0.outputs 1 ≡ some (job_lines counting 2 1 (1 ∷ 2 ∷ []))
job_lem_example =
    job_lem counting (1 ∷ 2 ∷ []) 2 (λ kv. refl) (omega arith)
      (Star-Reach counting new_job-Reach finished.1) finished.2 1 (omega arith)

length-perm : (vs ws : List ℕ) → Permᴰ vs ws → length vs ≡ length ws
length-perm vs ws nil = refl
length-perm vs ws (cons {l₁} {l₂} e d) = ap suc (length-perm l₁ l₂ d)
length-perm vs ws (swap e e') = refl
length-perm vs ws (trans {l₂} d d') = length-perm vs l₂ d ∙ length-perm l₂ ws d'

job_agrees_example :
    (lines : List (Unit {0} × ℕ)) × (sequential unit_eq
        (λ f. some (f + 2))
        emit
        same_line
        (λ key values. length values)
        (1 ∷ 2 ∷ [])
      ≡ some lines)
    × ((key : Unit {0}) (p : ℕ)
        → p < 2
        → (written : List (Unit {0} × ℕ)) × (finished.0.outputs p ≡ some written)
          × (lines_for unit_eq key written ≡ (
              if ihash counting.sum32 counting.encode key % 2 == p
              then lines_for unit_eq key lines
              else [])))
unfolding map_inputs
job_agrees_example =
    job_agrees counting 1 (2 ∷ []) 2 (λ kv. refl) all_together PermD.refl (λ key. length-perm)
      (omega arith) refl (Star-Reach counting new_job-Reach finished.1) finished.2
