-- ===== src/Mr/AppExamples.antt =====
-- Jobs with the plugins of mr-main/mrapps/ on two small inputs.
use mr_and_raft.Common.{
  ap, ◌∙◌, same_refl, ℕ, ◌<◌, ◌%◌, ◌≡◌, refl, Bool, true, ◌&&◌, none, some, List, [], ◌∷◌, ◌++◌,
  if◌then◌else◌, ◌==◌, leb, arith, Star, Text, text_discrete, length, itoa,
}
use mathlib.Core.List.Permᴰ.{Permᴰ}
use mathlib.Core.List.Permᴰ as PermD
use mr_and_raft.Mr.Worker.{KeyValue, ihash}
use mr_and_raft.Mr.Reducer.{values_of}
use mr_and_raft.Mr.Coordinator.{is_done}
use mr_and_raft.Mr.Gather.{gather, gather-perm, gather-KeysTogether}
use mr_and_raft.Mr.Job.{Program, Job, Step, start_job, started}
use mr_and_raft.Mr.Job.Contents.{job_lines}
use mr_and_raft.Mr.Lines.{lines_for}
use mr_and_raft.Mr.Job.Progress.{Star-Reach, job_finishes}
use mr_and_raft.Mr.Apps.Counts.{occurrences, occurrences-perm, copies, count_line}
use mr_and_raft.Mr.Apps.Indexer.{MapRun, index_pairs, documents_with, indexer_lem}
use mathlib.Core.List.{reverse}
use mr_and_raft.Mr.Apps.{indexer_reduce, join, split, split_from, atoi, parse_uint}
use mr_and_raft.Mr.Apps.WordCount.{wc_program, job_words, wc_lem}
use mr_and_raft.Mr.Apps.Credit.{credit_program, job_records, credit_lem}

abbrev Pair : Type 0
Pair = KeyValue Text Text

abbrev sorted : List Pair → List Pair
sorted kvs = gather text_discrete kvs

abbrev keep {ℓ} : {A : Type ℓ} → A → A
keep a = a

-- The letters are those from 'a' to 'z'.
abbrev is_lower : ℕ → Bool
is_lower c = leb 97 c && leb c 122

-- Every file holds "a b a".
abbrev content : Text
content = 97 ∷ 32 ∷ 98 ∷ 32 ∷ 97 ∷ []

abbrev names : List Text
names = (49 ∷ []) ∷ (50 ∷ []) ∷ []

abbrev counter : Program Text Text Text Text Pair Text
counter = wc_program is_lower (λ name. some content) (λ key. 5) keep some sorted

abbrev new_count : Job Text Text Pair Text
new_count = start_job counter names 2 (λ i id. none) (λ p. none)

counted :
    (last : Job Text Text Pair Text) × (Star (Step counter) new_count last)
    × (is_done last.coordinator ≡ true)
    × ((p : ℕ) → p < 2 → last.outputs p ≡ some (job_lines counter 2 p names))
counted =
    job_finishes counter names 2 (λ kv. refl) (omega arith) (λ i name at. (content, refl)) 0
      (started (λ i id. none) (λ p. none)) refl

wc_lem_example :
    (written : List (Text × Text)) × (counted.0.outputs 1 ≡ some written)
    × (lines_for text_discrete (97 ∷ []) written ≡ (
        if ihash counter.sum32 counter.encode (97 ∷ []) % 2 == 1
        then count_line (
            occurrences (97 ∷ []) (
              job_words is_lower
                (λ name. some content)
                (λ key. 5)
                (λ (kv : Pair). kv)
                some
                sorted
                names))
        else []))
wc_lem_example =
    wc_lem is_lower (λ name. some content) (λ key. 5) keep some sorted names 2 (λ kv. refl)
      (gather-KeysTogether text_discrete) (gather-perm text_discrete) (omega arith)
      (Star-Reach counter (started (λ i id. none) (λ p. none)) counted.1) counted.2 (97 ∷ []) 1
      (omega arith)

-- Every file holds a heading and the record "x,b,2023,500".
abbrev credits : Text
credits = 104 ∷ 10 ∷ 120 ∷ 44 ∷ 98 ∷ 44 ∷ 50 ∷ 48 ∷ 50 ∷ 51 ∷ 44 ∷ 53 ∷ 48 ∷ 48 ∷ []

abbrev creditor : Program Text Text Text Text Pair Text
creditor = credit_program keep (λ name. some credits) (λ key. 5) keep some sorted

credited :
    (last : Job Text Text Pair Text) × (Star
      (Step creditor)
      (start_job creditor names 2 (λ i id. none) (λ p. none))
      last)
    × (is_done last.coordinator ≡ true)
    × ((p : ℕ) → p < 2 → last.outputs p ≡ some (job_lines creditor 2 p names))
credited =
    job_finishes creditor names 2 (λ kv. refl) (omega arith) (λ i name at. (credits, refl)) 0
      (started (λ i id. none) (λ p. none)) refl

two_records :
    job_records keep
      (λ name. some credits)
      (λ key. 5)
      (λ (kv : Pair). kv)
      some
      sorted
      (98 ∷ [])
      names
    ≡ 2
unfolding split split_from atoi parse_uint
two_records = rw (same_refl text_discrete (98 ∷ [])) refl

credit_lem_example :
    (written : List (Text × Text)) × (credited.0.outputs 1 ≡ some written)
    × (lines_for text_discrete (98 ∷ []) written ≡ (
        if ihash creditor.sum32 creditor.encode (98 ∷ []) % 2 == 1
        then count_line (
            job_records keep
              (λ name. some credits)
              (λ key. 5)
              (λ (kv : Pair). kv)
              some
              sorted
              (98 ∷ [])
              names)
        else []))
credit_lem_example =
    credit_lem keep (λ name. some credits) (λ key. 5) keep some sorted names 2 (λ kv. refl)
      (gather-KeysTogether text_discrete) (gather-perm text_discrete) (omega arith)
      (Star-Reach creditor (started (λ i id. none) (λ p. none)) credited.1) credited.2 (98 ∷ []) 1
      (omega arith) (omega (arith, two_records))

-- The files that hold "a b a", sorted by counting their names.
abbrev by_name : List Text → List Text
by_name us =
    copies (occurrences (49 ∷ []) us) (49 ∷ []) ++ copies (occurrences (50 ∷ []) us) (50 ∷ [])

by_name-perm : (us vs : List Text) → Permᴰ us vs → by_name us ≡ by_name vs
by_name-perm us vs d =
    ap (λ n. copies n (49 ∷ []) ++ copies (occurrences (50 ∷ []) us) (50 ∷ []))
      (occurrences-perm (49 ∷ []) us vs d)
    ∙ ap (λ n. copies (occurrences (49 ∷ []) vs) (49 ∷ []) ++ copies n (50 ∷ []))
        (occurrences-perm (50 ∷ []) us vs d)

-- The file "1" is mapped once and the file "2" twice, the second time walked the other way.
abbrev index_runs : List MapRun
index_runs =
    record { name = 49 ∷ []; content = content; walk = keep }
    ∷ record { name = 50 ∷ []; content = content; walk = keep }
    ∷ record { name = 50 ∷ []; content = content; walk = reverse }
    ∷ []

indexer_lem_example :
    (values_of text_discrete (97 ∷ []) (index_pairs is_lower index_runs)
      ≡ documents_with is_lower (97 ∷ []) index_runs)
    × ((values : List Text)
        → Permᴰ values (values_of text_discrete (97 ∷ []) (index_pairs is_lower index_runs))
        → indexer_reduce by_name (97 ∷ []) values ≡ (
            itoa (length (documents_with is_lower (97 ∷ []) index_runs))
            ++ 32 ∷ join (44 ∷ []) (by_name (documents_with is_lower (97 ∷ []) index_runs))))
indexer_lem_example =
    indexer_lem is_lower by_name index_runs (97 ∷ [])
      (PermD.refl, (PermD.refl, (PermD.reverse, tt))) by_name-perm
