-- ===== src/Mr/Apps/Credit.antt =====
-- A job with the plugin mr-main/mrapps/credit.go counts records.
use mr_and_raft.Common.{
  ℕ, zero, suc, ◌+◌, ◌<◌, ◌^◌, ◌%◌, ◌≡◌, refl, ◌∙◌, ap, inl, inr, Bool, true, false, not, ◌&&◌,
  Option, none, some, List, [], ◌∷◌, ◌++◌, map, if◌then◌else◌, ◌==◌, Bool-cases, arith, same, Text,
  text_discrete, eq_text, add_int, ge_int,
}
use mathlib.Core.List.Permᴰ.{Permᴰ, nil, cons, swap, trans}
use mr_and_raft.Mr.Worker.{KeyValue, ihash}
use mr_and_raft.Mr.Reducer.{KeysTogether, values_of, at_most_one}
use mr_and_raft.Mr.Coordinator.{is_done}
use mr_and_raft.Mr.Job.{Program, Job, Reach}
use mr_and_raft.Mr.Job.Contents.{pairs_of}
use mr_and_raft.Mr.Lines.{lines_for, values_of-append}
use mr_and_raft.Mr.Job.Agree.{pairs_in_order, job_line_lem}
use mr_and_raft.Mr.Apps.Counts.{count_line, copies, copies_add}
use mr_and_raft.Mr.Apps.{
  split, one, atoi, parse_uint, itoa_int, credit_line, credit_lines, rest_of, credit_map,
  credit_sum, credit_reduce,
}

-- A record of the agency, of the year 2023, with a score of more than 400.
abbrev pub counts_for : (Text → Text) → Text → List Text → Bool
counts_for trim_space agency (a ∷ name ∷ year ∷ score ∷ more) =
    same text_discrete agency name
    && eq_text year (50 ∷ 48 ∷ 50 ∷ 51 ∷ [])
    && not (ge_int 400 (atoi (trim_space score)))
counts_for trim_space agency words = false

abbrev pub records_of : (Text → Text) → Text → List Text → ℕ
records_of trim_space agency [] = 0
records_of trim_space agency (line ∷ lines) =
    (if counts_for trim_space agency (split 44 line) then 1 else 0)
    + records_of trim_space agency lines

values_of-line :
    (trim_space : Text → Text) (agency : Text) (words : List Text)
    → values_of text_discrete agency (credit_line trim_space words)
      ≡ copies (if counts_for trim_space agency words then 1 else 0) one
values_of-line trim_space agency [] = refl
values_of-line trim_space agency (a ∷ []) = refl
values_of-line trim_space agency (a ∷ b ∷ []) = refl
values_of-line trim_space agency (a ∷ b ∷ c ∷ []) = refl
values_of-line trim_space agency (a ∷ name ∷ year ∷ score ∷ more) =
    elim (Bool-cases (eq_text year (50 ∷ 48 ∷ 50 ∷ 51 ∷ []))) [
      | inr wrong ↦ elim (Bool-cases (same text_discrete agency name)) [
        | inl here ↦ rw (wrong, here) refl
        | inr there ↦ rw (wrong, there) refl
      ]
      | inl year_fits ↦ elim (Bool-cases (ge_int 400 (atoi (trim_space score)))) [
        | inl low ↦ elim (Bool-cases (same text_discrete agency name)) [
          | inl here ↦ rw (year_fits, low, here) refl
          | inr there ↦ rw (year_fits, low, there) refl
        ]
        | inr high ↦ elim (Bool-cases (same text_discrete agency name)) [
          | inl here ↦ rw (year_fits, high, here) refl
          | inr there ↦ rw (year_fits, high, there) refl
        ]
      ]
    ]

values_of-lines :
    (trim_space : Text → Text) (agency : Text) (lines : List Text)
    → values_of text_discrete agency (credit_lines trim_space lines)
      ≡ copies (records_of trim_space agency lines) one
unfolding credit_lines
values_of-lines trim_space agency [] = refl
values_of-lines trim_space agency (line ∷ lines) =
    values_of-append text_discrete agency (credit_line trim_space (split 44 line))
      (credit_lines trim_space lines)
    ∙ ap (λ vs. vs ++ values_of text_discrete agency (credit_lines trim_space lines))
        (values_of-line trim_space agency (split 44 line))
    ∙ ap (λ vs. copies (if counts_for trim_space agency (split 44 line) then 1 else 0) one ++ vs)
        (values_of-lines trim_space agency lines)
    ∙ copies_add (if counts_for trim_space agency (split 44 line) then 1 else 0)
        (records_of trim_space agency lines) one

atoi-one : atoi one ≡ 1
unfolding atoi parse_uint
atoi-one = refl

credit_sum-copies : (sum n : ℕ) → sum + n < 2 ^ 63 → credit_sum sum (copies n one) ≡ sum + n
unfolding credit_sum
credit_sum-copies sum zero h = omega arith
credit_sum-copies sum (suc n) h =
    let next : add_int sum 1 ≡ sum + 1 = omega (arith, h) in
    ap (λ value. credit_sum (add_int sum value) (copies n one)) atoi-one
    ∙ ap (λ s. credit_sum s (copies n one)) next
    ∙ credit_sum-copies (sum + 1) n (omega (arith, h))
    ∙ omega arith

add_int-swap : (s a b : ℕ) → add_int (add_int s a) b ≡ add_int (add_int s b) a
add_int-swap s a b = omega arith

credit_sum-perm :
    (sum : ℕ) (us vs : List Text) → Permᴰ us vs → credit_sum sum us ≡ credit_sum sum vs
unfolding credit_sum
credit_sum-perm sum us vs nil = refl
credit_sum-perm sum us vs (cons {a} {b} {l₁} {l₂} e d) =
    ap (λ t. credit_sum (add_int sum (atoi t)) l₁) e
    ∙ credit_sum-perm (add_int sum (atoi b)) l₁ l₂ d
credit_sum-perm sum us vs (swap {a} {b} {a'} {b'} {l} e e') =
    ap (λ s. credit_sum s l) (add_int-swap sum (atoi a) (atoi b))
    ∙ ap (λ t. credit_sum (add_int (add_int sum (atoi t)) (atoi a)) l) e'
    ∙ ap (λ t. credit_sum (add_int (add_int sum (atoi a')) (atoi t)) l) e
credit_sum-perm sum us vs (trans {l₂} d d') =
    credit_sum-perm sum us l₂ d ∙ credit_sum-perm sum l₂ vs d'

line_of_copies :
    (agency : Text) (n : ℕ)
    → n < 2 ^ 63
    → map (credit_reduce agency) (at_most_one text_discrete (copies n one)) ≡ count_line n
unfolding credit_reduce
line_of_copies agency zero h = refl
line_of_copies agency (suc n) h =
    let sum = credit_sum-copies 0 (suc n) (omega (arith, h)) in
    let total : credit_sum 0 (copies (suc n) one) ≡ suc n = sum ∙ omega arith in
    let positive : ge_int (suc n) 0 ≡ true = ground (arith, h) in
    ap (λ k. itoa_int k ∷ []) total ∙ rw positive refl

module _ {E : Type 0} (trim_space : Text → Text) (read : Text → Option Text) (sum32 : Text → ℕ)
    (encode : KeyValue Text Text → E) (decode : E → Option (KeyValue Text Text))
    (sort_pairs : List (KeyValue Text Text) → List (KeyValue Text Text)) where
  abbrev pub credit_program : Program Text Text Text Text E Text
  credit_program = record {
    no_name = [];
    read = read;
    mapf = credit_map trim_space;
    reducef = credit_reduce;
    key_eq = text_discrete;
    sum32 = sum32;
    encode = encode;
    decode = decode;
    sort_pairs = sort_pairs;
  }

  -- The lines of an input file behind its first, and how many records of the agency all files have.
  abbrev pub lines_of_file : Text → List Text
  lines_of_file name = elim (read name) [ none ↦ [] | some content ↦ rest_of (split 10 content) ]

  abbrev pub job_records : Text → List Text → ℕ
  job_records agency [] = 0
  job_records agency (name ∷ names) =
      records_of trim_space agency (lines_of_file name) + job_records agency names

  values_of-pairs_of :
      (agency name : Text)
      → values_of text_discrete agency (pairs_of credit_program name)
        ≡ copies (records_of trim_space agency (lines_of_file name)) one
  unfolding credit_map
  values_of-pairs_of agency name =
      elim (read name)
        as (λ content.
          values_of text_discrete agency
            (elim content [ none ↦ [] | some s ↦ credit_map trim_space name s ])
          ≡ copies
              (records_of trim_space agency
                (elim content [ none ↦ [] | some s ↦ rest_of (split 10 s) ]))
              one) [
                | none ↦ refl
                | some content ↦ values_of-lines trim_space agency (rest_of (split 10 content))
              ]

  values_of-job_records :
      (agency : Text) (names : List Text)
      → values_of text_discrete agency (pairs_in_order credit_program names)
        ≡ copies (job_records agency names) one
  values_of-job_records agency [] = refl
  values_of-job_records agency (name ∷ names) =
      values_of-append text_discrete agency (pairs_of credit_program name)
        (pairs_in_order credit_program names)
      ∙ ap (λ vs. vs ++ values_of text_discrete agency (pairs_in_order credit_program names))
          (values_of-pairs_of agency name)
      ∙ ap (λ vs. copies (records_of trim_space agency (lines_of_file name)) one ++ vs)
          (values_of-job_records agency names)
      ∙ copies_add (records_of trim_space agency (lines_of_file name)) (job_records agency names)
          one

  any_order :
      (agency : Text) (us vs : List Text)
      → Permᴰ us vs
      → credit_reduce agency us ≡ credit_reduce agency vs
  unfolding credit_reduce
  any_order agency us vs d = ap itoa_int (credit_sum-perm 0 us vs d)

  -- Where each run of `DoMap` and of `DoReduce` takes effect at once, the lines of the intermediate
  -- files can be read back, the sort is one that puts the pairs of one key together, there is a
  -- reduce task and the inputs have fewer than 2 ^ 63 records of an agency: a job with the plugin
  -- credit.go of which `Done` is true has written for the agency, in the output that its hash names,
  -- one line with the number of its records of 2023 with a score above 400 in all readable inputs,
  -- the first line of each left out, and none if there is no such record; and no line for it
  -- elsewhere.
  pub credit_lem :
      (names : List Text) (n : ℕ) {job : Job Text Text E Text}
      → ((kv : KeyValue Text Text) → decode (encode kv) ≡ some kv)
      → ((pairs : List (KeyValue Text Text)) → KeysTogether text_discrete (sort_pairs pairs))
      → ((pairs : List (KeyValue Text Text)) → Permᴰ (sort_pairs pairs) pairs)
      → 0 < n
      → Reach credit_program names n job
      → is_done job.coordinator ≡ true
      → (agency : Text) (p : ℕ) → p < n
      → job_records agency names < 2 ^ 63
      → (written : List (Text × Text)) × (job.outputs p ≡ some written)
        × (lines_for text_discrete agency written ≡ (
            if ihash sum32 encode agency % n == p
            then count_line (job_records agency names)
            else []))
  credit_lem names n {job} back together perm some_task r done agency p l few =
      let (written, wrote, line) =
        job_line_lem credit_program names n
          (record { back = back; together = together; perm = perm; any_order = any_order })
          some_task r done agency p l in
      (
        written,
        wrote,
        line
            ∙ ap (λ lines. if ihash sum32 encode agency % n == p then lines else [])
                (ap (λ vs. map (credit_reduce agency) (at_most_one text_discrete vs))
                    (values_of-job_records agency names)
                  ∙ line_of_copies agency (job_records agency names) few),
      )
