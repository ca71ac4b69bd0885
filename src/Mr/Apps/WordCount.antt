-- ===== src/Mr/Apps/WordCount.antt =====
-- A job with the plugin mr-main/mrapps/wc.go counts words.
use mr_and_raft.Common.{
  ℕ, ◌+◌, ◌<◌, ◌≡◌, refl, sym, ◌∙◌, ap, inl, inr, Bool, true, Option, none, some, List, [], ◌∷◌,
  ◌++◌, map, length, if◌then◌else◌, ◌==◌, ◌%◌, Bool-cases, arith, same, Text, text_discrete, itoa,
}
use mathlib.Core.List.Permᴰ.{Permᴰ}
use mr_and_raft.Mr.Worker.{KeyValue, ihash}
use mr_and_raft.Mr.Reducer.{KeysTogether, values_of, at_most_one}
use mr_and_raft.Mr.Coordinator.{is_done}
use mr_and_raft.Mr.Job.{Program, Job, Reach}
use mr_and_raft.Mr.Job.Contents.{pairs_of}
use mr_and_raft.Mr.Lines.{lines_for, values_of-append}
use mr_and_raft.Mr.Job.Agree.{pairs_in_order, job_line_lem}
use mr_and_raft.Mr.Apps.Counts.{
  occurrences, count_line, length-perm, length-append, occurrences-append,
}
use mr_and_raft.Mr.Apps.{words, wc_map, wc_reduce, pair_of, one}

length-values_of :
    (w : Text) (us : List Text)
    → length (values_of text_discrete w (map (λ u. pair_of u one) us)) ≡ occurrences w us
length-values_of w [] = refl
length-values_of w (u ∷ us) = elim (Bool-cases (same text_discrete w u)) [
  | inl here ↦ rw here (omega (arith, length-values_of w us))
  | inr there ↦ rw there (omega (arith, length-values_of w us))
]

line_of_values :
    (w : Text) (values : List Text)
    → map (wc_reduce w) (at_most_one text_discrete values) ≡ count_line (length values)
unfolding wc_reduce
line_of_values w [] = refl
line_of_values w (v ∷ vs) = refl

module _ {E : Type 0} (is_letter : ℕ → Bool) (read : Text → Option Text) (sum32 : Text → ℕ)
    (encode : KeyValue Text Text → E) (decode : E → Option (KeyValue Text Text))
    (sort_pairs : List (KeyValue Text Text) → List (KeyValue Text Text)) where
  abbrev pub wc_program : Program Text Text Text Text E Text
  wc_program = record {
    no_name = [];
    read = read;
    mapf = wc_map is_letter;
    reducef = wc_reduce;
    key_eq = text_discrete;
    sum32 = sum32;
    encode = encode;
    decode = decode;
    sort_pairs = sort_pairs;
  }

  -- The words of an input file, and of all.
  abbrev pub words_of : Text → List Text
  words_of name = elim (read name) [ none ↦ [] | some content ↦ words is_letter content ]

  abbrev pub job_words : List Text → List Text
  job_words [] = []
  job_words (name ∷ names) = words_of name ++ job_words names

  pairs_of-words :
      (name : Text) → pairs_of wc_program name ≡ map (λ u. pair_of u one) (words_of name)
  unfolding wc_map
  pairs_of-words name =
      elim (read name)
        as (λ content.
          elim content [ none ↦ [] | some s ↦ wc_map is_letter name s ]
          ≡ map (λ u. pair_of u one) (elim content [ none ↦ [] | some s ↦ words is_letter s ])) [
            | none ↦ refl
            | some content ↦ refl
          ]

  length-job_values :
      (w : Text) (names : List Text)
      → length (values_of text_discrete w (pairs_in_order wc_program names))
        ≡ occurrences w (job_words names)
  length-job_values w [] = refl
  length-job_values w (name ∷ names) =
      ap length (
        values_of-append text_discrete w (pairs_of wc_program name)
          (pairs_in_order wc_program names))
      ∙ length-append (values_of text_discrete w (pairs_of wc_program name))
          (values_of text_discrete w (pairs_in_order wc_program names))
      ∙ ap (λ n. n + length (values_of text_discrete w (pairs_in_order wc_program names)))
          (ap (λ kvs. length (values_of text_discrete w kvs)) (pairs_of-words name)
            ∙ length-values_of w (words_of name))
      ∙ ap (λ n. occurrences w (words_of name) + n) (length-job_values w names)
      ∙ sym (occurrences-append w (words_of name) (job_words names))

  any_order : (w : Text) (vs ws : List Text) → Permᴰ vs ws → wc_reduce w vs ≡ wc_reduce w ws
  unfolding wc_reduce
  any_order w vs ws d = ap itoa (length-perm vs ws d)

  -- Where each run of `DoMap` and of `DoReduce` takes effect at once, the lines of the intermediate
  -- files can be read back, the sort is one that puts the pairs of one key together, and there is a
  -- reduce task: a job with the plugin wc.go of which `Done` is true has written, for each word that
  -- occurs in its readable inputs, one line with the number of its occurrences in all of them, in the
  -- output that the word's hash names, and no line for the word elsewhere; it has written none for a
  -- text that is not among the words.
  pub wc_lem :
      (names : List Text) (n : ℕ) {job : Job Text Text E Text}
      → ((kv : KeyValue Text Text) → decode (encode kv) ≡ some kv)
      → ((pairs : List (KeyValue Text Text)) → KeysTogether text_discrete (sort_pairs pairs))
      → ((pairs : List (KeyValue Text Text)) → Permᴰ (sort_pairs pairs) pairs)
      → 0 < n
      → Reach wc_program names n job
      → is_done job.coordinator ≡ true
      → (w : Text) (p : ℕ) → p < n
      → (written : List (Text × Text)) × (job.outputs p ≡ some written)
        × (lines_for text_discrete w written ≡ (
            if ihash sum32 encode w % n == p
            then count_line (occurrences w (job_words names))
            else []))
  wc_lem names n {job} back together perm some_task r done w p l =
      let (written, wrote, line) =
        job_line_lem wc_program names n
          (record { back = back; together = together; perm = perm; any_order = any_order })
          some_task r done w p l in
      (
        written,
        wrote,
        line
            ∙ ap (λ lines. if ihash sum32 encode w % n == p then lines else [])
                (line_of_values w _ ∙ ap count_line (length-job_values w names)),
      )
