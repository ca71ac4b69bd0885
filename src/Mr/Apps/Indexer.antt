-- ===== src/Mr/Apps/Indexer.antt =====
-- mr-main/mrapps/indexer.go: each document is listed once for each of its words.
use mr_and_raft.Common.{
  ℕ, suc, ◌+◌, ◌<◌, ◌≡◌, refl, sym, ◌∙◌, ap, inl, inr, Bool, true, false, List, [], ◌∷◌, ◌++◌, map,
  length, if◌then◌else◌, Bool-cases, arith, same, same→eq, Text, text_discrete, itoa,
}
use mathlib.Core.Path.{subst}
use mathlib.Core.List.Permᴰ.{Permᴰ}
use mr_and_raft.Mr.Worker.{KeyValue}
use mr_and_raft.Mr.Reducer.{values_of}
use mr_and_raft.Mr.Lines.{values_of-append}
use mr_and_raft.Mr.Apps.Counts.{occurrences, occurrences-perm, copies, length-perm}
use mr_and_raft.Mr.Apps.{words, indexer_map, indexer_reduce, pair_of, distinct, is_in, join}

suc_plus : (n : ℕ) → suc n ≡ 1 + n
suc_plus n = omega arith

plus_zero : (n : ℕ) → n ≡ 0 + n
plus_zero n = omega arith

copies_if : (b : Bool) (t : Text) → copies (if b then 1 else 0) t ≡ (if b then t ∷ [] else [])
copies_if true t = refl
copies_if false t = refl

was_in : (w : Text) (us : List Text) {n : ℕ} → n ≡ (if is_in w us then 1 else 0) → 0 < n → n ≡ 1
was_in w us e more = ground arith

values_of-documents :
    (w document : Text) (us : List Text)
    → values_of text_discrete w (map (λ u. pair_of u document) us)
      ≡ copies (occurrences w us) document
values_of-documents w document [] = refl
values_of-documents w document (u ∷ us) = elim (Bool-cases (same text_discrete w u)) [
  | inl here ↦ rw here (
      ap (λ ts. document ∷ ts) (values_of-documents w document us)
      ∙ ap (λ n. copies n document) (suc_plus (occurrences w us)))
  | inr there ↦ rw there (
      values_of-documents w document us
      ∙ ap (λ n. copies n document) (plus_zero (occurrences w us)))
]

is_in-occurrences : (w : Text) (us : List Text) → is_in w us ≡ true → 0 < occurrences w us
is_in-occurrences w [] e = cc
is_in-occurrences w (u ∷ us) e = elim (Bool-cases (same text_discrete w u)) [
  | inl here ↦ rw here (omega arith)
  | inr there ↦ rw there (omega (arith, is_in-occurrences w us (rw there at e)))
]

not_in-occurrences : (w : Text) (us : List Text) → is_in w us ≡ false → occurrences w us ≡ 0
not_in-occurrences w [] e = refl
not_in-occurrences w (u ∷ us) e = elim (Bool-cases (same text_discrete w u)) [
  | inl here ↦ let no : true ≡ false = rw here at e in cc
  | inr there ↦ rw there (omega (arith, not_in-occurrences w us (rw there at e)))
]

-- A word stands in the list of the keys once, if at all.
occurrences-distinct :
    (w : Text) (us : List Text) → occurrences w (distinct us) ≡ (if is_in w us then 1 else 0)
unfolding distinct
occurrences-distinct w [] = refl
occurrences-distinct w (u ∷ us) = elim (Bool-cases (is_in u (distinct us))) [
  | inl again ↦ elim (Bool-cases (same text_discrete w u)) [
    | inr other ↦ rw (again, other) (occurrences-distinct w us)
    | inl here ↦
        let e = same→eq text_discrete w u here in
        let more : 0 < occurrences w (distinct us) =
          is_in-occurrences w (distinct us)
            (subst (λ t. is_in t (distinct us) ≡ true) (sym e) again) in
        rw (again, here) (was_in w us (occurrences-distinct w us) more)
  ]
  | inr new ↦ elim (Bool-cases (same text_discrete w u)) [
    | inr other ↦ rw (new, other) (omega (arith, occurrences-distinct w us))
    | inl here ↦
        let e = same→eq text_discrete w u here in
        let out =
          not_in-occurrences w (distinct us)
            (subst (λ t. is_in t (distinct us) ≡ false) (sym e) new) in
        rw (new, here) (omega (arith, out))
  ]
]

-- `Map` gives each word of the document once.
values_of-indexer_map :
    (is_letter : ℕ → Bool) (walk : List Text → List Text) (document value w : Text)
    → ((us : List Text) → Permᴰ (walk us) us)
    → values_of text_discrete w (indexer_map is_letter walk document value)
      ≡ (if is_in w (words is_letter value) then document ∷ [] else [])
unfolding indexer_map
values_of-indexer_map is_letter walk document value w perm =
    let keys = distinct (words is_letter value) in
    values_of-documents w document (walk keys)
    ∙ ap (λ n. copies n document)
        (occurrences-perm w (walk keys) keys (perm keys)
          ∙ occurrences-distinct w (words is_letter value))
    ∙ copies_if (is_in w (words is_letter value)) document

-- A run of `Map` on a document: its name, its content, and the order in which this run walks its map.
pub record MapRun : Type 0 where
  pub name : Text
  pub content : Text
  pub walk : List Text → List Text

module _ (is_letter : ℕ → Bool) where
  -- The pairs of the runs, one run behind the other
  abbrev pub index_pairs : List MapRun → List (KeyValue Text Text)
  index_pairs [] = []
  index_pairs (run ∷ runs) = indexer_map is_letter run.walk run.name run.content ++ index_pairs runs

  -- Each run walks each key once.
  abbrev pub AllWalk : List MapRun → Type 0
  AllWalk [] = Unit
  AllWalk (run ∷ runs) = ((us : List Text) → Permᴰ (run.walk us) us) × AllWalk runs

  -- The names of the documents that hold the word
  abbrev pub documents_with : Text → List MapRun → List Text
  documents_with w [] = []
  documents_with w (run ∷ runs) =
      (if is_in w (words is_letter run.content) then run.name ∷ [] else []) ++ documents_with w runs

  values_of-index_pairs :
      (w : Text) (runs : List MapRun)
      → AllWalk runs
      → values_of text_discrete w (index_pairs runs) ≡ documents_with w runs
  values_of-index_pairs w [] h = refl
  values_of-index_pairs w (run ∷ runs) (walks, h) =
      values_of-append text_discrete w (indexer_map is_letter run.walk run.name run.content)
        (index_pairs runs)
      ∙ ap (λ vs. vs ++ values_of text_discrete w (index_pairs runs))
          (values_of-indexer_map is_letter run.walk run.name run.content w walks)
      ∙ ap (λ vs. (if is_in w (words is_letter run.content) then run.name ∷ [] else []) ++ vs)
          (values_of-index_pairs w runs h)

  -- Whatever the order in which each run of `Map` walks the words of its document, where it walks each
  -- of them once: a word is given the names of exactly those documents that hold it, each once for
  -- each time that it was mapped; and from these names, in any order, `Reduce` makes their number and
  -- the names sorted, for a sort that does not mind the order of what it sorts.
  pub indexer_lem :
      (sort_strings : List Text → List Text) (runs : List MapRun) (w : Text)
      → AllWalk runs
      → ((us vs : List Text) → Permᴰ us vs → sort_strings us ≡ sort_strings vs)
      → (values_of text_discrete w (index_pairs runs) ≡ documents_with w runs)
        × ((values : List Text)
            → Permᴰ values (values_of text_discrete w (index_pairs runs))
            → indexer_reduce sort_strings w values ≡ (
                itoa (length (documents_with w runs))
                ++ 32 ∷ join (44 ∷ []) (sort_strings (documents_with w runs))))
  unfolding indexer_reduce
  indexer_lem sort_strings runs w walks sorts =
      let given = values_of-index_pairs w runs walks in
      (
        given,
        λ values d.
            let d' = subst (Permᴰ values) given d in
            ap (λ n. itoa n ++ 32 ∷ join (44 ∷ []) (sort_strings values))
              (length-perm values (documents_with w runs) d')
            ∙ ap (λ ts. itoa (length (documents_with w runs)) ++ 32 ∷ join (44 ∷ []) ts)
                (sorts values (documents_with w runs) d'),
      )
