-- ===== src/Mr/Apps.antt =====
-- mr-main/mrapps/: the map and reduce functions of the plugins. A text is the list of its characters;
-- which of them are letters, what `strings.TrimSpace` and `sort.Strings` give and the order in which
-- a run of `Map` walks its map, which may be another at each run, are parameters.
pub mod Counts
pub mod WordCount
pub mod Indexer
pub mod Credit
use mr_and_raft.Common.{
  ℕ, zero, suc, ◌+◌, ◌-◌, ◌*◌, ◌%◌, ◌^◌, Bool, true, false, not, ◌&&◌, ◌||◌, Option, none, some,
  List, [], ◌∷◌, ◌++◌, map, length, if◌then◌else◌, ◌==◌, leb, ltb, Text, eq_text, text_discrete,
  same, itoa, add_int, ge_int,
}
use mr_and_raft.Mr.Worker.{KeyValue}

-- A word that has begun stands before the others.
abbrev pub add_word : Text → List Text → List Text
add_word [] ws = ws
add_word (a ∷ word) ws = (a ∷ word) ∷ ws

-- `strings.FieldsFunc` for what is no letter; `word` is the word that has begun.
unfoldable pub words_from : (ℕ → Bool) → Text → Text → List Text
words_from is_letter word [] = add_word word []
words_from is_letter word (c ∷ cs) = elim (is_letter c) [
  | true ↦ words_from is_letter (word ++ c ∷ []) cs
  | false ↦ add_word word (words_from is_letter [] cs)
]

unfoldable pub words : (ℕ → Bool) → Text → List Text
unfolding words_from
words is_letter contents = words_from is_letter [] contents

-- `strings.Split` for a separator of one character; `part` is the part that has begun.
unfoldable pub split_from : ℕ → Text → Text → List Text
split_from separator part [] = part ∷ []
split_from separator part (c ∷ cs) = elim (c == separator) [
  | true ↦ part ∷ split_from separator [] cs
  | false ↦ split_from separator (part ++ c ∷ []) cs
]

unfoldable pub split : ℕ → Text → List Text
unfolding split_from
split separator s = split_from separator [] s

-- "1"
abbrev pub one : Text
one = 49 ∷ []

abbrev pub pair_of : Text → Text → KeyValue Text Text
pair_of key value = record { key = key; value = value }

-- wc.go
unfoldable pub wc_map : (ℕ → Bool) → Text → Text → List (KeyValue Text Text)
wc_map is_letter filename contents = map (λ w. pair_of w one) (words is_letter contents)

unfoldable pub wc_reduce : Text → List Text → Text
wc_reduce key values = itoa (length values)

-- indexer.go: the keys of the map `m`
abbrev pub is_in : Text → List Text → Bool
is_in w [] = false
is_in w (u ∷ us) = same text_discrete w u || is_in w us

pub distinct : List Text → List Text
distinct [] = []
distinct (w ∷ ws) = let rest = distinct ws in if is_in w rest then rest else w ∷ rest

unfoldable pub indexer_map :
    (ℕ → Bool) → (List Text → List Text) → Text → Text → List (KeyValue Text Text)
unfolding distinct
indexer_map is_letter walk document value =
    map (λ w. pair_of w document) (walk (distinct (words is_letter value)))

-- `strings.Join`
abbrev pub join : Text → List Text → Text
join separator [] = []
join separator (w ∷ []) = w
join separator (w ∷ u ∷ us) = w ++ separator ++ join separator (u ∷ us)

unfoldable pub indexer_reduce : (List Text → List Text) → Text → List Text → Text
indexer_reduce sort_strings key values =
    itoa (length values) ++ 32 ∷ join (44 ∷ []) (sort_strings values)

-- `strconv.ParseUint` of the digits behind those that give `n`: `none` at a character that is no
-- digit, the largest value where it overflows
unfoldable pub parse_uint : ℕ → Text → Option ℕ
parse_uint n [] = some n
parse_uint n (c ∷ cs) =
    let next = n * 10 + (c - 48) in
    let rest = parse_uint next cs in
    if leb 48 c && leb c 57 then (if leb (2 ^ 64) next then some (2 ^ 64 - 1) else rest) else none

abbrev pub parse_digits : Text → Option ℕ
parse_digits [] = none
parse_digits (c ∷ cs) = parse_uint 0 (c ∷ cs)

-- The value of `strconv.Atoi`, its error dropped, as a 64-bit word: 0 where the text is no number,
-- and the nearest `int` where it is out of range
unfoldable pub atoi : Text → ℕ
unfolding parse_uint
atoi [] = 0
atoi (c ∷ cs) =
    if c == 45
    then elim (parse_digits cs) [
      | none ↦ 0
      | some n ↦ if leb n (2 ^ 63) then (2 ^ 64 - n) % 2 ^ 64 else 2 ^ 63
    ]
    else elim (parse_digits (if c == 43 then cs else c ∷ cs)) [
      | none ↦ 0
      | some n ↦ if ltb n (2 ^ 63) then n else 2 ^ 63 - 1
    ]

-- `Itoa` of an `int` that may be negative
abbrev pub itoa_int : ℕ → Text
itoa_int n = if ge_int n 0 then itoa n else 45 ∷ itoa (2 ^ 64 - n)

-- credit.go: what the loop of `Map` does with one line
abbrev pub credit_line : (Text → Text) → List Text → List (KeyValue Text Text)
credit_line trim_space (a ∷ agency ∷ year ∷ score ∷ more) =
    if not (eq_text year (50 ∷ 48 ∷ 50 ∷ 51 ∷ [])) || ge_int 400 (atoi (trim_space score))
    then []
    else pair_of agency one ∷ []
credit_line trim_space words = []

unfoldable pub credit_lines : (Text → Text) → List Text → List (KeyValue Text Text)
credit_lines trim_space [] = []
credit_lines trim_space (line ∷ lines) =
    credit_line trim_space (split 44 line) ++ credit_lines trim_space lines

abbrev pub rest_of : List Text → List Text
rest_of [] = []
rest_of (line ∷ lines) = lines

-- `Split` gives one part at least, so that `lines[1:]` does not panic.
unfoldable pub credit_map : (Text → Text) → Text → Text → List (KeyValue Text Text)
unfolding credit_lines
credit_map trim_space filename contents = credit_lines trim_space (rest_of (split 10 contents))

-- The sum of `Reduce`, from the sum of the values before
pub credit_sum : ℕ → List Text → ℕ
credit_sum sum [] = sum
credit_sum sum (value ∷ values) = credit_sum (add_int sum (atoi value)) values

unfoldable pub credit_reduce : Text → List Text → Text
unfolding credit_sum
credit_reduce key values = itoa_int (credit_sum 0 values)
