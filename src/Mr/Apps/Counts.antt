-- ===== src/Mr/Apps/Counts.antt =====
-- Lists of texts, counted.
use mr_and_raft.Common.{
  ℕ, zero, suc, ◌+◌, ◌≡◌, refl, ◌∙◌, ap, List, [], ◌∷◌, ◌++◌, length, if◌then◌else◌, arith, same,
  Text, text_discrete, itoa,
}
use mathlib.Core.List.Permᴰ.{Permᴰ, nil, cons, swap, trans}

-- How often a word is in a list.
abbrev pub occurrences : Text → List Text → ℕ
occurrences w [] = 0
occurrences w (u ∷ us) = (if same text_discrete w u then 1 else 0) + occurrences w us

-- No line for a word that does not occur.
abbrev pub count_line : ℕ → List Text
count_line zero = []
count_line (suc k) = itoa (suc k) ∷ []

pub length-perm : (vs ws : List Text) → Permᴰ vs ws → length vs ≡ length ws
length-perm vs ws nil = refl
length-perm vs ws (cons {l₁} {l₂} e d) = ap suc (length-perm l₁ l₂ d)
length-perm vs ws (swap e e') = refl
length-perm vs ws (trans {l₂} d d') = length-perm vs l₂ d ∙ length-perm l₂ ws d'

pub length-append : (vs ws : List Text) → length (vs ++ ws) ≡ length vs + length ws
length-append [] ws = omega arith
length-append (v ∷ vs) ws = omega (arith, length-append vs ws)

pub occurrences-append :
    (w : Text) (us vs : List Text) → occurrences w (us ++ vs) ≡ occurrences w us + occurrences w vs
occurrences-append w [] vs = omega arith
occurrences-append w (u ∷ us) vs = omega (arith, occurrences-append w us vs)

abbrev pub copies : ℕ → Text → List Text
copies zero t = []
copies (suc n) t = t ∷ copies n t

pub copies_add : (m n : ℕ) (t : Text) → copies m t ++ copies n t ≡ copies (m + n) t
copies_add zero n t = ap (λ k. copies k t) (omega arith)
copies_add (suc m) n t =
    let same : suc (m + n) ≡ suc m + n = omega arith in
    ap (λ ts. t ∷ ts) (copies_add m n t) ∙ ap (λ k. copies k t) same

pub length-copies : (n : ℕ) (t : Text) → length (copies n t) ≡ n
length-copies zero t = refl
length-copies (suc n) t = omega (arith, length-copies n t)

swapped : (w a b : Text) (l : List Text) → occurrences w (a ∷ b ∷ l) ≡ occurrences w (b ∷ a ∷ l)
swapped w a b l = omega arith

pub occurrences-perm :
    (w : Text) (us vs : List Text) → Permᴰ us vs → occurrences w us ≡ occurrences w vs
occurrences-perm w us vs nil = refl
occurrences-perm w us vs (cons {a} {b} {l₁} {l₂} e d) =
    ap (λ n. (if same text_discrete w a then 1 else 0) + n) (occurrences-perm w l₁ l₂ d)
    ∙ ap (λ t. (if same text_discrete w t then 1 else 0) + occurrences w l₂) e
occurrences-perm w us vs (swap {a} {b} {a'} {b'} {l} e e') =
    swapped w a b l
    ∙ ap
        (λ t.
          (if same text_discrete w t then 1 else 0)
          + ((if same text_discrete w a then 1 else 0) + occurrences w l))
        e'
    ∙ ap
        (λ t.
          (if same text_discrete w a' then 1 else 0)
          + ((if same text_discrete w t then 1 else 0) + occurrences w l))
        e
occurrences-perm w us vs (trans {l₂} d d') =
    occurrences-perm w us l₂ d ∙ occurrences-perm w l₂ vs d'
