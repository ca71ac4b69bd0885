-- ===== src/Common/Texts.antt =====
-- Texts, as lists of numbers of characters.
use Prim.Native.Nat.{ℕ, zero, suc, ◌+◌, ◌/◌, ◌%◌}
use mathlib.Core.Path.{◌≡◌, refl, sym, ap, ◌∙◌}
use mathlib.Core.Bool.{Bool, true, false, ◌&&◌}
use mathlib.Core.Logic.{inl, inr}
use mathlib.Core.List.{List, [], ◌∷◌, ◌++◌}
use native.Mathlib.Omega.{arith}
use mr_and_raft.Common.Tests.{if◌then◌else◌, ◌==◌, Bool-cases, ltb}

abbrev pub Text : Type 0
Text = List ℕ

abbrev pub eq_text : Text → Text → Bool
eq_text [] [] = true
eq_text [] (b ∷ bs) = false
eq_text (a ∷ cs) [] = false
eq_text (a ∷ cs) (b ∷ bs) = (a == b) && eq_text cs bs

pub eq_text_refl : (t : Text) → eq_text t t ≡ true
eq_text_refl [] = refl
eq_text_refl (c ∷ cs) = let here : (c == c) ≡ true = ground arith in rw here (eq_text_refl cs)

pub eq_text_sound : (t u : Text) → eq_text t u ≡ true → t ≡ u
eq_text_sound [] [] e = refl
eq_text_sound [] (b ∷ bs) e = cc
eq_text_sound (a ∷ cs) [] e = cc
eq_text_sound (a ∷ cs) (b ∷ bs) e = elim (Bool-cases (a == b)) [
  | inl same ↦
      let rest : eq_text cs bs ≡ true = rw same at e in
      let here : a ≡ b = ground arith in
      ap (λ c. c ∷ cs) here ∙ ap (λ l. b ∷ l) (eq_text_sound cs bs rest)
  | inr other ↦ let no : false ≡ true = rw other at e in cc
]

unfoldable pub text_discrete : Discrete Text
text_discrete t u = elim (Bool-cases (eq_text t u)) [
  | inl e ↦ yes (eq_text_sound t u e)
  | inr e ↦
      no λ same. let other : false ≡ true = sym e ∙ ap (eq_text t) (sym same) ∙ eq_text_refl t in cc
]

-- `strconv.Itoa` of a number that is not negative: with `n + 1` rounds all digits are written.
pub digits : ℕ → ℕ → Text
digits zero n = []
digits (suc fuel) n =
    let rest = digits fuel (n / 10) in
    if ltb n 10 then (48 + n) ∷ [] else rest ++ (48 + n % 10) ∷ []

unfoldable pub itoa : ℕ → Text
unfolding digits
itoa n = digits (n + 1) n
