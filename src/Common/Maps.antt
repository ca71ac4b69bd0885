-- ===== src/Common/Maps.antt =====
-- Maps with numbers as keys, as functions.
use Prim.Native.Nat.{ℕ}
use mathlib.Core.Path.{◌≡◌, refl}
use mathlib.Core.Logic.{◌≢◌}
use mathlib.Core.Bool.{true, false}
use native.Mathlib.Omega.{arith}
use mr_and_raft.Common.Tests.{if◌then◌else◌, ◌==◌}

-- `m[i] = a`
abbrev pub update {ℓ} : {A : Type ℓ} → (ℕ → A) → ℕ → A → ℕ → A
update f i a j = if i == j then a else f j

pub update_here {ℓ} : {A : Type ℓ} (f : ℕ → A) (i : ℕ) (a : A) → update f i a i ≡ a
update_here f i a = let here : (i == i) ≡ true = ground arith in rw here refl

pub update_there {ℓ} : {A : Type ℓ} (f : ℕ → A) (i j : ℕ) (a : A) → i ≢ j → update f i a j ≡ f j
update_there f i j a h = let there : (i == j) ≡ false = ground arith in rw there refl
