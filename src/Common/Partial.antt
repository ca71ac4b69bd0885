-- ===== src/Common/Partial.antt =====
-- Code that may panic (an index out of range, a nil dereference): `none` is the panic.
use mathlib.Core.Path.{◌≡◌, refl, subst}
use mathlib.Core.Bool.{Bool, true, false}
use mathlib.Core.Option.{Option, none, some}
use mr_and_raft.Common.Tests.{if◌then◌else◌}

infixl 5 ◌>>=◌
abbrev pub ◌>>=◌ {ℓ κ} : {A : Type ℓ} {B : Type κ} → Option A → (A → Option B) → Option B
none >>= f = none
some a >>= f = f a

-- The run of `o` ends without a panic.
abbrev pub Returns {ℓ} : {A : Type ℓ} → Option A → Type ℓ
Returns {A} o = (a : A) × (o ≡ some a)

-- Inversion of a run that has returned.
pub >>=-eq-some {ℓ κ} :
    {A : Type ℓ} {B : Type κ} (m : Option A) (f : A → Option B) {b : B}
    → (m >>= f) ≡ some b
    → (a : A) × (m ≡ some a) × (f a ≡ some b)
>>=-eq-some none f h = cc
>>=-eq-some (some a) f h = (a, refl, h)

-- What holds of the result of a run, if it ends without a panic.
pub record Ensures {ℓ κ} {A : Type ℓ} (P : A → Type κ) (r : Option A) : Type (ℓ ⊔ κ) where
  pub result : (a : A) → r ≡ some a → P a

pub some_inj {ℓ} : {A : Type ℓ} {a b : A} → some a ≡ some b → a ≡ b
some_inj e = cc

module _ {ℓ κ} {A : Type ℓ} {P : A → Type κ} where
  pub Ensures-some : {a : A} → P a → Ensures P (some a)
  Ensures-some h = record { result = λ b e. subst P (some_inj e) h }

  pub Ensures-if :
      (b : Bool) {r s : Option A} → Ensures P r → Ensures P s → Ensures P (if b then r else s)
  Ensures-if true h k = h
  Ensures-if false h k = k

  pub Ensures-bind {μ} :
      {B : Type μ} (m : Option B) {f : B → Option A}
      → ((b : B) → Ensures P (f b))
      → Ensures P (m >>= f)
  Ensures-bind none h = record { result = λ a e. cc }
  Ensures-bind (some b) h = h b

module _ {ℓ κ μ ν} {A : Type ℓ} {P : A → Type κ} {B : Type μ} {Q : B → Type ν} where
  pub Ensures-after :
      {m : Option B} {f : B → Option A}
      → Ensures Q m
      → ((b : B) → Q b → Ensures P (f b))
      → Ensures P (m >>= f)
  Ensures-after {m = none} q h = record { result = λ a e. cc }
  Ensures-after {m = some b} q h = h b (q.result b refl)

module _ {ℓ κ ν} {A : Type ℓ} {P : A → Type κ} {Q : A → Type ν} where
  pub Ensures-map : {r : Option A} → ((a : A) → Q a → P a) → Ensures Q r → Ensures P r
  Ensures-map f q = record { result = λ a e. f a (q.result a e) }
