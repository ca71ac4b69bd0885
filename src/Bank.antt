-- ===== src/Bank.antt =====
-- bank/bank.go: accounts under a lock for the bank and one for each account. An operation is a run of
-- one goroutine from a state of all locks; it returns, panics, or blocks for ever on a lock that is
-- held, and a panic leaves the locks as they are. The id of an account stands for the pointer to it,
-- since the bank never replaces an account. An `int` is its 64-bit word. What is sent or logged on an
-- overdraw has no effect.
pub mod Transfers
mod Examples
use mr_and_raft.Common.{
  ℕ, ◌+◌, ◌-◌, ◌%◌, ◌^◌, Bool, true, false, ◌||◌, Option, none, some, if◌then◌else◌, leb, same,
  add_int, sub_int, ge_int,
}

pub record Account : Type 0 where
  pub balance : ℕ
  pub locked : Bool

pub record Bank {ℓ} (K : Type ℓ) : Type ℓ where
  pub bank_locked : Bool
  pub accounts : K → Option Account

pub data Ended {ℓ} (K : Type ℓ) (A : Type 0) : Type ℓ where
  returned : A → Bank K → Ended K A
  panicked : Bank K → Ended K A
  blocked : Bank K → Ended K A

infixl 5 ◌>>=◌
unfoldable pub ◌>>=◌ {ℓ} :
    {K : Type ℓ} {A B : Type 0}
    → (Bank K → Ended K A)
    → (A → Bank K → Ended K B)
    → Bank K
    → Ended K B
(run >>= f) b = elim (run b) [
  | returned a b1 ↦ f a b1
  | panicked b1 ↦ Ended.panicked b1
  | blocked b1 ↦ Ended.blocked b1
]

unfoldable pub finish {ℓ} : {K : Type ℓ} {A : Type 0} → A → Bank K → Ended K A
finish a b = Ended.returned a b

module _ {ℓ} {K : Type ℓ} where
  -- `BankInit`
  unfoldable pub bank_init : Bank K
  bank_init = record { bank_locked = false; accounts = λ id. none }

  unfoldable pub lock_bank : Bank K → Ended K Unit
  lock_bank b =
      if b.bank_locked then Ended.blocked b else Ended.returned tt (record b { bank_locked = true })

  unfoldable pub unlock_bank : Bank K → Ended K Unit
  unlock_bank b = Ended.returned tt (record b { bank_locked = false })

  -- The account of an id, or a panic where there is none
  unfoldable pub account_of : K → Bank K → Ended K Account
  account_of id b = elim (b.accounts id) [
    | none ↦ Ended.panicked b
    | some account ↦ Ended.returned account b
  ]

module _ {ℓ} {K : Type ℓ} (id_eq : Discrete K) where
  abbrev pub with_account : Bank K → K → Account → Bank K
  with_account b id account = record b {
    accounts = λ k. if same id_eq id k then some account else b.accounts k;
  }

  unfoldable pub set_account : K → Account → Bank K → Ended K Unit
  set_account id account b = Ended.returned tt (with_account b id account)

  unfoldable pub lock_account : K → Bank K → Ended K Unit
  lock_account id = do
    account ← account_of id
    if account.locked then Ended.blocked else set_account id (record account { locked = true })

  unfoldable pub unlock_account : K → Bank K → Ended K Unit
  unlock_account id = do account ← account_of id; set_account id (record account { locked = false })

  unfoldable pub set_balance : K → ℕ → Bank K → Ended K Unit
  set_balance id balance = do
    account ← account_of id
    set_account id (record account { balance = balance })

  unfoldable pub create_account : K → Bank K → Ended K Unit
  create_account id = do
    _ ← lock_bank
    _ ← λ b. elim (b.accounts id) [ none ↦ Ended.returned tt b | some _ ↦ Ended.panicked b ]
    _ ← set_account id (record { balance = 0; locked = false })
    unlock_bank

  -- The lock of a nil account panics before the test for nil does.
  unfoldable pub deposit : K → ℕ → Bank K → Ended K Unit
  deposit id amount = do
    _ ← lock_bank
    _ ← lock_account id
    _ ← unlock_bank
    account ← account_of id
    _ ← set_balance id (add_int account.balance amount)
    unlock_account id

  unfoldable pub withdraw : K → ℕ → Bank K → Ended K Bool
  withdraw id amount = do
    _ ← lock_bank
    _ ← account_of id
    _ ← unlock_bank
    _ ← lock_account id
    account ← account_of id
    if ge_int account.balance amount
        then (do
          _ ← set_balance id (sub_int account.balance amount)
          _ ← unlock_account id
          finish true)
        else (do _ ← unlock_account id; finish false)

  unfoldable pub transfer : K → K → ℕ → Bool → Bank K → Ended K Bool
  transfer sender receiver amount allow_overdraw = do
    _ ← lock_bank
    _ ← account_of sender
    _ ← account_of receiver
    _ ← lock_account sender
    _ ← lock_account receiver
    _ ← unlock_bank
    sender_account ← account_of sender
    let success = ge_int sender_account.balance amount || allow_overdraw
    _ ←
        if success
        then (do
          _ ← set_balance sender (sub_int sender_account.balance amount)
          receiver_account ← account_of receiver
          set_balance receiver (add_int receiver_account.balance amount))
        else finish tt
    _ ← unlock_account sender
    _ ← unlock_account receiver
    finish success

  -- It takes no lock of the bank.
  unfoldable pub get_balance : K → Bank K → Ended K ℕ
  get_balance id = do
    _ ← lock_account id
    account ← account_of id
    _ ← unlock_account id
    finish account.balance

  unfoldable pub deposit_and_compare : K → ℕ → ℕ → Bank K → Ended K Bool
  unfolding deposit get_balance
  deposit_and_compare id amount compare_threshold = do
    _ ← deposit id amount
    balance ← get_balance id
    finish (ge_int balance compare_threshold)
