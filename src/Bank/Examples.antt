-- ===== src/Bank/Examples.antt =====
-- The theorems of bank/bank.go at a bank with two accounts.
use mr_and_raft.Common.{ℕ, ◌≡◌, ◌≢◌, refl, Bool, true, false, some, ℕ_discrete, arith, add_int}
use mr_and_raft.Bank.{
  Bank, Ended, bank_init, with_account, transfer, deposit, withdraw, create_account,
}
use mr_and_raft.Bank.Transfers.{free, transfer_lem, self_transfer_blocks}

-- Account 1 has 30 and account 2 has 5.
abbrev two_accounts : Bank ℕ
two_accounts = with_account ℕ_discrete (with_account ℕ_discrete bank_init 1 (free 30)) 2 (free 5)

transfer_lem_example :
    (b' : Bank ℕ) × (transfer ℕ_discrete 1 2 20 false two_accounts ≡ Ended.returned true b')
    × (b'.bank_locked ≡ false)
    × (b'.accounts 1 ≡ some (free 10))
    × (b'.accounts 2 ≡ some (free 25))
    × ((k : ℕ) → k ≢ 1 → k ≢ 2 → b'.accounts k ≡ two_accounts.accounts k)
    × (add_int 10 25 ≡ add_int 30 5)
unfolding ℕ_discrete bank_init
transfer_lem_example =
    transfer_lem ℕ_discrete two_accounts 1 2 20 30 5 false (omega arith) (omega arith) (omega arith)
      (omega arith) refl refl refl

self_transfer_blocks_example :
    (b' : Bank ℕ) × (transfer ℕ_discrete 1 1 20 false two_accounts ≡ Ended.blocked b')
    × ((k n : ℕ) → deposit ℕ_discrete k n b' ≡ Ended.blocked b')
    × ((k n : ℕ) → withdraw ℕ_discrete k n b' ≡ Ended.blocked b')
    × ((s r n : ℕ) (o : Bool) → transfer ℕ_discrete s r n o b' ≡ Ended.blocked b')
    × ((k : ℕ) → create_account ℕ_discrete k b' ≡ Ended.blocked b')
unfolding ℕ_discrete bank_init
self_transfer_blocks_example = self_transfer_blocks ℕ_discrete two_accounts 1 20 30 false refl refl
