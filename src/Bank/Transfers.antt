-- ===== src/Bank/Transfers.antt =====
-- bank/bank.go: what the operations do to a bank on which no lock is held.
use mr_and_raft.Common.{
  ℕ, ◌^◌, ◌<◌, ◌≡◌, ◌≢◌, refl, sym, ◌∙◌, inl, inr, Bool, true, false, ◌||◌, some, if◌then◌else◌,
  same_refl, same_distinct, Bool-cases, arith, add_int, sub_int, ge_int,
}
use mr_and_raft.Bank.{
  ◌>>=◌, account_of, lock_account, unlock_account, set_balance, finish, unlock_bank, set_account,
  Account, Bank, Ended, with_account, transfer, lock_bank, create_account, deposit, withdraw,
}

abbrev pub free : ℕ → Account
free balance = record { balance = balance; locked = false }

-- Money is neither made nor lost, as `int`s count it.
conserved :
    (x y amount : ℕ)
    → x < 2 ^ 64
    → y < 2 ^ 64
    → amount < 2 ^ 64
    → add_int (sub_int x amount) (add_int y amount) ≡ add_int x y
conserved x y amount hx hy ha = omega arith

module _ {ℓ} {K : Type ℓ} (id_eq : Discrete K) where
  abbrev with_balance : ℕ → Bool → Account
  with_balance balance locked = record { balance = balance; locked = locked }

  here : (b : Bank K) (id : K) (a : Account) → (with_account id_eq b id a).accounts id ≡ some a
  here b id a = rw (same_refl id_eq id) refl

  there :
      (b : Bank K) (id k : K) (a : Account)
      → id ≢ k
      → (with_account id_eq b id a).accounts k ≡ b.accounts k
  there b id k a h = rw (same_distinct id_eq id k h) refl

  run_at :
      {A B : Type 0} (run : Bank K → Ended K A) (f : A → Bank K → Ended K B) {b b1 : Bank K} {a : A}
      {e : Ended K B}
      → run b ≡ Ended.returned a b1
      → f a b1 ≡ e
      → (run >>= f) b ≡ e
  unfolding ◌>>=◌
  run_at run f h k = rw (◌>>=◌, h) k

  lock_bank_at :
      (b : Bank K)
      → b.bank_locked ≡ false
      → lock_bank b ≡ Ended.returned tt (record b { bank_locked = true })
  unfolding lock_bank
  lock_bank_at b h = rw (lock_bank, h) refl

  unlock_bank_at :
      (b : Bank K) → unlock_bank b ≡ Ended.returned tt (record b { bank_locked = false })
  unfolding unlock_bank
  unlock_bank_at b = refl

  finish_at : {A : Type 0} (a : A) (b : Bank K) → finish a b ≡ Ended.returned a b
  unfolding finish
  finish_at a b = refl

  account_of_at :
      (b : Bank K) (id : K) {a : Account}
      → b.accounts id ≡ some a
      → account_of id b ≡ Ended.returned a b
  unfolding account_of
  account_of_at b id h = rw (account_of, h) refl

  lock_account_at :
      (b : Bank K) (id : K) {x : ℕ}
      → b.accounts id ≡ some (with_balance x false)
      → lock_account id_eq id b ≡ Ended.returned tt (with_account id_eq b id (with_balance x true))
  unfolding lock_account set_account
  lock_account_at b id h = run_at _ _ (account_of_at b id h) refl

  unlock_account_at :
      (b : Bank K) (id : K) {x : ℕ} {locked : Bool}
      → b.accounts id ≡ some (with_balance x locked)
      → unlock_account id_eq id b
        ≡ Ended.returned tt (with_account id_eq b id (with_balance x false))
  unfolding unlock_account set_account
  unlock_account_at b id h = run_at _ _ (account_of_at b id h) refl

  set_balance_at :
      (b : Bank K) (id : K) (n : ℕ) {x : ℕ} {locked : Bool}
      → b.accounts id ≡ some (with_balance x locked)
      → set_balance id_eq id n b
        ≡ Ended.returned tt (with_account id_eq b id (with_balance n locked))
  unfolding set_balance set_account
  set_balance_at b id n h = run_at _ _ (account_of_at b id h) refl

  -- Between two accounts of a bank on which none of the locks it takes is held, `Transfer` succeeds
  -- exactly when the sender has the amount or overdraws are allowed; it then moves the amount from
  -- the one balance to the other, whose sum stays as it was, and else leaves both; it frees its locks
  -- and changes no other account.
  pub transfer_lem :
      (b : Bank K) (sender receiver : K) (amount x y : ℕ) (allow_overdraw : Bool)
      → sender ≢ receiver
      → x < 2 ^ 64
      → y < 2 ^ 64
      → amount < 2 ^ 64
      → b.bank_locked ≡ false
      → b.accounts sender ≡ some (free x)
      → b.accounts receiver ≡ some (free y)
      → let success = ge_int x amount || allow_overdraw in
        (b' : Bank K) × (transfer id_eq sender receiver amount allow_overdraw b
          ≡ Ended.returned success b')
        × (b'.bank_locked ≡ false)
        × (b'.accounts sender ≡ some (free (if success then sub_int x amount else x)))
        × (b'.accounts receiver ≡ some (free (if success then add_int y amount else y)))
        × ((k : K) → k ≢ sender → k ≢ receiver → b'.accounts k ≡ b.accounts k)
        × (add_int
              (if success then sub_int x amount else x)
              (if success then add_int y amount else y)
            ≡ add_int x y)
  unfolding transfer
  transfer_lem b sender receiver amount x y allow_overdraw ne hx hy ha idle at_s at_r =
      let en : receiver ≢ sender = λ e. ne (sym e) in
      let b1 = record b { bank_locked = true } in
      let b2 = with_account id_eq b1 sender (with_balance x true) in
      let b3 = with_account id_eq b2 receiver (with_balance y true) in
      let b4 = record b3 { bank_locked = false } in
      let at_r2 : b2.accounts receiver ≡ some (with_balance y false) =
        there b1 sender receiver _ ne ∙ at_r in
      let at_s4 : b4.accounts sender ≡ some (with_balance x true) =
        there b2 receiver sender _ en ∙ here b1 sender _ in
      elim (Bool-cases (ge_int x amount || allow_overdraw)) [
        | inl e ↦
            let b5 = with_account id_eq b4 sender (with_balance (sub_int x amount) true) in
            let b6 = with_account id_eq b5 receiver (with_balance (add_int y amount) true) in
            let at_r5 : b5.accounts receiver ≡ some (with_balance y true) =
              there b4 sender receiver _ ne ∙ here b2 receiver _ in
            let at_s6 : b6.accounts sender ≡ some (with_balance (sub_int x amount) true) =
              there b5 receiver sender _ en ∙ here b4 sender _ in
            let b7 = with_account id_eq b6 sender (with_balance (sub_int x amount) false) in
            let at_r7 : b7.accounts receiver ≡ some (with_balance (add_int y amount) true) =
              there b6 sender receiver _ ne ∙ here b5 receiver _ in
            let b8 = with_account id_eq b7 receiver (free (add_int y amount)) in
            rw e (
              b8,
              run_at _ _ (lock_bank_at b idle) (
                  run_at _ _ (account_of_at b1 sender at_s) (
                    run_at _ _ (account_of_at b1 receiver at_r) (
                      run_at _ _ (lock_account_at b1 sender at_s) (
                        run_at _ _ (lock_account_at b2 receiver at_r2) (
                          run_at _ _ (unlock_bank_at b3) (
                            run_at _ _ (account_of_at b4 sender at_s4) (
                              rw e (
                                run_at _ _
                                  (run_at _ _ (set_balance_at b4 sender (sub_int x amount) at_s4) (
                                    run_at _ _ (account_of_at b5 receiver at_r5)
                                      (set_balance_at b5 receiver (add_int y amount) at_r5)))
                                  (run_at _ _ (unlock_account_at b6 sender at_s6) (
                                    run_at _ _ (unlock_account_at b7 receiver at_r7)
                                      (finish_at _ _))))))))))),
              refl,
              there b7 receiver sender _ en ∙ here b6 sender _,
              here b7 receiver _,
              λ k ks kr.
                  let from_s : sender ≢ k = λ h. ks (sym h) in
                  let from_r : receiver ≢ k = λ h. kr (sym h) in
                  there b7 receiver k _ from_r
                  ∙ there b6 sender k _ from_s
                  ∙ there b5 receiver k _ from_r
                  ∙ there b4 sender k _ from_s
                  ∙ there b2 receiver k _ from_r
                  ∙ there b1 sender k _ from_s,
              conserved x y amount hx hy ha,
            )
        | inr e ↦
            let b5 = with_account id_eq b4 sender (free x) in
            let b6 = with_account id_eq b5 receiver (free y) in
            let at_r5 : b5.accounts receiver ≡ some (with_balance y true) =
              there b4 sender receiver _ ne ∙ here b2 receiver _ in
            rw e (
              b6,
              run_at _ _ (lock_bank_at b idle) (
                  run_at _ _ (account_of_at b1 sender at_s) (
                    run_at _ _ (account_of_at b1 receiver at_r) (
                      run_at _ _ (lock_account_at b1 sender at_s) (
                        run_at _ _ (lock_account_at b2 receiver at_r2) (
                          run_at _ _ (unlock_bank_at b3) (
                            run_at _ _ (account_of_at b4 sender at_s4) (
                              rw e (
                                run_at _ _ (finish_at _ _) (
                                  run_at _ _ (unlock_account_at b4 sender at_s4) (
                                    run_at _ _ (unlock_account_at b5 receiver at_r5)
                                      (finish_at _ _))))))))))),
              refl,
              there b5 receiver sender _ en ∙ here b4 sender _,
              here b5 receiver _,
              λ k ks kr.
                  let from_s : sender ≢ k = λ h. ks (sym h) in
                  let from_r : receiver ≢ k = λ h. kr (sym h) in
                  there b5 receiver k _ from_r
                  ∙ there b4 sender k _ from_s
                  ∙ there b2 receiver k _ from_r
                  ∙ there b1 sender k _ from_s,
              refl,
            )
      ]

  run_blocked :
      {A B : Type 0} (run : Bank K → Ended K A) (f : A → Bank K → Ended K B) {b b1 : Bank K}
      → run b ≡ Ended.blocked b1
      → (run >>= f) b ≡ Ended.blocked b1
  unfolding ◌>>=◌
  run_blocked run f h = rw (◌>>=◌, h) refl

  lock_account_held :
      (b : Bank K) (id : K) {x : ℕ}
      → b.accounts id ≡ some (with_balance x true)
      → lock_account id_eq id b ≡ Ended.blocked b
  unfolding lock_account
  lock_account_held b id h = run_at _ _ (account_of_at b id h) refl

  lock_bank_held : (b : Bank K) → b.bank_locked ≡ true → lock_bank b ≡ Ended.blocked b
  unfolding lock_bank
  lock_bank_held b h = rw h refl

  -- `Transfer` from an account to itself blocks for ever, and it holds the bank's lock: from then on
  -- every `Deposit`, `Withdraw`, `Transfer` and `CreateAccount` blocks too.
  pub self_transfer_blocks :
      (b : Bank K) (id : K) (amount x : ℕ) (allow_overdraw : Bool)
      → b.bank_locked ≡ false
      → b.accounts id ≡ some (free x)
      → (b' : Bank K) × (transfer id_eq id id amount allow_overdraw b ≡ Ended.blocked b')
        × ((k : K) (n : ℕ) → deposit id_eq k n b' ≡ Ended.blocked b')
        × ((k : K) (n : ℕ) → withdraw id_eq k n b' ≡ Ended.blocked b')
        × ((s r : K) (n : ℕ) (o : Bool) → transfer id_eq s r n o b' ≡ Ended.blocked b')
        × ((k : K) → create_account id_eq k b' ≡ Ended.blocked b')
  unfolding transfer deposit withdraw create_account
  self_transfer_blocks b id amount x allow_overdraw idle at =
      let b1 = record b { bank_locked = true } in
      let b2 = with_account id_eq b1 id (with_balance x true) in
      (
        b2,
        run_at _ _ (lock_bank_at b idle) (
            run_at _ _ (account_of_at b1 id at) (
              run_at _ _ (account_of_at b1 id at) (
                run_at _ _ (lock_account_at b1 id at)
                  (run_blocked _ _ (lock_account_held b2 id (here b1 id _)))))),
        λ k n. run_blocked _ _ (lock_bank_held b2 refl),
        λ k n. run_blocked _ _ (lock_bank_held b2 refl),
        λ s r n o. run_blocked _ _ (lock_bank_held b2 refl),
        λ k. run_blocked _ _ (lock_bank_held b2 refl),
      )
