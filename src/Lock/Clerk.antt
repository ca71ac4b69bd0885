-- ===== src/Lock/Clerk.antt =====
-- raft-lock/clerk.go: a clerk numbers its requests and asks one server after the other until one
-- takes the request. The servers stand behind the RPC layer: `answers n i` is what the `n`-th call,
-- to server `i`, brings, `none` being a call that failed.
use mr_and_raft.Common.{
  ℕ, zero, suc, ◌+◌, ◌%◌, ◌-◌, ◌<◌, ◌≡◌, refl, ◌⊎◌, inl, inr, Bool, true, false, Option, none, some,
  if◌then◌else◌, ltb, Bool-cases, arith, dec_lt, lt→ltb,
}
use mr_and_raft.Lock.Server.{OpType, Err}
use native.Mathlib.Nat.{mod_self, mod-eq_of_lt}
use mathlib.Core.Path.{subst}

module _ {ℓ} (K : Type ℓ) where
  pub record MutexArgs : Type ℓ where
    pub key : K
    pub op : OpType
    pub client_id : ℕ
    pub request_id : ℕ

-- `servers` is the number of servers.
pub record Clerk : Type 0 where
  pub servers : ℕ
  pub leader_id : ℕ
  pub client_id : ℕ
  pub request_id : ℕ

-- `running`: the calls of the fuel are used up. `out_of_range`: the index panics.
pub data Sent {ℓ} (A : Type ℓ) : Type ℓ where
  sent : A → Sent A
  running : Sent A
  out_of_range : Sent A

-- `ok && reply.Err != ErrWrongLeader`
abbrev pub is_taken : Option Err → Bool
is_taken none = false
is_taken (some Err.ok) = true
is_taken (some Err.err_wrong_leader) = false

-- The loop of `SendMutex`: the server that has taken the request.
unfoldable pub send_loop : ℕ → ℕ → (ℕ → ℕ → Option Err) → ℕ → ℕ → Sent ℕ
send_loop zero servers answers call server = Sent.running
send_loop (suc fuel) servers answers call server =
    let rest = send_loop fuel servers answers (call + 1) ((server + 1) % servers) in
    if ltb server servers
    then (if is_taken (answers call server) then Sent.sent server else rest)
    else Sent.out_of_range

abbrev after_sent {ℓ κ} : {A : Type ℓ} {B : Type κ} → Sent A → (A → B) → Sent B
after_sent (Sent.sent a) f = Sent.sent (f a)
after_sent Sent.running f = Sent.running
after_sent Sent.out_of_range f = Sent.out_of_range

unfoldable pub make_clerk : ℕ → ℕ → Clerk
make_clerk servers client_id = record {
  servers = servers;
  leader_id = 0;
  client_id = client_id;
  request_id = 0;
}

module _ {ℓ} {K : Type ℓ} where
  -- The request that `SendMutex` sends in each of its calls
  unfoldable pub request : Clerk → K → OpType → MutexArgs K
  request ck key op = record {
    key = key;
    op = op;
    client_id = ck.client_id;
    request_id = ck.request_id + 1;
  }

  -- `SendMutex`, where the servers answer the request with `answers`
  unfoldable pub send_mutex :
      ℕ → (MutexArgs K → ℕ → ℕ → Option Err) → Clerk → K → OpType → Sent Clerk
  unfolding send_loop request
  send_mutex fuel answers ck key op =
      after_sent (send_loop fuel ck.servers (answers (request ck key op)) 0 ck.leader_id)
        (λ server. record ck { leader_id = server; request_id = ck.request_id + 1 })

-- `k` is `d` steps on from `s`.
abbrev Ahead : ℕ → ℕ → ℕ → ℕ → Type 0
Ahead n d s k = (s + d ≡ k) ⊎ (s + d ≡ k + n)

next_server :
    (n s : ℕ) → s < n → ((s + 1 < n) × ((s + 1) % n ≡ s + 1)) ⊎ ((s + 1 ≡ n) × ((s + 1) % n ≡ 0))
next_server n s l = elim (dec_lt (s + 1) n) [
  | yes more ↦ inl (more, mod-eq_of_lt more)
  | no last ↦
      let e : s + 1 ≡ n = omega arith in inr (e, subst (λ m. (s + 1) % m ≡ 0) e (mod_self (s + 1)))
]

next_server-Ahead :
    (n d s k : ℕ)
    → s < n
    → k < n
    → Ahead n (suc d) s k
    → ((s + 1) % n < n) × Ahead n d ((s + 1) % n) k
next_server-Ahead n d s k hs hk ahead = elim (next_server n s hs) [
  | inl (l, e) ↦ ground arith
  | inr (l, e) ↦ ground arith
]

-- The loop ends at a server that has taken the request, before the fuel is used up.
send_loop_lem :
    (d fuel n : ℕ) (answers : ℕ → ℕ → Option Err) (call s k : ℕ)
    → d < fuel
    → s < n
    → k < n
    → Ahead n d s k
    → ((c : ℕ) → is_taken (answers c k) ≡ true)
    → (r c : ℕ) × (send_loop fuel n answers call s ≡ Sent.sent r)
      × (r < n)
      × (is_taken (answers c r) ≡ true)
unfolding send_loop
send_loop_lem d zero n answers call s k hf hs hk ahead takes = absurd (omega arith)
send_loop_lem zero (suc fuel) n answers call s k hf hs hk ahead takes =
    let inside : ltb s n ≡ true = lt→ltb s n hs in
    let here : k ≡ s = ground arith in
    let taken = subst (λ i. is_taken (answers call i) ≡ true) here (takes call) in
    rw (inside, taken) (s, call, refl, hs, taken)
send_loop_lem (suc d) (suc fuel) n answers call s k hf hs hk ahead takes =
    let inside : ltb s n ≡ true = lt→ltb s n hs in
    elim (Bool-cases (is_taken (answers call s))) [
      | inl e ↦ rw (inside, e) (s, call, refl, hs, e)
      | inr e ↦
          let (inside', ahead') = next_server-Ahead n d s k hs hk ahead in
          rw (inside, e)
            (send_loop_lem d fuel n answers (call + 1) ((s + 1) % n) k (omega arith) inside' hk
              ahead' takes)
    ]

distance : (n s k : ℕ) → s < n → k < n → (d : ℕ) × (d < n) × Ahead n d s k
distance n s k hs hk = elim (dec_lt k s) [
  | yes before ↦ (k + n - s, omega arith, inr (omega arith))
  | no after ↦ (k - s, omega arith, inl (omega arith))
]

-- A clerk whose first server is one of the servers, and which has a server that takes the request
-- whenever it is asked, gets its request taken within as many calls as there are servers: it panics
-- at no index, remembers a server that took the request, and has counted one request more.
pub send_mutex_lem {ℓ} :
    {K : Type ℓ} (answers : MutexArgs K → ℕ → ℕ → Option Err) (ck : Clerk) (key : K) (op : OpType)
    (k : ℕ)
    → ck.leader_id < ck.servers
    → k < ck.servers
    → ((call : ℕ) → is_taken (answers (request ck key op) call k) ≡ true)
    → (r call : ℕ) × (send_mutex ck.servers answers ck key op
        ≡ Sent.sent (record ck { leader_id = r; request_id = ck.request_id + 1 }))
      × (r < ck.servers)
      × (is_taken (answers (request ck key op) call r) ≡ true)
unfolding send_mutex
send_mutex_lem answers ck key op k hs hk takes =
    let (d, l, ahead) = distance ck.servers ck.leader_id k hs hk in
    let (r, call, run, hr, taken) =
      send_loop_lem d ck.servers ck.servers (answers (request ck key op)) 0 ck.leader_id k l hs hk
        ahead takes in
    (r, call, rw run refl, hr, taken)
