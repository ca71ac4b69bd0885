-- ===== src/Labrpc/Calls.antt =====
-- labrpc/labrpc.go: any number of calls of `ClientEnd.Call` at a time, with the `processReq` that
-- runs for each. What the random numbers and the timers choose is left open: a step may be taken
-- whenever its code can be reached. A handler that does not return, and one that panics, take no
-- step.
use mr_and_raft.Common.{
  Text, ℕ, ◌+◌, ◌≡◌, Bool, true, false, Option, none, some, [], length, ◌==◌, ◌>>=◌, if◌then◌else◌,
  update,
}
use mr_and_raft.Labrpc.Server.{Server, Service, enter, call_method}
use mr_and_raft.Labrpc.Network.{
  Network, EndnameInfo, read_endname_info, is_server_dead, count_request, count_reply, Operation,
  operate, make_network,
}

pub record ReqMsg : Type 0 where
  pub endname : ℕ
  pub svc_meth : Text
  pub args : Text

pub record ReplyMsg : Type 0 where
  pub ok : Bool
  pub reply : Text

abbrev pub no_answer : ReplyMsg
no_answer = record { ok = false; reply = [] }

-- What `Service.dispatch` returns
abbrev pub answer : Text → ReplyMsg
answer reply = record { ok = true; reply = reply }

-- What `processReq` keeps while it waits for the server at the name
pub record Target : Type 0 where
  pub servername : ℕ
  pub server : ℕ
  pub reliable : Bool
  pub long_reordering : Bool

-- Where `processReq` stands. `found` is behind `readEndnameInfo`, with a server; `gave_up` and `got`
-- are behind the loop that waits for the handler; `timing_out` and `delayed` wait for a timer that
-- replies.
pub data Stage : Type 0 where
  idle : Stage
  sent : ReqMsg → Stage
  found : ReqMsg → Target → Stage
  waiting : ReqMsg → Target → Stage
  gave_up : Stage
  got : ReqMsg → Target → Text → Stage
  delayed : Text → Stage
  timing_out : Stage
  replied : ReplyMsg → Stage

-- Where the goroutine stands that calls `server.dispatch`
pub data Handler {ℓ} (W : Type ℓ) : Type ℓ where
  no_handler : Handler W
  starting : ReqMsg → ℕ → Handler W
  entered : Service W → Text → Text → Handler W
  returned : Text → Handler W

-- The servers stand in a store, and `receivers` is the state of what their methods change.
pub record Calls {ℓ} (W : Type ℓ) : Type ℓ where
  pub network : Network
  pub heap : ℕ → Server W
  pub receivers : W
  pub stage : ℕ → Stage
  pub handler : ℕ → Handler W

-- The test after `readEndnameInfo`
abbrev pub target_of : EndnameInfo → Option Target
target_of info =
    if info.enabled
    then (do
      servername ← info.servername
      server ← info.server
      some (record {
        servername = servername;
        server = server;
        reliable = info.reliable;
        long_reordering = info.long_reordering;
      }))
    else none

abbrev pub after_lookup : ReqMsg → Option Target → Stage
after_lookup req none = Stage.timing_out
after_lookup req (some target) = Stage.found req target

module _ {ℓ} {W : Type ℓ} where
  abbrev pub at_stage : ℕ → Stage → Calls W → Calls W
  at_stage k stage s = record s { stage = update s.stage k stage }

  -- The end of the waiting, and the last question whether the server is dead
  abbrev pub dead_at : ReqMsg → Target → Calls W → Bool
  dead_at req target s = is_server_dead req.endname target.servername target.server s.network

  pub data Step : Calls W → Calls W → Type ℓ where
    -- `Call`, with the network's goroutine that takes the request
    sends :
        {s : Calls W} (k : ℕ) (req : ReqMsg)
        → s.stage k ≡ Stage.idle
        → Step s (record (at_stage k (Stage.sent req) s) {
          network = count_request (length req.args) s.network;
        })
    -- `Call` after `Cleanup`
    refuses :
        {s : Calls W} (k : ℕ)
        → s.stage k ≡ Stage.idle
        → s.network.done ≡ true
        → Step s (at_stage k (Stage.replied no_answer) s)
    looks_up :
        {s : Calls W} (k : ℕ) (req : ReqMsg)
        → s.stage k ≡ Stage.sent req
        → Step s
            (at_stage k (after_lookup req (target_of (read_endname_info req.endname s.network))) s)
    drops_request :
        {s : Calls W} (k : ℕ) (req : ReqMsg) (target : Target)
        → s.stage k ≡ Stage.found req target
        → target.reliable ≡ false
        → Step s (at_stage k (Stage.replied no_answer) s)
    starts :
        {s : Calls W} (k : ℕ) (req : ReqMsg) (target : Target)
        → s.stage k ≡ Stage.found req target
        → Step s (record (at_stage k (Stage.waiting req target) s) {
          handler = update s.handler k (Handler.starting req target.server);
        })
    enters :
        {s : Calls W} (k : ℕ) (req : ReqMsg) (server : ℕ) {rs : Server W} {svc : Service W}
        {method : Text}
        → s.handler k ≡ Handler.starting req server
        → enter req.svc_meth (s.heap server) ≡ some (rs, svc, method)
        → Step s (record s {
          heap = update s.heap server rs;
          handler = update s.handler k (Handler.entered svc method req.args);
        })
    runs :
        {s : Calls W} (k : ℕ) (svc : Service W) (method args : Text) {w : W} {reply : Text}
        → s.handler k ≡ Handler.entered svc method args
        → call_method svc method args s.receivers ≡ some (w, reply)
        → Step s (record s { receivers = w; handler = update s.handler k (Handler.returned reply) })
    receives :
        {s : Calls W} (k : ℕ) (req : ReqMsg) (target : Target) (reply : Text)
        → s.stage k ≡ Stage.waiting req target
        → s.handler k ≡ Handler.returned reply
        → Step s (at_stage k (Stage.got req target reply) s)
    gives_up :
        {s : Calls W} (k : ℕ) (req : ReqMsg) (target : Target)
        → s.stage k ≡ Stage.waiting req target
        → dead_at req target s ≡ true
        → Step s (at_stage k Stage.gave_up s)
    reports_dead :
        {s : Calls W} (k : ℕ)
        → s.stage k ≡ Stage.gave_up
        → Step s (at_stage k (Stage.replied no_answer) s)
    finds_dead :
        {s : Calls W} (k : ℕ) (req : ReqMsg) (target : Target) (reply : Text)
        → s.stage k ≡ Stage.got req target reply
        → dead_at req target s ≡ true
        → Step s (at_stage k (Stage.replied no_answer) s)
    drops_reply :
        {s : Calls W} (k : ℕ) (req : ReqMsg) (target : Target) (reply : Text)
        → s.stage k ≡ Stage.got req target reply
        → dead_at req target s ≡ false
        → target.reliable ≡ false
        → Step s (at_stage k (Stage.replied no_answer) s)
    delays :
        {s : Calls W} (k : ℕ) (req : ReqMsg) (target : Target) (reply : Text)
        → s.stage k ≡ Stage.got req target reply
        → dead_at req target s ≡ false
        → target.long_reordering ≡ true
        → Step s (at_stage k (Stage.delayed reply) s)
    replies :
        {s : Calls W} (k : ℕ) (req : ReqMsg) (target : Target) (reply : Text)
        → s.stage k ≡ Stage.got req target reply
        → dead_at req target s ≡ false
        → Step s (record (at_stage k (Stage.replied (answer reply)) s) {
          network = count_reply (length reply) s.network;
        })
    late :
        {s : Calls W} (k : ℕ) (reply : Text)
        → s.stage k ≡ Stage.delayed reply
        → Step s (record (at_stage k (Stage.replied (answer reply)) s) {
          network = count_reply (length reply) s.network;
        })
    times_out :
        {s : Calls W} (k : ℕ)
        → s.stage k ≡ Stage.timing_out
        → Step s (at_stage k (Stage.replied no_answer) s)
    operates :
        {s : Calls W} (op : Operation) {network : Network}
        → operate op s.network ≡ some network
        → Step s (record s { network = network })
    -- What the tests and the receivers themselves do to the servers and the receivers
    changes :
        {s : Calls W} (heap : ℕ → Server W) (receivers : W)
        → Step s (record s { heap = heap; receivers = receivers })

  -- A new network, with no call sent
  abbrev pub no_calls : (ℕ → Server W) → W → Calls W
  no_calls heap receivers = record {
    network = make_network;
    heap = heap;
    receivers = receivers;
    stage = λ k. Stage.idle;
    handler = λ k. Handler.no_handler;
  }

  pub data Reach : Calls W → Type ℓ where
    made : (heap : ℕ → Server W) (receivers : W) → Reach (no_calls heap receivers)
    later : {s s' : Calls W} → Reach s → Step s s' → Reach s'

  -- How often a step or all steps ran the handler of a call
  abbrev pub step_runs : {s s' : Calls W} → Step s s' → ℕ → ℕ
  step_runs (Step.runs k svc method args e e') j = if k == j then 1 else 0
  step_runs _ j = 0

  abbrev pub runs_of : {s : Calls W} → Reach s → ℕ → ℕ
  runs_of (Reach.made heap receivers) k = 0
  runs_of (Reach.later r step) k = step_runs step k + runs_of r k
