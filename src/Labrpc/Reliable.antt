-- ===== src/Labrpc/Reliable.antt =====
-- labrpc/labrpc.go: calls of an end that is enabled and connected to a server, on a reliable network.
use mr_and_raft.Common.{
  Text, ℕ, ◌≡◌, ◌≢◌, ◌==◌, arith, refl, ◌∙◌, sym, ap, true, false, some, ℕ_discrete, update,
  update_here, update_there,
}
use mathlib.Core.Path.{subst}
use mr_and_raft.Labrpc.Network.{Network, read_endname_info, is_server_dead}
use mr_and_raft.Labrpc.Dead.{replied-inj}
use mr_and_raft.Labrpc.Calls.{
  ReqMsg, ReplyMsg, Target, answer, target_of, after_lookup, Stage, Calls, Step, sends, refuses,
  looks_up, drops_request, starts, enters, runs, receives, gives_up, reports_dead, finds_dead,
  drops_reply, delays, replies, late, times_out, operates, changes,
}

-- The end of the request is enabled and connected to the server, and the network is reliable.
pub record IsUp (endname servername server : ℕ) (rn : Network) : Type 0 where
  pub enabled : rn.enabled endname ≡ true
  pub connected : rn.connections endname ≡ some servername
  pub there : rn.servers servername ≡ some server
  pub reliable : rn.reliable ≡ true

module _ (req : ReqMsg) (servername server : ℕ) where
  abbrev pub IsTarget : Target → Type 0
  IsTarget target =
      (target.servername ≡ servername) × (target.server ≡ server) × (target.reliable ≡ true)

  -- A call on its way to a positive reply, or with one
  pub data OnItsWay : Stage → Type 0 where
    is_sent : OnItsWay (Stage.sent req)
    is_found : {target : Target} → IsTarget target → OnItsWay (Stage.found req target)
    is_waiting : {target : Target} → IsTarget target → OnItsWay (Stage.waiting req target)
    is_got :
        {target : Target} (reply : Text) → IsTarget target → OnItsWay (Stage.got req target reply)
    is_delayed : (reply : Text) → OnItsWay (Stage.delayed reply)
    is_answered : (reply : Text) → OnItsWay (Stage.replied (answer reply))

  on_way-idle : ¬ OnItsWay Stage.idle
  on_way-idle p = elim p [ ]

  on_way-gave_up : ¬ OnItsWay Stage.gave_up
  on_way-gave_up p = elim p [ ]

  on_way-timing_out : ¬ OnItsWay Stage.timing_out
  on_way-timing_out p = elim p [ ]

  pub target_of-IsUp :
      {rn : Network}
      → IsUp req.endname servername server rn
      → (target : Target) × (IsTarget target)
        × (target_of (read_endname_info req.endname rn) ≡ some target)
  target_of-IsUp {rn} up = (
    record {
      servername = servername;
      server = server;
      reliable = rn.reliable;
      long_reordering = rn.long_reordering;
    },
    (refl, refl, up.reliable),
    rw (up.enabled, up.connected, up.there) refl,
  )

  pub not_dead :
      (target : Target) {rn : Network}
      → IsTarget target
      → IsUp req.endname servername server rn
      → is_server_dead req.endname target.servername target.server rn ≡ false
  unfolding is_server_dead
  not_dead target {rn} (name, pointer, _) up =
      let same : (server == server) ≡ true = ground arith in
      rw (name, pointer, up.enabled, up.there, same) refl

  looked_up :
      {r : ReqMsg} {rn : Network}
      → IsUp req.endname servername server rn
      → OnItsWay (Stage.sent r)
      → OnItsWay (after_lookup r (target_of (read_endname_info r.endname rn)))
  looked_up {rn} up is_sent =
      let (target, good, at) = target_of-IsUp up in
      subst (λ t. OnItsWay (after_lookup req t)) (sym at) (OnItsWay.is_found good)

  undropped : {r : ReqMsg} {t : Target} → OnItsWay (Stage.found r t) → t.reliable ≢ false
  undropped (is_found (_, _, reliable)) e = cc

  started : {r : ReqMsg} {t : Target} → OnItsWay (Stage.found r t) → OnItsWay (Stage.waiting r t)
  started (is_found good) = OnItsWay.is_waiting good

  received :
      {r : ReqMsg} {t : Target} (reply : Text)
      → OnItsWay (Stage.waiting r t)
      → OnItsWay (Stage.got r t reply)
  received reply (is_waiting good) = OnItsWay.is_got reply good

  still_alive :
      {r : ReqMsg} {t : Target} {rn : Network}
      → IsUp req.endname servername server rn
      → OnItsWay (Stage.waiting r t)
      → is_server_dead r.endname t.servername t.server rn ≢ true
  still_alive {t} {rn} up (is_waiting good) e = let alive = not_dead t {rn = rn} good up in cc

  alive_behind :
      {r : ReqMsg} {t : Target} {reply : Text} {rn : Network}
      → IsUp req.endname servername server rn
      → OnItsWay (Stage.got r t reply)
      → (is_server_dead r.endname t.servername t.server rn ≢ true) × (t.reliable ≢ false)
  alive_behind {t} {rn} up (is_got reply good) =
      let alive = not_dead t {rn = rn} good up in ((λ e. cc), λ e. let on = good.2 in cc)

  answered :
      {stage : Stage} {reply : ReplyMsg}
      → OnItsWay stage
      → stage ≡ Stage.replied reply
      → reply.ok ≡ true
  answered is_sent e = cc
  answered (is_found good) e = cc
  answered (is_waiting good) e = cc
  answered (is_got r good) e = cc
  answered (is_delayed r) e = cc
  answered (is_answered r) e = sym (ap (λ m. m.ok) (replied-inj e))

module _ {ℓ} {W : Type ℓ} (req : ReqMsg) (servername server : ℕ) where
  -- Any steps during which the end is connected to the server and the network is reliable
  pub data WhileUp (s : Calls W) : Calls W → Type ℓ where
    stays : IsUp req.endname servername server s.network → WhileUp s s
    goes :
        {next last : Calls W}
        → WhileUp s next
        → Step next last
        → IsUp req.endname servername server last.network
        → WhileUp s last

  moved :
      (s : Calls W) (j k : ℕ) {old : Stage} (new : Stage)
      → s.stage j ≡ old
      → (OnItsWay req servername server old → OnItsWay req servername server new)
      → OnItsWay req servername server (s.stage k)
      → OnItsWay req servername server (update s.stage j new k)
  moved s j k new e h p = elim (ℕ_discrete j k) [
    | yes same ↦
        subst (λ i. OnItsWay req servername server (update s.stage j new i)) same
          (subst (OnItsWay req servername server) (sym (update_here s.stage j new))
            (h (subst (OnItsWay req servername server) (ap s.stage (sym same) ∙ e) p)))
    | no ne ↦ subst (OnItsWay req servername server) (sym (update_there s.stage j k new ne)) p
  ]

  Step-OnWay :
      {s s' : Calls W} (k : ℕ)
      → Step s s'
      → IsUp req.endname servername server s.network
      → OnItsWay req servername server (s.stage k)
      → OnItsWay req servername server (s'.stage k)
  Step-OnWay {s} k (sends j r e) up p =
      moved s j k _ e (λ q. absurd (on_way-idle req servername server q)) p
  Step-OnWay {s} k (refuses j e c) up p =
      moved s j k _ e (λ q. absurd (on_way-idle req servername server q)) p
  Step-OnWay {s} k (looks_up j r e) up p = moved s j k _ e (looked_up req servername server up) p
  Step-OnWay {s} k (drops_request j r t e u) up p =
      moved s j k _ e (λ q. absurd (undropped req servername server q u)) p
  Step-OnWay {s} k (starts j r t e) up p = moved s j k _ e (started req servername server) p
  Step-OnWay k (enters j r number e e') up p = p
  Step-OnWay k (runs j svc method args e e') up p = p
  Step-OnWay {s} k (receives j r t reply e h) up p =
      moved s j k _ e (received req servername server reply) p
  Step-OnWay {s} k (gives_up j r t e d) up p =
      moved s j k _ e (λ q. absurd (still_alive req servername server up q d)) p
  Step-OnWay {s} k (reports_dead j e) up p =
      moved s j k _ e (λ q. absurd (on_way-gave_up req servername server q)) p
  Step-OnWay {s} k (finds_dead j r t reply e d) up p =
      moved s j k _ e (λ q. absurd ((alive_behind req servername server up q).0 d)) p
  Step-OnWay {s} k (drops_reply j r t reply e d u) up p =
      moved s j k _ e (λ q. absurd ((alive_behind req servername server up q).1 u)) p
  Step-OnWay {s} k (delays j r t reply e d o) up p =
      moved s j k _ e (λ q. OnItsWay.is_delayed reply) p
  Step-OnWay {s} k (replies j r t reply e d) up p =
      moved s j k _ e (λ q. OnItsWay.is_answered reply) p
  Step-OnWay {s} k (late j reply e) up p = moved s j k _ e (λ q. OnItsWay.is_answered reply) p
  Step-OnWay {s} k (times_out j e) up p =
      moved s j k _ e (λ q. absurd (on_way-timing_out req servername server q)) p
  Step-OnWay k (operates op e) up p = p
  Step-OnWay k (changes heap receivers) up p = p

  WhileUp-IsUp :
      {s last : Calls W} → WhileUp s last → IsUp req.endname servername server last.network
  WhileUp-IsUp (stays up) = up
  WhileUp-IsUp (goes d step up) = up

  WhileUp-OnWay :
      {s last : Calls W} (k : ℕ)
      → WhileUp s last
      → OnItsWay req servername server (s.stage k)
      → OnItsWay req servername server (last.stage k)
  WhileUp-OnWay k (stays up) p = p
  WhileUp-OnWay k (goes d step up) p = Step-OnWay k step (WhileUp-IsUp d) (WhileUp-OnWay k d p)

  -- A call that was sent returns only positive replies, as long as its end stays enabled and
  -- connected to one server and the network stays reliable, long delays and reordering or not.
  pub reliable_lem :
      {s last : Calls W} (k : ℕ) {reply : ReplyMsg}
      → s.stage k ≡ Stage.sent req
      → WhileUp s last
      → last.stage k ≡ Stage.replied reply
      → reply.ok ≡ true
  reliable_lem k e d e' =
      answered req servername server
        (WhileUp-OnWay k d (subst (OnItsWay req servername server) (sym e) OnItsWay.is_sent)) e'
