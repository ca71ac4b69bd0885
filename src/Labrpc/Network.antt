-- ===== src/Labrpc/Network.antt =====
-- labrpc/labrpc.go: the network's state and the operations of the tests on it, each under its lock. A
-- missing key of `enabled` is false; one of `servers` or `connections` is nil.
use mr_and_raft.Common.{
  ℕ, ◌+◌, ◌%◌, ◌^◌, ◌==◌, ◌>>=◌, Bool, true, false, not, ◌||◌, Option, none, some, if◌then◌else◌,
  update,
}
use mr_and_raft.Labrpc.Server.{Server}

pub record Network : Type 0 where
  pub reliable : Bool
  pub long_delays : Bool
  pub long_reordering : Bool
  pub ends : ℕ → Bool
  pub enabled : ℕ → Bool
  pub servers : ℕ → Option ℕ
  pub connections : ℕ → Option ℕ
  pub done : Bool
  pub count : ℕ
  pub bytes : ℕ

-- `MakeNetwork`, less the goroutine that it starts
abbrev pub make_network : Network
make_network = record {
  reliable = true;
  long_delays = false;
  long_reordering = false;
  ends = λ e. false;
  enabled = λ e. false;
  servers = λ s. none;
  connections = λ e. none;
  done = false;
  count = 0;
  bytes = 0;
}

abbrev pub cleanup : Network → Network
cleanup rn = record rn { done = true }

-- `Reliable`
abbrev pub set_reliable : Bool → Network → Network
set_reliable on rn = record rn { reliable = on }

abbrev pub set_long_reordering : Bool → Network → Network
set_long_reordering on rn = record rn { long_reordering = on }

abbrev pub set_long_delays : Bool → Network → Network
set_long_delays on rn = record rn { long_delays = on }

-- The channels of the new end are the network's.
abbrev pub make_end : ℕ → Network → Option Network
make_end endname rn =
    if rn.ends endname
    then none
    else some (record rn {
      ends = update rn.ends endname true;
      enabled = update rn.enabled endname false;
      connections = update rn.connections endname none;
    })

abbrev pub add_server : ℕ → ℕ → Network → Network
add_server servername rs rn = record rn { servers = update rn.servers servername (some rs) }

abbrev pub delete_server : ℕ → Network → Network
delete_server servername rn = record rn { servers = update rn.servers servername none }

abbrev pub connect : ℕ → ℕ → Network → Network
connect endname servername rn = record rn {
  connections = update rn.connections endname (some servername);
}

abbrev pub enable : ℕ → Bool → Network → Network
enable endname enabled rn = record rn { enabled = update rn.enabled endname enabled }

-- `GetCount` of a server's name, with the servers that there are; a nil server panics.
abbrev pub get_count {ℓ} : {W : Type ℓ} → (ℕ → Server W) → ℕ → Network → Option ℕ
get_count heap servername rn = do svr ← rn.servers servername; some (heap svr).count

abbrev pub get_total_count : Network → ℕ
get_total_count rn = rn.count

abbrev pub get_total_bytes : Network → ℕ
get_total_bytes rn = rn.bytes

-- The goroutine of `MakeNetwork` on one request, with the size of its arguments; it counts in int32
-- and int64.
abbrev pub count_request : ℕ → Network → Network
count_request size rn = record rn {
  count = (rn.count + 1) % 2 ^ 32;
  bytes = (rn.bytes + size) % 2 ^ 64;
}

abbrev pub count_reply : ℕ → Network → Network
count_reply size rn = record rn { bytes = (rn.bytes + size) % 2 ^ 64 }

-- What `readEndnameInfo` gives
pub record EndnameInfo : Type 0 where
  pub enabled : Bool
  pub servername : Option ℕ
  pub server : Option ℕ
  pub reliable : Bool
  pub long_reordering : Bool

abbrev pub read_endname_info : ℕ → Network → EndnameInfo
read_endname_info endname rn = record {
  enabled = rn.enabled endname;
  servername = rn.connections endname;
  server = rn.connections endname >>= rn.servers;
  reliable = rn.reliable;
  long_reordering = rn.long_reordering;
}

-- The operations that change the network, as the tests call them.
pub data Operation : Type 0 where
  cleans_up : Operation
  sets_reliable : Bool → Operation
  sets_long_reordering : Bool → Operation
  sets_long_delays : Bool → Operation
  makes_end : ℕ → Operation
  adds_server : ℕ → ℕ → Operation
  deletes_server : ℕ → Operation
  connects : ℕ → ℕ → Operation
  enables : ℕ → Bool → Operation

abbrev pub operate : Operation → Network → Option Network
operate Operation.cleans_up rn = some (cleanup rn)
operate (Operation.sets_reliable on) rn = some (set_reliable on rn)
operate (Operation.sets_long_reordering on) rn = some (set_long_reordering on rn)
operate (Operation.sets_long_delays on) rn = some (set_long_delays on rn)
operate (Operation.makes_end endname) rn = make_end endname rn
operate (Operation.adds_server servername rs) rn = some (add_server servername rs rn)
operate (Operation.deletes_server servername) rn = some (delete_server servername rn)
operate (Operation.connects endname servername) rn = some (connect endname servername rn)
operate (Operation.enables endname enabled) rn = some (enable endname enabled rn)

-- Whether two `*Server` are the same
abbrev pub points_to : Option ℕ → ℕ → Bool
points_to none server = false
points_to (some s) server = s == server

unfoldable pub is_server_dead : ℕ → ℕ → ℕ → Network → Bool
is_server_dead endname servername server rn =
    not (rn.enabled endname) || not (points_to (rn.servers servername) server)
