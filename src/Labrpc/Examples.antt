-- ===== src/Labrpc/Examples.antt =====
-- The theorems of labrpc/labrpc.go on a network with one server, which counts the calls of its
-- method.
use mr_and_raft.Common.{
  Text, ℕ, ◌+◌, ◌≤◌, ◌≡◌, refl, true, false, none, some, [], ◌∷◌, ◌++◌, Star, no_step, one_more,
  update,
}
use mr_and_raft.Labrpc.Server.{
  Method, Server, make_service, make_server, add_service, enter, call_method, split_method,
}
use mr_and_raft.Labrpc.Server.Methods.{split_method-append, service_lem, IsHandlerFor}
use mr_and_raft.Labrpc.Network.{
  Operation, count_request, count_reply, Network, add_server, connect, enable, delete_server,
  make_network, is_server_dead,
}
use mr_and_raft.Labrpc.Calls.{
  ReqMsg, ReplyMsg, answer, Stage, Target, at_stage, dead_at, Handler, Calls, Step, Reach, made,
  later, no_calls, runs_of,
}
use mr_and_raft.Labrpc.Delivery.{once_lem}
use mr_and_raft.Labrpc.Reliable.{IsUp, WhileUp, reliable_lem}
use mr_and_raft.Labrpc.Success.{success_lem}

-- "Raft" and "Vote"
abbrev raft : Text
raft = 82 ∷ 97 ∷ 102 ∷ 116 ∷ []

abbrev vote : Text
vote = 86 ∷ 111 ∷ 116 ∷ 101 ∷ []

-- A method that counts its calls and replies with its arguments.
abbrev counts : Method ℕ
counts = record {
  name = vote;
  pkg_path = [];
  num_in = 3;
  reply_is_ptr = true;
  num_out = 0;
  run = λ args n. (n + 1, args);
}

service_lem_example :
    (enter (raft ++ 46 ∷ vote) (add_service (make_service raft ([] ++ counts ∷ [])) make_server)
      ≡ some (
        record (add_service (make_service raft ([] ++ counts ∷ [])) make_server) { count = 0 + 1 },
        make_service raft ([] ++ counts ∷ []),
        vote,
      ))
    × (call_method (make_service raft ([] ++ counts ∷ [])) vote (7 ∷ []) 4 ≡ some (5, 7 ∷ []))
    × ((name : Text) (w' : ℕ) (reply : Text)
        → call_method (make_service raft ([] ++ counts ∷ [])) name (7 ∷ []) 4 ≡ some (w', reply)
        → (m : Method ℕ) × IsHandlerFor name (counts ∷ []) m × (m.run (7 ∷ []) 4 ≡ (w', reply)))
service_lem_example =
    service_lem raft [] counts [] make_server (7 ∷ []) 4 refl (refl, (refl, (refl, (refl, tt)))) tt

split_method-append_example : split_method (raft ++ 46 ∷ vote) ≡ some (raft, vote)
split_method-append_example = split_method-append raft vote (refl, (refl, (refl, (refl, tt))))

abbrev a_server : Server ℕ
a_server = add_service (make_service raft ([] ++ counts ∷ [])) make_server

abbrev vote_request : ReqMsg
vote_request = record { endname = 1; svc_meth = raft ++ 46 ∷ vote; args = 7 ∷ [] }

-- End 1 is made, enabled and connected to server 2, which is the server 0 of the store.
abbrev ready : Network
ready = enable 1 true (
    connect 1 2 (
      add_server 2 0 (record make_network {
        ends = update make_network.ends 1 true;
        enabled = update make_network.enabled 1 false;
        connections = update make_network.connections 1 none;
      })))

abbrev busy : Network
busy = count_request 1 ready

busy-IsUp : IsUp 1 2 0 busy
busy-IsUp = record { enabled = refl; connected = refl; there = refl; reliable = refl }

abbrev sent_call : Calls ℕ
sent_call = record (at_stage 0 (Stage.sent vote_request) (no_calls (λ p. a_server) 4)) {
  network = busy;
}

sent_call-Reach : Reach sent_call
sent_call-Reach =
    later
      (later
        (later
          (later (later (made (λ p. a_server) 4) (Step.operates (Operation.makes_end 1) refl))
            (Step.operates (Operation.adds_server 2 0) refl))
          (Step.operates (Operation.connects 1 2) refl))
        (Step.operates (Operation.enables 1 true) refl))
      (Step.sends 0 vote_request refl)

success_lem_example :
    (last : Calls ℕ) × (Star Step sent_call last)
    × (last.stage 0 ≡ Stage.replied (answer (7 ∷ [])))
    × (last.receivers ≡ 5)
success_lem_example =
    success_lem vote_request 2 0 sent_call 0 refl busy-IsUp service_lem_example.0
      service_lem_example.1

Star-Reach : {s last : Calls ℕ} → Reach s → Star Step s last → Reach last
Star-Reach r no_step = r
Star-Reach r (one_more steps step) = later (Star-Reach r steps) step

abbrev answered_call : Calls ℕ
answered_call = success_lem_example.0

answered_call-Reach : Reach answered_call
answered_call-Reach = Star-Reach sent_call-Reach success_lem_example.1

once_lem_example :
    (runs_of answered_call-Reach 0 ≤ 1)
    × ((reply : ReplyMsg)
        → answered_call.stage 0 ≡ Stage.replied reply
        → reply.ok ≡ true
        → (answered_call.handler 0 ≡ Handler.returned reply.reply)
          × (runs_of answered_call-Reach 0 ≡ 1))
once_lem_example = once_lem answered_call-Reach 0

abbrev target : Target
target = record { servername = 2; server = 0; reliable = true; long_reordering = false }

-- The handler has replied, and the server has been deleted.
abbrev deleted : Calls ℕ
deleted = record sent_call {
  network = delete_server 2 busy;
  stage = λ k. Stage.got vote_request target (7 ∷ []);
  handler = λ k. Handler.returned (7 ∷ []);
}

abbrev found_call : Calls ℕ
found_call = at_stage 0 (Stage.found vote_request target) sent_call

abbrev started_call : Calls ℕ
started_call = record (at_stage 0 (Stage.waiting vote_request target) found_call) {
  handler = update found_call.handler 0 (Handler.starting vote_request 0);
}

abbrev entered_call : Calls ℕ
entered_call = record started_call {
  heap = update started_call.heap 0 (record a_server { count = 1 });
  handler =
      update started_call.handler 0
        (Handler.entered (make_service raft ([] ++ counts ∷ [])) vote (7 ∷ []));
}

abbrev run_call : Calls ℕ
run_call = record entered_call {
  receivers = 5;
  handler = update entered_call.handler 0 (Handler.returned (7 ∷ []));
}

abbrev got_call : Calls ℕ
got_call = at_stage 0 (Stage.got vote_request target (7 ∷ [])) run_call

abbrev replied_call : Calls ℕ
replied_call = record (at_stage 0 (Stage.replied (answer (7 ∷ []))) got_call) {
  network = count_reply 1 busy;
}

got_call-alive : dead_at vote_request target got_call ≡ false
unfolding is_server_dead
got_call-alive = refl

replied_call-IsUp : IsUp 1 2 0 replied_call.network
replied_call-IsUp = record { enabled = refl; connected = refl; there = refl; reliable = refl }

up_run : WhileUp vote_request 2 0 sent_call replied_call
up_run =
    let found =
      WhileUp.goes (WhileUp.stays busy-IsUp) (Step.looks_up 0 vote_request refl) busy-IsUp in
    let started = WhileUp.goes found (Step.starts 0 vote_request target refl) busy-IsUp in
    let entered =
      WhileUp.goes started (Step.enters 0 vote_request 0 refl service_lem_example.0) busy-IsUp in
    let run =
      WhileUp.goes entered
        (Step.runs 0 (make_service raft ([] ++ counts ∷ [])) vote (7 ∷ []) refl
          service_lem_example.1)
        busy-IsUp in
    let got = WhileUp.goes run (Step.receives 0 vote_request target (7 ∷ []) refl refl) busy-IsUp in
    WhileUp.goes got
      (Step.replies {s = got_call} 0 vote_request target (7 ∷ []) refl got_call-alive)
      replied_call-IsUp

reliable_lem_example : (answer (7 ∷ [])).ok ≡ true
reliable_lem_example = reliable_lem vote_request 2 0 0 refl up_run refl
