-- ===== src/Labrpc/Success.antt =====
-- labrpc/labrpc.go: a call gets through.
use mr_and_raft.Common.{
  Text, ℕ, ◌≡◌, refl, ◌∙◌, ap, some, update, update_here, Star, no_step, one_more,
}
use mathlib.Core.Path.{subst}
use mr_and_raft.Labrpc.Server.{Server, Service, enter, call_method}
use mr_and_raft.Labrpc.Calls.{ReqMsg, answer, after_lookup, Stage, Handler, Calls, Step, at_stage}
use mr_and_raft.Labrpc.Reliable.{IsUp, target_of-IsUp, not_dead}

module _ {ℓ} {W : Type ℓ} (req : ReqMsg) (servername server : ℕ) where
  -- A call that was sent can return the reply of the method that its server finds for it, with the
  -- receivers as the method has left them, where its end is enabled and connected to the server, on a
  -- reliable network.
  pub success_lem :
      (s : Calls W) (k : ℕ) {rs : Server W} {svc : Service W} {method reply : Text} {w : W}
      → s.stage k ≡ Stage.sent req
      → IsUp req.endname servername server s.network
      → enter req.svc_meth (s.heap server) ≡ some (rs, svc, method)
      → call_method svc method req.args s.receivers ≡ some (w, reply)
      → (last : Calls W) × (Star Step s last)
        × (last.stage k ≡ Stage.replied (answer reply))
        × (last.receivers ≡ w)
  success_lem s k {rs} {svc} {method} {reply} {w} e up entered called =
      let (target, good, at) = target_of-IsUp req servername server up in
      let found : Calls W = at_stage k (Stage.found req target) s in
      let step1 : Step s found =
        subst (λ t. Step s (at_stage k (after_lookup req t) s)) at (Step.looks_up k req e) in
      let waiting : Calls W = record (at_stage k (Stage.waiting req target) found) {
        handler = update s.handler k (Handler.starting req target.server);
      } in
      let step2 : Step found waiting =
        Step.starts k req target (update_here s.stage k (Stage.found req target)) in
      let inside : Calls W = record waiting {
        heap = update s.heap target.server rs;
        handler = update waiting.handler k (Handler.entered svc method req.args);
      } in
      let step3 : Step waiting inside =
        Step.enters k req target.server
          (update_here s.handler k (Handler.starting req target.server))
          (ap (λ p. enter req.svc_meth (s.heap p)) good.1 ∙ entered) in
      let back : Calls W = record inside {
        receivers = w;
        handler = update inside.handler k (Handler.returned reply);
      } in
      let step4 : Step inside back =
        Step.runs k svc method req.args
          (update_here waiting.handler k (Handler.entered svc method req.args)) called in
      let got : Calls W = at_stage k (Stage.got req target reply) back in
      let step5 : Step back got =
        Step.receives k req target reply (update_here found.stage k (Stage.waiting req target))
          (update_here inside.handler k (Handler.returned reply)) in
      let step6 =
        Step.replies {s = got} k req target reply
          (update_here back.stage k (Stage.got req target reply))
          (not_dead req servername server target {rn = s.network} good up) in
      (
        _,
        one_more
            (one_more (one_more (one_more (one_more (one_more no_step step1) step2) step3) step4)
              step5)
            step6,
        update_here got.stage k (Stage.replied (answer reply)),
        refl,
      )
