-- ===== src/Labrpc/Delivery.antt =====
-- labrpc/labrpc.go: a call runs its handler at most once, and a positive reply is the handler's.
use mr_and_raft.Common.{
  Text, ℕ, ◌+◌, ◌≤◌, ◌≡◌, ◌≢◌, refl, ◌∙◌, sym, ap, inl, inr, true, false, Option, none, some,
  if◌then◌else◌, ◌==◌, ℕ_discrete, Bool-cases, arith, update, update_here, update_there,
}
use mathlib.Core.Path.{subst}
use mr_and_raft.Labrpc.Calls.{
  ReqMsg, ReplyMsg, Target, Stage, idle, sent, found, waiting, gave_up, got, delayed, timing_out,
  replied, Handler, no_handler, starting, entered, returned, Calls, after_lookup, Step, sends,
  refuses, looks_up, drops_request, starts, enters, runs, receives, gives_up, reports_dead,
  finds_dead, drops_reply, delays, replies, late, times_out, operates, changes, Reach, made, later,
  step_runs, runs_of,
}

module _ {ℓ} {W : Type ℓ} where
  -- How far the handler of a call is goes with how far the call is.
  abbrev pub Agrees : Handler W → Stage → Type ℓ
  Agrees h Stage.idle = h ≡ Handler.no_handler
  Agrees h (Stage.sent req) = h ≡ Handler.no_handler
  Agrees h (Stage.found req target) = h ≡ Handler.no_handler
  Agrees h (Stage.waiting req target) = h ≢ Handler.no_handler
  Agrees h Stage.gave_up = h ≢ Handler.no_handler
  Agrees h (Stage.got req target reply) = h ≡ Handler.returned reply
  Agrees h (Stage.delayed reply) = h ≡ Handler.returned reply
  Agrees h Stage.timing_out = h ≡ Handler.no_handler
  Agrees h (Stage.replied reply) = reply.ok ≡ true → h ≡ Handler.returned reply.reply

  abbrev AllAgree : Calls W → Type ℓ
  AllAgree s = (k : ℕ) → Agrees (s.handler k) (s.stage k)

  -- A handler that has not returned moves on.
  Agrees-moved :
      (h h' : Handler W) (stage : Stage)
      → h ≢ Handler.no_handler
      → ((reply : Text) → h ≢ Handler.returned reply)
      → h' ≢ Handler.no_handler
      → Agrees h stage
      → Agrees h' stage
  Agrees-moved h h' idle busy out busy' a = absurd (busy a)
  Agrees-moved h h' (sent req) busy out busy' a = absurd (busy a)
  Agrees-moved h h' (found req target) busy out busy' a = absurd (busy a)
  Agrees-moved h h' (waiting req target) busy out busy' a = busy'
  Agrees-moved h h' gave_up busy out busy' a = busy'
  Agrees-moved h h' (got req target reply) busy out busy' a = absurd (out reply a)
  Agrees-moved h h' (delayed reply) busy out busy' a = absurd (out reply a)
  Agrees-moved h h' timing_out busy out busy' a = absurd (busy a)
  Agrees-moved h h' (replied reply) busy out busy' a = λ e. absurd (out reply.reply (a e))

  stage_moved :
      (s : Calls W) (k : ℕ) (stage : Stage)
      → AllAgree s
      → Agrees (s.handler k) stage
      → (j : ℕ) → Agrees (s.handler j) (update s.stage k stage j)
  stage_moved s k stage all a j = elim (ℕ_discrete k j) [
    | yes e ↦
        subst (λ i. Agrees (s.handler i) (update s.stage k stage i)) e
          (subst (Agrees (s.handler k)) (sym (update_here s.stage k stage)) a)
    | no ne ↦ subst (Agrees (s.handler j)) (sym (update_there s.stage k j stage ne)) (all j)
  ]

  handler_moved :
      (s : Calls W) (k : ℕ) (h : Handler W)
      → AllAgree s
      → Agrees h (s.stage k)
      → (j : ℕ) → Agrees (update s.handler k h j) (s.stage j)
  handler_moved s k h all a j = elim (ℕ_discrete k j) [
    | yes e ↦
        subst (λ i. Agrees (update s.handler k h i) (s.stage i)) e
          (subst (λ h'. Agrees h' (s.stage k)) (sym (update_here s.handler k h)) a)
    | no ne ↦ subst (λ h'. Agrees h' (s.stage j)) (sym (update_there s.handler k j h ne)) (all j)
  ]

  both_moved :
      (s : Calls W) (k : ℕ) (stage : Stage) (h : Handler W)
      → AllAgree s
      → Agrees h stage
      → (j : ℕ) → Agrees (update s.handler k h j) (update s.stage k stage j)
  both_moved s k stage h all a j = elim (ℕ_discrete k j) [
    | yes e ↦
        subst (λ i. Agrees (update s.handler k h i) (update s.stage k stage i)) e
          (subst (λ h'. Agrees h' (update s.stage k stage k)) (sym (update_here s.handler k h))
            (subst (Agrees h) (sym (update_here s.stage k stage)) a))
    | no ne ↦
        subst (λ h'. Agrees h' (update s.stage k stage j)) (sym (update_there s.handler k j h ne))
          (subst (Agrees (s.handler j)) (sym (update_there s.stage k j stage ne)) (all j))
  ]

  -- What the call's own stage says of its handler
  at :
      (s : Calls W) {k : ℕ} {stage : Stage}
      → AllAgree s
      → s.stage k ≡ stage
      → Agrees (s.handler k) stage
  at s {k} all e = subst (Agrees (s.handler k)) e (all k)

  Agrees-lookup :
      (h : Handler W) (req : ReqMsg) (target : Option Target)
      → h ≡ Handler.no_handler
      → Agrees h (after_lookup req target)
  Agrees-lookup h req none e = e
  Agrees-lookup h req (some target) e = e

  Step-AllAgree : {s s' : Calls W} → Step s s' → AllAgree s → AllAgree s'
  Step-AllAgree {s} (sends k req e) all = stage_moved s k _ all (at s all e)
  Step-AllAgree {s} (refuses k e c) all = stage_moved s k _ all (λ ok. cc)
  Step-AllAgree {s} (looks_up k req e) all =
      stage_moved s k _ all (Agrees-lookup _ req _ (at s all e))
  Step-AllAgree {s} (drops_request k req target e u) all = stage_moved s k _ all (λ ok. cc)
  Step-AllAgree {s} (starts k req target e) all = both_moved s k _ _ all (λ e'. cc)
  Step-AllAgree {s} (enters k req server e e') all =
      handler_moved s k _ all
        (Agrees-moved (s.handler k) _ (s.stage k) (λ h. cc) (λ reply h. cc) (λ h. cc) (all k))
  Step-AllAgree {s} (runs k svc method args e e') all =
      handler_moved s k _ all
        (Agrees-moved (s.handler k) _ (s.stage k) (λ h. cc) (λ reply h. cc) (λ h. cc) (all k))
  Step-AllAgree {s} (receives k req target reply e h) all = stage_moved s k _ all h
  Step-AllAgree {s} (gives_up k req target e d) all = stage_moved s k _ all (at s all e)
  Step-AllAgree {s} (reports_dead k e) all = stage_moved s k _ all (λ ok. cc)
  Step-AllAgree {s} (finds_dead k req target reply e d) all = stage_moved s k _ all (λ ok. cc)
  Step-AllAgree {s} (drops_reply k req target reply e d u) all = stage_moved s k _ all (λ ok. cc)
  Step-AllAgree {s} (delays k req target reply e d r) all = stage_moved s k _ all (at s all e)
  Step-AllAgree {s} (replies k req target reply e d) all = stage_moved s k _ all (λ ok. at s all e)
  Step-AllAgree {s} (late k reply e) all = stage_moved s k _ all (λ ok. at s all e)
  Step-AllAgree {s} (times_out k e) all = stage_moved s k _ all (λ ok. cc)
  Step-AllAgree (operates op e) all = all
  Step-AllAgree (changes heap receivers) all = all

  Reach-AllAgree : {s : Calls W} → Reach s → AllAgree s
  Reach-AllAgree (made heap receivers) = λ k. refl
  Reach-AllAgree (later r step) = Step-AllAgree step (Reach-AllAgree r)

  abbrev ran : Handler W → ℕ
  ran Handler.no_handler = 0
  ran (Handler.starting req server) = 0
  ran (Handler.entered svc method args) = 0
  ran (Handler.returned reply) = 1

  -- A handler goes from one state to another, and counts as run exactly if this is its run.
  ran_moved :
      (s : Calls W) (k : ℕ) (h : Handler W) (n : ℕ)
      → n + ran (s.handler k) ≡ ran h
      → (j : ℕ) → (if k == j then n else 0) + ran (s.handler j) ≡ ran (update s.handler k h j)
  ran_moved s k h n e j = elim (ℕ_discrete k j) [
    | yes same ↦
        subst (λ i. (if k == i then n else 0) + ran (s.handler i) ≡ ran (update s.handler k h i))
          same (let here : (k == k) ≡ true = ground arith in rw here e)
    | no ne ↦ let there : (k == j) ≡ false = ground arith in rw there (omega arith)
  ]

  ran_kept :
      (s : Calls W) (k : ℕ) (h : Handler W)
      → ran (s.handler k) ≡ ran h
      → (j : ℕ) → 0 + ran (s.handler j) ≡ ran (update s.handler k h j)
  ran_kept s k h e j = elim (Bool-cases (k == j)) [
    | inl here ↦
        let same : k ≡ j = ground (arith, here) in
        rw here (omega (arith, ap (λ i. ran (s.handler i)) same, e))
    | inr there ↦ rw there (omega arith)
  ]

  Step-ran :
      {s s' : Calls W} (step : Step s s')
      → AllAgree s
      → (j : ℕ) → step_runs step j + ran (s.handler j) ≡ ran (s'.handler j)
  Step-ran {s} (starts k req target e) all j = ran_kept s k _ (ap ran (at s all e)) j
  Step-ran {s} (enters k req server e e') all j = ran_kept s k _ (ap ran e) j
  Step-ran {s} (runs k svc method args e e') all j = ran_moved s k _ 1 (ap (λ h. 1 + ran h) e) j
  Step-ran _ all j = omega arith

  Reach-ran : {s : Calls W} (r : Reach s) (k : ℕ) → runs_of r k ≡ ran (s.handler k)
  Reach-ran (made heap receivers) k = refl
  Reach-ran (later r step) k =
      ap (λ n. step_runs step k + n) (Reach-ran r k) ∙ Step-ran step (Reach-AllAgree r) k

  ran-at_most_one : (h : Handler W) → ran h ≤ 1
  ran-at_most_one no_handler = omega arith
  ran-at_most_one (starting req server) = omega arith
  ran-at_most_one (entered svc method args) = omega arith
  ran-at_most_one (returned reply) = omega arith

  -- Whatever is lost, late, deleted or disabled: each call runs its handler at most once, and where
  -- it returns a positive reply the handler has run exactly once and has returned that reply.
  pub once_lem :
      {s : Calls W} (r : Reach s) (k : ℕ)
      → (runs_of r k ≤ 1)
        × ((reply : ReplyMsg)
            → s.stage k ≡ Stage.replied reply
            → reply.ok ≡ true
            → (s.handler k ≡ Handler.returned reply.reply) × (runs_of r k ≡ 1))
  once_lem {s} r k = (
    omega (arith, Reach-ran r k, ran-at_most_one (s.handler k)),
    λ reply e ok. let back = at s (Reach-AllAgree r) e ok in (back, Reach-ran r k ∙ ap ran back),
  )
