-- ===== src/Raft/Cluster/Votes/Quiet.antt =====
-- A step that takes no part in an election keeps the invariant of the votes.
use mr_and_raft.Common.{update, ℕ, arith}
use mr_and_raft.Raft.State.{Raft}
use mr_and_raft.Raft.Ripple.{Ripple}
use mr_and_raft.Raft.Cluster.{VoteCalls}
use mr_and_raft.Raft.Cluster.Votes.{Inv}

module _ {ℓ} {C : Type ℓ} {n : ℕ} {peer : ℕ → Raft C} {calls : VoteCalls} where
  pub Ripple-Inv :
      (i : ℕ) (rf : Raft C) → Ripple (peer i) rf → Inv n peer calls → Inv n (update peer i rf) calls
  Ripple-Inv i rf r h = record {
    own = λ j. ground (arith, h.own j);
    addressed = h.addressed;
    past = λ c t v. ground (arith, h.past c t v);
    no_self = h.no_self;
    recorded = λ c t v. ground (arith, h.recorded c t v);
    unique = h.unique;
    backed = λ c. ground (arith, h.backed c);
    majority = λ c. ground (arith, h.majority c);
  }
