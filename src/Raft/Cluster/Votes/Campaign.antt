-- ===== src/Raft/Cluster/Votes/Campaign.antt =====
-- `becomeCandidate` keeps the invariant of the votes.
use mr_and_raft.Common.{
  update, ℕ, zero, suc, ◌+◌, ◌≡◌, refl, arith, Bool-cases, inl, inr, ◌==◌, true, false, List, ap,
}
use mr_and_raft.Raft.State.{Raft, RequestVoteArgs}
use mr_and_raft.Raft.Election.{others_from}
use mr_and_raft.Raft.Election.Frame.{Campaigned}
use mr_and_raft.Raft.Cluster.{VoteCalls, contains, open_calls}
use mr_and_raft.Raft.Cluster.Votes.{Inv, granted, tally}
use mr_and_raft.Raft.Cluster.Votes.Tally.{supporters-congr}

-- A candidate asks itself for no vote.
contains-others_from : (n first me : ℕ) → contains me (others_from n first me) ≡ false
contains-others_from zero first me = refl
contains-others_from (suc n) first me = ground (arith, contains-others_from n (first + 1) me)

-- New calls have granted nothing.
granted-open_calls :
    (calls : VoteCalls) (i : ℕ) (args : RequestVoteArgs) (targets : List ℕ) (c t v : ℕ)
    → granted (open_calls calls i args targets c t v) ≡ true
    → granted (calls c t v) ≡ true
granted-open_calls calls i args targets c t v h = ground arith

open_calls_other :
    (calls : VoteCalls) (i : ℕ) (args : RequestVoteArgs) (targets : List ℕ) (c t v : ℕ)
    → i == c ≡ false
    → open_calls calls i args targets c t v ≡ calls c t v
open_calls_other calls i args targets c t v h = rw h

module _ {ℓ} {C : Type ℓ} {n : ℕ} {peer : ℕ → Raft C} {calls : VoteCalls} where
  pub Campaigned-Inv :
      (i : ℕ) (rf : Raft C) (args : RequestVoteArgs) (targets : List ℕ)
      → (peer i).me ≡ i
      → Campaigned (peer i) rf args targets
      → Inv n peer calls
      → Inv n (update peer i rf) (open_calls calls i args targets)
  Campaigned-Inv i rf args targets named k h = record {
    own = λ j. ground (arith, h.own j);
    addressed = λ c t v a. ground (arith, h.addressed c t v a);
    past = λ c t v. ground (arith, h.past c t v);
    no_self = λ c t. ground (arith, h.no_self c t, no_target);
    recorded = λ c t v g.
        ground (arith, h.recorded c t v (granted-open_calls calls i args targets c t v g));
    unique = λ c c' t v g g'.
        h.unique c c' t v (granted-open_calls calls i args targets c t v g)
          (granted-open_calls calls i args targets c' t v g');
    backed = λ c. elim (Bool-cases (i == c)) [
      | inl e ↦ ground arith
      | inr e ↦ rw e (
          rw
            (supporters-congr n calls (open_calls calls i args targets) c (peer c).current_term
              (λ v. ap tally (open_calls_other calls i args targets c _ v e)))
            (h.backed c))
    ];
    majority = λ c. ground (arith, h.majority c);
  }
    where
      no_target : contains i targets ≡ false
      no_target = rw (k.asks_whom, named) (contains-others_from _ 0 i)
