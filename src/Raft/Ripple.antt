-- ===== src/Raft/Ripple.antt =====
-- What a handler may change of the part of a peer that elections rest on.
use mr_and_raft.Common.{ℕ, ◌<◌, ◌≡◌, ◌⊎◌, arith}
use mr_and_raft.Raft.State.{State, Raft, step_down}

module _ {ℓ} {C : Type ℓ} where
  -- Nothing.
  pub record Same (rf rf' : Raft C) : Type 0 where
    pub me : rf'.me ≡ rf.me
    pub peers : rf'.peers ≡ rf.peers
    pub term : rf'.current_term ≡ rf.current_term
    pub vote : rf'.voted_for ≡ rf.voted_for
    pub state : rf'.state ≡ rf.state
    pub votes : rf'.votes ≡ rf.votes

  -- Nothing, or a step down to a higher term.
  pub record Ripple (rf rf' : Raft C) : Type 0 where
    pub me : rf'.me ≡ rf.me
    pub peers : rf'.peers ≡ rf.peers
    pub rest :
        ((rf'.current_term ≡ rf.current_term)
          × (rf'.voted_for ≡ rf.voted_for)
          × (rf'.state ≡ rf.state)
          × (rf'.votes ≡ rf.votes))
        ⊎ ((rf.current_term < rf'.current_term) × (rf'.state ≡ State.follower))

  pub Same→Ripple : {rf rf' : Raft C} → Same rf rf' → Ripple rf rf'
  Same→Ripple s = ground arith

  pub Ripple-step_down :
      {term : ℕ} {rf rf' : Raft C}
      → rf.current_term < term
      → Same (step_down term rf) rf'
      → Ripple rf rf'
  Ripple-step_down h s = ground arith
