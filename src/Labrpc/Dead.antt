-- ===== src/Labrpc/Dead.antt =====
-- labrpc/labrpc.go: what a deleted server or a disabled end makes of the calls that wait for it.
use mr_and_raft.Common.{Text, ◌≡◌, true}
use mr_and_raft.Labrpc.Calls.{ReqMsg, ReplyMsg, Target, no_answer, Stage, dead_at, Calls, Step}

-- The call has found its server and has not sent a reply of the server's.
pub data Pending (req : ReqMsg) (target : Target) : Stage → Type 0 where
  is_found : Pending req target (Stage.found req target)
  is_waiting : Pending req target (Stage.waiting req target)
  is_given_up : Pending req target Stage.gave_up
  is_got : (reply : Text) → Pending req target (Stage.got req target reply)
  is_refused : Pending req target (Stage.replied no_answer)

pub replied-inj : {a b : ReplyMsg} → Stage.replied a ≡ Stage.replied b → a ≡ b
replied-inj e = cc

module _ {ℓ} {W : Type ℓ} (req : ReqMsg) (target : Target) where
  -- Any steps during which the server is dead for the call
  pub data WhileDead (s : Calls W) : Calls W → Type ℓ where
    stays : dead_at req target s ≡ true → WhileDead s s
    goes :
        {next last : Calls W}
        → WhileDead s next
        → Step next last
        → dead_at req target last ≡ true
        → WhileDead s last
