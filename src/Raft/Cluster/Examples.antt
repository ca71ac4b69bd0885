-- ===== src/Raft/Cluster/Examples.antt =====
-- Runs of small clusters, and the theorems on clusters at one of them.
use mr_and_raft.Common.{ℕ, ◌≡◌, refl, Option, some, none, arith, List, [], ◌∷◌, ℕ_discrete}
use mr_and_raft.Raft.State.{State}
use mr_and_raft.Raft.Election.{become_candidate, request_vote, receive_vote}
use mr_and_raft.Raft.Replication.{send_heart_beats, append_entries, receive_append_reply, start}
use mr_and_raft.Raft.Cluster.{Cluster, Reach, Current, Any}
use mr_and_raft.Raft.Cluster.Safety.{election_safety}
use mr_and_raft.Raft.Cluster.Schedule.{Event, Run, run}

-- Peer 0 stands in term 1 and gets the vote of peer 1 late, when it stands in term 2; peer 1 has
-- given its vote of term 2 to peer 2.
abbrev stale_vote : List (Event ℕ)
stale_vote =
    Event.campaign 0
    ∷ Event.vote 0 1 1
    ∷ Event.campaign 0
    ∷ Event.campaign 2
    ∷ Event.campaign 2
    ∷ Event.vote 2 2 1
    ∷ Event.count 2 2 1
    ∷ Event.count 0 1 1
    ∷ []

abbrev split : Run ℕ 3 Any
split = run (λ t now. some tt) stale_vote

-- Both 0 and 2 lead term 2.
two_leaders :
    (s : Cluster ℕ) × Reach 3 Any s
    × ((s.peer 0).state ≡ State.leader)
    × ((s.peer 2).state ≡ State.leader)
    × ((s.peer 0).current_term ≡ (s.peer 2).current_term)
unfolding become_candidate request_vote receive_vote run
two_leaders = (split.last, split.reach, refl, refl, refl)

pub decide : (t now : ℕ) → Option (Current t now)
unfolding ℕ_discrete
decide t now = elim (ℕ_discrete t now) [ yes e ↦ some e | no _ ↦ none ]

-- Peer 0 is elected, takes a command, sends it to peer 1 and learns that peer 1 has it.
pub one_command : Run ℕ 3 Current
one_command = run decide (
    Event.campaign 0
    ∷ Event.vote 0 1 1
    ∷ Event.count 0 1 1
    ∷ Event.submit 0 7
    ∷ Event.beat 0
    ∷ Event.append 0
    ∷ Event.learn 0
    ∷ [])

one_command_commits :
    ((one_command.last.peer 0).state ≡ State.leader)
    × ((one_command.last.peer 0).commit_index ≡ 1)
    × ((one_command.last.peer 0).last_applied ≡ 1)
    × ((one_command.last.peer 1).log ≡ (one_command.last.peer 0).log)
unfolding become_candidate request_vote receive_vote send_heart_beats append_entries
    receive_append_reply start run decide one_command
one_command_commits = (refl, refl, refl, refl)

election_safety_example : ◌≡◌ {A = ℕ} 0 0
unfolding one_command
election_safety_example =
    election_safety one_command.reach 0 0 (omega arith) (omega arith) one_command_commits.0
      one_command_commits.0 refl
