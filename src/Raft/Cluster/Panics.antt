-- ===== src/Raft/Cluster/Panics.antt =====
-- No handler panics at a peer of a cluster, whatever the interleaving of the handlers.
use mr_and_raft.Common.{
  update, ℕ, zero, suc, ◌<◌, ◌≡◌, refl, inl, inr, sym, Option, some, List, [], ◌∷◌, ◌++◌, arith,
  Bool-cases, ◌==◌, ==_iff, get_elem?, Returns, some_inj, ◌∙◌,
}
use mathlib.Core.Path.{subst}
use mr_and_raft.Raft.State.{Signal, RequestVoteArgs, RequestVoteReply, AppendEntriesArgs, Raft}
use mr_and_raft.Raft.Wellformed.{IsValid, IsSane, AllSane, initial-IsValid, StaysValid}
use mr_and_raft.Raft.Election.{become_candidate, request_vote, receive_vote}
use mr_and_raft.Raft.Election.Valid.{
  become_candidate-IsValid, request_vote-IsValid, receive_vote-IsValid, receive_vote-AllSane,
}
use mr_and_raft.Raft.Election.Frame.{
  become_candidate-Campaigned, request_vote-Voted, receive_vote-Tallied, Voted,
}
use mr_and_raft.Raft.Replication.{start, append_entries, receive_append_reply, send_heart_beats}
use mr_and_raft.Raft.Replication.Valid.{
  start-IsValid, append_entries-IsValid, receive_append_reply-IsValid,
}
use mr_and_raft.Raft.Replication.HeartBeat.{send_heart_beats-AllSane}
use mr_and_raft.Raft.Replication.Frame.{
  append_entries-Ripple, receive_append_reply-Ripple, start-Ripple,
}
use mr_and_raft.Raft.Cluster.{
  Request, Answer, Cluster, requests, Step, campaign, vote, count, beat, append, learn, submit,
  Reach, booted, later,
}

-- A property of every member of a family survives an update at a member that has it.
pub update_all {ℓ κ} :
    {A : Type ℓ} (P : ℕ → A → Type κ) (f : ℕ → A) (i : ℕ) (a : A)
    → ((j : ℕ) → P j (f j))
    → P i a
    → (j : ℕ) → P j (update f i a j)
update_all P f i a all here j = elim (Bool-cases (i == j)) [
  | inl e ↦ rw e (subst (λ k. P k a) ((==_iff i j).0 e) here)
  | inr e ↦ rw e (all j)
]

module _ {ℓ} {C : Type ℓ} where
  pub record IsMember (n i : ℕ) (rf : Raft C) : Type 0 where
    pub valid : i < n → IsValid rf
    pub sized : rf.peers ≡ n
    pub named : rf.me ≡ i

  abbrev pub AllRequests : ℕ → List (Request C) → Type 0
  AllRequests n [] = Unit
  AllRequests n (r ∷ rs) = (r.from < n) × (r.to < n) × IsSane r.args × AllRequests n rs

  abbrev pub AllAnswers : ℕ → List (Answer C) → Type 0
  AllAnswers n [] = Unit
  AllAnswers n (a ∷ rest) = (a.request.from < n) × (a.request.to < n) × AllAnswers n rest

  pub record IsSound (n : ℕ) (s : Cluster C) : Type ℓ where
    pub member : (i : ℕ) → IsMember n i (s.peer i)
    pub asked : AllRequests n s.sent
    pub told : AllAnswers n s.answered

  AllRequests-get_elem? :
      (n k : ℕ) (rs : List (Request C)) {r : Request C}
      → AllRequests n rs
      → get_elem? rs k ≡ some r
      → (r.from < n) × (r.to < n) × IsSane r.args
  AllRequests-get_elem? n k [] h e = cc
  AllRequests-get_elem? n zero (x ∷ rs) h e =
      subst (λ r. (r.from < n) × (r.to < n) × IsSane r.args) (some_inj e) (h.0, h.1, h.2)
  AllRequests-get_elem? n (suc k) (x ∷ rs) h e = AllRequests-get_elem? n k rs h.3 e

  AllAnswers-get_elem? :
      (n k : ℕ) (rs : List (Answer C)) {a : Answer C}
      → AllAnswers n rs
      → get_elem? rs k ≡ some a
      → (a.request.from < n) × (a.request.to < n)
  AllAnswers-get_elem? n k [] h e = cc
  AllAnswers-get_elem? n zero (x ∷ rs) h e = ground arith
  AllAnswers-get_elem? n (suc k) (x ∷ rs) h e = AllAnswers-get_elem? n k rs h.2 e

  AllRequests-requests :
      (n from : ℕ) (out : List (ℕ × AppendEntriesArgs C)) (rs : List (Request C))
      → from < n
      → AllSane n out
      → AllRequests n rs
      → AllRequests n (requests from out ++ rs)
  AllRequests-requests n from [] rs h o r = r
  AllRequests-requests n from (p ∷ out) rs h o r =
      (h, o.0, o.1, AllRequests-requests n from out rs h o.2 r)

  returns : {X : Type ℓ} {run : Option X} {peer : X → Raft C} → StaysValid run peer → Returns run
  returns (x, e, v) = (x, e)

  -- A run that stays valid hands its result over as a member.
  renewed :
      {n i : ℕ} {X : Type ℓ} {rf : Raft C} {run : Option X} {x : X} (peer : X → Raft C)
      → IsMember n i rf
      → StaysValid run peer
      → run ≡ some x
      → (peer x).peers ≡ rf.peers
      → (peer x).me ≡ rf.me
      → IsMember n i (peer x)
  renewed peer m (y, e, v) run p q = record {
    valid = λ _. subst (λ z. IsValid (peer z)) (some_inj (sym e ∙ run)) v;
    sized = p ∙ m.sized;
    named = q ∙ m.named;
  }

  Voted-config :
      {args : RequestVoteArgs} {rf rf' : Raft C} (reply : RequestVoteReply) (signal : Signal)
      → Voted args rf (rf', reply, signal)
      → (rf'.peers ≡ rf.peers) × (rf'.me ≡ rf.me)
  Voted-config reply signal (inl (_, g)) = (g.peers, g.me)
  Voted-config reply signal (inr (_, r)) = (r.peers, r.me)

  members_after :
      {n : ℕ} (s : Cluster C) (i : ℕ) (rf : Raft C)
      → IsSound n s
      → IsMember n i rf
      → (j : ℕ) → IsMember n j (update s.peer i rf j)
  members_after {n} s i rf h m = update_all (IsMember n) s.peer i rf h.member m

  -- Every step keeps the peers well-formed and the requests sane.
  pub Step-IsSound :
      {n : ℕ} {Counts : ℕ → ℕ → Type 0} {s t : Cluster C}
      → IsSound n s
      → Step n Counts s t
      → IsSound n t
  Step-IsSound {s} h (campaign i {rf} lt run) =
      let m = h.member i in
      let c = (become_candidate-Campaigned (s.peer i)).result _ run in
      record {
        member = members_after s i rf h (
            renewed (λ x. x.0) m (become_candidate-IsValid (s.peer i) (m.valid lt)) run c.peers
              c.me);
        asked = h.asked;
        told = h.told;
      }
  Step-IsSound {s} h (vote c t v {args} {rf} {reply} {signal} lt _ run) =
      let m = h.member v in
      let (p, q) = Voted-config reply signal ((request_vote-Voted args (s.peer v)).result _ run) in
      record {
        member =
            members_after s v rf h
              (renewed (λ x. x.0) m (request_vote-IsValid args (s.peer v) (m.valid lt)) run p q);
        asked = h.asked;
        told = h.told;
      }
  Step-IsSound {n} {s} h (count c t v {reply} lt _ _ _) =
      let m = h.member c in
      let d = receive_vote-Tallied reply (s.peer c) in
      let out = (receive_vote reply (s.peer c)).1 in
      record {
        member = members_after s c _ h (record {
          valid = λ _. receive_vote-IsValid reply (s.peer c) (m.valid lt);
          sized = d.peers ∙ m.sized;
          named = d.me ∙ m.named;
        });
        asked =
            AllRequests-requests n c out s.sent lt
              (subst (λ k. AllSane k out) m.sized (receive_vote-AllSane reply (s.peer c))) h.asked;
        told = h.told;
      }
  Step-IsSound {n} {s} h (beat i {out} lt run) =
      let m = h.member i in
      let (out', e, sane) = send_heart_beats-AllSane (s.peer i) (m.valid lt) in
      let sane' : AllSane n out =
        subst (λ o. AllSane n o) (some_inj (sym e ∙ run))
          (subst (λ k. AllSane k out') m.sized sane) in
      record {
        member = h.member;
        asked = AllRequests-requests n i out s.sent lt sane' h.asked;
        told = h.told;
      }
  Step-IsSound {n} {s} h (append k {req} {rf} at run) =
      let (lt_from, lt, sane) = AllRequests-get_elem? n k s.sent h.asked at in
      let m = h.member req.to in
      let r = (append_entries-Ripple req.args (s.peer req.to)).result _ run in
      record {
        member = members_after s req.to rf h (
            renewed (λ x. x.0) m (append_entries-IsValid req.args (s.peer req.to) sane (m.valid lt))
              run r.peers r.me);
        asked = h.asked;
        told = (lt_from, lt, h.told);
      }
  Step-IsSound {n} {s} h (learn k {answer} {rf} at run) =
      let (lt, lt_to) = AllAnswers-get_elem? n k s.answered h.told at in
      let from = answer.request.from in
      let m = h.member from in
      let to_peer : answer.request.to < (s.peer from).peers = omega (arith, m.sized) in
      let r =
        (receive_append_reply-Ripple answer.request.to answer.request.args answer.reply
            (s.peer from)).result
          _ run in
      record {
        member = members_after s from rf h (
            renewed (λ x. x.0) m
              (receive_append_reply-IsValid answer.request.to answer.request.args answer.reply
                (s.peer from) to_peer (m.valid lt))
              run r.peers r.me);
        asked = h.asked;
        told = h.told;
      }
  Step-IsSound {s} h (submit i command {rf} lt run) =
      let m = h.member i in
      let r = (start-Ripple command (s.peer i)).result _ run in
      record {
        member =
            members_after s i rf h (
              renewed (λ x. x.0) m (start-IsValid command (s.peer i) (m.valid lt)) run r.peers
                r.me);
        asked = h.asked;
        told = h.told;
      }

  pub Reach-IsSound :
      {n : ℕ} {Counts : ℕ → ℕ → Type 0} {s : Cluster C} → Reach n Counts s → IsSound n s
  Reach-IsSound {n} booted = record {
    member = λ i. record { valid = initial-IsValid n i; sized = refl; named = refl };
    asked = tt;
    told = tt;
  }
  Reach-IsSound (later r st) = Step-IsSound (Reach-IsSound r) st

  -- In a reachable cluster no handler panics at any of the `n` peers: not `becomeCandidate`, nor
  -- `RequestVote` on any arguments, `Start` on any command or `sendHeartBeats`, nor `AppendEntries`
  -- on a request that was sent, nor the rest of `sendAppendEntries` on an answer that was given.
  pub no_panic :
      {n : ℕ} {Counts : ℕ → ℕ → Type 0} {s : Cluster C}
      → Reach n Counts s
      → ((i : ℕ)
          → i < n
          → Returns (become_candidate (s.peer i))
            × ((args : RequestVoteArgs) → Returns (request_vote args (s.peer i)))
            × ((command : Option C) → Returns (start command (s.peer i)))
            × Returns (send_heart_beats (s.peer i)))
        × ((k : ℕ) (req : Request C)
            → get_elem? s.sent k ≡ some req
            → Returns (append_entries req.args (s.peer req.to)))
        × ((k : ℕ) (answer : Answer C)
            → get_elem? s.answered k ≡ some answer
            → Returns (
                receive_append_reply answer.request.to answer.request.args answer.reply
                  (s.peer answer.request.from)))
  no_panic {n} {s} r =
      let h = Reach-IsSound r in
      (
        (λ i lt.
            let v = (h.member i).valid lt in
            (
              returns (become_candidate-IsValid (s.peer i) v),
              (λ args. returns (request_vote-IsValid args (s.peer i) v)),
              (λ command. returns (start-IsValid command (s.peer i) v)),
              (let (out, e, _) = send_heart_beats-AllSane (s.peer i) v in (out, e)),
            )),
        (λ k req at.
            let (_, lt, sane) = AllRequests-get_elem? n k s.sent h.asked at in
            returns
              (append_entries-IsValid req.args (s.peer req.to) sane ((h.member req.to).valid lt))),
        (λ k answer at.
            let (lt, lt_to) = AllAnswers-get_elem? n k s.answered h.told at in
            let m = h.member answer.request.from in
            returns (
              receive_append_reply-IsValid answer.request.to answer.request.args answer.reply
                (s.peer answer.request.from) (omega (arith, m.sized)) (m.valid lt))),
      )
