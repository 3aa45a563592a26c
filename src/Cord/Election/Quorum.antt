-- ===== src/Cord/Election/Quorum.antt =====
-- Two requests for the lease of one shard, put to the same voters.
use netab.Common.{
  ℕ, ◌+◌, ◌<◌, ◌≤◌, Bool, true, false, List, [], ◌∷◌, Option, none, some, length, All, ◌≡◌, ◌≢◌,
  refl, sym, ap, subst, inl, inr, arith, string_eq, if◌then◌else◌, equals-cases, Bool-cases, leb,
  ltb, not, ◌&&◌, includes,
}
use netab.Cord.Election.{
  LeaseParams, LeaseReply, LeaseVotes, vote_key, request_lease, LeaseMode, quorum, all_voters,
  required_votes, approvals, count_votes, LeaderAssignment, assignment_of, acquire_lease,
}
use netab.Cord.Registry.{CordRegistry}
use netab.Cord.Cluster.{ClusterNodeConfig}
use netab.Cord.Election.Health.{ClusterView, voters, is_healthy_assignment, is_eligible, is_nobody}
use netab.Cord.Election.Votes.{
  Message, receive_all, IsTimely, IsCovered, request_lease-ok, receive_all-IsCovered,
  covered-refused,
}

-- A voter: its votes before, when it hears the two requests, whether it then finds that their
-- senders may lead, what it hears in between, and whether its replies arrive.
pub record Voter : Type 0 where
  pub votes : LeaseVotes
  pub first_ms : ℕ
  pub second_ms : ℕ
  pub first_eligible : Bool
  pub second_eligible : Bool
  pub between : List (ℕ × Message)
  pub first_arrives : Bool
  pub second_arrives : Bool

abbrev pub first_round : LeaseParams → Voter → LeaseReply × LeaseVotes
first_round p v = request_lease v.first_eligible v.first_ms p v.votes

abbrev pub second_round : LeaseParams → LeaseParams → Voter → LeaseReply × LeaseVotes
second_round p q v =
    request_lease v.second_eligible v.second_ms q (receive_all v.between (first_round p v).1)

abbrev pub if_arrives : Bool → LeaseReply → Option LeaseReply
if_arrives true reply = some reply
if_arrives false reply = none

abbrev pub first_replies : LeaseParams → List Voter → List (Option LeaseReply)
first_replies p [] = []
first_replies p (v ∷ vs) = if_arrives v.first_arrives (first_round p v).0 ∷ first_replies p vs

abbrev pub second_replies : LeaseParams → LeaseParams → List Voter → List (Option LeaseReply)
second_replies p q [] = []
second_replies p q (v ∷ vs) =
    if_arrives v.second_arrives (second_round p q v).0 ∷ second_replies p q vs

-- Between the requests the voter hears requests and renewals only, of leases that do not end before
-- the first one's, and it hears the second request before the first one's lease ends.
abbrev pub IsPrompt : LeaseParams → Voter → Type 0
IsPrompt p v =
    All (IsTimely (v.first_ms + p.ttl_ms)) v.between × (v.second_ms < v.first_ms + p.ttl_ms)

module _ (p q : LeaseParams) (same : vote_key q ≡ vote_key p) (low : q.term ≤ p.term)
    (differ : p.leader_node_id ≢ q.leader_node_id) where
  -- No voter approves of both.
  not_both :
      (v : Voter) → IsPrompt p v → (first_round p v).0.ok ≡ true → (second_round p q v).0.ok ≡ false
  not_both v (heard, early) fine =
      covered-refused p.leader_node_id p.term (v.first_ms + p.ttl_ms) v.second_ms v.second_eligible
        q (receive_all v.between (first_round p v).1)
        (subst
          (λ key.
            IsCovered key p.leader_node_id p.term (v.first_ms + p.ttl_ms)
              (receive_all v.between (first_round p v).1))
          (sym same)
          (receive_all-IsCovered (vote_key p) p.leader_node_id p.term (v.first_ms + p.ttl_ms)
            v.between (first_round p v).1
            (request_lease-ok v.first_eligible p v.first_ms v.votes fine) heard))
        early low differ

  approvals-apart :
      (vs : List Voter)
      → All (IsPrompt p) vs
      → length (approvals (first_replies p vs)) + length (approvals (second_replies p q vs))
        ≤ length vs
  unfolding approvals
  approvals-apart [] h = omega arith
  approvals-apart (v ∷ vs) (prompt, h) = ground (arith, approvals-apart vs h, not_both v prompt)

length-first : (p : LeaseParams) (vs : List Voter) → length (first_replies p vs) ≡ length vs
length-first p [] = refl
length-first p (v ∷ vs) = omega (arith, length-first p vs)

length-second : (p q : LeaseParams) (vs : List Voter) → length (second_replies p q vs) ≡ length vs
length-second p q [] = refl
length-second p q (v ∷ vs) = omega (arith, length-second p q vs)

-- A lease is acquired with as many approvals as are required, of at least one voter.
won :
    (mode : LeaseMode) (p : LeaseParams) (replies : List (Option LeaseReply)) (a : LeaderAssignment)
    → acquire_lease mode p replies ≡ some a
    → (required_votes mode (length replies) ≤ length (approvals replies)) × (1 ≤ length replies)
unfolding acquire_lease count_votes assignment_of
won mode p [] a h = absurd (ground (arith, h))
won mode p (r ∷ replies) a h =
    elim (Bool-cases
      (leb (required_votes mode (length (r ∷ replies))) (length (approvals (r ∷ replies))))) [
        | inl enough ↦ (ground arith, omega arith)
        | inr short ↦ absurd (ground (arith, h, short))
      ]

two_majorities :
    (mode : LeaseMode) (n : ℕ) → 1 ≤ n → n < required_votes mode n + required_votes mode n
unfolding required_votes
two_majorities quorum n h = omega arith
two_majorities all_voters n h = omega arith

-- Two requests for one shard go to the same voters, the second one in the term of the first or in a
-- lower one, and each voter hears it before the lease of the first would end, and between them only
-- requests and renewals of leases that end no earlier. If both acquire the lease, by two thirds of
-- the voters or by all of them, they are for the same leader; whichever replies are lost.
pub one_leader :
    (mode : LeaseMode) (p q : LeaseParams) (vs : List Voter) (a b : LeaderAssignment)
    → vote_key q ≡ vote_key p
    → q.term ≤ p.term
    → All (IsPrompt p) vs
    → acquire_lease mode p (first_replies p vs) ≡ some a
    → acquire_lease mode q (second_replies p q vs) ≡ some b
    → q.leader_node_id ≡ p.leader_node_id
one_leader mode p q vs a b same low prompt first second =
    elim (equals-cases p.leader_node_id q.leader_node_id) [
      | inl (e, one) ↦ sym one
      | inr (e, differ) ↦
          let (enough, some_voter) = won mode p (first_replies p vs) a first in
          let (enough', some_voter') = won mode q (second_replies p q vs) b second in
          absurd (
            omega (
              arith,
              enough,
              enough',
              approvals-apart p q same low differ vs prompt,
              two_majorities mode (length vs) (omega (arith, some_voter, length-first p vs)),
              ap (required_votes mode) (length-first p vs),
              ap (required_votes mode) (length-second p q vs),
            ))
    ]

-- Whether two thirds are asked for.
abbrev pub by_quorum : LeaseMode → Bool
by_quorum quorum = true
by_quorum all_voters = false

enough_voters :
    (mode : LeaseMode) (nodes : List ClusterNodeConfig)
    → leb (required_votes mode (length nodes)) (length nodes)
      ≡ (if by_quorum mode then not (is_nobody nodes) else true)
unfolding required_votes
enough_voters quorum [] = ground arith
enough_voters quorum (node ∷ nodes) = ground arith
enough_voters all_voters nodes = ground arith

-- An assignment is healthy exactly if its lease has not run out, its leader is an eligible member
-- and alive, and, by two thirds, some voter is left, of whom the leader may be the only one: the
-- number of voters is compared with the votes that this same number requires. By all of them, not
-- even one voter is needed.
pub is_healthy_assignment_lem :
    (now : ℕ) (view : ClusterView) (registry : CordRegistry) (member : Option ClusterNodeConfig)
    (assignment : LeaderAssignment)
    → is_healthy_assignment now view registry member assignment ≡ (
        ltb now assignment.lease_until_ms
        && is_eligible member
        && includes view.alive assignment.leader_node_id
        && (if by_quorum view.lease_mode
            then not (is_nobody (voters view registry assignment.leader_node_id))
            else true))
unfolding is_healthy_assignment
is_healthy_assignment_lem now view registry member assignment =
    ground (arith, enough_voters view.lease_mode (voters view registry assignment.leader_node_id))
