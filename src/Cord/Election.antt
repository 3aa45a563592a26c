-- ===== src/Cord/Election.antt =====
-- src/cord/election.ts: lease votes. A follower keeps one vote per shard; a leader counts the
-- approvals of its voters.
pub mod Votes
pub mod Quorum
pub mod Health
pub mod Shards
pub mod Balance
pub mod Reconcile
pub mod Manager
pub mod Choice
pub mod Terms
pub mod Writes
pub mod Fencing
pub mod Tenure
pub mod Tests
use netab.Common.{
  ℕ, ◌+◌, ◌*◌, ◌/◌, String, Bool, true, false, List, [], ◌∷◌, Option, none, some, Dict, get, set,
  delete, string_eq, nat_eq, ltb, leb, not, ◌&&◌, ◌||◌, ◌==◌, if◌then◌else◌, ◌⋅◌, length, min,
}
use netab.Json.{Value, undefined, null, num, str, fields_of, is_record, get_prop, strict_eq}
use netab.Cord.Registry.{CordRegistry, can_reach}
use netab.Cord.Store.{Store}
use netab.Cord.Cluster.{ClusterNodeConfig, get_member, is_denied}

pub record LeaseVote : Type 0 where
  pub leader_node_id : String
  pub term : ℕ
  pub lease_until_ms : ℕ

pub record LeaseParams : Type 0 where
  pub cluster_id : String
  pub shard_id : String
  pub term : ℕ
  pub ttl_ms : ℕ
  pub leader_node_id : String

pub record LeaseReply : Type 0 where
  pub ok : Bool
  pub lease_until_ms : ℕ

abbrev pub LeaseVotes : Type 0
LeaseVotes = Dict String LeaseVote

unfoldable pub lease_vote_key : String → String → String
lease_vote_key cluster_id shard_id = cluster_id ⋅ "::" ⋅ shard_id

abbrev pub vote_key : LeaseParams → String
vote_key p = lease_vote_key p.cluster_id p.shard_id

abbrev pub refused : ℕ → LeaseReply
refused lease_until_ms = record { ok = false; lease_until_ms = lease_until_ms }

abbrev pub granted : ℕ → LeaseReply
granted lease_until_ms = record { ok = true; lease_until_ms = lease_until_ms }

-- Whether the asking node may lead, and whether this node reaches it.
unfoldable pub may_lead : Store → CordRegistry → String → LeaseParams → Bool
may_lead store registry self_node_id p = elim (get_member store p.cluster_id p.leader_node_id) [
  | none ↦ false
  | some member ↦
      not (is_denied "eligibleLeader" member) && can_reach self_node_id p.leader_node_id registry
]

-- A live vote stands against a request of a lower term, and of its own term for another leader.
abbrev pub stands_against : LeaseVote → LeaseParams → Bool
stands_against current p =
    ltb p.term current.term
    || (current.term == p.term && not (current.leader_node_id == p.leader_node_id))

abbrev pub vote_for : LeaseParams → ℕ → LeaseVote
vote_for p now = record {
  leader_node_id = p.leader_node_id;
  term = p.term;
  lease_until_ms = now + p.ttl_ms;
}

abbrev grant : LeaseParams → ℕ → LeaseVotes → LeaseReply × LeaseVotes
grant p now votes = (granted (now + p.ttl_ms), set (vote_key p) (vote_for p now) votes)

-- `handleRequestLease`, where `eligible` is what `may_lead` says.
unfoldable pub request_lease : Bool → ℕ → LeaseParams → LeaseVotes → LeaseReply × LeaseVotes
request_lease eligible now p votes =
    if not eligible then (refused 0, votes) else elim (get (vote_key p) votes) [
      | none ↦ grant p now votes
      | some current ↦
          if ltb now current.lease_until_ms && stands_against current p
          then (refused current.lease_until_ms, votes)
          else grant p now votes
    ]

unfoldable pub handle_request_lease :
    Store → CordRegistry → String → ℕ → LeaseParams → LeaseVotes → LeaseReply × LeaseVotes
handle_request_lease store registry self_node_id now p votes =
    request_lease (may_lead store registry self_node_id p) now p votes

unfoldable pub handle_renew_lease : ℕ → LeaseParams → LeaseVotes → LeaseReply × LeaseVotes
handle_renew_lease now p votes = elim (get (vote_key p) votes) [
  | none ↦ (refused 0, votes)
  | some current ↦
      if not (current.leader_node_id == p.leader_node_id) || not (current.term == p.term)
      then (refused current.lease_until_ms, votes)
      else (
        granted (now + p.ttl_ms),
        set (vote_key p) (record current { lease_until_ms = now + p.ttl_ms }) votes,
      )
]

-- `handleReleaseLease`; its answer is always yes.
unfoldable pub handle_release_lease : LeaseParams → LeaseVotes → LeaseVotes
handle_release_lease p votes = elim (get (vote_key p) votes) [
  | none ↦ votes
  | some current ↦
      if current.leader_node_id == p.leader_node_id && current.term == p.term
      then delete (vote_key p) votes
      else votes
]

pub data LeaseMode : Type 0 where
  quorum all_voters : LeaseMode

-- `clusterLeaseMode` of the stored cluster spec.
unfoldable pub cluster_lease_mode : Option Value → LeaseMode
cluster_lease_mode none = quorum
cluster_lease_mode (some spec) =
    if strict_eq (get_prop "leaseMode" (fields_of (get_prop "props" (fields_of spec)))) (str "all")
    then all_voters
    else quorum

unfoldable pub required_votes : LeaseMode → ℕ → ℕ
required_votes all_voters voter_count = voter_count
required_votes quorum voter_count = voter_count * 2 / 3 + 1

-- The replies of the voters, in order; a call that fails or times out has none.
unfoldable pub approvals : List (Option LeaseReply) → List ℕ
approvals [] = []
approvals (none ∷ replies) = approvals replies
approvals (some reply ∷ replies) =
    let rest = approvals replies in if reply.ok then reply.lease_until_ms ∷ rest else rest

-- What `requestVotes` makes of the replies.
unfoldable pub count_votes : LeaseMode → List (Option LeaseReply) → List ℕ
count_votes mode [] = []
count_votes mode (reply ∷ replies) =
    let got = approvals (reply ∷ replies) in
    if leb (required_votes mode (length (reply ∷ replies))) (length got) then got else []

pub record LeaderAssignment : Type 0 where
  pub cluster_id : String
  pub shard_id : String
  pub leader_node_id : String
  pub term : ℕ
  pub lease_until_ms : ℕ

abbrev pub least : ℕ → List ℕ → ℕ
least n [] = n
least n (m ∷ ms) = min n (least m ms)

-- The assignment that `acquireLease` and `renewLease` return, if there are enough votes.
unfoldable pub assignment_of : LeaseParams → List ℕ → Option LeaderAssignment
assignment_of p [] = none
assignment_of p (n ∷ ns) = some (record {
  cluster_id = p.cluster_id;
  shard_id = p.shard_id;
  leader_node_id = p.leader_node_id;
  term = p.term;
  lease_until_ms = least n ns;
})

unfoldable pub acquire_lease :
    LeaseMode → LeaseParams → List (Option LeaseReply) → Option LeaderAssignment
acquire_lease mode p replies = assignment_of p (count_votes mode replies)
