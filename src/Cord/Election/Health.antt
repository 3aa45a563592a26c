-- ===== src/Cord/Election/Health.antt =====
-- Voters, and whether an assignment is still healthy: `voters`, `isHealthyAssignment` and the test
-- of `maybeRenew`. The members and who is alive are read from the cluster manager.
use netab.Common.{
  ℕ, ◌+◌, ◌*◌, String, Bool, true, false, List, [], ◌∷◌, Option, none, some, includes, keep, length,
  leb, not, ◌&&◌, string_eq, if◌then◌else◌,
}
use netab.Cord.Registry.{CordRegistry, can_reach}
use netab.Cord.Cluster.{ClusterNodeConfig, is_denied, lease_ms_from_config}
use netab.Cord.Election.{LeaseMode, required_votes, LeaderAssignment}

-- What `listNodes`, `getAliveNodes` and the stored spec say of a cluster.
pub record ClusterView : Type 0 where
  pub members : List ClusterNodeConfig
  pub alive : List String
  pub lease_mode : LeaseMode

unfoldable pub voters : ClusterView → CordRegistry → String → List ClusterNodeConfig
voters view registry leader_node_id =
    keep
      (λ (node : ClusterNodeConfig).
        includes view.alive node.node_id
        && not (is_denied "canReceive" node)
        && can_reach node.node_id leader_node_id registry)
      view.members

-- `member && member.role.eligibleLeader !== false`.
unfoldable pub is_eligible : Option ClusterNodeConfig → Bool
is_eligible none = false
is_eligible (some member) = not (is_denied "eligibleLeader" member)

abbrev pub is_nobody : List ClusterNodeConfig → Bool
is_nobody [] = true
is_nobody (node ∷ nodes) = false

-- `member` is what `getNode` returns for the leader.
unfoldable pub is_healthy_assignment :
    ℕ → ClusterView → CordRegistry → Option ClusterNodeConfig → LeaderAssignment → Bool
is_healthy_assignment now view registry member assignment =
    if leb assignment.lease_until_ms now
    then false
    else if not (is_eligible member)
    then false
    else if not (includes view.alive assignment.leader_node_id)
    then false
    else leb
        (required_votes view.lease_mode (length (voters view registry assignment.leader_node_id)))
        (length (voters view registry assignment.leader_node_id))

-- The lease is renewed when half of it or less is left: `until - now > ttl / 2` keeps it.
unfoldable pub is_due : ℕ → ℕ → ClusterNodeConfig → LeaderAssignment → Bool
is_due now lease_ms member assignment =
    leb (2 * assignment.lease_until_ms) (2 * now + lease_ms_from_config member lease_ms)
