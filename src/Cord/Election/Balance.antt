-- ===== src/Cord/Election/Balance.antt =====
-- Which nodes may lead the shards of a cluster, and which of them is to lead the next one: the loads and
-- orders of `reconcileCluster` in src/cord/election.ts.
use netab.Common.{
  ℕ, ◌+◌, String, Bool, not, ◌&&◌, List, [], ◌∷◌, Option, none, some, Dict, get, set, string_eq,
  nat_eq, ◌==◌, if◌then◌else◌, ltb, includes, keep, sort_by,
}
use netab.Cord.Cluster.{ClusterNodeConfig, is_denied, priority_from_config, or_zero}
use netab.Cord.Election.Health.{ClusterView}
use netab.Cord.Election.Shards.{ShardSpec, shard_weight}

-- The order in which a leader is chosen: by load, by priority, by id.
unfoldable pub comes_first :
    (String → String → Bool) → Dict String ℕ → ClusterNodeConfig → ClusterNodeConfig → Bool
comes_first locale_le loads left right =
    if or_zero (get left.node_id loads) == or_zero (get right.node_id loads)
    then (if priority_from_config left == priority_from_config right
        then locale_le left.node_id right.node_id
        else ltb (priority_from_config right) (priority_from_config left))
    else ltb (or_zero (get left.node_id loads)) (or_zero (get right.node_id loads))

abbrev pub first_of : List ClusterNodeConfig → Option ClusterNodeConfig
first_of [] = none
first_of (node ∷ nodes) = some node

unfoldable pub choose :
    (String → String → Bool) → Dict String ℕ → List ClusterNodeConfig → Option ClusterNodeConfig
choose locale_le loads eligible = first_of (sort_by (comes_first locale_le loads) eligible)

abbrev pub add_load : String → ℕ → Dict String ℕ → Dict String ℕ
add_load node_id weight loads = set node_id (or_zero (get node_id loads) + weight) loads

unfoldable pub heavier_first : (String → String → Bool) → ShardSpec → ShardSpec → Bool
heavier_first locale_le left right =
    if shard_weight right == shard_weight left
    then locale_le left.shard_id right.shard_id
    else ltb (shard_weight right) (shard_weight left)

unfoldable pub eligible_nodes : ClusterView → List ClusterNodeConfig
eligible_nodes view =
    keep
      (λ (node : ClusterNodeConfig).
        includes view.alive node.node_id
        && not (is_denied "eligibleLeader" node)
        && not (is_denied "canReceive" node))
      view.members

abbrev pub no_loads : List ClusterNodeConfig → Dict String ℕ → Dict String ℕ
no_loads [] loads = loads
no_loads (node ∷ nodes) loads = no_loads nodes (set node.node_id 0 loads)
