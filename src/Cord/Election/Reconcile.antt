-- ===== src/Cord/Election/Reconcile.antt =====
-- The choice of a leader and the reconciliation of a cluster in `CordElectionManager` of
-- src/cord/election.ts. While a call of a method runs, the time and what is discovered stay as they are.
use netab.Common.{
  ℕ, ◌+◌, String, Bool, false, not, List, [], ◌∷◌, map, Option, none, some, Dict, get, set,
  string_eq, nat_eq, ◌==◌, if◌then◌else◌, sort_by, string_le, unique,
}
use netab.Json.{Value, is_truthy}
use netab.Cord.Store.{store_get}
use netab.Cord.Cluster.{ClusterNodeConfig, get_member, lease_ms_from_config}
use netab.Cord.Cluster.Members.{
  Surroundings, cluster_key, list_nodes, get_alive_nodes, list_local_clusters,
}
use netab.Cord.Election.{LeaseParams, LeaderAssignment, cluster_lease_mode, acquire_lease}
use netab.Cord.Election.Health.{ClusterView, voters, is_healthy_assignment, is_due}
use netab.Cord.Election.Shards.{
  ShardSpec, LeaseMethod, Electorate, ElectionState, shard_weight, read_assignment,
  write_assignment, emit_leader_change, list_shards, request_method, renew_method,
}
use netab.Cord.Election.Balance.{choose, add_load, heavier_first, eligible_nodes, no_loads}

abbrev spec_or_none : Value → Option Value
spec_or_none value = if is_truthy value then some value else none

-- What the cluster manager and the stored spec say of a cluster.
unfoldable pub view_of : Surroundings → String → ElectionState → ClusterView
view_of env cluster_id s = record {
  members = list_nodes env.locale_le cluster_id s.cluster.store;
  alive = map (λ item. item.0) (get_alive_nodes env s.registry cluster_id s.cluster);
  lease_mode =
      cluster_lease_mode (spec_or_none (store_get (cluster_key cluster_id) s.cluster.store));
}

unfoldable pub is_healthy : Electorate → String → ElectionState → LeaderAssignment → Bool
is_healthy e cluster_id s a =
    is_healthy_assignment e.env.now (view_of e.env cluster_id s) s.registry
      (get_member s.cluster.store cluster_id a.leader_node_id) a

-- What `acquireLease` and `renewLease` get from the voters.
unfoldable pub lease_from_votes :
    Electorate → LeaseMethod → LeaseParams → ElectionState → Option LeaderAssignment
lease_from_votes e method p s =
    let view = view_of e.env p.cluster_id s in
    acquire_lease view.lease_mode p (
      map (λ (voter : ClusterNodeConfig). e.answer voter.node_id method p)
        (voters view s.registry p.leader_node_id))

-- `term` of the next assignment: `(previous?.term ?? 0) + 1`.
abbrev pub next_term : Option LeaderAssignment → ℕ
next_term none = 1
next_term (some previous) = previous.term + 1

abbrev pub leader_of : Option LeaderAssignment → Option String
leader_of none = none
leader_of (some previous) = some previous.leader_node_id

abbrev pub leads : Option LeaderAssignment → String → Bool
leads none node_id = false
leads (some previous) node_id = previous.leader_node_id == node_id

abbrev pub tell_change :
    String → String → Option LeaderAssignment → String → ElectionState → ElectionState
tell_change cluster_id shard_id previous to s =
    if leads previous to
    then s
    else emit_leader_change
        (record {
          cluster_id = cluster_id;
          shard_id = shard_id;
          from = leader_of previous;
          to = to;
        })
        s

-- `maybeRenew`.
abbrev pub if_renewed : Option LeaderAssignment → ElectionState → ElectionState
if_renewed none s = s
if_renewed (some renewed) s = write_assignment renewed s

abbrev pub lease_params : String → String → String → ℕ → ℕ → LeaseParams
lease_params cluster_id shard_id leader term ttl_ms = record {
  cluster_id = cluster_id;
  shard_id = shard_id;
  term = term;
  ttl_ms = ttl_ms;
  leader_node_id = leader;
}

-- `member` is what `getNode` returns for the leader.
abbrev pub renew_for :
    Electorate
    → String
    → ShardSpec
    → LeaderAssignment
    → ElectionState
    → Option ClusterNodeConfig
    → ElectionState
renew_for e cluster_id shard current s none = s
renew_for e cluster_id shard current s (some member) =
    if not (is_due e.env.now e.lease_ms member current)
    then s
    else if_renewed
        (lease_from_votes e renew_method
          (lease_params cluster_id shard.shard_id current.leader_node_id current.term
            (lease_ms_from_config member e.lease_ms))
          s)
        s

unfoldable pub maybe_renew :
    Electorate → String → ShardSpec → LeaderAssignment → ElectionState → ElectionState
maybe_renew e cluster_id shard current s =
    renew_for e cluster_id shard current s
      (get_member s.cluster.store cluster_id current.leader_node_id)

-- A shard without a healthy leader: the loads and the state after an attempt to give it one.
abbrev pub if_acquired :
    ShardSpec
    → String
    → Option LeaderAssignment
    → Option LeaderAssignment
    → Dict String ℕ
    → ElectionState
    → Dict String ℕ × ElectionState
if_acquired shard chosen previous none loads s = (loads, s)
if_acquired shard chosen previous (some a) loads s = (
  add_load chosen (shard_weight shard) loads,
  tell_change a.cluster_id shard.shard_id previous a.leader_node_id (write_assignment a s),
)

abbrev pub place_on :
    Electorate
    → String
    → ShardSpec
    → Dict String ℕ
    → ElectionState
    → Option ClusterNodeConfig
    → Dict String ℕ × ElectionState
place_on e cluster_id shard loads s none = (loads, s)
place_on e cluster_id shard loads s (some chosen) =
    let previous = read_assignment cluster_id shard.shard_id s.cluster.store in
    if_acquired shard chosen.node_id previous
      (lease_from_votes e request_method
        (lease_params cluster_id shard.shard_id chosen.node_id (next_term previous)
          (lease_ms_from_config chosen e.lease_ms))
        s)
      loads s

unfoldable pub place :
    Electorate
    → String
    → List ClusterNodeConfig
    → ShardSpec
    → Dict String ℕ
    → ElectionState
    → Dict String ℕ × ElectionState
place e cluster_id eligible shard loads s =
    place_on e cluster_id shard loads s (choose e.env.locale_le loads eligible)

-- The loop over the sorted shards.
unfoldable pub place_each :
    Electorate
    → String
    → List ClusterNodeConfig
    → Dict String LeaderAssignment
    → List ShardSpec
    → Dict String ℕ
    → ElectionState
    → ElectionState
place_each e cluster_id eligible retained [] loads s = s
place_each e cluster_id eligible retained (shard ∷ shards) loads s =
    elim (get shard.shard_id retained) [
      | some current ↦
          place_each e cluster_id eligible retained shards loads
            (maybe_renew e cluster_id shard current s)
      | none ↦
          place_each e cluster_id eligible retained shards
            (place e cluster_id eligible shard loads s).0
            (place e cluster_id eligible shard loads s).1
    ]

-- One round of the loop that keeps the healthy assignments, with the loads of their leaders.
abbrev pub retain_on :
    Electorate
    → String
    → ElectionState
    → ShardSpec
    → Dict String LeaderAssignment
    → Dict String ℕ
    → Option LeaderAssignment
    → Dict String LeaderAssignment × Dict String ℕ
retain_on e cluster_id s shard retained loads none = (retained, loads)
retain_on e cluster_id s shard retained loads (some current) =
    if is_healthy e cluster_id s current
    then (
      set shard.shard_id current retained,
      add_load current.leader_node_id (shard_weight shard) loads,
    )
    else (retained, loads)

unfoldable pub retain_healthy :
    Electorate
    → String
    → ElectionState
    → List ShardSpec
    → Dict String LeaderAssignment
    → Dict String ℕ
    → Dict String LeaderAssignment × Dict String ℕ
retain_healthy e cluster_id s [] retained loads = (retained, loads)
retain_healthy e cluster_id s (shard ∷ shards) retained loads =
    let next =
      retain_on e cluster_id s shard retained loads
        (read_assignment cluster_id shard.shard_id s.cluster.store) in
    retain_healthy e cluster_id s shards next.0 next.1

abbrev pub reconcile_shards :
    Electorate → String → ElectionState → List ShardSpec → List ClusterNodeConfig → ElectionState
reconcile_shards e cluster_id s [] eligible = s
reconcile_shards e cluster_id s (shard ∷ shards) [] = s
reconcile_shards e cluster_id s (shard ∷ shards) (node ∷ nodes) =
    let kept = retain_healthy e cluster_id s (shard ∷ shards) [] (no_loads (node ∷ nodes) []) in
    place_each e cluster_id (node ∷ nodes) kept.0
      (sort_by (heavier_first e.env.locale_le) (shard ∷ shards)) kept.1 s

unfoldable pub reconcile_cluster : Electorate → String → ElectionState → ElectionState
reconcile_cluster e cluster_id s =
    reconcile_shards e cluster_id s (list_shards e.env.locale_le cluster_id s.cluster.store)
      (eligible_nodes (view_of e.env cluster_id s))

unfoldable pub reconcile_each : Electorate → List String → ElectionState → ElectionState
reconcile_each e [] s = s
reconcile_each e (cluster_id ∷ cluster_ids) s =
    reconcile_each e cluster_ids (reconcile_cluster e cluster_id s)

unfoldable pub local_clusters : Electorate → ElectionState → List String
local_clusters e s = sort_by string_le (
    unique (
      map (λ (item : ClusterNodeConfig). item.cluster_id)
        (list_local_clusters e.env s.cluster.store)))

-- `clusterId ? [clusterId] : await this.localClusters()`.
abbrev pub target_clusters : Electorate → Option String → ElectionState → List String
target_clusters e none s = local_clusters e s
target_clusters e (some cluster_id) s =
    if cluster_id == "" then local_clusters e s else cluster_id ∷ []

unfoldable pub tick : Electorate → Option String → ElectionState → ElectionState
tick e cluster_id s = reconcile_each e (target_clusters e cluster_id s) s
