-- ===== src/Cord/Election/Tests.antt =====
-- A cluster of two nodes and its election at concrete inputs.
use netab.Cord.Cluster.Pool
use netab.Cord.Cluster.Pool.{Pool, start_pool, start_job, worker_count, takes}
use netab.Cord.Cluster.Pool.Ends.{exec_on_cluster_lem, left_to_do, outcome_ids}
use netab.Common.{
  List, ◌<◌, ◌≤◌, length, split, ℕ, String, true, [], ◌∷◌, map, none, some, ◌≡◌, ◌⊎◌, refl, arith,
  includes, ◌&&◌, if◌then◌else◌, string_eq, nat_eq, ◌==◌, All, string_le, get, set, delete, sort_by,
  insert_by, slice_after,
}
use netab.Json.{undefined, num, obj, end, field, get_prop, is_truthy, strict_eq}
use netab.Cord.Registry.{new_registry, get_node, can_reach}
use netab.Cord.Cluster.{
  ClusterNodeConfig, member_key, get_member, normalize_node_config, is_denied, lease_ms_from_config,
  priority_from_config, note_alive,
}
use netab.Cord.Cluster.Members.{
  Surroundings, ClusterState, list_nodes, is_discoverable, get_alive_nodes, join_cluster,
  default_role, cluster_key, members_prefix, spec_value, config_value, create_cluster,
  list_nodes_for, last_seen, handle_heartbeat, list_local_clusters, send_heartbeats, beat_each,
  tick_heartbeats,
}
use netab.Cord.Cluster.Liveness.{get_alive_nodes_lem}
use netab.Cord.Cluster.Joining.{join_cluster-get_member}
use netab.Cord.Election.{
  acquire_lease, count_votes, approvals, assignment_of, required_votes, cluster_lease_mode,
}
use netab.Cord.Election.Shards.{
  ShardSpec, Electorate, ElectionState, read_assignment, shards_prefix, shard_key, assignment_key,
  normalize_shard, shard_weight, shard_value, normalize_assignment, assignment_value,
  write_assignment, emit_leader_change, list_shards,
}
use netab.Cord.Election.Balance.{choose, comes_first, heavier_first, eligible_nodes}
use netab.Cord.Election.Reconcile.{
  tick, view_of, is_healthy, lease_from_votes, maybe_renew, place, place_each, retain_healthy,
  reconcile_cluster, reconcile_each,
}
use netab.Cord.Election.Manager.{add_shard, force_leader, remove_shard}
use netab.Cord.Election.Choice.{IsPreferred, choose_lem}
use netab.Cord.Election.Terms.{Advances}
use netab.Cord.Election.Tenure.{here, next, ticks, forces_leader, Run-Advances}
use netab.Cord.Store.{store_get, store_set, store_del, store_list}
use netab.Cord.Election.Health.{voters, is_eligible, is_healthy_assignment, is_due}
use netab.Cord.Store.Listing.{In}

abbrev first_node : String
first_node = "n1"

abbrev second_node : String
second_node = "n2"

abbrev the_cluster : String
the_cluster = "c"

abbrev env : Surroundings
env = record {
  locale_le = string_le;
  self_node_id = first_node;
  is_started = true;
  discovered = second_node ∷ [];
  now = 1000;
  heartbeat_ms = 100;
}

abbrev member : String → ℕ → ClusterNodeConfig
member node_id priority = record {
  cluster_id = the_cluster;
  node_id = node_id;
  role = end;
  props = obj (field "priority" (num priority) end);
}

abbrev empty : ClusterState
empty = record { store = []; alive = []; sent = [] }

abbrev both : ClusterState
both = join_cluster env (member second_node 2) (join_cluster env (member first_node 1) empty)

-- Every voter grants every lease for the time that is asked for.
abbrev e : Electorate
e = record {
  env = env;
  lease_ms = 500;
  answer = λ node_id method p. some (record { ok = true; lease_until_ms = 1500 });
}

abbrev start : ElectionState
start = record {
  cluster = both;
  registry = new_registry;
  lease_votes = [];
  callbacks = 7 ∷ [];
  delivered = [];
}

abbrev shard : ShardSpec
shard = record { shard_id = "s"; weight = undefined; props = undefined }

abbrev led : ElectionState
led = add_shard e the_cluster shard start

get_alive_nodes_lem_example :
    includes (map (λ item. item.0) (get_alive_nodes env new_registry the_cluster both)) second_node
    ≡ (includes
          (map
            (λ (m : ClusterNodeConfig). m.node_id)
            (list_nodes env.locale_le the_cluster both.store))
          second_node
        && is_discoverable env new_registry second_node)
get_alive_nodes_lem_example =
    get_alive_nodes_lem env new_registry the_cluster second_node both (omega arith)

join_cluster-get_member_example :
    get_member (join_cluster env (member second_node 2) empty).store the_cluster second_node ≡ (
      if member_key the_cluster second_node == member_key the_cluster second_node
      then some (record {
        cluster_id = the_cluster;
        node_id = second_node;
        role = default_role end;
        props = obj (field "priority" (num 2) end);
      })
      else get_member [] the_cluster second_node)
join_cluster-get_member_example =
    join_cluster-get_member env (member second_node 2) the_cluster second_node empty

choose_lem_example :
    ((choose string_le [] (member first_node 1 ∷ member second_node 2 ∷ []) ≡ none)
      × (member first_node 1 ∷ member second_node 2 ∷ [] ≡ []))
    ⊎ ((chosen : ClusterNodeConfig) × (choose string_le []
            (member first_node 1 ∷ member second_node 2 ∷ [])
          ≡ some chosen)
        × In chosen (member first_node 1 ∷ member second_node 2 ∷ [])
        × All (IsPreferred string_le [] chosen) (member first_node 1 ∷ member second_node 2 ∷ []))
choose_lem_example = choose_lem string_le [] (member first_node 1 ∷ member second_node 2 ∷ [])

Run-Advances_example : Advances (read_assignment the_cluster "s" led.cluster.store) (
    read_assignment the_cluster "s"
      (tick e none (force_leader e the_cluster "s" first_node 100 led)).cluster.store)
Run-Advances_example =
    Run-Advances {s = led} {t = tick e none (force_leader e the_cluster "s" first_node 100 led)}
      the_cluster "s"
      (next (next here (forces_leader e the_cluster "s" first_node 100)) (ticks e none))

abbrev two_nodes : List ClusterNodeConfig
two_nodes = member first_node 1 ∷ member second_node 2 ∷ []

-- One of two jobs runs.
abbrev one_taken : Pool
one_taken =
    start_job (member first_node 1) (member second_node 2 ∷ []) 1 (start_pool none two_nodes)

taken : Pool.Run true (start_pool none two_nodes) one_taken
unfolding start_pool worker_count
taken = Pool.next Pool.here (takes (member first_node 1) (member second_node 2 ∷ []) 1 refl refl)

exec_on_cluster_lem_example :
    ((u : Pool) → Pool.Step true one_taken u → left_to_do u < left_to_do one_taken)
    × (length one_taken.running ≤ worker_count none two_nodes)
    × (((u : Pool) × Pool.Step true one_taken u)
        ⊎ ((length one_taken.results ≡ length two_nodes)
            × ((n : String)
                → includes (outcome_ids one_taken.results) n
                  ≡ includes (map (λ (node : ClusterNodeConfig). node.node_id) two_nodes) n)))
exec_on_cluster_lem_example = exec_on_cluster_lem none two_nodes one_taken taken

-- The node with the higher priority leads at first.
leads_first :
    read_assignment the_cluster "s" led.cluster.store
    ≡ some (record {
      cluster_id = the_cluster;
      shard_id = "s";
      leader_node_id = second_node;
      term = 1;
      lease_until_ms = 1500;
    })
unfolding store_get store_set store_del store_list get set delete sort_by insert_by slice_after
    get_prop is_truthy strict_eq member_key normalize_node_config get_member is_denied
    lease_ms_from_config priority_from_config note_alive cluster_key members_prefix spec_value
    config_value default_role create_cluster list_nodes list_nodes_for is_discoverable last_seen
    get_alive_nodes handle_heartbeat list_local_clusters send_heartbeats beat_each tick_heartbeats
    join_cluster acquire_lease count_votes approvals assignment_of required_votes cluster_lease_mode
    voters is_eligible is_healthy_assignment is_due get_node can_reach new_registry shards_prefix
    shard_key assignment_key normalize_shard shard_weight shard_value normalize_assignment
    assignment_value read_assignment write_assignment emit_leader_change list_shards view_of
    is_healthy lease_from_votes comes_first choose maybe_renew place place_each retain_healthy
    heavier_first eligible_nodes reconcile_cluster reconcile_each tick add_shard remove_shard
    force_leader split string_le
leads_first = refl

-- A shard that is removed and added again begins with the first term once more.
restarts :
    read_assignment the_cluster "s"
      (add_shard e the_cluster shard (
        remove_shard the_cluster "s"
          (force_leader e the_cluster "s" first_node 100 led))).cluster.store
    ≡ read_assignment the_cluster "s" led.cluster.store
unfolding store_get store_set store_del store_list get set delete sort_by insert_by slice_after
    get_prop is_truthy strict_eq member_key normalize_node_config get_member is_denied
    lease_ms_from_config priority_from_config note_alive cluster_key members_prefix spec_value
    config_value default_role create_cluster list_nodes list_nodes_for is_discoverable last_seen
    get_alive_nodes handle_heartbeat list_local_clusters send_heartbeats beat_each tick_heartbeats
    join_cluster acquire_lease count_votes approvals assignment_of required_votes cluster_lease_mode
    voters is_eligible is_healthy_assignment is_due get_node can_reach new_registry shards_prefix
    shard_key assignment_key normalize_shard shard_weight shard_value normalize_assignment
    assignment_value read_assignment write_assignment emit_leader_change list_shards view_of
    is_healthy lease_from_votes comes_first choose maybe_renew place place_each retain_healthy
    heavier_first eligible_nodes reconcile_cluster reconcile_each tick add_shard remove_shard
    force_leader split string_le
restarts = refl
