-- ===== src/Cord/Election/Manager.antt =====
-- The public methods of `CordElectionManager` of src/cord/election.ts about shards and leaders.
use netab.Common.{
  ℕ, ◌+◌, String, not, List, [], ◌∷◌, Option, none, some, ◌==◌, string_eq, nat_eq, if◌then◌else◌,
  sort_by, keep, add_once,
}
use netab.Cord.Store.{store_set, store_del}
use netab.Cord.Election.{LeaderAssignment}
use netab.Cord.Election.Shards.{
  ShardSpec, Electorate, ElectionState, shard_key, assignment_key, shard_value, read_assignment,
  write_assignment, emit_leader_change, in_store, list_shards,
}
use netab.Cord.Election.Reconcile.{is_healthy, next_term, tell_change, tick}

unfoldable pub add_shard : Electorate → String → ShardSpec → ElectionState → ElectionState
add_shard e cluster_id shard s =
    tick e (some cluster_id)
      (in_store (store_set (shard_key cluster_id shard.shard_id) (shard_value shard)) s)

abbrev tell_removed : String → String → Option LeaderAssignment → ElectionState → ElectionState
tell_removed cluster_id shard_id none s = s
tell_removed cluster_id shard_id (some previous) s =
    if previous.leader_node_id == ""
    then s
    else emit_leader_change
        (record {
          cluster_id = cluster_id;
          shard_id = shard_id;
          from = some previous.leader_node_id;
          to = "";
        })
        s

unfoldable pub remove_shard : String → String → ElectionState → ElectionState
remove_shard cluster_id shard_id s =
    let without_shard = in_store (store_del (shard_key cluster_id shard_id)) s in
    tell_removed cluster_id shard_id
      (read_assignment cluster_id shard_id without_shard.cluster.store)
      (in_store (store_del (assignment_key cluster_id shard_id)) without_shard)

abbrev pub if_healthy :
    Electorate → String → ElectionState → Option LeaderAssignment → Option LeaderAssignment
if_healthy e cluster_id s none = none
if_healthy e cluster_id s (some a) = if is_healthy e cluster_id s a then some a else none

unfoldable pub get_leader :
    Electorate → String → String → ElectionState → Option LeaderAssignment × ElectionState
get_leader e cluster_id shard_id s =
    let ticked = tick e (some cluster_id) s in
    (
      if_healthy e cluster_id ticked (read_assignment cluster_id shard_id ticked.cluster.store),
      ticked,
    )

abbrev cons_some : Option LeaderAssignment → List LeaderAssignment → List LeaderAssignment
cons_some none rest = rest
cons_some (some a) rest = a ∷ rest

unfoldable pub healthy_leaders :
    Electorate → String → ElectionState → List ShardSpec → List LeaderAssignment
healthy_leaders e cluster_id s [] = []
healthy_leaders e cluster_id s (shard ∷ shards) =
    cons_some
      (if_healthy e cluster_id s (read_assignment cluster_id shard.shard_id s.cluster.store))
      (healthy_leaders e cluster_id s shards)

unfoldable pub list_leaders :
    Electorate → String → ElectionState → List LeaderAssignment × ElectionState
list_leaders e cluster_id s =
    let ticked = tick e (some cluster_id) s in
    (
      sort_by (λ (left right : LeaderAssignment). e.env.locale_le left.shard_id right.shard_id)
          (healthy_leaders e cluster_id ticked
            (list_shards e.env.locale_le cluster_id ticked.cluster.store)),
      ticked,
    )

-- The callback is a member of a set, and the closure that is returned takes it out.
unfoldable pub on_leader_change : ℕ → ElectionState → ElectionState
on_leader_change callback s = record s { callbacks = add_once callback s.callbacks }

unfoldable pub off_leader_change : ℕ → ElectionState → ElectionState
off_leader_change callback s = record s {
  callbacks = keep (λ other. not (other == callback)) s.callbacks;
}

abbrev pub forced :
    Electorate → String → String → String → ℕ → Option LeaderAssignment → LeaderAssignment
forced e cluster_id shard_id node_id ttl_ms current = record {
  cluster_id = cluster_id;
  shard_id = shard_id;
  leader_node_id = node_id;
  term = next_term current;
  lease_until_ms = e.env.now + ttl_ms;
}

unfoldable pub force_leader :
    Electorate → String → String → String → ℕ → ElectionState → ElectionState
force_leader e cluster_id shard_id node_id ttl_ms s =
    let current = read_assignment cluster_id shard_id s.cluster.store in
    tell_change cluster_id shard_id current node_id
      (write_assignment (forced e cluster_id shard_id node_id ttl_ms current) s)
