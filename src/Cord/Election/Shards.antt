-- ===== src/Cord/Election/Shards.antt =====
-- The records and keys of src/cord/election.ts: shards and assignments in the store, what a manager
-- holds, and its surroundings. The voters' answers are a function of what they are asked; a call that
-- fails has no answer.
use netab.Common.{
  ℕ, String, Bool, List, ◌++◌, map, Option, none, some, string_eq, nat_eq, ◌⋅◌, sort_by,
  slice_after,
}
use netab.Json.{Value, undefined, num, str, obj, end, field, fields_of, get_prop}
use netab.Cord.Store.{Store, store_get, store_set, store_list}
use netab.Cord.Registry.{CordRegistry}
use netab.Cord.Cluster.Members.{Surroundings, ClusterState}
use netab.Cord.Election.{LeaseVotes, LeaseParams, LeaseReply, LeaderAssignment}

pub record ShardSpec : Type 0 where
  pub shard_id : String
  pub weight : Value
  pub props : Value

pub record LeaderChangeEvent : Type 0 where
  pub cluster_id : String
  pub shard_id : String
  pub from : Option String
  pub to : String

pub data LeaseMethod : Type 0 where
  request_method renew_method : LeaseMethod

-- The surroundings of the manager, its option `leaseMs`, and the answers of the voters.
pub record Electorate : Type 0 where
  pub env : Surroundings
  pub lease_ms : ℕ
  pub answer : String → LeaseMethod → LeaseParams → Option LeaseReply

-- What this node holds. A callback is a number, and its call a recorded delivery. The handlers of
-- the votes change `lease_votes`, also when this node asks itself; its reply is among the answers.
pub record ElectionState : Type 0 where
  pub cluster : ClusterState
  pub registry : CordRegistry
  pub lease_votes : LeaseVotes
  pub callbacks : List ℕ
  pub delivered : List (ℕ × LeaderChangeEvent)

unfoldable pub shards_prefix : String → String
shards_prefix cluster_id = "election/shards/" ⋅ cluster_id ⋅ "/"

unfoldable pub shard_key : String → String → String
shard_key cluster_id shard_id = "election/shards/" ⋅ cluster_id ⋅ "/" ⋅ shard_id

unfoldable pub assignment_key : String → String → String
assignment_key cluster_id shard_id = "election/assignments/" ⋅ cluster_id ⋅ "/" ⋅ shard_id

abbrev if_number : Value → Value
if_number (num n) = num n
if_number _ = undefined

unfoldable pub normalize_shard : String → Value → ShardSpec
normalize_shard shard_id value = record {
  shard_id = shard_id;
  weight = if_number (get_prop "weight" (fields_of value));
  props = get_prop "props" (fields_of value);
}

-- `shard.weight ?? 1`.
unfoldable pub shard_weight : ShardSpec → ℕ
shard_weight shard = elim shard.weight [ num n ↦ n | _ ↦ 1 ]

unfoldable pub shard_value : ShardSpec → Value
shard_value shard = obj (
    field "shardId" (str shard.shard_id)
      (field "weight" shard.weight (field "props" shard.props end)))

-- The three fields of a stored assignment, if all have their types.
abbrev pub assigned : String → String → Value → Value → Value → Option LeaderAssignment
assigned cluster_id shard_id (str leader) (num term) (num until) = some (record {
  cluster_id = cluster_id;
  shard_id = shard_id;
  leader_node_id = leader;
  term = term;
  lease_until_ms = until;
})
assigned cluster_id shard_id _ _ _ = none

unfoldable pub normalize_assignment : String → String → Value → Option LeaderAssignment
normalize_assignment cluster_id shard_id value =
    assigned cluster_id shard_id (get_prop "leaderNodeId" (fields_of value))
      (get_prop "term" (fields_of value)) (get_prop "leaseUntilMs" (fields_of value))

unfoldable pub assignment_value : LeaderAssignment → Value
assignment_value a = obj (
    field "clusterId" (str a.cluster_id) (
      field "shardId" (str a.shard_id) (
        field "leaderNodeId" (str a.leader_node_id)
          (field "term" (num a.term) (field "leaseUntilMs" (num a.lease_until_ms) end)))))

unfoldable pub read_assignment : String → String → Store → Option LeaderAssignment
read_assignment cluster_id shard_id store =
    normalize_assignment cluster_id shard_id (store_get (assignment_key cluster_id shard_id) store)

abbrev pub in_store : (Store → Store) → ElectionState → ElectionState
in_store f s = record s { cluster = record (s.cluster) { store = f s.cluster.store } }

unfoldable pub write_assignment : LeaderAssignment → ElectionState → ElectionState
write_assignment a =
    in_store (store_set (assignment_key a.cluster_id a.shard_id) (assignment_value a))

unfoldable pub emit_leader_change : LeaderChangeEvent → ElectionState → ElectionState
emit_leader_change event s = record s {
  delivered = s.delivered ++ map (λ callback. (callback, event)) s.callbacks;
}

unfoldable pub list_shards : (String → String → Bool) → String → Store → List ShardSpec
list_shards locale_le cluster_id store =
    sort_by (λ (left right : ShardSpec). locale_le left.shard_id right.shard_id)
      (map (λ entry. normalize_shard (slice_after (shards_prefix cluster_id) entry.0) entry.1)
        (store_list locale_le (shards_prefix cluster_id) store))
