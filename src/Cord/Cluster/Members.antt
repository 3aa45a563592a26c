-- ===== src/Cord/Cluster/Members.antt =====
-- `CordClusterManager` of src/cord/cluster.ts: who belongs to a cluster, who is taken for alive, and
-- the heartbeats. What a call of a method sees of the world is fixed while it runs: the time, and
-- what the foundation discovers.
use netab.Common.{
  ℕ, zero, suc, ◌+◌, ◌*◌, String, Bool, true, false, not, ◌&&◌, ◌||◌, List, [], ◌∷◌, ◌++◌, map,
  Option, none, some, Dict, get, set, delete, string_eq, ◌==◌, if◌then◌else◌, ◌⋅◌, max, leb,
  includes, keep, sort_by, split, slice_after,
}
use netab.Json.{
  Value, undefined, null, bool, str, obj, Fields, end, field, fields_of, get_prop, is_truthy,
}
use netab.Cord.Store.{Store, store_get, store_set, store_del, store_list}
use netab.Cord.Registry.{RuntimeNode, CordRegistry, get_node}
use netab.Cord.Cluster.{
  ClusterNodeConfig, member_key, normalize_node_config, is_denied, note_alive, or_zero, or_nobody,
}

-- The surroundings of a call: the order of the locale, the foundation's `self().nodeId`,
-- `isStarted()` and `discover()`, `Date.now()`, and the options of the manager.
pub record Surroundings : Type 0 where
  pub locale_le : String → String → Bool
  pub self_node_id : String
  pub is_started : Bool
  pub discovered : List String
  pub now : ℕ
  pub heartbeat_ms : ℕ

-- A call of `cord.cluster.heartbeat` at a peer; whether it succeeds is not looked at.
pub record Heartbeat : Type 0 where
  pub peer : String
  pub cluster_id : String
  pub node_id : String
  pub ts_ms : ℕ

pub record ClusterState : Type 0 where
  pub store : Store
  pub alive : Dict String (Dict String ℕ)
  pub sent : List Heartbeat

unfoldable pub cluster_key : String → String
cluster_key cluster_id = "clusters/spec/" ⋅ cluster_id

unfoldable pub members_prefix : String → String
members_prefix cluster_id = "clusters/members/" ⋅ cluster_id ⋅ "/"

-- A cluster, with its optional fields as values.
pub record ClusterSpec : Type 0 where
  pub cluster_id : String
  pub name : Value
  pub props : Value

unfoldable pub spec_value : ClusterSpec → Value
spec_value spec = obj (
    field "clusterId" (str spec.cluster_id) (field "name" spec.name (field "props" spec.props end)))

abbrev pub if_text : Value → Value
if_text (str s) = str s
if_text _ = undefined

unfoldable pub normalize_cluster_spec : String → Value → ClusterSpec
normalize_cluster_spec cluster_id value = record {
  cluster_id = cluster_id;
  name = if_text (get_prop "name" (fields_of value));
  props = get_prop "props" (fields_of value);
}

-- `value ?? true`.
abbrev pub or_yes : Value → Value
or_yes undefined = bool true
or_yes null = bool true
or_yes v = v

unfoldable pub default_role : Fields → Fields
default_role role = field "proxyOnly" (bool (is_truthy (get_prop "proxyOnly" role))) (
    field "canSend" (or_yes (get_prop "canSend" role)) (
      field "canReceive" (or_yes (get_prop "canReceive" role)) (
        field "eligibleLeader" (or_yes (get_prop "eligibleLeader" role))
          (field "extra" (get_prop "extra" role) end))))

-- The object that a membership record is.
unfoldable pub config_value : ClusterNodeConfig → Value
config_value cfg = obj (
    field "clusterId" (str cfg.cluster_id) (
      field "nodeId" (str cfg.node_id) (field "role" (obj cfg.role) (field "props" cfg.props end))))

unfoldable pub create_cluster : ClusterSpec → Store → Store
create_cluster spec store = store_set (cluster_key spec.cluster_id) (spec_value spec) store

unfoldable pub delete_entries : List (String × Value) → Store → Store
delete_entries [] store = store
delete_entries (entry ∷ entries) store = delete_entries entries (store_del entry.0 store)

unfoldable pub drop_cluster : (String → String → Bool) → String → ClusterState → ClusterState
drop_cluster locale_le cluster_id state =
    let rest = store_del (cluster_key cluster_id) state.store in
    record state {
      store = delete_entries (store_list locale_le (members_prefix cluster_id) rest) rest;
      alive = delete cluster_id state.alive;
    }

unfoldable pub list_clusters : (String → String → Bool) → Store → List ClusterSpec
list_clusters locale_le store =
    sort_by (λ (left right : ClusterSpec). locale_le left.cluster_id right.cluster_id)
      (map (λ entry. normalize_cluster_spec (slice_after "clusters/spec/" entry.0) entry.1)
        (store_list locale_le "clusters/spec/" store))

abbrev by_node_id : (String → String → Bool) → ClusterNodeConfig → ClusterNodeConfig → Bool
by_node_id locale_le left right = locale_le left.node_id right.node_id

unfoldable pub list_nodes : (String → String → Bool) → String → Store → List ClusterNodeConfig
list_nodes locale_le cluster_id store = sort_by (by_node_id locale_le) (
    map
      (λ entry.
        normalize_node_config cluster_id (slice_after (members_prefix cluster_id) entry.0) entry.1)
      (store_list locale_le (members_prefix cluster_id) store))

-- `parts[n] ?? ''`.
abbrev pub part_at : ℕ → List String → String
part_at n [] = ""
part_at zero (p ∷ ps) = p
part_at (suc n) (p ∷ ps) = part_at n ps

unfoldable pub list_nodes_for : (String → String → Bool) → String → Store → List ClusterNodeConfig
list_nodes_for locale_le node_id store =
    sort_by (λ (left right : ClusterNodeConfig). locale_le left.cluster_id right.cluster_id)
      (keep (λ (item : ClusterNodeConfig). item.node_id == node_id)
        (map
          (λ entry.
            normalize_node_config (part_at 2 (split b'/' entry.0)) (part_at 3 (split b'/' entry.0))
              entry.1)
          (store_list locale_le "clusters/members/" store)))

-- `started` of the node that runs in this process, if it does.
abbrev pub runs_here : Option RuntimeNode → Bool
runs_here none = false
runs_here (some node) = node.started

unfoldable pub is_discoverable : Surroundings → CordRegistry → String → Bool
is_discoverable env registry node_id =
    (node_id == env.self_node_id && env.is_started)
    || runs_here (get_node node_id registry)
    || includes env.discovered node_id

-- `lastSeenMs` of a member.
unfoldable pub last_seen : Surroundings → CordRegistry → Dict String ℕ → String → ℕ
last_seen env registry seen node_id =
    if is_discoverable env registry node_id then max (or_zero (get node_id seen)) env.now else 0

-- `lastSeenMs >= now - heartbeatMs * 3`, where the right side may be negative.
unfoldable pub get_alive_nodes :
    Surroundings → CordRegistry → String → ClusterState → List (String × ℕ)
get_alive_nodes env registry cluster_id state =
    let seen = or_nobody (get cluster_id state.alive) in
    sort_by (λ left right. env.locale_le left.0 right.0)
      (keep (λ item. leb env.now (item.1 + env.heartbeat_ms * 3))
        (map
          (λ (member : ClusterNodeConfig).
            (member.node_id, last_seen env registry seen member.node_id))
          (list_nodes env.locale_le cluster_id state.store)))

unfoldable pub discover_and_suggest : Surroundings → String → ClusterState → List String
discover_and_suggest env cluster_id state =
    let known =
      map (λ (node : ClusterNodeConfig). node.node_id)
        (list_nodes env.locale_le cluster_id state.store) in
    keep (λ node_id. not (includes known node_id)) env.discovered

unfoldable pub handle_heartbeat : String → String → ℕ → ClusterState → ClusterState
handle_heartbeat cluster_id node_id ts_ms state = record state {
  alive = note_alive cluster_id node_id ts_ms state.alive;
}

unfoldable pub list_local_clusters : Surroundings → Store → List ClusterNodeConfig
list_local_clusters env store = list_nodes_for env.locale_le env.self_node_id store

-- The loop of `tickHeartbeats` over the peers of one membership.
unfoldable pub send_heartbeats :
    Surroundings → ClusterNodeConfig → List ClusterNodeConfig → ClusterState → ClusterState
send_heartbeats env membership [] state = state
send_heartbeats env membership (peer ∷ peers) state = send_heartbeats env membership peers (
    if peer.node_id == env.self_node_id
      || is_denied "canReceive" peer
      || is_denied "canSend" membership
    then state
    else record state {
      sent =
          state.sent
          ++ record {
            peer = peer.node_id;
            cluster_id = membership.cluster_id;
            node_id = env.self_node_id;
            ts_ms = env.now;
          }
            ∷ [];
    })

unfoldable pub beat_each : Surroundings → List ClusterNodeConfig → ClusterState → ClusterState
beat_each env [] state = state
beat_each env (membership ∷ memberships) state = beat_each env memberships (
    send_heartbeats env membership (list_nodes env.locale_le membership.cluster_id state.store)
      (handle_heartbeat membership.cluster_id env.self_node_id env.now state))

unfoldable pub tick_heartbeats : Surroundings → ClusterState → ClusterState
tick_heartbeats env state = beat_each env (list_local_clusters env state.store) state

abbrev pub with_cluster : String → Store → Store
with_cluster cluster_id store =
    if is_truthy (store_get (cluster_key cluster_id) store)
    then store
    else create_cluster (record { cluster_id = cluster_id; name = undefined; props = undefined })
        store

unfoldable pub join_cluster : Surroundings → ClusterNodeConfig → ClusterState → ClusterState
join_cluster env cfg state =
    let joined : ClusterState = record state {
      store =
          store_set (member_key cfg.cluster_id cfg.node_id)
            (config_value (record cfg { role = default_role cfg.role }))
            (with_cluster cfg.cluster_id state.store);
      alive = note_alive cfg.cluster_id cfg.node_id env.now state.alive;
    } in
    if cfg.node_id == env.self_node_id then tick_heartbeats env joined else joined

unfoldable pub leave_cluster : Surroundings → String → ClusterState → ClusterState
leave_cluster env cluster_id state = record state {
  store = store_del (member_key cluster_id env.self_node_id) state.store;
  alive = elim (get cluster_id state.alive) [
    | none ↦ state.alive
    | some seen ↦ set cluster_id (delete env.self_node_id seen) state.alive
  ];
}
