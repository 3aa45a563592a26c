-- ===== src/Cord/Cluster/Joining.antt =====
-- What `getNode` reads back after a node joined or left a cluster.
use netab.Common.{
  String, List, [], ◌∷◌, Option, none, some, get, string_eq, ◌==◌, ◌⋅◌, if◌then◌else◌, ◌≡◌, ◌≢◌,
  refl, sym, ap, ◌∙◌, arith, get-set, inl, inr, Option-cases, Bool-cases, equals-false_iff,
}
use text.Mathlib.TextLemmas.{append_assoc, append_inj}
use netab.Json.{Value, get_prop, is_truthy, undefined}
use netab.Cord.Store.{Store, store_set}
use netab.Cord.Cluster.{ClusterNodeConfig, member_key, normalize_node_config, get_member}
use netab.Cord.Cluster.Members.{
  Surroundings, ClusterState, cluster_key, create_cluster, spec_value, with_cluster, config_value,
  default_role, join_cluster, tick_heartbeats, beat_each, send_heartbeats, handle_heartbeat,
  list_nodes,
}

-- What `getNode` makes of what is stored under its key.
abbrev member_of : String → String → Option Value → Option ClusterNodeConfig
member_of c n none = none
member_of c n (some value) =
    if is_truthy value then some (normalize_node_config c n value) else none

get_member_lem :
    (store : Store) (c n : String)
    → get_member store c n ≡ member_of c n (get (member_key c n) store)
unfolding get_member
get_member_lem store c n = elim (Option-cases (get (member_key c n) store)) [
  | inl e ↦ ground (arith, e)
  | inr (v, e) ↦ ground (arith, e)
]

-- Heartbeats write nothing into the store.
send_heartbeats-store :
    (env : Surroundings) (m : ClusterNodeConfig) (peers : List ClusterNodeConfig) (s : ClusterState)
    → (send_heartbeats env m peers s).store ≡ s.store
unfolding send_heartbeats
send_heartbeats-store env m [] s = refl
send_heartbeats-store env m (p ∷ peers) s = send_heartbeats-store env m peers _ ∙ ground arith

beat_each-store :
    (env : Surroundings) (ms : List ClusterNodeConfig) (s : ClusterState)
    → (beat_each env ms s).store ≡ s.store
unfolding beat_each handle_heartbeat
beat_each-store env [] s = refl
beat_each-store env (m ∷ ms) s =
    beat_each-store env ms _
    ∙ send_heartbeats-store env m (list_nodes env.locale_le m.cluster_id s.store)
        (handle_heartbeat m.cluster_id env.self_node_id env.now s)

cluster_key-ne-member_key : (c d n : String) → cluster_key c ≢ member_key d n
unfolding cluster_key member_key
cluster_key-ne-member_key c d n e =
    (equals-false_iff "clusters/s" "clusters/m").0 refl
      (append_inj
        (sym (append_assoc "clusters/s" "pec/" c)
          ∙ e
          ∙ append_assoc "clusters/m" "embers/" (d ⋅ "/" ⋅ n))
        refl).0

-- The store after a node joined: the record of the cluster is there, and its own record.
join_cluster-store :
    (env : Surroundings) (cfg : ClusterNodeConfig) (s : ClusterState)
    → (join_cluster env cfg s).store
      ≡ store_set
          (member_key cfg.cluster_id cfg.node_id)
          (config_value (record cfg { role = default_role cfg.role }))
          (with_cluster cfg.cluster_id s.store)
unfolding join_cluster tick_heartbeats
join_cluster-store env cfg s = elim (Bool-cases (cfg.node_id == env.self_node_id)) [
  | inl same ↦ rw same (beat_each-store env _ _)
  | inr other ↦ rw other
]

get-with_cluster :
    (c d n : String) (store : Store)
    → get (member_key d n) (with_cluster c store) ≡ get (member_key d n) store
unfolding create_cluster store_set
get-with_cluster c d n store = ground (
  arith,
  get-set (cluster_key c) (member_key d n)
      (spec_value (record { cluster_id = c; name = undefined; props = undefined })) store,
  string_eq.equals_iff (cluster_key c) (member_key d n),
  cluster_key-ne-member_key c d n,
)

joined_record :
    (cfg : ClusterNodeConfig) (c n : String)
    → member_of c n (some (config_value cfg))
      ≡ some (record { cluster_id = c; node_id = n; role = cfg.role; props = cfg.props })
unfolding config_value normalize_node_config get_prop is_truthy
joined_record cfg c n = refl

-- After a node joined, `getNode` finds it with the role that it came with, where what the role
-- leaves open is permitted; any other member of any cluster is found as it was. That is so for the
-- keys under which they are stored.
pub join_cluster-get_member :
    (env : Surroundings) (cfg : ClusterNodeConfig) (c n : String) (s : ClusterState)
    → get_member (join_cluster env cfg s).store c n ≡ (
        if member_key cfg.cluster_id cfg.node_id == member_key c n
        then some (record {
          cluster_id = c;
          node_id = n;
          role = default_role cfg.role;
          props = cfg.props;
        })
        else get_member s.store c n)
unfolding store_set
join_cluster-get_member env cfg c n s =
    ap (λ store. get_member store c n) (join_cluster-store env cfg s)
    ∙ get_member_lem _ c n
    ∙ ap (member_of c n) (
        get-set (member_key cfg.cluster_id cfg.node_id) (member_key c n) _
          (with_cluster cfg.cluster_id s.store))
    ∙ elim (Bool-cases (member_key cfg.cluster_id cfg.node_id == member_key c n)) [
      | inl same ↦ rw same (joined_record (record cfg { role = default_role cfg.role }) c n)
      | inr other ↦ rw other (
          ap (member_of c n) (get-with_cluster cfg.cluster_id c n s.store)
          ∙ sym (get_member_lem s.store c n))
    ]
