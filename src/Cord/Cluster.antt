-- ===== src/Cord/Cluster.antt =====
-- src/cord/cluster.ts: the membership records, as they are read back from the store.
pub mod Members
pub mod Liveness
pub mod Joining
pub mod Pool
use netab.Common.{
  ℕ, String, Bool, false, [], Option, none, some, Dict, get, set, string_eq, nat_eq, ◌⋅◌, max,
  if◌then◌else◌,
}
use netab.Json.{Value, bool, num, Fields, fields_of, get_prop, strict_eq, is_truthy}
use netab.Cord.Store.{Store}

unfoldable pub member_key : String → String → String
member_key cluster_id node_id = "clusters/members/" ⋅ cluster_id ⋅ "/" ⋅ node_id

pub record ClusterNodeConfig : Type 0 where
  pub cluster_id : String
  pub node_id : String
  pub role : Fields
  pub props : Value

-- `normalizeNodeConfig`.
unfoldable pub normalize_node_config : String → String → Value → ClusterNodeConfig
normalize_node_config cluster_id node_id value = record {
  cluster_id = cluster_id;
  node_id = node_id;
  role = fields_of (get_prop "role" (fields_of value));
  props = get_prop "props" (fields_of value);
}

-- `getNode` of the cluster manager.
unfoldable pub get_member : Store → String → String → Option ClusterNodeConfig
get_member store cluster_id node_id = elim (get (member_key cluster_id node_id) store) [
  | none ↦ none
  | some value ↦
      if is_truthy value then some (normalize_node_config cluster_id node_id value) else none
]

-- `role.eligibleLeader === false` and `role.canReceive === false`.
unfoldable pub is_denied : String → ClusterNodeConfig → Bool
is_denied name config = strict_eq (get_prop name config.role) (bool false)

-- `leaseMsFromConfig` and `priorityFromConfig`.
abbrev number_or : ℕ → Value → ℕ
number_or fallback (num n) = n
number_or fallback _ = fallback

unfoldable pub lease_ms_from_config : ClusterNodeConfig → ℕ → ℕ
lease_ms_from_config config fallback =
    number_or fallback (get_prop "leaseMs" (fields_of config.props))

unfoldable pub priority_from_config : ClusterNodeConfig → ℕ
priority_from_config config = number_or 1 (get_prop "priority" (fields_of config.props))

-- `noteAlive`: when each member of each cluster was last seen.
abbrev pub or_zero : Option ℕ → ℕ
or_zero none = 0
or_zero (some n) = n

abbrev pub or_nobody : Option (Dict String ℕ) → Dict String ℕ
or_nobody none = []
or_nobody (some seen) = seen

unfoldable pub note_alive :
    String → String → ℕ → Dict String (Dict String ℕ) → Dict String (Dict String ℕ)
note_alive cluster_id node_id ts_ms alive =
    let seen = or_nobody (get cluster_id alive) in
    set cluster_id (set node_id (max (or_zero (get node_id seen)) ts_ms) seen) alive
