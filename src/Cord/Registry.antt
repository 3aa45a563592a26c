-- ===== src/Cord/Registry.antt =====
-- src/cord/registry.ts: the nodes of a process, their addresses, and which node can reach which.
-- `register` reads and writes the peer map of the new node both through a variable and through the
-- outer map; the variable's map is stored at the end, so the two may be told apart until then.
pub mod Reachability
use netab.Common.{
  String, Bool, true, false, List, [], ◌∷◌, Option, none, some, Dict, get, set, delete, keys,
  values, keep, sort_by, string_eq, if◌then◌else◌, ◌==◌,
}

-- The fields of a runtime node that the registry reads.
pub record RuntimeNode : Type 0 where
  pub node_id : String
  pub addr_list : List String
  pub started : Bool

abbrev pub PeerMap : Type 0
PeerMap = Dict String Bool

pub record CordRegistry : Type 0 where
  pub nodes : Dict String RuntimeNode
  pub addresses : Dict String String
  pub reachability : Dict String PeerMap

unfoldable pub new_registry : CordRegistry
new_registry = record { nodes = []; addresses = []; reachability = [] }

-- `map.get(id) ?? true` and `map.get(id) ?? new Map()`.
abbrev pub or_true : Option Bool → Bool
or_true none = true
or_true (some b) = b

abbrev pub or_empty : Option PeerMap → PeerMap
or_empty none = []
or_empty (some peers) = peers

unfoldable pub set_addresses : String → List String → Dict String String → Dict String String
set_addresses node_id [] addresses = addresses
set_addresses node_id (addr ∷ addrs) addresses =
    set_addresses node_id addrs (set addr node_id addresses)

-- The loop of `register` over the nodes: the new node's peer map, and the maps of the others.
unfoldable pub link_peers :
    String → List String → PeerMap → Dict String PeerMap → PeerMap × Dict String PeerMap
link_peers node_id [] peer_map reach = (peer_map, reach)
link_peers node_id (peer ∷ peers) peer_map reach =
    link_peers node_id peers (set peer (or_true (get peer peer_map)) peer_map) (
      set peer
        (set node_id (or_true (get node_id (or_empty (get peer reach))))
          (or_empty (get peer reach)))
        reach)

unfoldable pub register : RuntimeNode → CordRegistry → CordRegistry
register node registry =
    let nodes = set node.node_id node registry.nodes in
    let linked =
      link_peers node.node_id (keys nodes) (or_empty (get node.node_id registry.reachability))
        registry.reachability in
    record {
      nodes = nodes;
      addresses = set_addresses node.node_id node.addr_list registry.addresses;
      reachability = set node.node_id linked.0 linked.1;
    }

unfoldable pub delete_all : List String → Dict String String → Dict String String
delete_all [] addresses = addresses
delete_all (addr ∷ addrs) addresses = delete_all addrs (delete addr addresses)

-- `peerMap.delete(nodeId)` of every peer map.
unfoldable pub forget : String → Dict String PeerMap → Dict String PeerMap
forget node_id [] = []
forget node_id ((peer, peers) ∷ reach) = (peer, delete node_id peers) ∷ forget node_id reach

unfoldable pub unregister : String → CordRegistry → CordRegistry
unregister node_id registry = elim (get node_id registry.nodes) [
  | none ↦ registry
  | some node ↦ record {
    nodes = delete node_id registry.nodes;
    addresses = delete_all node.addr_list registry.addresses;
    reachability = forget node_id (delete node_id registry.reachability);
  }
]

unfoldable pub set_reachability : String → String → Bool → CordRegistry → CordRegistry
set_reachability from target reachable registry = record registry {
  reachability =
      set from (set target reachable (or_empty (get from registry.reachability)))
        registry.reachability;
}

unfoldable pub can_reach : String → String → CordRegistry → Bool
can_reach from target registry = or_true (get target (or_empty (get from registry.reachability)))

unfoldable pub get_node : String → CordRegistry → Option RuntimeNode
get_node node_id registry = get node_id registry.nodes

-- An empty node id is no node id.
unfoldable pub get_node_by_addr : String → CordRegistry → Option RuntimeNode
get_node_by_addr addr registry = elim (get addr registry.addresses) [
  | none ↦ none
  | some node_id ↦ if node_id == "" then none else get_node node_id registry
]

unfoldable pub list_started : (String → String → Bool) → CordRegistry → List RuntimeNode
list_started locale_le registry =
    sort_by (λ a b. locale_le a.node_id b.node_id)
      (keep (λ (node : RuntimeNode). node.started) (values registry.nodes))
