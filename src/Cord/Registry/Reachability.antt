-- ===== src/Cord/Registry/Reachability.antt =====
-- Reachability between nodes that come and go.
use netab.Common.{
  String, Bool, List, [], ◌∷◌, none, some, Dict, get, set, delete, get-set, get-delete, keys,
  string_eq, ◌||◌, ◌≡◌, refl, ◌∙◌, arith, if◌then◌else◌, ◌==◌,
}
use netab.Cord.Registry.{
  RuntimeNode, PeerMap, CordRegistry, or_true, or_empty, link_peers, register, forget, unregister,
  set_reachability, can_reach,
}

abbrev no_peers : PeerMap
no_peers = []

abbrev reaches : String → String → Dict String PeerMap → Bool
reaches from target reach = or_true (get target (or_empty (get from reach)))

-- The loop of `register` writes only what reading would default to.
link_peers-peer_map :
    (node_id target : String) (peers : List String) (peer_map : PeerMap)
    (reach : Dict String PeerMap)
    → or_true (get target (link_peers node_id peers peer_map reach).0)
      ≡ or_true (get target peer_map)
unfolding link_peers
link_peers-peer_map node_id target [] peer_map reach = refl
link_peers-peer_map node_id target (peer ∷ peers) peer_map reach =
    link_peers-peer_map node_id target peers _ _
    ∙ ground (
      arith,
      get-set peer target (or_true (get peer peer_map)) peer_map,
      string_eq.equals_iff peer target,
    )

set-reaches :
    (peer node_id from target : String) (reach : Dict String PeerMap)
    → reaches from target (
        set peer
          (set node_id
            (or_true (get node_id (or_empty (get peer reach))))
            (or_empty (get peer reach)))
          reach)
      ≡ reaches from target reach
set-reaches peer node_id from target reach =
    let old = or_empty (get peer reach) in
    ground (
      arith,
      get-set peer from (set node_id (or_true (get node_id old)) old) reach,
      get-set node_id target (or_true (get node_id old)) old,
      string_eq.equals_iff peer from,
      string_eq.equals_iff node_id target,
    )

link_peers-reaches :
    (node_id from target : String) (peers : List String) (peer_map : PeerMap)
    (reach : Dict String PeerMap)
    → reaches from target (link_peers node_id peers peer_map reach).1 ≡ reaches from target reach
unfolding link_peers
link_peers-reaches node_id from target [] peer_map reach = refl
link_peers-reaches node_id from target (peer ∷ peers) peer_map reach =
    link_peers-reaches node_id from target peers _ _ ∙ set-reaches peer node_id from target reach

-- Registering a node, new or known, does not change which node can reach which.
pub can_reach-register :
    (node : RuntimeNode) (registry : CordRegistry) (from target : String)
    → can_reach from target (register node registry) ≡ can_reach from target registry
unfolding can_reach register
can_reach-register node registry from target =
    let nodes = keys (set node.node_id node registry.nodes) in
    let own = or_empty (get node.node_id registry.reachability) in
    let linked : PeerMap × Dict String PeerMap =
      link_peers node.node_id nodes own registry.reachability in
    ground (
      arith,
      get-set node.node_id from linked.0 linked.1,
      link_peers-peer_map node.node_id target nodes own registry.reachability,
      link_peers-reaches node.node_id from target nodes own registry.reachability,
      string_eq.equals_iff node.node_id from,
    )

get_nobody : (target : String) → get target no_peers ≡ none
unfolding get
get_nobody target = refl

get-forget :
    (node_id from : String) (reach : Dict String PeerMap)
    → or_empty (get from (forget node_id reach)) ≡ delete node_id (or_empty (get from reach))
unfolding forget get
get-forget node_id from [] = unfold delete in refl
get-forget node_id from ((peer, peers) ∷ reach) = ground (arith, get-forget node_id from reach)

pub can_reach-unregister :
    (node_id : String) (registry : CordRegistry) (node : RuntimeNode) (from target : String)
    → get node_id registry.nodes ≡ some node
    → can_reach from target (unregister node_id registry)
      ≡ (node_id == from || node_id == target || can_reach from target registry)
unfolding can_reach unregister
can_reach-unregister node_id registry node from target found = ground (
  arith,
  found,
  get-forget node_id from (delete node_id registry.reachability),
  get-delete node_id from registry.reachability,
  get-delete node_id target (or_empty (get from registry.reachability)),
  get-delete node_id target no_peers,
  get_nobody target,
)

-- What is set for a pair of nodes is what `canReach` says of it, in that direction; no other pair
-- is touched.
pub can_reach-set_reachability :
    (a b : String) (reachable : Bool) (registry : CordRegistry) (from target : String)
    → can_reach from target (set_reachability a b reachable registry) ≡ (
        if a == from
        then (if b == target then reachable else can_reach from target registry)
        else can_reach from target registry)
unfolding can_reach set_reachability
can_reach-set_reachability a b reachable registry from target = ground (
  arith,
  get-set a from (set b reachable (or_empty (get a registry.reachability))) registry.reachability,
  get-set b target reachable (or_empty (get a registry.reachability)),
  string_eq.equals_iff a from,
)
