-- ===== src/Cord/Cluster/Liveness.antt =====
-- Which members `getAliveNodes` returns.
use netab.Common.{
  ℕ, ◌+◌, ◌*◌, ◌<◌, String, Bool, true, false, ◌&&◌, ◌||◌, List, [], ◌∷◌, map, Dict, get, string_eq,
  ◌==◌, if◌then◌else◌, leb, includes, keep, sort_by, insert_by, ◌≡◌, refl, ◌∙◌, arith,
}
use netab.Cord.Registry.{CordRegistry}
use netab.Cord.Cluster.{ClusterNodeConfig, or_nobody}
use netab.Cord.Cluster.Members.{
  Surroundings, ClusterState, list_nodes, is_discoverable, last_seen, get_alive_nodes,
}

module _ {A : Type 0} (le : A → A → Bool) (name : A → String) (n : String) where
  includes-insert :
      (x : A) (xs : List A)
      → includes (map name (insert_by le x xs)) n ≡ (name x == n || includes (map name xs) n)
  unfolding insert_by
  includes-insert x [] = refl
  includes-insert x (y ∷ ys) = ground (arith, includes-insert x ys)

  includes-sort : (xs : List A) → includes (map name (sort_by le xs)) n ≡ includes (map name xs) n
  unfolding sort_by
  includes-sort [] = refl
  includes-sort (x ∷ xs) = includes-insert x (sort_by le xs) ∙ ground (arith, includes-sort xs)

includes-kept :
    (b : Bool) (x : String × ℕ) (xs : List (String × ℕ)) (n : String)
    → includes (map (λ item. item.0) (if b then x ∷ xs else xs)) n
      ≡ (b && x.0 == n || includes (map (λ item. item.0) xs) n)
includes-kept true x xs n = refl
includes-kept false x xs n = refl

module _ (env : Surroundings) (registry : CordRegistry) (seen : Dict String ℕ) where
  abbrev is_recent : String × ℕ → Bool
  is_recent item = leb env.now (item.1 + env.heartbeat_ms * 3)

  abbrev seen_at : ClusterNodeConfig → String × ℕ
  seen_at member = (member.node_id, last_seen env registry seen member.node_id)

  is_recent_lem :
      (node_id : String)
      → env.heartbeat_ms * 3 < env.now
      → is_recent (node_id, last_seen env registry seen node_id)
        ≡ is_discoverable env registry node_id
  unfolding last_seen
  is_recent_lem node_id h = ground arith

  includes-recent :
      (members : List ClusterNodeConfig) (n : String)
      → env.heartbeat_ms * 3 < env.now
      → includes (map (λ item. item.0) (keep is_recent (map seen_at members))) n ≡ (
          includes (map (λ (m : ClusterNodeConfig). m.node_id) members) n
          && is_discoverable env registry n)
  includes-recent [] n h = ground arith
  includes-recent (m ∷ members) n h =
      includes-kept (is_recent (seen_at m)) (seen_at m) (keep is_recent (map seen_at members)) n
      ∙ ground (
        arith,
        includes-recent members n h,
        is_recent_lem m.node_id h,
        string_eq.equals_iff m.node_id n,
      )

-- `getAliveNodes` takes a member for alive exactly if it can be discovered now, and no other node:
-- when a heartbeat of a node was last heard makes no difference. The clock is past three times the
-- heartbeat's interval.
pub get_alive_nodes_lem :
    (env : Surroundings) (registry : CordRegistry) (cluster_id node_id : String)
    (state : ClusterState)
    → env.heartbeat_ms * 3 < env.now
    → includes (map (λ item. item.0) (get_alive_nodes env registry cluster_id state)) node_id ≡ (
        includes
          (map
            (λ (m : ClusterNodeConfig). m.node_id)
            (list_nodes env.locale_le cluster_id state.store))
          node_id
        && is_discoverable env registry node_id)
unfolding get_alive_nodes
get_alive_nodes_lem env registry cluster_id node_id state h =
    includes-sort _ (λ item. item.0) node_id _
    ∙ includes-recent env registry (or_nobody (get cluster_id state.alive))
        (list_nodes env.locale_le cluster_id state.store) node_id h
