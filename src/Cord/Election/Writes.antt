-- ===== src/Cord/Election/Writes.antt =====
-- What a step of the reconciliation writes: nothing, or one assignment of its shard.
use netab.Common.{
  ℕ, String, true, false, not, List, [], ◌∷◌, Option, none, some, Dict, string_eq, if◌then◌else◌,
  ◌≡◌, refl, sym, subst, arith,
}
use netab.Cord.Store.{Store}
use netab.Cord.Cluster.{ClusterNodeConfig, get_member, lease_ms_from_config}
use netab.Cord.Cluster.Members.{ClusterState}
use netab.Cord.Election.{LeaderAssignment, LeaseParams, acquire_lease, assignment_of}
use netab.Cord.Election.Health.{is_due}
use netab.Cord.Election.Shards.{
  ShardSpec, Electorate, ElectionState, LeaseMethod, renew_method, request_method, read_assignment,
  write_assignment, emit_leader_change,
}
use netab.Cord.Election.Balance.{choose}
use netab.Cord.Election.Reconcile.{
  lease_from_votes, lease_params, next_term, tell_change, maybe_renew, renew_for, if_renewed,
  if_acquired, place, place_on,
}
use netab.Cord.Election.Terms.{put}

-- From `store`, at most an assignment of the shard that satisfies `P` was written.
pub data Wrote (c d : String) (P : LeaderAssignment → Type 0) (store : Store) : Store → Type 0 where
  kept : Wrote c d P store store
  wrote :
      (a : LeaderAssignment)
      → a.cluster_id ≡ c
      → a.shard_id ≡ d
      → P a
      → Wrote c d P store (put a store)

-- An assignment that the voters grant is the one that was asked for.
abbrev IsAsked : LeaseParams → LeaderAssignment → Type 0
IsAsked p a =
    (a.cluster_id ≡ p.cluster_id)
    × (a.shard_id ≡ p.shard_id)
    × (a.leader_node_id ≡ p.leader_node_id)
    × (a.term ≡ p.term)

assignment_of-IsAsked :
    (p : LeaseParams) (votes : List ℕ) (a : LeaderAssignment)
    → assignment_of p votes ≡ some a
    → IsAsked p a
unfolding assignment_of
assignment_of-IsAsked p [] a h = absurd (cc)
assignment_of-IsAsked p (n ∷ ns) a h =
    (ground (arith, h), ground (arith, h), ground (arith, h), ground (arith, h))

lease_from_votes-IsAsked :
    (e : Electorate) (method : LeaseMethod) (p : LeaseParams) (s : ElectionState)
    (a : LeaderAssignment)
    → lease_from_votes e method p s ≡ some a
    → IsAsked p a
unfolding lease_from_votes acquire_lease
lease_from_votes-IsAsked e method p s a h = assignment_of-IsAsked p _ a h

pub tell_change-cluster :
    (c d : String) (previous : Option LeaderAssignment) (to : String) (s : ElectionState)
    → (tell_change c d previous to s).cluster ≡ s.cluster
unfolding emit_leader_change
tell_change-cluster c d previous to s = ground arith

module _ (e : Electorate) (c : String) (shard : ShardSpec) (s : ElectionState) where
  abbrev Renewed : LeaderAssignment → LeaderAssignment → Type 0
  Renewed current a = (a.leader_node_id ≡ current.leader_node_id) × (a.term ≡ current.term)

  abbrev HasNextTerm : LeaderAssignment → Type 0
  HasNextTerm a = a.term ≡ next_term (read_assignment c shard.shard_id s.cluster.store)

  if_renewed-Wrote :
      (current : LeaderAssignment) (ttl_ms : ℕ) (o : Option LeaderAssignment)
      → lease_from_votes e renew_method
          (lease_params c shard.shard_id current.leader_node_id current.term ttl_ms)
          s
        ≡ o
      → Wrote c shard.shard_id (Renewed current) s.cluster.store (if_renewed o s).cluster.store
  unfolding write_assignment
  if_renewed-Wrote current ttl_ms none h = kept
  if_renewed-Wrote current ttl_ms (some a) h =
      let (own, same, leader, term) = lease_from_votes-IsAsked e renew_method _ s a h in
      wrote a own same (leader, term)

  pub maybe_renew-Wrote :
      (current : LeaderAssignment)
      → Wrote c shard.shard_id
          (Renewed current)
          s.cluster.store
          (maybe_renew e c shard current s).cluster.store
  unfolding maybe_renew
  maybe_renew-Wrote current = go (get_member s.cluster.store c current.leader_node_id)
    where
      go :
          (o : Option ClusterNodeConfig)
          → Wrote c shard.shard_id
              (Renewed current)
              s.cluster.store
              (renew_for e c shard current s o).cluster.store
      go none = kept
      go (some member) =
          elim (not (is_due e.env.now e.lease_ms member current))
            as (λ b.
              Wrote c shard.shard_id (Renewed current) s.cluster.store
                (if b
                  then s
                  else if_renewed
                      (lease_from_votes e renew_method
                        (lease_params c shard.shard_id current.leader_node_id current.term
                          (lease_ms_from_config member e.lease_ms))
                        s)
                      s).cluster.store) [
                        | true ↦ kept
                        | false ↦
                            if_renewed-Wrote current (lease_ms_from_config member e.lease_ms) _ refl
                      ]

  if_acquired-Wrote :
      (chosen : ClusterNodeConfig) (ttl_ms : ℕ) (loads : Dict String ℕ)
      (o : Option LeaderAssignment)
      → lease_from_votes e request_method
          (lease_params c shard.shard_id chosen.node_id
            (next_term (read_assignment c shard.shard_id s.cluster.store))
            ttl_ms)
          s
        ≡ o
      → Wrote c shard.shard_id HasNextTerm s.cluster.store
          (if_acquired shard chosen.node_id
            (read_assignment c shard.shard_id s.cluster.store)
            o
            loads
            s).1.cluster.store
  unfolding write_assignment
  if_acquired-Wrote chosen ttl_ms loads none h = kept
  if_acquired-Wrote chosen ttl_ms loads (some a) h =
      let (own, same, leader, term) = lease_from_votes-IsAsked e request_method _ s a h in
      subst
        (λ (cluster : ClusterState).
          Wrote c shard.shard_id HasNextTerm s.cluster.store cluster.store)
        (sym (
          tell_change-cluster a.cluster_id shard.shard_id
            (read_assignment c shard.shard_id s.cluster.store) a.leader_node_id
            (write_assignment a s)))
        (wrote a own same term)

  pub place-Wrote :
      (eligible : List ClusterNodeConfig) (loads : Dict String ℕ)
      → Wrote c shard.shard_id HasNextTerm s.cluster.store
          (place e c eligible shard loads s).1.cluster.store
  unfolding place
  place-Wrote eligible loads = go (choose e.env.locale_le loads eligible)
    where
      go :
          (o : Option ClusterNodeConfig)
          → Wrote c shard.shard_id HasNextTerm s.cluster.store
              (place_on e c shard loads s o).1.cluster.store
      go none = kept
      go (some chosen) =
          if_acquired-Wrote chosen (lease_ms_from_config chosen e.lease_ms) loads _ refl
