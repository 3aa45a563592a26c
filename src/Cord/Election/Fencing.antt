-- ===== src/Cord/Election/Fencing.antt =====
-- No step of the reconciliation takes a term back.
use netab.Common.{
  ℕ, String, Bool, true, false, List, [], ◌∷◌, Option, none, some, Dict, get, set, string_eq, ◌==◌,
  if◌then◌else◌, ◌≡◌, inl, inr, refl, sym, ap, ◌∙◌, subst, arith, equals-cases, get-set,
}
use netab.Cord.Store.{Store}
use netab.Cord.Cluster.{ClusterNodeConfig}
use netab.Cord.Election.{LeaderAssignment}
use netab.Cord.Election.Shards.{
  ShardSpec, Electorate, ElectionState, read_assignment, list_shards, shard_weight,
}
use netab.Cord.Election.Balance.{eligible_nodes, no_loads, add_load}
use netab.Cord.Election.Reconcile.{
  next_term, maybe_renew, place, place_each, retain_healthy, retain_on, reconcile_cluster,
  reconcile_shards, reconcile_each, tick, is_healthy, view_of, target_clusters,
}
use netab.Cord.Election.Terms.{
  Advances, Advances-refl, AllAdvance, AllAdvance-trans, put, put-AllAdvance, read_assignment-put,
}
use netab.Cord.Election.Writes.{Wrote, kept, wrote, maybe_renew-Wrote, place-Wrote}

read-put :
    (a : LeaderAssignment) (c d : String) (store : Store)
    → a.cluster_id ≡ c
    → read_assignment c d (put a store)
      ≡ (if a.shard_id == d then some (record a { shard_id = d }) else read_assignment c d store)
read-put a c d store own =
    subst
      (λ i.
        read_assignment i d (put a store)
        ≡ (if a.shard_id == d then some (record a { shard_id = d }) else read_assignment i d store))
      own (read_assignment-put a d store)

pub AllAdvance-refl : (s : Store) → AllAdvance s s
AllAdvance-refl s c d = Advances-refl (read_assignment c d s)

-- An assignment of the shard that the stored one may become.
pub put-IsNext :
    (a : LeaderAssignment) (c d : String) (store : Store)
    → a.cluster_id ≡ c
    → a.shard_id ≡ d
    → Advances (read_assignment c d store) (some a)
    → AllAdvance store (put a store)
put-IsNext a c d store own same h = put-AllAdvance a store (
    subst (λ o. Advances o (some a))
      (sym (
        ap (λ i. read_assignment i a.shard_id store) own
        ∙ ap (λ j. read_assignment c j store) same))
      h)

pub next_term-Advances :
    (o : Option LeaderAssignment) (a : LeaderAssignment)
    → a.term ≡ next_term o
    → Advances o (some a)
next_term-Advances none a h = tt
next_term-Advances (some b) a h = (omega (arith, h), λ _. omega (arith, h))

module _ (c : String) (retained : Dict String LeaderAssignment) where
  -- The store still has the leader and the term.
  abbrev StillHas : Store → String → LeaderAssignment → Type 0
  StillHas store d current =
      (b : LeaderAssignment) × (read_assignment c d store ≡ some b)
      × (b.leader_node_id ≡ current.leader_node_id)
      × (b.term ≡ current.term)

  abbrev Agrees : Store → Type 0
  Agrees store =
      (d : String) (current : LeaderAssignment)
      → get d retained ≡ some current
      → StillHas store d current

  renewed-Agrees :
      (d : String) (current : LeaderAssignment) (s t : Store)
      → get d retained ≡ some current
      → Wrote c d (λ a. (a.leader_node_id ≡ current.leader_node_id) × (a.term ≡ current.term)) s t
      → Agrees s
      → Agrees t × AllAdvance s t
  renewed-Agrees d current s t held kept h = (h, AllAdvance-refl s)
  renewed-Agrees d current s t held (wrote a own same (leader, term)) h =
      (after, put-IsNext a c d s own same (advances (h d current held)))
    where
      advances : StillHas s d current → Advances (read_assignment c d s) (some a)
      advances (b, found, leader', term') =
          subst (λ o. Advances o (some a)) (sym found)
            (omega (arith, term, term'), λ ne. absurd (ne (leader' ∙ sym leader)))

      after : Agrees (put a s)
      after i cur k = elim (equals-cases a.shard_id i) [
        | inl (eq, e) ↦
            let one : cur ≡ current =
              ground (arith, k, held, ap (λ j. get j retained) (sym same ∙ e)) in
            (
              record a { shard_id = i },
              ground (arith, read-put a c i s own, eq),
              leader ∙ ap (λ (x : LeaderAssignment). x.leader_node_id) (sym one),
              term ∙ ap (λ (x : LeaderAssignment). x.term) (sym one),
            )
        | inr (other, _) ↦
            let (b, found, leader', term') = h i cur k in
            (b, ground (arith, read-put a c i s own, other, found), leader', term')
      ]

  placed-Agrees :
      (d : String) (s t : Store)
      → get d retained ≡ none
      → Wrote c d (λ a. a.term ≡ next_term (read_assignment c d s)) s t
      → Agrees s
      → Agrees t × AllAdvance s t
  placed-Agrees d s t free kept h = (h, AllAdvance-refl s)
  placed-Agrees d s t free (wrote a own same term) h =
      (after, put-IsNext a c d s own same (next_term-Advances (read_assignment c d s) a term))
    where
      after : Agrees (put a s)
      after i cur k =
          let (b, found, leader', term') = h i cur k in
          (
            b,
            ground (
              arith,
              read-put a c i s own,
              found,
              string_eq.equals_iff a.shard_id i,
              same,
              free,
              k,
              λ (e : a.shard_id ≡ i). ap (λ j. get j retained) (sym same ∙ e),
            ),
            leader',
            term',
          )

  -- The loop over the shards.
  place_each-AllAdvance :
      (e : Electorate) (eligible : List ClusterNodeConfig) (shards : List ShardSpec)
      (loads : Dict String ℕ) (s : ElectionState)
      → Agrees s.cluster.store
      → AllAdvance s.cluster.store (place_each e c eligible retained shards loads s).cluster.store
  unfolding place_each
  place_each-AllAdvance e eligible [] loads s h = AllAdvance-refl s.cluster.store
  place_each-AllAdvance e eligible (shard ∷ shards) loads s h =
      go (get shard.shard_id retained) refl (place_each-AllAdvance e eligible shards)
    where
      go :
          (o : Option LeaderAssignment)
          → get shard.shard_id retained ≡ o
          → ((loads' : Dict String ℕ) (t : ElectionState)
              → Agrees t.cluster.store
              → AllAdvance t.cluster.store
                  (place_each e c eligible retained shards loads' t).cluster.store)
          → AllAdvance s.cluster.store
              (place_each e c eligible retained (shard ∷ shards) loads s).cluster.store
      go (some current) held later =
          let (agrees, first) =
            renewed-Agrees shard.shard_id current s.cluster.store _ held
              (maybe_renew-Wrote e c shard s current) h in
          let eq : place_each e c eligible retained shards loads (maybe_renew e c shard current s)
              ≡ place_each e c eligible retained (shard ∷ shards) loads s =
            ground (arith, held) in
          subst (λ (t : ElectionState). AllAdvance s.cluster.store t.cluster.store) eq
            (AllAdvance-trans s.cluster.store (maybe_renew e c shard current s).cluster.store
              (place_each e c eligible retained shards loads
                (maybe_renew e c shard current s)).cluster.store
              first (later loads (maybe_renew e c shard current s) agrees))
      go none free later =
          let (agrees, first) =
            placed-Agrees shard.shard_id s.cluster.store _ free
              (place-Wrote e c shard s eligible loads) h in
          let eq : place_each e c eligible retained shards (place e c eligible shard loads s).0
                (place e c eligible shard loads s).1
              ≡ place_each e c eligible retained (shard ∷ shards) loads s =
            ground (arith, free) in
          subst (λ (t : ElectionState). AllAdvance s.cluster.store t.cluster.store) eq
            (AllAdvance-trans s.cluster.store (place e c eligible shard loads s).1.cluster.store
              (place_each e c eligible retained shards (place e c eligible shard loads s).0
                (place e c eligible shard loads s).1).cluster.store
              first
              (later (place e c eligible shard loads s).0 (place e c eligible shard loads s).1
                agrees))

-- What is retained is what the store holds.
retain_on-Agrees :
    (e : Electorate) (c : String) (s : ElectionState) (shard : ShardSpec)
    (retained : Dict String LeaderAssignment) (loads : Dict String ℕ) (o : Option LeaderAssignment)
    → read_assignment c shard.shard_id s.cluster.store ≡ o
    → Agrees c retained s.cluster.store
    → Agrees c (retain_on e c s shard retained loads o).0 s.cluster.store
retain_on-Agrees e c s shard retained loads none found h = h
retain_on-Agrees e c s shard retained loads (some current) found h =
    go (is_healthy e c s current) own
  where
    own : Agrees c (set shard.shard_id current retained) s.cluster.store
    own d cur k = elim (equals-cases shard.shard_id d) [
      | inl (same, e') ↦
          let one : current ≡ cur =
            ground (arith, same, k, get-set shard.shard_id d current retained) in
          (
            current,
            subst (λ i. read_assignment c i s.cluster.store ≡ some current) e' found,
            ap (λ (x : LeaderAssignment). x.leader_node_id) one,
            ap (λ (x : LeaderAssignment). x.term) one,
          )
      | inr (other, _) ↦
          h d cur (ground (arith, other, k, get-set shard.shard_id d current retained))
    ]

    go :
        (b : Bool)
        → Agrees c (set shard.shard_id current retained) s.cluster.store
        → Agrees c
            (let kept_now : Dict String LeaderAssignment × Dict String ℕ =
                if b
                then (
                  set shard.shard_id current retained,
                  add_load current.leader_node_id (shard_weight shard) loads,
                )
                else (retained, loads) in
              kept_now.0)
            s.cluster.store
    go true k = k
    go false k = h

retain_healthy-Agrees :
    (e : Electorate) (c : String) (s : ElectionState) (shards : List ShardSpec)
    (retained : Dict String LeaderAssignment) (loads : Dict String ℕ)
    → Agrees c retained s.cluster.store
    → Agrees c (retain_healthy e c s shards retained loads).0 s.cluster.store
unfolding retain_healthy
retain_healthy-Agrees e c s [] retained loads h = h
retain_healthy-Agrees e c s (shard ∷ shards) retained loads h =
    retain_healthy-Agrees e c s shards _ _ (retain_on-Agrees e c s shard retained loads _ refl h)

nothing-Agrees : (c : String) (store : Store) → Agrees c [] store
unfolding get
nothing-Agrees c store d current k = absurd (cc)

pub reconcile_cluster-AllAdvance :
    (e : Electorate) (c : String) (s : ElectionState)
    → AllAdvance s.cluster.store (reconcile_cluster e c s).cluster.store
unfolding reconcile_cluster
reconcile_cluster-AllAdvance e c s =
    go (list_shards e.env.locale_le c s.cluster.store) (eligible_nodes (view_of e.env c s))
  where
    go :
        (shards : List ShardSpec) (eligible : List ClusterNodeConfig)
        → AllAdvance s.cluster.store (reconcile_shards e c s shards eligible).cluster.store
    go [] eligible = AllAdvance-refl s.cluster.store
    go (shard ∷ shards) [] = AllAdvance-refl s.cluster.store
    go (shard ∷ shards) (node ∷ nodes) =
        let kept_ones = retain_healthy e c s (shard ∷ shards) [] (no_loads (node ∷ nodes) []) in
        place_each-AllAdvance c kept_ones.0 e (node ∷ nodes) _ kept_ones.1 s (
          retain_healthy-Agrees e c s (shard ∷ shards) [] (no_loads (node ∷ nodes) [])
            (nothing-Agrees c s.cluster.store))

pub tick-AllAdvance :
    (e : Electorate) (o : Option String) (s : ElectionState)
    → AllAdvance s.cluster.store (tick e o s).cluster.store
unfolding tick reconcile_each
tick-AllAdvance e o s = go (target_clusters e o s) s
  where
    go :
        (cs : List String) (t : ElectionState)
        → AllAdvance t.cluster.store (reconcile_each e cs t).cluster.store
    go [] t = AllAdvance-refl t.cluster.store
    go (c ∷ cs) t =
        AllAdvance-trans t.cluster.store (reconcile_cluster e c t).cluster.store
          (reconcile_each e (c ∷ cs) t).cluster.store (reconcile_cluster-AllAdvance e c t)
          (go cs (reconcile_cluster e c t))
