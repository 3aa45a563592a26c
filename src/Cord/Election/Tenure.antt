-- ===== src/Cord/Election/Tenure.antt =====
-- Runs of the election on one node: any calls of its methods but `removeShard`, in any surroundings
-- and with any answers of the voters, and writes of others that leave the assignments alone.
use netab.Common.{
  ℕ, String, Option, some, ◌≡◌, ◌≢◌, refl, sym, ap, ◌∙◌, subst, string_eq, if◌then◌else◌, ◌⋅◌,
  equals-false_iff,
}
use netab.Json.{Value}
use text.Mathlib.TextLemmas.{append_assoc, append_inj}
use netab.Cord.Store.{Store, store_get, store_set}
use netab.Cord.Store.Reading.{store_get-store_set}
use netab.Cord.Cluster.Members.{ClusterState}
use netab.Cord.Election.{LeaderAssignment}
use netab.Cord.Election.Shards.{
  ShardSpec, Electorate, ElectionState, read_assignment, normalize_assignment, assignment_key,
  shard_key, shard_value, write_assignment, in_store,
}
use netab.Cord.Election.Reconcile.{tick}
use netab.Cord.Election.Manager.{
  add_shard, force_leader, forced, get_leader, list_leaders, on_leader_change, off_leader_change,
}
use netab.Cord.Election.Terms.{
  Advances, Advances-refl, Advances-trans, AllAdvance, AllAdvance-trans,
}
use netab.Cord.Election.Writes.{tell_change-cluster}
use netab.Cord.Election.Fencing.{AllAdvance-refl, put-IsNext, next_term-Advances, tick-AllAdvance}

pub data Step (s : ElectionState) : ElectionState → Type 0 where
  ticks : (e : Electorate) (cluster_id : Option String) → Step s (tick e cluster_id s)
  adds_shard :
      (e : Electorate) (cluster_id : String) (shard : ShardSpec)
      → Step s (add_shard e cluster_id shard s)
  forces_leader :
      (e : Electorate) (cluster_id shard_id node_id : String) (ttl_ms : ℕ)
      → Step s (force_leader e cluster_id shard_id node_id ttl_ms s)
  gets_leader :
      (e : Electorate) (cluster_id shard_id : String)
      → Step s (get_leader e cluster_id shard_id s).1
  lists_leaders : (e : Electorate) (cluster_id : String) → Step s (list_leaders e cluster_id s).1
  subscribes : (callback : ℕ) → Step s (on_leader_change callback s)
  unsubscribes : (callback : ℕ) → Step s (off_leader_change callback s)
  meanwhile :
      (after : ElectionState)
      → ((c d : String)
          → read_assignment c d after.cluster.store ≡ read_assignment c d s.cluster.store)
      → Step s after

pub data Run (s : ElectionState) : ElectionState → Type 0 where
  here : Run s s
  next : {t u : ElectionState} → Run s t → Step t u → Run s u

shard_key-ne-assignment_key : (c d c' d' : String) → shard_key c d ≢ assignment_key c' d'
unfolding shard_key assignment_key
shard_key-ne-assignment_key c d c' d' e =
    (equals-false_iff "election/s" "election/a").0 refl
      (append_inj
        (sym (append_assoc "election/s" "hards/" (c ⋅ "/" ⋅ d))
          ∙ e
          ∙ append_assoc "election/a" "ssignments/" (c' ⋅ "/" ⋅ d'))
        refl).0

other_key :
    (key c d : String) (value : Value) (store : Store)
    → key ≢ assignment_key c d
    → read_assignment c d (store_set key value store) ≡ read_assignment c d store
unfolding read_assignment
other_key key c d value store ne = ap (normalize_assignment c d) (
    store_get-store_set key (assignment_key c d) value store
    ∙ ap (λ b. if b then value else store_get (assignment_key c d) store)
        ((equals-false_iff key (assignment_key c d)).1 ne))

add_shard-AllAdvance :
    (e : Electorate) (c : String) (shard : ShardSpec) (s : ElectionState)
    → AllAdvance s.cluster.store (add_shard e c shard s).cluster.store
unfolding add_shard
add_shard-AllAdvance e c shard s =
    AllAdvance-trans s.cluster.store with_shard.cluster.store
      (tick e (some c) with_shard).cluster.store unchanged (tick-AllAdvance e (some c) with_shard)
  where
    with_shard : ElectionState
    with_shard = in_store (store_set (shard_key c shard.shard_id) (shard_value shard)) s

    unchanged : AllAdvance s.cluster.store with_shard.cluster.store
    unchanged i j =
        subst (Advances (read_assignment i j s.cluster.store))
          (sym (
            other_key (shard_key c shard.shard_id) i j (shard_value shard) s.cluster.store
              (shard_key-ne-assignment_key c shard.shard_id i j)))
          (Advances-refl (read_assignment i j s.cluster.store))

force_leader-AllAdvance :
    (e : Electorate) (c d node_id : String) (ttl_ms : ℕ) (s : ElectionState)
    → AllAdvance s.cluster.store (force_leader e c d node_id ttl_ms s).cluster.store
unfolding force_leader write_assignment
force_leader-AllAdvance e c d node_id ttl_ms s =
    subst (λ (cluster : ClusterState). AllAdvance s.cluster.store cluster.store)
      (sym (tell_change-cluster c d current node_id (write_assignment a s)))
      (put-IsNext a c d s.cluster.store refl refl (next_term-Advances current a refl))
  where
    current : Option LeaderAssignment
    current = read_assignment c d s.cluster.store

    a : LeaderAssignment
    a = forced e c d node_id ttl_ms current

Step-AllAdvance : {s t : ElectionState} → Step s t → AllAdvance s.cluster.store t.cluster.store
unfolding get_leader list_leaders on_leader_change off_leader_change
Step-AllAdvance {s} (ticks e o) = tick-AllAdvance e o s
Step-AllAdvance {s} (adds_shard e c shard) = add_shard-AllAdvance e c shard s
Step-AllAdvance {s} (forces_leader e c d n ttl) = force_leader-AllAdvance e c d n ttl s
Step-AllAdvance {s} (gets_leader e c d) = tick-AllAdvance e (some c) s
Step-AllAdvance {s} (lists_leaders e c) = tick-AllAdvance e (some c) s
Step-AllAdvance {s} (subscribes callback) = AllAdvance-refl s.cluster.store
Step-AllAdvance {s} (unsubscribes callback) = AllAdvance-refl s.cluster.store
Step-AllAdvance {s} (meanwhile after same) = λ c d.
    subst (Advances (read_assignment c d s.cluster.store)) (sym (same c d))
      (Advances-refl (read_assignment c d s.cluster.store))

-- In a run of the election without `removeShard`, on any nodes, at any times and with any answers of
-- the voters, in which nothing else changes the assignments, the assignment of a shard is never lost
-- and its term never falls; and if the shard has another leader at the end than at the start, the
-- term has risen.
pub Run-Advances :
    {s t : ElectionState} (c d : String)
    → Run s t
    → Advances (read_assignment c d s.cluster.store) (read_assignment c d t.cluster.store)
Run-Advances {s} c d here = Advances-refl (read_assignment c d s.cluster.store)
Run-Advances {s} {t} c d (next {t = u} r step) =
    Advances-trans (read_assignment c d s.cluster.store) (read_assignment c d u.cluster.store)
      (read_assignment c d t.cluster.store) (Run-Advances c d r) (Step-AllAdvance step c d)
