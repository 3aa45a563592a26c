-- ===== src/Cord/Election/Terms.antt =====
-- Terms of leader assignments: they never fall, and a new leader has a higher one.
use netab.Common.{
  ◌≤◌, ◌<◌, String, Bool, Option, none, some, string_eq, ◌==◌, ◌⋅◌, if◌then◌else◌, ◌≡◌, ◌≢◌, inl,
  inr, refl, sym, ap, ◌∙◌, subst, arith, equals-cases, equals-prefix, Bool-cases,
}
use netab.Json.{Value, num, str, get_prop}
use netab.Cord.Store.{Store, store_get, store_set}
use netab.Cord.Store.Reading.{store_get-store_set}
use netab.Cord.Election.{LeaderAssignment}
use netab.Cord.Election.Shards.{
  assignment_key, assignment_value, read_assignment, normalize_assignment, assigned,
}

-- From one state of an assignment to a later one. An assignment stays, and its term does not fall;
-- if its leader is another one, the term has risen.
abbrev pub Advances : Option LeaderAssignment → Option LeaderAssignment → Type 0
Advances none after = Unit {0}
Advances (some a) none = ⊥
Advances (some a) (some b) =
    (a.term ≤ b.term) × (a.leader_node_id ≢ b.leader_node_id → a.term < b.term)

pub Advances-refl : (a : Option LeaderAssignment) → Advances a a
Advances-refl none = tt
Advances-refl (some a) = (omega arith, λ h. absurd (h refl))

pub Advances-trans : (a b c : Option LeaderAssignment) → Advances a b → Advances b c → Advances a c
Advances-trans none b c p q = tt
Advances-trans (some a) none c p q = absurd p
Advances-trans (some a) (some b) none p q = absurd q
Advances-trans (some a) (some b) (some c) (p, p') (q, q') = (
  omega (arith, p, q),
  λ h. elim (equals-cases a.leader_node_id b.leader_node_id) [
    | inl (_, e) ↦ omega (arith, p, q' (λ e'. h (e ∙ e')))
    | inr (_, ne) ↦ omega (arith, q, p' ne)
  ],
)

-- Assignments under another name of their shard.
abbrev renamed : String → String → Option LeaderAssignment → Option LeaderAssignment
renamed c d none = none
renamed c d (some a) = some (record a { cluster_id = c; shard_id = d })

renamed-assigned :
    (c d c' d' : String) (l t u : Value) → renamed c d (assigned c' d' l t u) ≡ assigned c d l t u
renamed-assigned c d c' d' (str l) (num t) (num u) = refl
renamed-assigned c d c' d' l t u = refl

-- What is read under a key that two shards share.
same_key-read :
    (c d c' d' : String) (store : Store)
    → assignment_key c d ≡ assignment_key c' d'
    → read_assignment c' d' store ≡ renamed c' d' (read_assignment c d store)
unfolding read_assignment normalize_assignment
same_key-read c d c' d' store e = sym (
    ap (λ k. renamed c' d' (normalize_assignment c d (store_get k store))) e
    ∙ renamed-assigned c' d' c d _ _ _)

read_assignment-write :
    (a : LeaderAssignment) (c d : String) (store : Store)
    → read_assignment c d
        (store_set (assignment_key a.cluster_id a.shard_id) (assignment_value a) store)
      ≡ (if assignment_key a.cluster_id a.shard_id == assignment_key c d
          then renamed c d (some a)
          else read_assignment c d store)
unfolding read_assignment normalize_assignment assignment_value get_prop
read_assignment-write a c d store =
    ap (normalize_assignment c d) (
      store_get-store_set (assignment_key a.cluster_id a.shard_id) (assignment_key c d)
        (assignment_value a) store)
    ∙ elim (Bool-cases (assignment_key a.cluster_id a.shard_id == assignment_key c d)) [
      | inl same ↦ rw same (read_back a c d)
      | inr other ↦ rw other
    ]
  where
    read_back :
        (b : LeaderAssignment) (i j : String)
        → normalize_assignment i j (assignment_value b) ≡ renamed i j (some b)
    read_back b i j = refl

Advances-renamed :
    (c d : String) (a b : Option LeaderAssignment)
    → Advances a b
    → Advances (renamed c d a) (renamed c d b)
Advances-renamed c d none b h = tt
Advances-renamed c d (some a) none h = h
Advances-renamed c d (some a) (some b) h = h

-- From one store to a later one, every assignment advances.
abbrev pub AllAdvance : Store → Store → Type 0
AllAdvance before after =
    (c d : String) → Advances (read_assignment c d before) (read_assignment c d after)

pub AllAdvance-trans : (s t u : Store) → AllAdvance s t → AllAdvance t u → AllAdvance s u
AllAdvance-trans s t u h k c d = Advances-trans _ _ _ (h c d) (k c d)

abbrev pub put : LeaderAssignment → Store → Store
put a store = store_set (assignment_key a.cluster_id a.shard_id) (assignment_value a) store

pub put-AllAdvance :
    (a : LeaderAssignment) (store : Store)
    → Advances (read_assignment a.cluster_id a.shard_id store) (some a)
    → AllAdvance store (put a store)
put-AllAdvance a store h c d =
    elim (equals-cases (assignment_key a.cluster_id a.shard_id) (assignment_key c d)) [
      | inl (same, e) ↦
          subst (λ o. Advances o (read_assignment c d (put a store)))
            (sym (same_key-read a.cluster_id a.shard_id c d store e))
            (subst (Advances (renamed c d (read_assignment a.cluster_id a.shard_id store)))
              (sym (read_assignment-write a c d store ∙ ap (chosen c d) same))
              (Advances-renamed c d (read_assignment a.cluster_id a.shard_id store) (some a) h))
      | inr (other, _) ↦
          subst (Advances (read_assignment c d store))
            (sym (read_assignment-write a c d store ∙ ap (chosen c d) other))
            (Advances-refl (read_assignment c d store))
    ]
  where
    chosen : String → String → Bool → Option LeaderAssignment
    chosen i j b = if b then renamed i j (some a) else read_assignment i j store

equals-assignment_key : (c d d' : String) → (assignment_key c d == assignment_key c d') ≡ (d == d')
unfolding assignment_key
equals-assignment_key c d d' =
    equals-prefix "election/assignments/" (c ⋅ "/" ⋅ d) (c ⋅ "/" ⋅ d')
    ∙ equals-prefix c ("/" ⋅ d) ("/" ⋅ d')
    ∙ equals-prefix "/" d d'

-- In the assignment's own cluster, only its own shard is written.
pub read_assignment-put :
    (a : LeaderAssignment) (d : String) (store : Store)
    → read_assignment a.cluster_id d (put a store) ≡ (
        if a.shard_id == d
        then some (record a { shard_id = d })
        else read_assignment a.cluster_id d store)
read_assignment-put a d store =
    read_assignment-write a a.cluster_id d store
    ∙ ap (λ b. if b then some (record a { shard_id = d }) else read_assignment a.cluster_id d store)
        (equals-assignment_key a.cluster_id a.shard_id d)
