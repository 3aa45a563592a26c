-- ===== src/Cord/Iam/Groups/Membership.antt =====
-- `isMember` on a hierarchy of groups: the recursion ends, and it finds what is below a group.
use netab.Common.{
  ℕ, zero, suc, ◌<◌, ◌≤◌, String, Bool, true, false, not, List, [], ◌∷◌, Option, none, some, get,
  keys, includes, length, map, string_eq, ◌==◌, ◌⋅◌, ◌≡◌, ◌≢◌, ◌↔◌, ◌⊎◌, inl, inr, refl, sym, ap,
  ◌∙◌, subst, arith, equals-cases, equals_refl, Bool-cases, Result, ok, slice_after,
  slice_after-append, includes-keep_ne, length-keep-le,
}
use netab.Json.{Value}
use netab.Cord.Store.{Store}
use netab.Cord.Iam.{IamError, group_prefix, group_key}
use netab.Cord.Iam.Groups.{GroupRecord, read_group, is_below, is_member_within, is_member, without}
use netab.Cord.Iam.Groups.Hierarchy.{IsGroup, Child, IsHierarchy, read_group_lem, parsed}

module _ (ns : String) (store : Store) where
  -- The item is a member of the group or of a group below it, or names a group below it.
  pub data Contains (item : String) : String → Type 0 where
    direct :
        {g : String} (r : GroupRecord)
        → read_group ns g store ≡ some r
        → includes r.members item ≡ true
        → Contains item g
    subgroup : {g : String} (c : String) → Child ns store g c → item ≡ "grp:" ⋅ c → Contains item g
    deeper : {g : String} (c : String) → Child ns store g c → Contains item c → Contains item g

-- A call that returns, and whose answer says whether `P` holds.
abbrev pub Decides : Type 0 → Result IamError Bool → Type 0
Decides P r = (b : Bool) × (r ≡ ok b) × ((b ≡ true) ↔ P)

module _ (item : String) (P : String → Type 0) where
  -- One of the subgroups is the item, or has it below it.
  abbrev Below : List String → Type 0
  Below [] = ⊥
  Below (c ∷ cs) = ((item ≡ "grp:" ⋅ c) ⊎ P c) ⊎ Below cs

  includes-Below :
      (cs : List String) (c : String) → includes cs c ≡ true → (item ≡ "grp:" ⋅ c) ⊎ P c → Below cs
  includes-Below [] c h p = absurd (cc)
  includes-Below (d ∷ cs) c h p = elim (equals-cases d c) [
    | inl (_, e) ↦ inl (subst (λ i. (item ≡ "grp:" ⋅ i) ⊎ P i) (sym e) p)
    | inr (other, e) ↦ inr (includes-Below cs c (ground (arith, other, h)) p)
  ]

  Below-includes :
      (cs : List String)
      → Below cs
      → (c : String) × (includes cs c ≡ true) × ((item ≡ "grp:" ⋅ c) ⊎ P c)
  Below-includes [] b = elim b [ ]
  Below-includes (d ∷ cs) (inl p) = (d, ground (arith, equals_refl d), p)
  Below-includes (d ∷ cs) (inr b) = let (c, h, p) = Below-includes cs b in (c, ground (arith, h), p)

module _ (find : String → Result IamError Bool) (item : String) (P : String → Type 0) where
  is_below-Decides :
      (cs : List String)
      → ((c : String) → includes cs c ≡ true → Decides (P c) (find c))
      → Decides (Below item P cs) (is_below find item cs)
  unfolding is_below
  is_below-Decides [] h = (false, refl, (λ e. cc, λ b. absurd b))
  is_below-Decides (c ∷ cs) h =
      go (equals-cases item ("grp:" ⋅ c)) (h c (ground (arith, equals_refl c)))
        (is_below-Decides cs (λ d k. h d (ground (arith, k))))
    where
      go :
          (((item == "grp:" ⋅ c) ≡ true) × (item ≡ "grp:" ⋅ c))
            ⊎ (((item == "grp:" ⋅ c) ≡ false) × (item ≢ "grp:" ⋅ c))
          → Decides (P c) (find c)
          → Decides (Below item P cs) (is_below find item cs)
          → Decides (Below item P (c ∷ cs)) (is_below find item (c ∷ cs))
      go (inl (same, e)) k rest = (true, ground (arith, same), (λ _. inl (inl e), λ _. refl))
      go (inr (other, e)) (true, k, iff) rest =
          (true, ground (arith, other, k), (λ _. inl (inr (iff.0 refl)), λ _. refl))
      go (inr (other, e)) (false, k, iff) (b, rest, iff') =
          (b, ground (arith, other, k, rest), (λ t. inr (iff'.0 t), back))
        where
          back : Below item P (c ∷ cs) → b ≡ true
          back (inl (inl same)) = absurd (e same)
          back (inl (inr p)) = absurd (cc (iff.1 p))
          back (inr below) = iff'.1 below

-- A name fewer is left below a group.
length-without :
    (g : String) (names : List String)
    → includes names g ≡ true
    → length (without g names) < length names
length-without g [] h = absurd (cc)
length-without g (i ∷ names) h = ground (
  arith,
  h,
  length-without g names,
  string_eq.equals_iff i g,
  length-keep-le (λ (item : String). not (item == g)) names,
)

includes-without :
    (g z : String) (names : List String)
    → includes names z ≡ true
    → g ≢ z
    → includes (without g names) z ≡ true
includes-without g z names h other =
    ground (arith, includes-keep_ne g names z, h, string_eq.equals_iff g z, other)

module _ (ns : String) (store : Store) (h : IsHierarchy ns store) (item : String) where
  -- `names` holds every group that ranks no higher than `g`.
  abbrev Bounds : List String → String → Type 0
  Bounds names g = (z : String) → IsGroup ns store z → h.rank z ≤ h.rank g → includes names z ≡ true

  Bounds-Child :
      (names : List String) (g c : String)
      → Child ns store g c
      → Bounds names g
      → Bounds (without g names) c
  Bounds-Child names g c k bounds z group low =
      includes-without g z names (bounds z group (omega (arith, h.falls g c k)))
        (λ e. omega (arith, h.falls g c k, ap h.rank e))

  -- With more fuel than there are names left, the recursion ends.
  is_member_within-Decides :
      (fuel : ℕ) (names : List String) (g : String)
      → IsGroup ns store g
      → Bounds names g
      → length names < fuel
      → Decides (Contains ns store item g) (is_member_within fuel true ns g item store)
  unfolding is_member_within
  is_member_within-Decides zero names g group bounds more = elim more [ ]
  is_member_within-Decides (suc fuel) names g (r, found) bounds more =
      go (Bool-cases (includes r.members item)) (
        is_below-Decides (λ child. is_member_within fuel true ns child item store) item
          (Contains ns store item) r.subgroups
          (λ c has.
            is_member_within-Decides fuel (without g names) c (h.closed g c (r, found, has))
              (Bounds-Child names g c (r, found, has) bounds)
              (omega (arith, length-without g names (bounds g (r, found) (omega arith))))))
    where
      go :
          ((includes r.members item ≡ true) ⊎ (includes r.members item ≡ false))
          → Decides
              (Below item (Contains ns store item) r.subgroups)
              (is_below (λ child. is_member_within fuel true ns child item store) item r.subgroups)
          → Decides (Contains ns store item g) (is_member_within (suc fuel) true ns g item store)
      go (inl member) k =
          (true, ground (arith, found, member), (λ _. direct r found member, λ _. refl))
      go (inr other) (b, e, iff) = (b, ground (arith, found, other, e), (there, back))
        where
          there : b ≡ true → Contains ns store item g
          there t =
              let (c, has, p) =
                Below-includes item (Contains ns store item) r.subgroups (iff.0 t) in
              elim p [
                | inl e' ↦ subgroup c (r, found, has) e'
                | inr below ↦ deeper c (r, found, has) below
              ]

          has : (c : String) → Child ns store g c → includes r.subgroups c ≡ true
          has c (r', found', k) = ground (arith, found, found', k)

          back : Contains ns store item g → b ≡ true
          back (direct r' found' member) = ground (arith, found, found', member, other)
          back (subgroup c k e') =
              iff.1 (includes-Below item (Contains ns store item) r.subgroups c (has c k) (inl e'))
          back (deeper c k d) =
              iff.1 (includes-Below item (Contains ns store item) r.subgroups c (has c k) (inr d))

-- The ids of all the groups there may be: what stands behind the prefix in each key.
abbrev all_names : String → Store → List String
all_names ns store = map (slice_after (group_prefix ns)) (keys store)

length-all_names : (ns : String) (store : Store) → length (all_names ns store) ≡ length store
length-all_names ns [] = refl
length-all_names ns ((k, v) ∷ store) = ap suc (length-all_names ns store)

get-includes :
    (ns z : String) (v : Value) (store : Store)
    → get (group_key ns z) store ≡ some v
    → includes (all_names ns store) z ≡ true
unfolding get group_key
get-includes ns z v [] found = absurd (cc)
get-includes ns z v ((k, w) ∷ store) found = elim (equals-cases k (group_key ns z)) [
  | inl (same, e) ↦
      let own : slice_after (group_prefix ns) k ≡ z =
        ap (slice_after (group_prefix ns)) e ∙ slice_after-append (group_prefix ns) z in
      ground (arith, own, equals_refl z)
  | inr (other, e) ↦ ground (arith, get-includes ns z v store (ground (arith, found, other)))
]

IsGroup-includes :
    (ns z : String) (store : Store) → IsGroup ns store z → includes (all_names ns store) z ≡ true
IsGroup-includes ns z store (r, found) =
    go (get (group_key ns z) store) refl (sym (read_group_lem ns z store) ∙ found)
  where
    go :
        (o : Option Value)
        → get (group_key ns z) store ≡ o
        → parsed z o ≡ some r
        → includes (all_names ns store) z ≡ true
    go none e p = absurd (cc)
    go (some v) e p = get-includes ns z v store e

-- In a hierarchy of groups, `isMember` with subgroups returns for each group, and it answers
-- exactly whether the item is a member of the group or of a group below it, or the reference
-- `grp:` to a group below it.
pub is_member_lem :
    (ns : String) (store : Store) (item g : String)
    → IsHierarchy ns store
    → IsGroup ns store g
    → (b : Bool) × (is_member true ns g item store ≡ ok b) × ((b ≡ true) ↔ Contains ns store item g)
unfolding is_member
is_member_lem ns store item g h group =
    is_member_within-Decides ns store h item (suc (length store)) (all_names ns store) g group
      (λ z there _. IsGroup-includes ns z store there) (omega (arith, length-all_names ns store))
