-- ===== src/Cord/Iam/Groups/Hierarchy.antt =====
-- The hierarchy of the groups of one namespace, as the store holds it: which group has which
-- subgroup, and what a write of one group record does to that.
use netab.Common.{
  ℕ, ◌<◌, String, true, List, [], ◌∷◌, Option, none, some, get, set, IsMap, includes, string_eq,
  if◌then◌else◌, ◌==◌, ◌≡◌, ◌≢◌, ◌⊎◌, inl, inr, refl, sym, ap, ◌∙◌, subst, arith, get-set,
  set-IsMap, equals-prefix, equals-cases, Option-cases,
}
use netab.Json.{Value, is_truthy, get_prop}
use netab.Cord.Store.{Store, store_get, store_set}
use netab.Cord.Iam.{group_prefix, group_key}
use netab.Cord.Iam.Groups.{
  GroupRecord, texts_in, texts_of, text_items, group_value, normalize_group, read_group,
  write_group,
}

texts_in-text_items : (ss : List String) → texts_in (text_items ss) ≡ ss
unfolding texts_in text_items
texts_in-text_items [] = refl
texts_in-text_items (s ∷ ss) = ap (λ rest. s ∷ rest) (texts_in-text_items ss)

-- A group record is read back as it was written.
normalize_group-group_value :
    (group : GroupRecord) → normalize_group (group_value group) group.group_id ≡ group
unfolding normalize_group group_value texts_of get_prop
normalize_group-group_value group =
    ground (arith, texts_in-text_items group.members, texts_in-text_items group.subgroups)

pub equals-group_key : (ns i j : String) → (group_key ns i == group_key ns j) ≡ (i == j)
unfolding group_key
equals-group_key ns i j = equals-prefix (group_prefix ns) i j

-- What `readGroup` makes of what is stored under its key.
abbrev pub parsed : String → Option Value → Option GroupRecord
parsed j none = none
parsed j (some value) = if is_truthy value then some (normalize_group value j) else none

pub read_group_lem :
    (ns j : String) (store : Store) → read_group ns j store ≡ parsed j (get (group_key ns j) store)
unfolding read_group store_get is_truthy
read_group_lem ns j store = elim (Option-cases (get (group_key ns j) store)) [
  | inl e ↦ ground (arith, e)
  | inr (v, e) ↦ ground (arith, e)
]

pub read_group-id :
    (ns g : String) (store : Store) (r : GroupRecord)
    → read_group ns g store ≡ some r
    → r.group_id ≡ g
unfolding read_group normalize_group
read_group-id ns g store r found = ground (arith, found)

pub read_group-write_group :
    (ns : String) (group : GroupRecord) (store : Store) (j : String)
    → read_group ns j (write_group ns group store)
      ≡ (if group.group_id == j then some group else read_group ns j store)
unfolding write_group store_set is_truthy group_value
read_group-write_group ns group store j =
    read_group_lem ns j (write_group ns group store)
    ∙ ap (parsed j)
        (get-set (group_key ns group.group_id) (group_key ns j) (group_value group) store)
    ∙ elim (equals-cases group.group_id j) [
      | inl (same, e) ↦
          rw (equals-group_key ns group.group_id j, same)
            (ap some (
              subst (λ i. normalize_group (group_value group) i ≡ group) e
                (normalize_group-group_value group)))
      | inr (other, e) ↦
          rw (equals-group_key ns group.group_id j, other) (sym (read_group_lem ns j store))
    ]

module _ (ns : String) where
  -- There is a group of that id.
  abbrev pub IsGroup : Store → String → Type 0
  IsGroup store g = (r : GroupRecord) × (read_group ns g store ≡ some r)

  -- The group `g` has the subgroup `c`.
  abbrev pub Child : Store → String → String → Type 0
  Child store g c =
      (r : GroupRecord) × (read_group ns g store ≡ some r) × (includes r.subgroups c ≡ true)

  -- Each group is stored once and as an object, each subgroup is a group, and a rank falls from a
  -- group to its subgroups, so that no group is below itself.
  pub record IsHierarchy (store : Store) : Type 0 where
    pub is_map : IsMap store
    pub filled : (g : String) (v : Value) → get (group_key ns g) store ≡ some v → is_truthy v ≡ true
    pub rank : String → ℕ
    pub falls : (g c : String) → Child store g c → rank c < rank g
    pub closed : (g c : String) → Child store g c → IsGroup store c

  -- The parts of it that do not speak of subgroups.
  abbrev pub IsTidy : Store → Type 0
  IsTidy store =
      IsMap store
      × ((g : String) (v : Value) → get (group_key ns g) store ≡ some v → is_truthy v ≡ true)

  pub write_group-IsTidy :
      (group : GroupRecord) (store : Store) → IsTidy store → IsTidy (write_group ns group store)
  unfolding write_group store_set group_value is_truthy
  write_group-IsTidy group store (is_map, filled) = (
    set-IsMap (group_key ns group.group_id) (group_value group) store is_map,
    λ g v found. go g v found,
  )
    where
      go :
          (g : String) (v : Value)
          → get (group_key ns g) (set (group_key ns group.group_id) (group_value group) store)
            ≡ some v
          → is_truthy v ≡ true
      go g v found = ground (
        arith,
        get-set (group_key ns group.group_id) (group_key ns g) (group_value group) store,
        found,
        filled g v,
      )

  pub IsGroup-write :
      (group : GroupRecord) (store : Store) (g : String)
      → IsGroup store g
      → IsGroup (write_group ns group store) g
  IsGroup-write group store g (r, found) = elim (equals-cases group.group_id g) [
    | inl (same, e) ↦ (group, ground (arith, same, read_group-write_group ns group store g))
    | inr (other, e) ↦ (r, ground (arith, other, found, read_group-write_group ns group store g))
  ]

  -- The subgroups after a write: those of the new record, and those of the other groups.
  pub Child-write :
      (group : GroupRecord) (store : Store) (g c : String)
      → Child (write_group ns group store) g c
      → ((group.group_id ≡ g) × (includes group.subgroups c ≡ true))
        ⊎ ((group.group_id ≢ g) × Child store g c)
  Child-write group store g c (r, found, has) = elim (equals-cases group.group_id g) [
    | inl (same, e) ↦
        inl (e, ground (arith, same, has, found, read_group-write_group ns group store g))
    | inr (other, e) ↦
        inr (e, (r, ground (arith, other, found, read_group-write_group ns group store g), has))
  ]

  -- A write that gives a group no subgroup that it did not have.
  pub shrink-IsHierarchy :
      (group : GroupRecord) (store : Store)
      → ((c : String) → includes group.subgroups c ≡ true → Child store group.group_id c)
      → IsHierarchy store
      → IsHierarchy (write_group ns group store)
  shrink-IsHierarchy group store old h = record {
    is_map = (write_group-IsTidy group store (h.is_map, h.filled)).0;
    filled = (write_group-IsTidy group store (h.is_map, h.filled)).1;
    rank = h.rank;
    falls = λ g c k. h.falls g c (before g c k);
    closed = λ g c k. IsGroup-write group store c (h.closed g c (before g c k));
  }
    where
      before : (g c : String) → Child (write_group ns group store) g c → Child store g c
      before g c k = elim (Child-write group store g c k) [
        | inl (e, has) ↦ subst (λ i. Child store i c) e (old c has)
        | inr (_, there) ↦ there
      ]
