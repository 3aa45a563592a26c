-- ===== src/Cord/Iam/Groups/Deleting.antt =====
-- The steps of `deleteGroup`: the group is removed, and then every reference to it.
use netab.Common.{
  String, Bool, true, false, not, List, [], ◌∷◌, none, some, delete, includes, string_eq,
  if◌then◌else◌, ◌==◌, ◌&&◌, ◌≡◌, ◌≢◌, ◌⊎◌, inl, inr, refl, sym, ap, ◌∙◌, subst, arith, All,
  equals-cases, equals_refl, get-delete, delete-IsMap, includes-keep_ne,
}
use netab.Cord.Store.{Store, store_del}
use netab.Cord.Iam.{group_key}
use netab.Cord.Iam.Groups.{GroupRecord, read_group, write_group, drop_references, without}
use netab.Cord.Iam.Groups.Hierarchy.{
  IsGroup, Child, IsTidy, write_group-IsTidy, IsGroup-write, Child-write, read_group_lem, parsed,
  equals-group_key, read_group-write_group,
}

module _ (ns gid : String) where
  abbrev stripped : GroupRecord → GroupRecord
  stripped group = record group { subgroups = without gid group.subgroups }

  -- One round of the loop of `deleteGroup`, after the test.
  abbrev round : Bool → GroupRecord → Store → Store
  round cited group s = if cited then write_group ns (stripped group) s else s

  pub drop_references-IsTidy :
      (groups : List GroupRecord) (s : Store)
      → IsTidy ns s
      → IsTidy ns (drop_references ns gid groups s)
  unfolding drop_references
  drop_references-IsTidy [] s t = t
  drop_references-IsTidy (x ∷ xs) s t =
      drop_references-IsTidy xs (round (includes x.subgroups gid) x s)
        (elim (includes x.subgroups gid) as (λ b. IsTidy ns (round b x s)) [
          | true ↦ write_group-IsTidy ns (stripped x) s t
          | false ↦ t
        ])

  pub drop_references-IsGroup :
      (groups : List GroupRecord) (s : Store) (g : String)
      → IsGroup ns s g
      → IsGroup ns (drop_references ns gid groups s) g
  unfolding drop_references
  drop_references-IsGroup [] s g t = t
  drop_references-IsGroup (x ∷ xs) s g t =
      drop_references-IsGroup xs (round (includes x.subgroups gid) x s) g
        (elim (includes x.subgroups gid) as (λ b. IsGroup ns (round b x s) g) [
          | true ↦ IsGroup-write ns (stripped x) s g t
          | false ↦ t
        ])

  includes-stripped :
      (x : GroupRecord) (c : String)
      → includes (stripped x).subgroups c ≡ (not (gid == c) && includes x.subgroups c)
  includes-stripped x c = includes-keep_ne gid x.subgroups c

  -- No group gains a subgroup.
  pub drop_references-Child :
      (old : Store) (groups : List GroupRecord) (s : Store)
      → All (λ x. (c : String) → includes x.subgroups c ≡ true → Child ns old x.group_id c) groups
      → ((g c : String) → Child ns s g c → Child ns old g c)
      → (g c : String) → Child ns (drop_references ns gid groups s) g c
      → Child ns old g c
  unfolding drop_references
  drop_references-Child old [] s own h g c k = h g c k
  drop_references-Child old (x ∷ xs) s (p, own) h g c k =
      drop_references-Child old xs (round (includes x.subgroups gid) x s) own
        (elim (includes x.subgroups gid)
          as (λ b. (i j : String) → Child ns (round b x s) i j → Child ns old i j) [
            | true ↦ λ i j l. after i j (Child-write ns (stripped x) s i j l)
            | false ↦ h
          ])
        g c k
    where
      after :
          (i j : String)
          → ((x.group_id ≡ i) × (includes (stripped x).subgroups j ≡ true))
            ⊎ ((x.group_id ≢ i) × Child ns s i j)
          → Child ns old i j
      after i j (inl (e, has)) =
          subst (λ n. Child ns old n j) e (p j (ground (arith, has, includes-stripped x j)))
      after i j (inr (_, l)) = h i j l

  -- A group that still has the subgroup had it before, and was not among those that were listed
  -- with it.
  pub drop_references-cited :
      (groups : List GroupRecord) (s : Store) (g : String)
      → Child ns (drop_references ns gid groups s) g gid
      → Child ns s g gid × All (λ x. includes x.subgroups gid ≡ true → x.group_id ≢ g) groups
  unfolding drop_references
  drop_references-cited [] s g k = (k, tt)
  drop_references-cited (x ∷ xs) s g k =
      go (includes x.subgroups gid) refl
        (drop_references-cited xs (round (includes x.subgroups gid) x s) g k)
    where
      go :
          (b : Bool)
          → includes x.subgroups gid ≡ b
          → Child ns (round (includes x.subgroups gid) x s) g gid
            × All (λ y. includes y.subgroups gid ≡ true → y.group_id ≢ g) xs
          → Child ns s g gid × All (λ y. includes y.subgroups gid ≡ true → y.group_id ≢ g) (x ∷ xs)
      go false e (l, rest) = (subst (λ b. Child ns (round b x s) g gid) e l, (λ t. cc, rest))
      go true e (l, rest) =
          elim (Child-write ns (stripped x) s g gid
            (subst (λ b. Child ns (round b x s) g gid) e l)) [
              | inl (_, has) ↦
                  absurd (ground (arith, has, includes-stripped x gid, equals_refl gid))
              | inr (other, l') ↦ (l', (λ _. other, rest))
            ]

  -- No group loses another subgroup.
  pub Child-drop_references :
      (old : Store) (groups : List GroupRecord) (s : Store)
      → All (λ x. read_group ns x.group_id old ≡ some x) groups
      → ((g c : String) → gid ≢ c → Child ns old g c → Child ns s g c)
      → (g c : String) → gid ≢ c
      → Child ns old g c
      → Child ns (drop_references ns gid groups s) g c
  unfolding drop_references
  Child-drop_references old [] s own h g c = h g c
  Child-drop_references old (x ∷ xs) s (found, own) h g c =
      Child-drop_references old xs (round (includes x.subgroups gid) x s) own
        (elim (includes x.subgroups gid)
          as (λ b. (i j : String) → gid ≢ j → Child ns old i j → Child ns (round b x s) i j) [
            | true ↦ after
            | false ↦ h
          ])
        g c
    where
      after :
          (i j : String) → gid ≢ j → Child ns old i j → Child ns (write_group ns (stripped x) s) i j
      after i j ne (r, there, has) = elim (equals-cases x.group_id i) [
        | inl (same, e) ↦ (
          stripped x,
          ground (arith, same, read_group-write_group ns (stripped x) s i),
          ground
              (arith, includes-stripped x j, string_eq.equals_iff gid j, ne, has, there, found, e),
        )
        | inr (other, _) ↦
            let (r', there', has') = h i j ne (r, there, has) in
            (r', ground (arith, other, there', read_group-write_group ns (stripped x) s i), has')
      ]

  -- The deleted group does not come back.
  pub drop_references-gone :
      (groups : List GroupRecord) (s : Store)
      → All (λ x. x.group_id ≢ gid) groups
      → read_group ns gid s ≡ none
      → read_group ns gid (drop_references ns gid groups s) ≡ none
  unfolding drop_references
  drop_references-gone [] s own h = h
  drop_references-gone (x ∷ xs) s (ne, own) h =
      drop_references-gone xs (round (includes x.subgroups gid) x s) own
        (elim (includes x.subgroups gid) as (λ b. read_group ns gid (round b x s) ≡ none) [
          | true ↦ ground (
            arith,
            read_group-write_group ns (stripped x) s gid,
            h,
            string_eq.equals_iff x.group_id gid,
            ne,
          )
          | false ↦ h
        ])

  pub read_group-store_del :
      (s : Store) (g : String)
      → read_group ns g (store_del (group_key ns gid) s)
        ≡ (if gid == g then none else read_group ns g s)
  unfolding store_del
  read_group-store_del s g =
      read_group_lem ns g (delete (group_key ns gid) s)
      ∙ ap (parsed g) (get-delete (group_key ns gid) (group_key ns g) s)
      ∙ elim (equals-cases gid g) [
        | inl (same, e) ↦ rw (equals-group_key ns gid g, same)
        | inr (other, e) ↦ rw (equals-group_key ns gid g, other) (sym (read_group_lem ns g s))
      ]

  pub store_del-IsTidy : (s : Store) → IsTidy ns s → IsTidy ns (store_del (group_key ns gid) s)
  unfolding store_del
  store_del-IsTidy s (is_map, filled) = (
    delete-IsMap (group_key ns gid) s is_map,
    λ g v found.
        ground (arith, get-delete (group_key ns gid) (group_key ns g) s, found, filled g v),
  )
