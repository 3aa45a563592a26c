-- ===== src/Cord/Iam/Groups/Linking.antt =====
-- `addSubgroup` keeps a hierarchy of groups.
use netab.Common.{
  ℕ, suc, ◌+◌, ◌<◌, String, Bool, true, false, ◌||◌, [], ◌∷◌, ◌++◌, some, includes, string_eq,
  if◌then◌else◌, ◌==◌, ◌⋅◌, ◌≡◌, ◌≢◌, ◌↔◌, ◌⊎◌, inl, inr, refl, sym, ap, ◌∙◌, subst, arith,
  equals-cases, equals_refl, Bool-cases, Result, ok, err, sort_by, string_le, includes-append,
  includes-sort,
}
use netab.Cord.Store.{Store}
use netab.Cord.Iam.{IamError, would_cycle}
use netab.Cord.Iam.Groups.{
  GroupRecord, read_group, write_group, is_member, require_group, add_subgroup,
}
use netab.Cord.Iam.Groups.Hierarchy.{
  IsGroup, Child, IsHierarchy, read_group-id, read_group-write_group, write_group-IsTidy,
  IsGroup-write, Child-write,
}
use netab.Cord.Iam.Groups.Membership.{Contains, subgroup, deeper, is_member_lem}

abbrev said_yes : Result IamError Bool → Bool
said_yes (ok b) = b
said_yes (err e) = false

module _ (ns : String) (store : Store) (h : IsHierarchy ns store) (g c : String) where
  -- `x` is the group `g` or has it below it.
  abbrev above : String → Bool
  above x = x == g || said_yes (is_member true ns x ("grp:" ⋅ g) store)

  -- The ranks after `c` became a subgroup of `g`: what is above `g` rises over `c`.
  abbrev raised : String → ℕ
  raised x = if above x then h.rank x + suc (h.rank c) else h.rank x

  above-Child : (x y : String) → Child ns store x y → above y ≡ true → above x ≡ true
  above-Child x y k up =
      go (is_member_lem ns store ("grp:" ⋅ g) x h (k.0, k.1))
        (is_member_lem ns store ("grp:" ⋅ g) y h (h.closed x y k))
    where
      go :
          (b : Bool) × (is_member true ns x ("grp:" ⋅ g) store ≡ ok b)
            × ((b ≡ true) ↔ Contains ns store ("grp:" ⋅ g) x)
          → (b : Bool) × (is_member true ns y ("grp:" ⋅ g) store ≡ ok b)
            × ((b ≡ true) ↔ Contains ns store ("grp:" ⋅ g) y)
          → above x ≡ true
      go (b, e, iff) (b', e', iff') = elim (equals-cases y g) [
        | inl (_, same) ↦ ground (arith, e, iff.1 (subgroup y k (ap (λ i. "grp:" ⋅ i) (sym same))))
        | inr (other, _) ↦
            ground (arith, e, iff.1 (deeper y k (iff'.0 (ground (arith, other, e', up)))))
      ]

  raised-falls : (x y : String) → Child ns store x y → raised y < raised x
  raised-falls x y k = ground (arith, above-Child x y k, h.falls x y k)

  linked : GroupRecord → GroupRecord
  linked r = record r { subgroups = sort_by string_le (r.subgroups ++ c ∷ []) }

  -- The new edge, where `c` is a group that is not above `g`.
  linked-IsHierarchy :
      (r : GroupRecord)
      → read_group ns g store ≡ some r
      → r.group_id ≡ g
      → IsGroup ns store c
      → above c ≡ false
      → IsHierarchy ns (write_group ns (linked r) store)
  unfolding linked
  linked-IsHierarchy r found own group apart = record {
    is_map = (write_group-IsTidy ns (linked r) store (h.is_map, h.filled)).0;
    filled = (write_group-IsTidy ns (linked r) store (h.is_map, h.filled)).1;
    rank = raised;
    falls = λ x y k. lower x y (Child-write ns (linked r) store x y k);
    closed = λ x y k.
        IsGroup-write ns (linked r) store y (there x y (Child-write ns (linked r) store x y k));
  }
    where
      split : (y : String) → includes (linked r).subgroups y ≡ true → (c ≡ y) ⊎ Child ns store g y
      split y has = elim (equals-cases c y) [
        | inl (_, e) ↦ inl e
        | inr (other, _) ↦ inr (
          r,
          found,
          ground (
            arith,
            has,
            other,
            includes-sort string_le (r.subgroups ++ c ∷ []) y,
            includes-append r.subgroups (c ∷ []) y,
          ),
        )
      ]

      lower :
          (x y : String)
          → ((r.group_id ≡ x) × (includes (linked r).subgroups y ≡ true))
            ⊎ ((r.group_id ≢ x) × Child ns store x y)
          → raised y < raised x
      lower x y (inl (e, has)) =
          subst (λ i. raised y < raised i) (sym own ∙ e)
            (elim (split y has) [
              | inl same ↦
                  subst (λ i. raised i < raised g) same (ground (arith, apart, equals_refl g))
              | inr k ↦ raised-falls g y k
            ])
      lower x y (inr (e, k)) = raised-falls x y k

      there :
          (x y : String)
          → ((r.group_id ≡ x) × (includes (linked r).subgroups y ≡ true))
            ⊎ ((r.group_id ≢ x) × Child ns store x y)
          → IsGroup ns store y
      there x y (inl (e, has)) = elim (split y has) [
        | inl same ↦ subst (λ i. IsGroup ns store i) same group
        | inr k ↦ h.closed g y k
      ]
      there x y (inr (e, k)) = h.closed x y k

  -- What `addSubgroup` does, once the groups are read and it is known whether `c` is above `g`.
  added_lem :
      (r : GroupRecord) (b : Bool)
      → read_group ns g store ≡ some r
      → IsGroup ns store c
      → is_member true ns c ("grp:" ⋅ g) store ≡ ok b
      → add_subgroup ns g c store ≡ (
          if g == c || b
          then (err (would_cycle c g), store)
          else if includes r.subgroups c
          then (ok tt, store)
          else (ok tt, write_group ns (linked r) store))
  unfolding add_subgroup require_group linked
  added_lem r b found (rc, found') e = ground (arith, found, found', e)

  linked-Child :
      (r : GroupRecord)
      → read_group ns g store ≡ some r
      → Child ns (write_group ns (linked r) store) g c
  unfolding linked
  linked-Child r found = (
    linked r,
    ground (
      arith,
      read_group-write_group ns (linked r) store g,
      read_group-id ns g store r found,
      equals_refl g,
      string_eq.equals_iff r.group_id g,
    ),
    ground (
      arith,
      includes-sort string_le (r.subgroups ++ c ∷ []) c,
      includes-append r.subgroups (c ∷ []) c,
      equals_refl c,
    ),
  )

-- `addSubgroup` succeeded and linked the groups, or it refused a cycle.
abbrev pub IsLinked : String → String → String → Store → Type 0
IsLinked ns g c after = Child ns after g c × IsHierarchy ns after

-- In a hierarchy, `addSubgroup` between two groups refuses exactly the subgroup that is the group
-- itself or already contains the reference to it, and then changes nothing. Otherwise it does not
-- throw, the group has the subgroup, and the groups are a hierarchy again.
pub add_subgroup_lem :
    (ns : String) (store : Store) (g c : String)
    → IsHierarchy ns store
    → IsGroup ns store g
    → IsGroup ns store c
    → (((g ≡ c) ⊎ Contains ns store ("grp:" ⋅ g) c)
        × (add_subgroup ns g c store ≡ (err (would_cycle c g), store)))
      ⊎ ((¬ ((g ≡ c) ⊎ Contains ns store ("grp:" ⋅ g) c))
          × ((add_subgroup ns g c store).0 ≡ ok tt)
          × IsLinked ns g c (add_subgroup ns g c store).1)
add_subgroup_lem ns store g c h (r, found) group =
    go (is_member_lem ns store ("grp:" ⋅ g) c h group)
  where
    accepted :
        (after : Store)
        → add_subgroup ns g c store ≡ (ok tt, after)
        → IsLinked ns g c after
        → ((add_subgroup ns g c store).0 ≡ ok tt) × IsLinked ns g c (add_subgroup ns g c store).1
    accepted after e k = (ap (λ p. p.0) e, subst (IsLinked ns g c) (sym (ap (λ p. p.1) e)) k)

    go :
        (b : Bool) × (is_member true ns c ("grp:" ⋅ g) store ≡ ok b)
          × ((b ≡ true) ↔ Contains ns store ("grp:" ⋅ g) c)
        → (((g ≡ c) ⊎ Contains ns store ("grp:" ⋅ g) c)
            × (add_subgroup ns g c store ≡ (err (would_cycle c g), store)))
          ⊎ ((¬ ((g ≡ c) ⊎ Contains ns store ("grp:" ⋅ g) c))
              × ((add_subgroup ns g c store).0 ≡ ok tt)
              × IsLinked ns g c (add_subgroup ns g c store).1)
    go (true, e, iff) =
        inl (inr (iff.0 refl), ground (arith, added_lem ns store h g c r true found group e))
    go (false, e, iff) = elim (equals-cases g c) [
      | inl (same, eq) ↦
          inl (inl eq, ground (arith, same, added_lem ns store h g c r false found group e))
      | inr (other, ne) ↦
          let apart : ¬ ((g ≡ c) ⊎ Contains ns store ("grp:" ⋅ g) c) =
            λ p. elim p [ inl eq ↦ ne eq | inr k ↦ cc (iff.1 k) ] in
          elim (Bool-cases (includes r.subgroups c)) [
            | inl old ↦
                let (fine, k) =
                  accepted store
                    (ground (arith, other, old, added_lem ns store h g c r false found group e))
                    ((r, found, old), h) in
                inr (apart, fine, k)
            | inr new ↦
                let (fine, k) =
                  accepted (write_group ns (linked ns store h g c r) store)
                    (ground (arith, other, new, added_lem ns store h g c r false found group e))
                    (
                      linked-Child ns store h g c r found,
                      linked-IsHierarchy ns store h g c r found (read_group-id ns g store r found)
                          group (ground (arith, e, string_eq.equals_iff c g, ne)),
                    ) in
                inr (apart, fine, k)
          ]
    ]
