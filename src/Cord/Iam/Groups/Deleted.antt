-- ===== src/Cord/Iam/Groups/Deleted.antt =====
-- What is left of the groups after `deleteGroup`.
use netab.Common.{
  String, Bool, true, List, [], ◌∷◌, none, some, includes, string_eq, ◌==◌, ◌↔◌, ◌≡◌, ◌≢◌, sym, ap,
  ◌∙◌, subst, arith, All, equals_refl, if◌then◌else◌,
}
use netab.Cord.Store.{Store, store_del}
use netab.Cord.Store.Listing.{All-In}
use netab.Cord.Iam.{group_key}
use netab.Cord.Iam.Groups.{GroupRecord, read_group, list_groups, delete_group}
use netab.Cord.Iam.Groups.Hierarchy.{IsGroup, Child, IsHierarchy, IsTidy, read_group-id}
use netab.Cord.Iam.Groups.Listed.{All-list_groups, In-list_groups}
use netab.Cord.Iam.Groups.Deleting.{
  drop_references-IsTidy, drop_references-IsGroup, drop_references-Child, drop_references-cited,
  Child-drop_references, drop_references-gone, read_group-store_del, store_del-IsTidy,
}

All-imp :
    {A : Type 0} (P Q : A → Type 0) (xs : List A) → ((a : A) → P a → Q a) → All P xs → All Q xs
All-imp P Q [] f h = tt
All-imp P Q (x ∷ xs) f (p, h) = (f x p, All-imp P Q xs f h)

module _ (locale_le : String → String → Bool) (ns gid : String) (store : Store)
    (h : IsHierarchy ns store) where
  -- The store after the group itself was removed, and the groups that are then listed.
  abbrev rest : Store
  rest = store_del (group_key ns gid) store

  abbrev all_groups : List GroupRecord
  all_groups = list_groups locale_le ns rest

  abbrev after : Store
  after = delete_group locale_le ns gid store

  tidy : IsTidy ns rest
  tidy = store_del-IsTidy ns gid store (h.is_map, h.filled)

  Child-rest : (g c : String) → Child ns rest g c ↔ (Child ns store g c × (gid ≢ g))
  Child-rest g c = (
    λ (r, found, has). go r has (sym (read_group-store_del ns gid store g) ∙ found),
    λ ((r, found, has), ne). (
      r,
      ground (arith, read_group-store_del ns gid store g, found, string_eq.equals_iff gid g, ne),
      has,
    ),
  )
    where
      go :
          (r : GroupRecord)
          → includes r.subgroups c ≡ true
          → (if gid == g then none else read_group ns g store) ≡ some r
          → Child ns store g c × (gid ≢ g)
      go r has e =
          ((r, ground (arith, e), has), λ same. ground (arith, e, string_eq.equals_iff gid g, same))

  groups_found : All (λ x. read_group ns x.group_id rest ≡ some x) all_groups
  groups_found = All-list_groups locale_le ns rest tidy

  Child-after : (g c : String) → Child ns after g c ↔ (Child ns store g c × (gid ≢ g) × (gid ≢ c))
  unfolding delete_group
  Child-after g c = (
    there,
    λ (k, ne, ne').
        Child-drop_references ns gid rest all_groups rest groups_found (λ i j _ l. l) g c ne'
          ((Child-rest g c).1 (k, ne)),
  )
    where
      back : Child ns after g c → Child ns store g c × (gid ≢ g)
      back k = (Child-rest g c).0 (
          drop_references-Child ns gid rest all_groups rest
            (All-imp _ _ all_groups (λ x found d has. (x, found, has)) groups_found) (λ i j l. l) g
            c k)

      uncited : Child ns after g gid → ⊥
      uncited k =
          let ((r, found, has), cited) = drop_references-cited ns gid all_groups rest g k in
          All-In _ r all_groups cited (In-list_groups locale_le ns rest tidy g r found) has
            (read_group-id ns g rest r found)

      there : Child ns after g c → Child ns store g c × (gid ≢ g) × (gid ≢ c)
      there k = ((back k).0, (back k).1, λ e. uncited (subst (λ i. Child ns after g i) (sym e) k))

  IsGroup-after : (g : String) → gid ≢ g → IsGroup ns store g → IsGroup ns after g
  unfolding delete_group
  IsGroup-after g ne (r, found) = drop_references-IsGroup ns gid all_groups rest g (
    r,
    ground (arith, read_group-store_del ns gid store g, found, string_eq.equals_iff gid g, ne),
  )

  gone : read_group ns gid rest ≡ none
  gone = ground (arith, read_group-store_del ns gid store gid, equals_refl gid)

  group_gone : read_group ns gid after ≡ none
  unfolding delete_group
  group_gone =
      drop_references-gone ns gid all_groups rest
        (All-imp _ _ all_groups
          (λ x found same. cc (found, gone, ap (λ i. read_group ns i rest) same)) groups_found)
        gone

  after-IsHierarchy : IsHierarchy ns after
  unfolding delete_group
  after-IsHierarchy = record {
    is_map = (drop_references-IsTidy ns gid all_groups rest tidy).0;
    filled = (drop_references-IsTidy ns gid all_groups rest tidy).1;
    rank = h.rank;
    falls = λ g c k. h.falls g c ((Child-after g c).0 k).0;
    closed =
        λ g c k. IsGroup-after c ((Child-after g c).0 k).2 (h.closed g c ((Child-after g c).0 k).0);
  }

-- Deleting a group of a hierarchy leaves a hierarchy. The group is not there any more, every other
-- group still is, and the other groups have the subgroups that they had, without that group.
pub delete_group_lem :
    (locale_le : String → String → Bool) (ns gid : String) (store : Store)
    → IsHierarchy ns store
    → IsHierarchy ns (delete_group locale_le ns gid store)
      × (read_group ns gid (delete_group locale_le ns gid store) ≡ none)
      × ((g : String)
          → gid ≢ g
          → IsGroup ns store g
          → IsGroup ns (delete_group locale_le ns gid store) g)
      × ((g c : String)
          → Child ns (delete_group locale_le ns gid store) g c
            ↔ (Child ns store g c × (gid ≢ g) × (gid ≢ c)))
delete_group_lem locale_le ns gid store h = (
  after-IsHierarchy locale_le ns gid store h,
  group_gone locale_le ns gid store h,
  IsGroup-after locale_le ns gid store h,
  Child-after locale_le ns gid store h,
)
