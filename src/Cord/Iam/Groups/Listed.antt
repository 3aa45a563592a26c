-- ===== src/Cord/Iam/Groups/Listed.antt =====
-- `listGroups` lists each group of a namespace, and nothing else.
use netab.Common.{
  All-map, String, Bool, true, List, [], ◌∷◌, Option, none, some, get, map, string_eq,
  if◌then◌else◌, ◌≡◌, inl, inr, refl, sym, ap, ◌∙◌, subst, arith, All, slice_after,
  slice_after-append,
}
use netab.Json.{Value}
use netab.Cord.Store.{Store}
use netab.Cord.Store.Listing.{In, IsEntry, In-store_list, All-store_list}
use netab.Cord.Iam.{group_prefix, group_key}
use netab.Cord.Iam.Groups.{GroupRecord, normalize_group, read_group, list_groups}
use netab.Cord.Iam.Groups.Hierarchy.{IsTidy, read_group_lem, parsed}
use text.Mathlib.Text.{starts_with}
use text.Mathlib.TextEquality.{starts_with_iff}

In-map : {A B : Type 0} (f : A → B) (a : A) (xs : List A) → In a xs → In (f a) (map f xs)
In-map f a [] m = m
In-map f a (x ∷ xs) (inl e) = inl (ap f e)
In-map f a (x ∷ xs) (inr m) = inr (In-map f a xs m)

module _ (locale_le : String → String → Bool) (ns : String) (store : Store)
    (tidy : IsTidy ns store) where
  abbrev IsListed : GroupRecord → Type 0
  IsListed group = read_group ns group.group_id store ≡ some group

  entry_group :
      (entry : String × Value)
      → (starts_with entry.0 (group_prefix ns) ≡ true) × IsEntry store entry
      → IsListed (normalize_group entry.1 (slice_after (group_prefix ns) entry.0))
  unfolding group_key normalize_group
  entry_group (key, value) (under, found) =
      let (id, key_eq) = (starts_with_iff key (group_prefix ns)).0 under in
      let sliced : slice_after (group_prefix ns) key ≡ id =
        ap (slice_after (group_prefix ns)) (sym key_eq) ∙ slice_after-append (group_prefix ns) id in
      let there : get (group_key ns id) store ≡ some value = ap (λ k. get k store) key_eq ∙ found in
      subst (λ i. read_group ns i store ≡ some (normalize_group value i)) (sym sliced)
        (read_group_lem ns id store
          ∙ ap (parsed id) there
          ∙ ap (λ b. if b then some (normalize_group value id) else none) (tidy.1 id value there))

  -- What is listed is a group of the store, and each group is listed.
  pub All-list_groups : All IsListed (list_groups locale_le ns store)
  unfolding list_groups
  All-list_groups =
      All-map _ IsListed _ _ entry_group (All-store_list locale_le (group_prefix ns) store tidy.0)

  pub In-list_groups :
      (g : String) (r : GroupRecord)
      → read_group ns g store ≡ some r
      → In r (list_groups locale_le ns store)
  unfolding list_groups group_key
  In-list_groups g r found =
      go (get (group_key ns g) store) refl (sym (read_group_lem ns g store) ∙ found)
    where
      go :
          (o : Option Value)
          → get (group_key ns g) store ≡ o
          → parsed g o ≡ some r
          → In r (list_groups locale_le ns store)
      go none e p = absurd (cc)
      go (some v) e p =
          let made : normalize_group v (slice_after (group_prefix ns) (group_key ns g)) ≡ r =
            ap (normalize_group v) (slice_after-append (group_prefix ns) g)
            ∙ ground (arith, p, tidy.1 g v e) in
          subst (λ x. In x (list_groups locale_le ns store)) made
            (In-map _ _ _ (
              In-store_list locale_le (group_prefix ns) store (group_key ns g) v e
                ((starts_with_iff (group_key ns g) (group_prefix ns)).1 (g, refl))))
