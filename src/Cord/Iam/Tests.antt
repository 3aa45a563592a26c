-- ===== src/Cord/Iam/Tests.antt =====
-- Users, groups and grants at concrete inputs.
use netab.Common.{
  ℕ, String, Bool, true, false, List, [], ◌∷◌, ◌≡◌, ◌≢◌, ◌↔◌, ◌⊎◌, none, some, refl, Result, ok,
  err, string_le, for_each, sort_by, insert_by, set, get, unique, slice_after,
}
use netab.Json.{undefined, num, is_truthy, get_prop, strict_eq}
use netab.Cord.Store.{Store, store_list, store_get, store_set}
use netab.Cord.Iam.{IamError, would_cycle, group_key, group_prefix, grant_key}
use netab.Cord.Iam.Groups.{
  GroupRecord, create_group, add_subgroup, add_member, is_member, list_members, delete_group,
  list_groups, require_group, read_group, write_group, group_value, is_below, is_member_within,
  normalize_group, text_items, texts_in, texts_of, visit,
}
use netab.Cord.Iam.Groups.Hierarchy.{IsHierarchy, IsGroup, Child}
use netab.Cord.Iam.Groups.Membership.{Contains, is_member_lem}
use netab.Cord.Iam.Groups.Linking.{IsLinked, add_subgroup_lem}
use netab.Cord.Iam.Groups.Deleted.{delete_group_lem}
use netab.Cord.Iam.Commands.Subjects.{IsSubject}
use netab.Cord.Iam.Commands.Invoke.{HasGrant, can_invoke_lem}
use netab.Cord.Iam.Runs.{
  Reached, empty, next, creates_group, adds_subgroup, adds_member, grants, Reached-IsHierarchy,
}
use netab.Cord.Iam.Commands.{
  grant, can_invoke, resolve_subjects, add_if, applies, as_group, bare_group, covers, denies,
  grant_value, grants_of, mask_allows, permits, resolve_group, scope_matches,
}

abbrev two_groups : Store
two_groups = create_group "ns" "staff" undefined (create_group "ns" "admins" undefined [])

abbrev nested_groups : Store
nested_groups =
    (add_member "ns" "admins" "user:a" (add_subgroup "ns" "staff" "admins" two_groups).1).1

abbrev granted : Store
granted =
    grant "ns" "grp:staff" "cmd" (record { allow = true; mask = num 3; scope = undefined })
      (grant "ns" "user:a" "cmd" (record { allow = false; mask = num 2; scope = undefined })
        nested_groups)

-- What the caller may do with each mask, through `staff`. A denied part of a mask does not deny the
-- whole of it.
abbrev asks : ℕ → Result IamError Bool
asks mask = can_invoke string_le "ns" "user:a" [] undefined "cmd" mask granted

runs :
    ((add_subgroup "ns" "admins" "staff" nested_groups).0 ≡ err (would_cycle "staff" "admins"))
    × (list_members true "ns" "staff" nested_groups ≡ ok ("grp:admins" ∷ "user:a" ∷ []))
    × (asks 1 ≡ ok true)
    × (asks 2 ≡ ok false)
    × (asks 3 ≡ ok true)
    × (asks 4 ≡ ok false)
unfolding can_invoke grant resolve_subjects for_each list_groups store_list sort_by store_set set
    add_member require_group read_group is_truthy store_get get add_subgroup create_group
    write_group group_key insert_by unique slice_after string_le add_if applies as_group bare_group
    covers denies grant_value grants_of mask_allows permits resolve_group scope_matches group_value
    is_below is_member is_member_within normalize_group text_items texts_in texts_of grant_key
    group_prefix get_prop strict_eq list_members visit
runs = (refl, refl, refl, refl, refl, refl)

reached : Reached string_le "ns" nested_groups
reached =
    next
      (next (next (next empty (creates_group "admins" undefined)) (creates_group "staff" undefined))
        (adds_subgroup "staff" "admins"))
      (adds_member "admins" "user:a")

Reached-IsHierarchy_example : IsHierarchy "ns" nested_groups
Reached-IsHierarchy_example = Reached-IsHierarchy string_le "ns" reached

nested : IsHierarchy "ns" nested_groups
nested = Reached-IsHierarchy string_le "ns" reached

abbrev group_of : String → List String → List String → GroupRecord
group_of id members subgroups = record {
  group_id = id;
  meta = undefined;
  members = members;
  subgroups = subgroups;
}

staff_found : read_group "ns" "staff" nested_groups ≡ some (group_of "staff" [] ("admins" ∷ []))
unfolding add_member require_group read_group is_truthy store_get get add_subgroup create_group
    write_group group_key store_set set insert_by sort_by string_le group_value normalize_group
    text_items texts_in texts_of group_prefix get_prop strict_eq is_below is_member is_member_within
staff_found = refl

admins_found : read_group "ns" "admins" nested_groups ≡ some (group_of "admins" ("user:a" ∷ []) [])
unfolding add_member require_group read_group is_truthy store_get get add_subgroup create_group
    write_group group_key store_set set insert_by sort_by string_le group_value normalize_group
    text_items texts_in texts_of group_prefix get_prop strict_eq is_below is_member is_member_within
admins_found = refl

is_member_lem_example :
    (b : Bool) × (is_member true "ns" "staff" "user:a" nested_groups ≡ ok b)
    × ((b ≡ true) ↔ Contains "ns" nested_groups "user:a" "staff")
is_member_lem_example =
    is_member_lem "ns" nested_groups "user:a" "staff" nested
      (group_of "staff" [] ("admins" ∷ []), staff_found)

abbrev admins : String
admins = "admins"

add_subgroup_lem_example :
    (((admins ≡ "staff") ⊎ Contains "ns" nested_groups "grp:admins" "staff")
      × (add_subgroup "ns" "admins" "staff" nested_groups
          ≡ (err (would_cycle "staff" "admins"), nested_groups)))
    ⊎ ((¬ ((admins ≡ "staff") ⊎ Contains "ns" nested_groups "grp:admins" "staff"))
        × ((add_subgroup "ns" "admins" "staff" nested_groups).0 ≡ ok tt)
        × IsLinked "ns" "admins" "staff" (add_subgroup "ns" "admins" "staff" nested_groups).1)
add_subgroup_lem_example =
    add_subgroup_lem "ns" nested_groups "admins" "staff" nested
      (group_of "admins" ("user:a" ∷ []) [], admins_found)
      (group_of "staff" [] ("admins" ∷ []), staff_found)

delete_group_lem_example :
    IsHierarchy "ns" (delete_group string_le "ns" "admins" nested_groups)
    × (read_group "ns" "admins" (delete_group string_le "ns" "admins" nested_groups) ≡ none)
    × ((g : String)
        → "admins" ≢ g
        → IsGroup "ns" nested_groups g
        → IsGroup "ns" (delete_group string_le "ns" "admins" nested_groups) g)
    × ((g c : String)
        → Child "ns" (delete_group string_le "ns" "admins" nested_groups) g c
          ↔ (Child "ns" nested_groups g c × ("admins" ≢ g) × ("admins" ≢ c)))
delete_group_lem_example = delete_group_lem string_le "ns" "admins" nested_groups nested

granted_reached : IsHierarchy "ns" granted
granted_reached = Reached-IsHierarchy string_le "ns" (
    next
      (next reached
        (grants "user:a" "cmd" (record { allow = false; mask = num 2; scope = undefined })))
      (grants "grp:staff" "cmd" (record { allow = true; mask = num 3; scope = undefined })))

can_invoke_lem_example :
    (b : Bool) × (can_invoke string_le "ns" "user:a" [] undefined "cmd" 3 granted ≡ ok b)
    × ((b ≡ true) ↔ (
        ((s : String) × IsSubject "ns" granted "user:a" [] s
          × HasGrant "ns" "cmd" granted (permits 3 undefined) s)
        × ((s : String)
            → IsSubject "ns" granted "user:a" [] s
            → ¬ HasGrant "ns" "cmd" granted (denies 3 undefined) s)))
can_invoke_lem_example =
    can_invoke_lem string_le "ns" "user:a" [] undefined "cmd" 3 granted granted_reached
