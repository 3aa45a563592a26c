-- ===== src/Cord/Iam/Groups.antt =====
-- `CordGroupManager` of src/cord/iam.ts: groups with members and subgroups. A recursion through
-- subgroups runs on fuel, one more than the store has keys.
pub mod Hierarchy
pub mod Membership
pub mod Linking
pub mod Listed
pub mod Deleting
pub mod Deleted
use netab.Common.{
  ℕ, zero, suc, String, Bool, true, false, not, ◌||◌, List, [], ◌∷◌, ◌++◌, map, Option, none, some,
  ◌⋅◌, ◌==◌, string_eq, if◌then◌else◌, includes, keep, length, sort_by, string_le, add_once,
  slice_after, Result, ok, err, Exec, ◌>>=◌, ◌>>◌, and_then, done, throw, for_each,
}
use netab.Json.{
  Value, undefined, str, arr, obj, Items, nil, cons, Fields, end, field, fields_of, get_prop,
  is_truthy,
}
use netab.Cord.Store.{Store, store_get, store_set, store_del, store_list}
use netab.Cord.Iam.{IamError, no_group, would_cycle, endless, group_prefix, group_key}

pub record GroupRecord : Type 0 where
  pub group_id : String
  pub meta : Value
  pub members : List String
  pub subgroups : List String

-- The texts among the elements of an array; nothing for any other value.
unfoldable pub texts_in : Items → List String
texts_in nil = []
texts_in (cons (str s) vs) = s ∷ texts_in vs
texts_in (cons v vs) = texts_in vs

unfoldable pub texts_of : Value → List String
unfolding texts_in
texts_of (arr vs) = texts_in vs
texts_of _ = []

unfoldable pub normalize_group : Value → String → GroupRecord
normalize_group value group_id = record {
  group_id = group_id;
  meta = get_prop "meta" (fields_of value);
  members = texts_of (get_prop "members" (fields_of value));
  subgroups = texts_of (get_prop "subgroups" (fields_of value));
}

unfoldable pub text_items : List String → Items
text_items [] = nil
text_items (s ∷ ss) = cons (str s) (text_items ss)

-- The object that a group record is.
unfoldable pub group_value : GroupRecord → Value
unfolding text_items
group_value group = obj (
    field "groupId" (str group.group_id) (
      field "meta" group.meta (
        field "members" (arr (text_items group.members))
          (field "subgroups" (arr (text_items group.subgroups)) end))))

unfoldable pub read_group : String → String → Store → Option GroupRecord
read_group ns group_id store =
    if is_truthy (store_get (group_key ns group_id) store)
    then some (normalize_group (store_get (group_key ns group_id) store) group_id)
    else none

unfoldable pub write_group : String → GroupRecord → Store → Store
write_group ns group store = store_set (group_key ns group.group_id) (group_value group) store

unfoldable pub require_group : String → String → Exec IamError Store GroupRecord
require_group ns group_id store = elim (read_group ns group_id store) [
  | none ↦ (err (no_group group_id ns), store)
  | some group ↦ (ok group, store)
]

unfoldable pub list_groups : (String → String → Bool) → String → Store → List GroupRecord
list_groups locale_le ns store =
    map (λ entry. normalize_group entry.1 (slice_after (group_prefix ns) entry.0))
      (store_list locale_le (group_prefix ns) store)

-- `group?.members ?? []` and `group?.subgroups ?? []`.
abbrev pub created : String → Value → Option GroupRecord → GroupRecord
created group_id meta none = record {
  group_id = group_id;
  meta = meta;
  members = [];
  subgroups = [];
}
created group_id meta (some group) = record group { group_id = group_id; meta = meta }

unfoldable pub create_group : String → String → Value → Store → Store
create_group ns group_id meta store =
    write_group ns (created group_id meta (read_group ns group_id store)) store

abbrev pub without : String → List String → List String
without id = keep (λ item. not (item == id))

-- The loop of `deleteGroup` over the groups that are left.
unfoldable pub drop_references : String → String → List GroupRecord → Store → Store
drop_references ns group_id [] store = store
drop_references ns group_id (group ∷ groups) store = drop_references ns group_id groups (
    if includes group.subgroups group_id
    then write_group ns (record group { subgroups = without group_id group.subgroups }) store
    else store)

unfoldable pub delete_group : (String → String → Bool) → String → String → Store → Store
delete_group locale_le ns group_id store =
    let rest = store_del (group_key ns group_id) store in
    drop_references ns group_id (list_groups locale_le ns rest) rest

-- `store.set` of the group, as a step of a method that may throw.
abbrev pub save : String → GroupRecord → Exec IamError Store (Unit {0})
save ns group store = (ok tt, write_group ns group store)

unfoldable pub add_member : String → String → String → Exec IamError Store (Unit {0})
add_member ns group_id item_ref = do
  group ← require_group ns group_id
  if includes group.members item_ref
      then done tt
      else save ns (record group { members = sort_by string_le (group.members ++ item_ref ∷ []) })

unfoldable pub remove_member : String → String → String → Exec IamError Store (Unit {0})
remove_member ns group_id item_ref = do
  group ← require_group ns group_id
  save ns (record group { members = without item_ref group.members })

-- The loop of `isMember` over the subgroups; `search` is the call for a subgroup.
unfoldable pub is_below :
    (String → Result IamError Bool) → String → List String → Result IamError Bool
is_below search item_ref [] = ok false
is_below search item_ref (child ∷ children) =
    let rest = is_below search item_ref children in
    if item_ref == "grp:" ⋅ child
    then ok true
    else elim (search child) [ ok true ↦ ok true | ok false ↦ rest | err e ↦ err e ]

unfoldable pub is_member_within : ℕ → Bool → String → String → String → Store → Result IamError Bool
is_member_within zero recursive ns group_id item_ref store = err (endless group_id)
is_member_within (suc fuel) recursive ns group_id item_ref store =
    elim (read_group ns group_id store) [
      | none ↦ err (no_group group_id ns)
      | some group ↦
          if includes group.members item_ref
          then ok true
          else if not recursive
          then ok false
          else is_below (λ child. is_member_within fuel true ns child item_ref store) item_ref
              group.subgroups
    ]

unfoldable pub is_member : Bool → String → String → String → Store → Result IamError Bool
is_member recursive ns group_id item_ref store =
    is_member_within (suc (length store)) recursive ns group_id item_ref store

-- A method that reads the store only.
abbrev pub reads : {A : Type 0} → (Store → Result IamError A) → Exec IamError Store A
reads f store = (f store, store)

unfoldable pub add_subgroup : String → String → String → Exec IamError Store (Unit {0})
add_subgroup ns group_id child_group_id = do
  group ← require_group ns group_id
  require_group ns child_group_id
  below ← reads (λ store.
      if group_id == child_group_id
      then ok true
      else is_member true ns child_group_id ("grp:" ⋅ group_id) store)
  if below
      then throw (would_cycle child_group_id group_id)
      else if includes group.subgroups child_group_id
      then done tt
      else save ns
          (record group { subgroups = sort_by string_le (group.subgroups ++ child_group_id ∷ []) })

unfoldable pub remove_subgroup : String → String → String → Exec IamError Store (Unit {0})
remove_subgroup ns group_id child_group_id = do
  group ← require_group ns group_id
  save ns (record group { subgroups = without child_group_id group.subgroups })

-- The groups that `listMembers` has seen, and the members that it has found.
pub record Visit : Type 0 where
  pub seen : List String
  pub members : List String

abbrev pub add_all : List String → List String → List String
add_all [] found = found
add_all (x ∷ xs) found = add_all xs (add_once x found)

-- The inner function `visit` of `listMembers`.
unfoldable pub visit : ℕ → String → Store → String → Exec IamError Visit (Unit {0})
visit zero ns store current_id v = (err (endless current_id), v)
visit (suc fuel) ns store current_id v =
    if includes v.seen current_id then (ok tt, v) else elim (read_group ns current_id store) [
      | none ↦ (err (no_group current_id ns), record v { seen = v.seen ++ current_id ∷ [] })
      | some current ↦
          for_each
            (λ child w.
              visit fuel ns store child
                (record w { members = add_once ("grp:" ⋅ child) w.members }))
            current.subgroups
            (record {
              seen = v.seen ++ current_id ∷ [];
              members = add_all current.members v.members;
            })
    ]

abbrev pub sorted_members : Result IamError (Unit {0}) × Visit → Result IamError (List String)
sorted_members (ok done, v) = ok (sort_by string_le v.members)
sorted_members (err e, v) = err e

unfoldable pub list_members : Bool → String → String → Store → Result IamError (List String)
list_members recursive ns group_id store = elim (read_group ns group_id store) [
  | none ↦ err (no_group group_id ns)
  | some group ↦
      if recursive
      then sorted_members
          (visit (suc (length store)) ns store group_id (record { seen = []; members = [] }))
      else ok (sort_by string_le group.members)
]
