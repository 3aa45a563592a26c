-- ===== src/Utils.antt =====
-- src/shared/utils.ts: merging, reading and projecting JSON-like values. A model value cannot be
-- changed in place, so a deep clone is the value itself.
pub mod Merge
mod Tests
use netab.Common.{
  String, Bool, true, false, List, [], ◌∷◌, ◌&&◌, ◌||◌, not, if◌then◌else◌, ◌==◌, split, Option,
  none, some, length, string_eq, keys, nat_eq,
}
use netab.Json.{
  Value, undefined, null, arr, obj, Items, Fields, end, field, get_prop, set_prop, get_item,
  is_record, fields_of, strict_eq, entries, spread_fields,
}

abbrev pub deep_clone : Value → Value
deep_clone v = v

unfoldable mutual
  pub deep_merge : Value → Value → Value
  deep_merge target (obj patch) =
      if is_record target then obj (merge_entries (fields_of target) patch) else obj patch
  deep_merge target patch = deep_clone patch

  -- The loop over `Object.entries(patch)`.
  pub merge_entries : Fields → Fields → Fields
  merge_entries result end = result
  merge_entries result (field key value patch) =
      let merged = deep_merge (get_prop key result) value in
      merge_entries
        (set_prop key
          (if is_record (get_prop key result) && is_record value then merged else deep_clone value)
          result)
        patch

unfoldable pub shallow_merge : Value → Value → Value
shallow_merge (obj target) (obj patch) = obj (spread_fields patch target)
shallow_merge target patch = deep_clone patch

-- `(current as Record<string, unknown>)[part]`, of a record or an array.
unfoldable pub get_part : String → Value → Value
get_part part (obj fs) = get_prop part fs
get_part part (arr vs) = get_item part vs
get_part part _ = undefined

unfoldable pub is_container : Value → Bool
is_container (obj fs) = true
is_container (arr vs) = true
is_container _ = false

unfoldable pub has_prop : String → Fields → Bool
has_prop k end = false
has_prop k (field j v fs) = j == k || has_prop k fs

-- The loop of `getField` over the parts of the path.
unfoldable pub walk : List String → Value → Value
unfolding is_container get_part
walk [] current = current
walk (part ∷ parts) current =
    let next = walk parts (get_part part current) in
    if not (is_container current) then undefined else next

unfoldable pub get_field : Value → String → Value
unfolding walk has_prop split
get_field value path =
    if path == "id" && has_prop "id" (fields_of value)
    then get_prop "id" (fields_of value)
    else walk (split b'.' path) value

-- The inner loop of `pickFields`: `dst` is the object that the next part is written to.
unfoldable pub pick_path : List String → Value → Fields → Fields
unfolding is_container get_part
pick_path [] src dst = dst
pick_path (part ∷ []) src dst =
    if not (is_container src) || strict_eq (get_part part src) undefined
    then dst
    else set_prop part (deep_clone (get_part part src)) dst
pick_path (part ∷ next ∷ parts) src dst =
    let below = pick_path (next ∷ parts) (get_part part src) (fields_of (get_prop part dst)) in
    if not (is_container src) || strict_eq (get_part part src) undefined
    then dst
    else set_prop part (obj below) dst

unfoldable pub pick_all : List String → Value → Fields → Fields
unfolding pick_path split
pick_all [] value out = out
pick_all (name ∷ fields) value out = pick_all fields value (pick_path (split b'.' name) value out)

unfoldable pub pick_fields : Value → Option (List String) → Value
unfolding pick_all
pick_fields value none = deep_clone value
pick_fields value (some []) = deep_clone value
pick_fields (obj fs) (some (name ∷ fields)) = obj (pick_all (name ∷ fields) (obj fs) end)
pick_fields value (some (name ∷ fields)) = deep_clone value

unfoldable pub top_level_keys : Value → List String
top_level_keys (obj fs) = keys (entries fs)
top_level_keys _ = []
