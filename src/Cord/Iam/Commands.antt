-- ===== src/Cord/Iam/Commands.antt =====
-- `CordCommandManager` of src/cord/iam.ts: commands, grants, and who may invoke what.
pub mod Collecting
pub mod Subjects
pub mod Invoke
use netab.Common.{
  ℕ, ◌%◌, ◌^◌, String, Bool, true, false, not, ◌&&◌, List, [], ◌∷◌, ◌++◌, map, all, any, Dict,
  Option, none, some, ◌==◌, string_eq, nat_eq, ltb, if◌then◌else◌, ◌⋅◌, unique, add_once,
  slice_after, Result, ok, err, Exec, ◌>>=◌, ◌>>◌, and_then, for_each,
}
use Prim.Native.Nat.{bit_and}
use text.Mathlib.Text.{starts_with}
use netab.Json.{
  Value, undefined, null, bool, num, obj, Fields, end, field, entries, fields_of, get_prop,
  is_record, strict_eq, is_truthy,
}
use netab.Cord.Store.{Store, store_get, store_set, store_del}
use netab.Cord.Iam.{IamError, command_key, grant_key}
use netab.Cord.Iam.Groups.{GroupRecord, is_member, list_groups}

unfoldable pub define_command : String → String → Value → Store → Store
define_command ns command_id definition store =
    store_set (command_key ns command_id) definition store

pub record CommandGrant : Type 0 where
  pub allow : Bool
  pub mask : Value
  pub scope : Value

unfoldable pub grant_value : CommandGrant → Value
grant_value grant =
    obj (field "allow" (bool grant.allow) (field "mask" grant.mask (field "scope" grant.scope end)))

unfoldable pub grant : String → String → String → CommandGrant → Store → Store
grant ns subject command_id g store =
    store_set (grant_key ns subject command_id) (grant_value g) store

unfoldable pub revoke : String → String → String → Store → Store
revoke ns subject command_id store = store_del (grant_key ns subject command_id) store

-- `a & b` of two integers is taken of their low 32 bits, and is negative if the highest of them is
-- set in both; then it is no number that is asked for. A mask is a number, as its type says.
abbrev pub low_word : ℕ → ℕ
low_word n = n % 2 ^ 32

abbrev pub mask_bits : Value → ℕ
mask_bits (num n) = n
mask_bits _ = 0

unfoldable pub covers : ℕ → ℕ → Bool
covers mask requested =
    ltb (bit_and (low_word mask) (low_word requested)) (2 ^ 31)
    && bit_and (low_word mask) (low_word requested) == requested

unfoldable pub mask_allows : Value → ℕ → Bool
mask_allows stored requested_mask =
    if requested_mask == 0
    then true
    else if strict_eq (get_prop "mask" (fields_of stored)) undefined
    then true
    else covers (mask_bits (get_prop "mask" (fields_of stored))) requested_mask

-- `Object.is` of two JSON values is `===`.
unfoldable pub scope_matches : Value → Value → Bool
scope_matches grant_scope requested_scope =
    if strict_eq grant_scope undefined
    then true
    else if not (is_record grant_scope)
    then strict_eq grant_scope requested_scope
    else if not (is_record requested_scope)
    then false
    else all
        (λ (entry : String × Value).
          strict_eq (get_prop entry.0 (fields_of requested_scope)) entry.1)
        (entries (fields_of grant_scope))

-- Whether a stored grant is about what is asked for.
unfoldable pub applies : ℕ → Value → Value → Bool
applies requested_mask scope stored =
    mask_allows stored requested_mask && scope_matches (get_prop "scope" (fields_of stored)) scope

unfoldable pub denies : ℕ → Value → Value → Bool
denies requested_mask scope stored =
    strict_eq (get_prop "allow" (fields_of stored)) (bool false)
    && applies requested_mask scope stored

unfoldable pub permits : ℕ → Value → Value → Bool
permits requested_mask scope stored =
    is_truthy (get_prop "allow" (fields_of stored)) && applies requested_mask scope stored

-- `groupId.startsWith('grp:') ? groupId : 'grp:' + groupId`, and the id without the prefix.
unfoldable pub as_group : String → String
as_group group_id = if starts_with group_id "grp:" then group_id else "grp:" ⋅ group_id

unfoldable pub bare_group : String → String
bare_group explicit = if starts_with explicit "grp:" then slice_after "grp:" explicit else explicit

-- `if (await isMember(…)) result.add(subject)`.
unfoldable pub add_if : Result IamError Bool → String → Exec IamError (List String) (Unit {0})
add_if (ok true) subject found = (ok tt, add_once subject found)
add_if (ok false) subject found = (ok tt, found)
add_if (err e) subject found = (err e, found)

-- One round of the loop of `resolveSubjects`.
unfoldable pub resolve_group :
    String → String → List String → Store → GroupRecord → Exec IamError (List String) (Unit {0})
resolve_group ns user_id groups store group = do
  add_if (is_member true ns group.group_id user_id store) ("grp:" ⋅ group.group_id)
  for_each
      (λ explicit.
        add_if (is_member true ns group.group_id ("grp:" ⋅ bare_group explicit) store)
          ("grp:" ⋅ group.group_id))
      groups

abbrev pub result_with : {A : Type 0} → Result IamError (Unit {0}) × A → Result IamError A
result_with (ok done, found) = ok found
result_with (err e, found) = err e

unfoldable pub resolve_subjects :
    (String → String → Bool) → String → String → List String → Store → Result IamError (List String)
resolve_subjects locale_le ns user_id groups store = result_with (
    for_each (resolve_group ns user_id groups store) (list_groups locale_le ns store)
      (unique (user_id ∷ map as_group groups)))

-- The grants that the subjects have.
unfoldable pub grants_of : String → String → Store → List String → List Value
grants_of ns command_id store [] = []
grants_of ns command_id store (subject ∷ subjects) =
    let stored = store_get (grant_key ns subject command_id) store in
    let rest = grants_of ns command_id store subjects in
    if is_truthy stored then stored ∷ rest else rest

abbrev pub decide : ℕ → Value → List Value → Bool
decide requested_mask scope grants =
    if any (denies requested_mask scope) grants
    then false
    else any (permits requested_mask scope) grants

abbrev pub decided_by :
    String → String → Store → ℕ → Value → Result IamError (List String) → Result IamError Bool
decided_by ns command_id store requested_mask scope (ok subjects) =
    ok (decide requested_mask scope (grants_of ns command_id store subjects))
decided_by ns command_id store requested_mask scope (err e) = err e

unfoldable pub can_invoke :
    (String → String → Bool)
    → String
    → String
    → List String
    → Value
    → String
    → ℕ
    → Store
    → Result IamError Bool
can_invoke locale_le ns user_id groups scope command_id requested_mask store =
    decided_by ns command_id store requested_mask scope
      (resolve_subjects locale_le ns user_id groups store)
