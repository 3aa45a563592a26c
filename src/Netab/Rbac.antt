-- ===== src/Netab/Rbac.antt =====
-- src/netab/rbac.ts: what the rules of a caller's groups permit on a table.
pub mod Grants
pub mod Fields
use netab.Common.{
  ℕ, ◌+◌, ◌-◌, ◌/◌, ◌%◌, String, Bool, true, false, not, ◌&&◌, ◌||◌, List, [], ◌∷◌, ◌++◌, Option,
  none, some, get, keep, includes, sort_by, ltb, leb, nat_eq, string_eq, if◌then◌else◌, ◌==◌,
  Result, ok, err, unique, string_le,
}
use netab.Json.{Value}
use netab.Utils.{pick_fields, top_level_keys}
use netab.Netab.Types.{Permission, admin, permission_eq, TablePermission, AclRule, NetabContext}

unfoldable pub merge_string_lists :
    Option (List String) → Option (List String) → Option (List String)
merge_string_lists none right = right
merge_string_lists (some left) none = some left
merge_string_lists (some left) (some right) = some (sort_by string_le (unique (left ++ right)))

-- `rule.tables[tableName] ?? rule.tables['*']`.
unfoldable pub table_permission : AclRule → String → Option TablePermission
table_permission rule table_name = elim (get table_name rule.tables) [
  | some permission ↦ some permission
  | none ↦ get "*" rule.tables
]

unfoldable pub add_rule : Option TablePermission → TablePermission → TablePermission
add_rule none resolved = resolved
add_rule (some permission) resolved = record {
  allow = unique (resolved.allow ++ permission.allow);
  read_fields = merge_string_lists resolved.read_fields permission.read_fields;
  write_fields = merge_string_lists resolved.write_fields permission.write_fields;
}

-- The loop over the rules that match.
unfoldable pub resolve_all : List AclRule → String → TablePermission → TablePermission
resolve_all [] table_name resolved = resolved
resolve_all (rule ∷ rules) table_name resolved =
    resolve_all rules table_name (add_rule (table_permission rule table_name) resolved)

-- `resolved.allow.length > 0 ? resolved : null`.
abbrev pub if_allowed : TablePermission → List Permission → Option TablePermission
if_allowed resolved [] = none
if_allowed resolved (a ∷ allow) = some resolved

unfoldable pub matching : List AclRule → NetabContext → List AclRule
matching rules ctx = keep (λ rule. includes ctx.groups rule.group) rules

abbrev pub nothing_yet : TablePermission
nothing_yet = record { allow = []; read_fields = none; write_fields = none }

unfoldable pub resolve_permission : List AclRule → NetabContext → String → Option TablePermission
resolve_permission rules ctx table_name = elim (matching rules ctx) [
  | [] ↦ none
  | rule ∷ more ↦
      if_allowed (resolve_all (rule ∷ more) table_name nothing_yet)
        (resolve_all (rule ∷ more) table_name nothing_yet).allow
]

pub data Forbidden : Type 0 where
  forbidden : Permission → String → Forbidden
  forbidden_fields : List String → Forbidden

unfoldable pub assert_permission :
    List AclRule → NetabContext → String → Permission → Result Forbidden TablePermission
assert_permission rules ctx table_name action = elim (resolve_permission rules ctx table_name) [
  | none ↦ err (forbidden action table_name)
  | some permission ↦
      if not (includes permission.allow action) && not (includes permission.allow admin)
      then err (forbidden action table_name)
      else ok permission
]

unfoldable pub filter_readable_value : Value → TablePermission → Value
filter_readable_value value permission = elim permission.read_fields [
  | none ↦ value
  | some fields ↦ pick_fields value (some fields)
]

abbrev pub refuse : List String → Result Forbidden (Unit {0})
refuse [] = ok tt
refuse (key ∷ keys) = err (forbidden_fields (key ∷ keys))

unfoldable pub assert_writable_fields : Value → TablePermission → Result Forbidden (Unit {0})
assert_writable_fields value permission = elim permission.write_fields [
  | none ↦ ok tt
  | some fields ↦
      if includes permission.allow admin
      then ok tt
      else refuse (keep (λ key. not (includes fields key)) (top_level_keys value))
]
