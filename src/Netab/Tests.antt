-- ===== src/Netab/Tests.antt =====
-- Permissions at concrete rules.
use netab.Common.{true, List, [], ◌∷◌, none, some, split, ◌≡◌, refl, includes, ◌||◌, string_eq}
use netab.Json.{undefined, num, str, obj, Fields, end, field, set_prop, strict_eq, get_prop}
use netab.Utils.{top_level_keys, pick_fields, pick_all, pick_path, is_container, get_part}
use netab.Netab.Types
use netab.Netab.Types.{Permission, read, write, admin, TablePermission, AclRule, NetabContext}
use netab.Netab.Rbac.{assert_permission, filter_readable_value}
use netab.Netab.Rbac.Grants.{is_ok, is_granted, assert_permission_granted}
use netab.Netab.Rbac.Fields.{heads, filter_readable_value-heads}

abbrev clerk : TablePermission
clerk = record {
  allow = read ∷ write ∷ [];
  read_fields = some ("name" ∷ "address.city" ∷ []);
  write_fields = none;
}

abbrev rules : List AclRule
rules =
    record { group = "clerks"; tables = ("orders", clerk) ∷ [] }
    ∷ record {
      group = "owners";
      tables = ("*", record { allow = admin ∷ []; read_fields = none; write_fields = none }) ∷ [];
    }
    ∷ []

abbrev caller : NetabContext
caller = record {
  sub = "u";
  app = "app";
  db = "db";
  groups = "clerks" ∷ "guests" ∷ [];
  site_id = undefined;
  location_id = undefined;
  brand_id = undefined;
  exp = 2000;
  token = "t";
}

assert_permission_granted_example :
    is_ok (assert_permission rules caller "orders" Types.delete)
    ≡ (is_granted rules caller "orders" Types.delete || is_granted rules caller "orders" admin)
assert_permission_granted_example = assert_permission_granted rules caller "orders" Types.delete

abbrev order : Fields
order = field "name" (str "Ann") (
    field "address" (obj (field "city" (str "Oslo") (field "street" (str "Main") end)))
      (field "price" (num 3) end))

sees_address : includes (top_level_keys (filter_readable_value (obj order) clerk)) "address" ≡ true
unfolding top_level_keys filter_readable_value pick_fields pick_all pick_path is_container get_part
    set_prop strict_eq get_prop split
sees_address = refl

filter_readable_value-heads_example :
    includes (heads ("name" ∷ "address.city" ∷ [])) "address" ≡ true
filter_readable_value-heads_example =
    filter_readable_value-heads order clerk "name" ("address.city" ∷ []) "address" refl sees_address
