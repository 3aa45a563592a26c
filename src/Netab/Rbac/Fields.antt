-- ===== src/Netab/Rbac/Fields.antt =====
-- The fields that a restricted reader sees.
use netab.Common.{
  String, Bool, true, List, [], ◌∷◌, some, includes, split, keys, string_eq, ◌==◌, ◌||◌, ◌≡◌, arith,
  nat_eq,
}
use netab.Json.{Value, obj, Fields, end, field, set_prop, entries, fields_of, get_prop}
use netab.Utils.{pick_path, pick_all, pick_fields, top_level_keys, get_part}
use netab.Netab.Types.{TablePermission}
use netab.Netab.Rbac.{filter_readable_value}

-- The first part of a dotted path.
abbrev pub first_part : List String → String
first_part [] = ""
first_part (part ∷ parts) = part

abbrev pub heads : List String → List String
heads [] = []
heads (name ∷ fields) = first_part (split b'.' name) ∷ heads fields

abbrev has_key : Fields → String → Bool
has_key fs k = includes (keys (entries fs)) k

has_key-set_prop :
    (part k : String) (v : Value) (fs : Fields)
    → has_key (set_prop part v fs) k ≡ (has_key fs k || part == k)
unfolding set_prop
has_key-set_prop part k v end = ground arith
has_key-set_prop part k v (field j w fs) = ground (
  arith,
  has_key-set_prop part k v fs,
  string_eq.equals_iff j part,
  string_eq.equals_iff part k,
  string_eq.equals_iff j k,
)

-- A path writes no key at the top but its first part.
has_key-pick_path :
    (parts : List String) (src : Value) (dst : Fields) (k : String)
    → has_key (pick_path parts src dst) k ≡ true
    → (has_key dst k || first_part parts == k) ≡ true
unfolding pick_path
has_key-pick_path [] src dst k h = ground (arith, h)
has_key-pick_path (part ∷ []) src dst k h =
    ground (arith, h, has_key-set_prop part k (get_part part src) dst)
has_key-pick_path (part ∷ next ∷ parts) src dst k h = ground (
  arith,
  h,
  has_key-set_prop part k
      (obj (pick_path (next ∷ parts) (get_part part src) (fields_of (get_prop part dst)))) dst,
)

has_key-pick_all :
    (fields : List String) (value : Value) (out : Fields) (k : String)
    → has_key (pick_all fields value out) k ≡ true
    → (has_key out k || includes (heads fields) k) ≡ true
unfolding pick_all
has_key-pick_all [] value out k h = ground (arith, h)
has_key-pick_all (name ∷ fields) value out k h = ground (
  arith,
  h,
  has_key-pick_all fields value (pick_path (split b'.' name) value out) k h,
  has_key-pick_path (split b'.' name) value out k,
)

-- A reader whose readable fields are listed, at least one of them, sees of an object no top-level
-- key that none of the listed paths starts with.
pub filter_readable_value-heads :
    (fs : Fields) (permission : TablePermission) (name : String) (fields : List String) (k : String)
    → permission.read_fields ≡ some (name ∷ fields)
    → includes (top_level_keys (filter_readable_value (obj fs) permission)) k ≡ true
    → includes (heads (name ∷ fields)) k ≡ true
unfolding filter_readable_value pick_fields top_level_keys
filter_readable_value-heads fs permission name fields k listed seen =
    ground (arith, listed, seen, has_key-pick_all (name ∷ fields) (obj fs) end k)
