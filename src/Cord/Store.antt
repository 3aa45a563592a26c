-- ===== src/Cord/Store.antt =====
-- src/cord/store.ts: the coordination store that keeps its values in memory. A stored value is a
-- clone, which here is the value itself.
pub mod Listing
pub mod Reading
use netab.Common.{
  String, Bool, Dict, get, set, delete, string_eq, Option, none, some, List, sort_by, keep,
}
use netab.Json.{Value, null}
use text.Mathlib.Text.{starts_with}

abbrev pub Store : Type 0
Store = Dict String Value

unfoldable pub store_get : String → Store → Value
store_get key store = elim (get key store) [ none ↦ null | some value ↦ value ]

unfoldable pub store_set : String → Value → Store → Store
store_set key value store = set key value store

unfoldable pub store_del : String → Store → Store
store_del key store = delete key store

-- `list`, where `locale_le a b` says that `a.localeCompare(b)` is not positive.
unfoldable pub store_list : (String → String → Bool) → String → Store → List (String × Value)
store_list locale_le prefix store =
    sort_by (λ left right. locale_le left.0 right.0)
      (keep (λ entry. starts_with entry.0 prefix) store)
