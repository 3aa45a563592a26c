-- ===== src/Cord/Store/Reading.antt =====
-- What `get` of a store finds after `set`.
use netab.Common.{
  String, Option, none, some, get, set, string_eq, ◌==◌, if◌then◌else◌, ◌≡◌, arith, get-set,
  Bool-cases, inl, inr, Option-cases, ap, ◌∙◌, sym,
}
use netab.Json.{Value, null}
use netab.Cord.Store.{Store, store_get, store_set}

abbrev or_null : Option Value → Value
or_null none = null
or_null (some value) = value

store_get_lem : (key : String) (store : Store) → store_get key store ≡ or_null (get key store)
unfolding store_get
store_get_lem key store = elim (Option-cases (get key store)) [
  | inl e ↦ ground (arith, e)
  | inr (v, e) ↦ ground (arith, e)
]

pub store_get-store_set :
    (key other : String) (value : Value) (store : Store)
    → store_get other (store_set key value store)
      ≡ (if key == other then value else store_get other store)
unfolding store_set
store_get-store_set key other value store =
    store_get_lem other (set key value store)
    ∙ ap or_null (get-set key other value store)
    ∙ elim (Bool-cases (key == other)) [
      | inl same ↦ rw same
      | inr differ ↦ rw differ (sym (store_get_lem other store))
    ]
