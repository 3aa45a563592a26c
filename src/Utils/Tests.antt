-- ===== src/Utils/Tests.antt =====
-- Merging at concrete inputs.
use netab.Common.{◌≡◌, refl}
use netab.Json.{str, obj, Fields, end, field, get_prop, set_prop, spread_fields}
use netab.Utils.{deep_merge, shallow_merge}
use netab.Utils.Merge.{deep_merge_idempotent}

abbrev person : Fields
person = field "name" (str "Ann") (field "address" (obj (field "city" (str "Oslo") end)) end)

abbrev moved : Fields
moved = field "address" (obj (field "street" (str "Main") end)) end

deep_merge_idempotent_example :
    deep_merge (deep_merge (obj person) (obj moved)) (obj moved)
    ≡ deep_merge (obj person) (obj moved)
deep_merge_idempotent_example =
    deep_merge_idempotent (obj person) (obj moved) (tt, (tt, tt, tt), tt)

merge_test :
    deep_merge (obj person) (obj moved)
    ≡ obj (
        field "name"
          (str "Ann")
          (field "address" (obj (field "city" (str "Oslo") (field "street" (str "Main") end))) end))
unfolding deep_merge set_prop get_prop
merge_test = refl

shallow_test : shallow_merge (obj person) (obj moved) ≡ obj (field "name" (str "Ann") moved)
unfolding shallow_merge spread_fields set_prop
shallow_test = refl
