-- ===== src/Steng/Engine/Query.antt =====
-- `get_objs`: by ids, or by a scan with a filter; and pages of either.
use netab.Common.{
  ℕ, ◌+◌, String, List, [], ◌∷◌, Option, none, some, get, values, string_eq, nat_eq, not, ok, err,
  keep, map, sort_by, take, drop, length, min, Result,
}
use netab.Json.{Value, undefined, obj, str, end, field, spread, text_of, get_prop, fields_of}
use netab.Steng.Types.{Filter, ObjRow, DocMeta, not_found, GetResult, Error, no_table}
use netab.Steng.Filtering.{assert_filter_supported, matches_filter}
use netab.Steng.Host.{Host}
use netab.Steng.Engine.{StoredDoc, TableState, Engine}
use netab.Steng.Engine.Methods.{live}

abbrev pub meta_of : StoredDoc → DocMeta
meta_of doc = record { updated_at_ms = doc.updated_at_ms; etag = doc.etag; deleted = doc.deleted }

-- A row for an id that the caller asks for.
unfoldable pub row_by_id : TableState → String → ObjRow
row_by_id state id = elim (live id state) [
  | none ↦ record { id = id; value = undefined; meta = none; miss = some not_found }
  | some doc ↦ record { id = id; value = doc.value; meta = some (meta_of doc); miss = none }
]

-- `max_count < 0` asks for all of them: here `none`.
abbrev pub page {ℓ} : {A : Type ℓ} → ℕ → Option ℕ → List A → List A
page start none xs = drop start xs
page start (some limit) xs = take limit (drop start xs)

-- A document as the filter sees it: its id, and over it the fields of its value.
unfoldable pub candidate : StoredDoc → Value
candidate doc = obj (spread doc.value (field "id" (str doc.id) end))

unfoldable pub candidate_id : Value → String
candidate_id row = text_of (get_prop "id" (fields_of row))

unfoldable pub scan : Host → TableState → Filter → List Value
scan host state filter =
    sort_by (λ a b. host.locale_le (candidate_id a) (candidate_id b))
      (keep (λ row. matches_filter row filter)
        (map candidate (keep (λ doc. not doc.deleted) (values state.docs))))

-- A row of a scan: the stored document is looked up again, under the id of the candidate.
unfoldable pub found_row : TableState → Value → ObjRow
found_row state row = elim (get (candidate_id row) state.docs) [
  | none ↦ record { id = candidate_id row; value = undefined; meta = none; miss = none }
  | some doc ↦ record {
    id = candidate_id row;
    value = doc.value;
    meta = some (meta_of doc);
    miss = none;
  }
]

abbrev pub result_of {ℓ} :
    {A : Type ℓ} → TableState → (A → ObjRow) → ℕ → List A → List A → GetResult
result_of state to_row start slice all = record {
  items = map to_row slice;
  next_pos = min (start + length slice) (length all);
  watermark = state.watermark;
}

unfoldable pub get_by_ids : TableState → List String → ℕ → Option ℕ → GetResult
get_by_ids state ids start limit =
    result_of state (row_by_id state) start (page start limit ids) ids

unfoldable pub get_by_filter : Host → TableState → Filter → ℕ → Option ℕ → Result Error GetResult
get_by_filter host state filter start limit = elim (assert_filter_supported state.info filter) [
  | err e ↦ err e
  | ok _ ↦ ok (
      result_of state (found_row state) start (page start limit (scan host state filter))
        (scan host state filter))
]

-- `ids && ids.length > 0`: an empty list of ids is no list at all.
unfoldable pub get_table_objs :
    Host → TableState → Option (List String) → Filter → ℕ → Option ℕ → Result Error GetResult
get_table_objs host state none filter start limit = get_by_filter host state filter start limit
get_table_objs host state (some []) filter start limit = get_by_filter host state filter start limit
get_table_objs host state (some (id ∷ ids)) filter start limit =
    ok (get_by_ids state (id ∷ ids) start limit)

unfoldable pub get_objs :
    Host → Engine → ℕ → Option (List String) → Filter → ℕ → Option ℕ → Result Error GetResult
get_objs host engine table_id ids filter start limit = elim (get table_id engine.tables_by_id) [
  | none ↦ err (no_table table_id)
  | some state ↦ get_table_objs host state ids filter start limit
]
