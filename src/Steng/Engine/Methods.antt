-- ===== src/Steng/Engine/Methods.antt =====
-- The methods that change one table: `add_objs`, `update_objs`, `replace_objs`, `delete_objs`,
-- `add_blob`, `delete_blobs`, `get_blob`, `set_watermark` and `add_index`, as actions on it.
use netab.Common.{
  ℕ, String, List, [], ◌∷◌, Option, none, some, get, set, delete, length, string_eq, ◌>>=◌, ◌>>◌,
  done, throw, for_each, if◌then◌else◌, ok,
}
use netab.Json.{Value, undefined, null, obj, str, end, field, strict_eq}
use netab.Utils.{deep_merge, shallow_merge}
use netab.Steng.Types.{
  json, binary, TableInfo, add, update, replace, blob_add, blob_del, BlobRecord, Watermark,
  not_json, caller_id, no_object, no_blob,
}
use netab.Steng.Host.{Host}
use netab.Steng.IdGeneration.{generate_distributed_id, default_id_prefix}
use netab.Steng.Engine.{StoredDoc, TableState, Act, date_now, random_bytes, random_id}
use netab.Steng.Engine.Docs.{with_table, commit_doc_op, commit_delete_op, append_op}

unfoldable pub assert_json_table : Act (Unit {0})
assert_json_table s = elim s.table.info.type [
  | json ↦ (ok tt, s)
  | binary ↦ throw (not_json s.table.info.table_name) s
]

-- A row of `add_objs`; `id` is `undefined` unless the caller gives one.
pub record NewRow : Type 0 where
  pub id : Value
  pub value : Value

unfoldable pub assert_generated_id_only : NewRow → Act (Unit {0})
assert_generated_id_only row = if strict_eq row.id undefined then done tt else throw caller_id

abbrev pub prefix_of : TableInfo → String
prefix_of info = elim info.config.id_prefix [
  | none ↦ default_id_prefix info.table_name
  | some prefix ↦ prefix
]

unfoldable pub generate_id : Host → String → Act String
generate_id host cluster_short = do
  info ← λ s. (ok s.table.info, s)
  now ← date_now host
  bytes ← random_bytes host 10
  done (generate_distributed_id (prefix_of info) cluster_short now bytes)

-- One round of the loop of `add_objs`.
unfoldable pub add_row : Host → String → NewRow → Act String
add_row host cluster_short row = do
  assert_generated_id_only row
  id ← generate_id host cluster_short
  commit_doc_op host add id row.value undefined
  done id

unfoldable pub add_rows : Host → String → List NewRow → Act (List String)
add_rows host cluster_short [] = done []
add_rows host cluster_short (row ∷ rows) = do
  id ← add_row host cluster_short row
  ids ← add_rows host cluster_short rows
  done (id ∷ ids)

unfoldable pub add_objs : Host → String → List NewRow → Act (List String)
add_objs host cluster_short rows = do assert_json_table; add_rows host cluster_short rows

pub data Merge : Type 0 where
  deep shallow : Merge

pub record Patch : Type 0 where
  pub id : String
  pub patch : Value
  pub merge : Merge

unfoldable pub merged : Merge → Value → Value → Value
merged shallow value patch = shallow_merge value patch
merged deep value patch = deep_merge value patch

-- The document that `docs.get(id)` finds and that is not deleted.
abbrev pub if_live : Option StoredDoc → Option StoredDoc
if_live none = none
if_live (some doc) = if doc.deleted then none else some doc

unfoldable pub live : String → TableState → Option StoredDoc
live id state = if_live (get id state.docs)

-- One round of the loop of `update_objs`.
unfoldable pub update_row : Host → Patch → Act (Unit {0})
update_row host row s = elim (live row.id s.table) [
  | none ↦ throw (no_object row.id) s
  | some doc ↦ commit_doc_op host update row.id row.patch (merged row.merge doc.value row.patch) s
]

unfoldable pub update_objs : Host → List Patch → Act (Unit {0})
update_objs host rows = do assert_json_table; for_each (update_row host) rows

pub record Replacement : Type 0 where
  pub id : String
  pub value : Value

unfoldable pub replace_row : Host → Replacement → Act (Unit {0})
replace_row host row = commit_doc_op host replace row.id row.value undefined

unfoldable pub replace_objs : Host → List Replacement → Act (Unit {0})
replace_objs host rows = do assert_json_table; for_each (replace_row host) rows

unfoldable pub delete_objs : Host → List String → Act (Unit {0})
delete_objs host ids = for_each (commit_delete_op host) ids

unfoldable pub blob_payload : Host → List ℕ → String → Value
blob_payload host bytes content_type =
    obj (
      field "bytes" (str (host.bytes_to_base64 bytes)) (field "contentType" (str content_type) end))

unfoldable pub new_blob : Host → String → List ℕ → String → BlobRecord
new_blob host id bytes content_type = record {
  id = id;
  bytes = bytes;
  content_type = content_type;
  sha256 = host.sha256_bytes bytes;
  size = length bytes;
}

abbrev pub put_blob : BlobRecord → TableState → TableState
put_blob blob state = record state { blobs = set blob.id blob state.blobs }

-- `id ?? randomId('blob')`.
unfoldable pub blob_id : Host → Option String → Act String
blob_id host none = random_id host "blob"
blob_id host (some id) = done id

unfoldable pub add_blob : Host → Option String → List ℕ → String → Act String
unfolding blob_payload
add_blob host id bytes content_type = do
  blob ← blob_id host id
  (λ s. (ok tt, with_table s (put_blob (new_blob host blob bytes content_type) s.table)))
  now ← date_now host
  append_op blob_add blob (blob_payload host bytes content_type) now
  done blob

unfoldable pub delete_blob : Host → String → Act (Unit {0})
delete_blob host id = do
  (λ s. (ok tt, with_table s (record (s.table) { blobs = delete id s.table.blobs })))
  now ← date_now host
  append_op blob_del id null now
  done tt

unfoldable pub delete_blobs : Host → List String → Act (Unit {0})
delete_blobs host ids = for_each (delete_blob host) ids

unfoldable pub get_blob : String → Act BlobRecord
get_blob id s = elim (get id s.table.blobs) [
  | none ↦ throw (no_blob id) s
  | some blob ↦ (ok blob, s)
]

unfoldable pub set_watermark : Watermark → Act (Unit {0})
set_watermark wm s = (ok tt, with_table s (record (s.table) { watermark = some wm }))
