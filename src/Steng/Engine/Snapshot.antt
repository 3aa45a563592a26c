-- ===== src/Steng/Engine/Snapshot.antt =====
-- A table in a snapshot: `exportTableSnapshot`, `selectSnapshotDocs`, `importTableSnapshot` and
-- what it calls.
use netab.Common.{
  ℕ, ◌+◌, Bool, true, false, List, [], ◌∷◌, Option, none, some, get, set, values, string_eq, not,
  ◌&&◌, ◌||◌, if◌then◌else◌, ok, err, keep, map, sort_by, max, Result, Exec, ◌>>=◌, ◌>>◌, done,
  throw,
}
use netab.Json.{null}
use netab.Steng.Types
use netab.Steng.Types.{
  TableType, TableInfo, TableConfig, SnapshotDocRecord, SnapshotTableSelection, BlobRecord,
  Watermark, Error, add, replace, blob_add, doc_conflict, blob_conflict, type_conflict, OpType,
  json, binary,
}
use netab.Steng.Filtering.{assert_filter_supported, matches_filter}
use netab.Steng.Host.{Host}
use netab.Steng.Engine.{StoredDoc, TableState, Act, Engine, on_table}
use netab.Steng.Engine.Docs.{with_table, append_op}
use netab.Steng.Engine.Methods.{put_blob, blob_payload}
use netab.Steng.Engine.Query.{meta_of, candidate}
use netab.Steng.Engine.Tables.{ensure_table, get_table_info, with_config}

-- The filter of `selectSnapshotDocs`: tombstones go only with a full export that asks for them.
unfoldable pub is_selected : SnapshotTableSelection → StoredDoc → Bool
is_selected selection doc = elim selection.filter [
  | none ↦ not doc.deleted || selection.include_tombstones
  | some clauses ↦ not doc.deleted && matches_filter (candidate doc) (some clauses)
]

unfoldable pub doc_record : StoredDoc → SnapshotDocRecord
doc_record doc = record { id = doc.id; value = doc.value; meta = meta_of doc }

unfoldable pub select_snapshot_docs :
    Host → TableState → SnapshotTableSelection → Result Error (List SnapshotDocRecord)
select_snapshot_docs host state selection =
    elim (assert_filter_supported state.info selection.filter) [
      | err e ↦ err e
      | ok _ ↦ ok (
          map doc_record (
            sort_by (λ a b. host.locale_le a.id b.id)
              (keep (is_selected selection) (values state.docs))))
    ]

pub record SnapshotTableData : Type 0 where
  pub table : TableInfo
  pub watermark : Option Watermark
  pub docs : List SnapshotDocRecord
  pub blobs : List BlobRecord

unfoldable pub export_table_snapshot :
    Host → TableState → SnapshotTableSelection → Result Error SnapshotTableData
export_table_snapshot host state selection = elim (select_snapshot_docs host state selection) [
  | err e ↦ err e
  | ok docs ↦ ok (record {
    table = state.info;
    watermark = state.watermark;
    docs = docs;
    blobs =
        if selection.include_blobs
        then sort_by (λ a b. host.locale_le a.id b.id) (values state.blobs)
        else [];
  })
]

-- `'error' | 'skip' | 'replace'`.
pub data ConflictMode : Type 0 where
  error skip replace_current : ConflictMode

-- `'merge' | 'replace'`.
pub data ImportMode : Type 0 where
  merge_tables replace_tables : ImportMode

pub record ImportOptions : Type 0 where
  pub mode : ImportMode
  pub conflict_mode : ConflictMode

pub data Imported : Type 0 where
  imported skipped : Imported

unfoldable pub reset_table_data : TableState → TableState
reset_table_data state = record state {
  docs = [];
  blobs = [];
  ops = [];
  latest_seq = 0;
  watermark = none;
}

-- The later of two watermarks; no watermark counts less than one without a time.
unfoldable pub merge_watermark : Option Watermark → Option Watermark → Option Watermark
merge_watermark none incoming = incoming
merge_watermark (some current) none = some current
merge_watermark (some current) (some incoming) = elim current.local_min_time_ms [
  | none ↦ some incoming
  | some a ↦ elim incoming.local_min_time_ms [
    | none ↦ some current
    | some b ↦ some (record { local_min_time_ms = some (max a b) })
  ]
]

unfoldable pub stored_doc : SnapshotDocRecord → StoredDoc
stored_doc row = record {
  id = row.id;
  value = row.value;
  deleted = row.meta.deleted;
  updated_at_ms = row.meta.updated_at_ms;
  etag = row.meta.etag;
}

-- `!current || current.deleted ? 'ADD' : 'REPLACE'`.
abbrev pub import_op : Option StoredDoc → OpType
import_op none = add
import_op (some doc) = if doc.deleted then add else replace

-- Writes the row, and logs it under its own time.
unfoldable pub put_snapshot_doc : SnapshotDocRecord → Option StoredDoc → Act Imported
put_snapshot_doc row current = do
  (λ s.
      (ok tt, with_table s (record (s.table) { docs = set row.id (stored_doc row) s.table.docs })))
  append_op (if row.meta.deleted then Types.delete else import_op current) row.id
      (if row.meta.deleted then null else row.value) row.meta.updated_at_ms
  done imported

-- What a conflict makes of an import: an error, a skipped row, or nothing.
abbrev pub on_conflict : ConflictMode → Error → Act Imported → Act Imported
on_conflict error e go = throw e
on_conflict skip e go = done skipped
on_conflict replace_current e go = go

unfoldable pub import_snapshot_doc : SnapshotDocRecord → ImportOptions → Act Imported
import_snapshot_doc row options s = elim (get row.id s.table.docs) [
  | none ↦ put_snapshot_doc row none s
  | some current ↦
      on_conflict options.conflict_mode (doc_conflict row.id) (put_snapshot_doc row (some current))
        s
]

unfoldable pub put_snapshot_blob : Host → BlobRecord → ℕ → Act Imported
put_snapshot_blob host blob ts_ms = do
  (λ s. (ok tt, with_table s (put_blob blob s.table)))
  append_op blob_add blob.id (blob_payload host blob.bytes blob.content_type) ts_ms
  done imported

unfoldable pub import_snapshot_blob : Host → BlobRecord → ℕ → ImportOptions → Act Imported
import_snapshot_blob host blob ts_ms options s = elim (get blob.id s.table.blobs) [
  | none ↦ put_snapshot_blob host blob ts_ms s
  | some current ↦
      on_conflict options.conflict_mode (blob_conflict blob.id) (put_snapshot_blob host blob ts_ms)
        s
]

pub record ImportCounts : Type 0 where
  pub docs_imported : ℕ
  pub tombstones_imported : ℕ
  pub blobs_imported : ℕ
  pub docs_skipped : ℕ
  pub blobs_skipped : ℕ

unfoldable pub count_doc : Imported → Bool → ImportCounts → ImportCounts
count_doc skipped deleted n = record n { docs_skipped = n.docs_skipped + 1 }
count_doc imported true n = record n { tombstones_imported = n.tombstones_imported + 1 }
count_doc imported false n = record n { docs_imported = n.docs_imported + 1 }

unfoldable pub count_blob : Imported → ImportCounts → ImportCounts
count_blob skipped n = record n { blobs_skipped = n.blobs_skipped + 1 }
count_blob imported n = record n { blobs_imported = n.blobs_imported + 1 }

unfoldable pub import_docs :
    List SnapshotDocRecord → ImportOptions → ImportCounts → Act ImportCounts
import_docs [] options n = done n
import_docs (row ∷ rows) options n = do
  outcome ← import_snapshot_doc row options
  import_docs rows options (count_doc outcome row.meta.deleted n)

unfoldable pub import_blobs :
    Host → List BlobRecord → ℕ → ImportOptions → ImportCounts → Act ImportCounts
import_blobs host [] ts_ms options n = done n
import_blobs host (blob ∷ blobs) ts_ms options n = do
  outcome ← import_snapshot_blob host blob ts_ms options
  import_blobs host blobs ts_ms options (count_blob outcome n)

abbrev pub prepare : ImportMode → TableConfig → TableState → TableState
prepare replace_tables config state = with_config config (reset_table_data state)
prepare merge_tables config state = with_config config state

abbrev pub import_watermark : ImportMode → Option Watermark → TableState → TableState
import_watermark replace_tables wm state = record state { watermark = wm }
import_watermark merge_tables wm state = record state {
  watermark = merge_watermark state.watermark wm;
}

-- The part of `importTableSnapshot` behind `requireTable`.
unfoldable pub import_into : Host → SnapshotTableData → ℕ → ImportOptions → Act ImportCounts
import_into host data' created_at_ms options = do
  (λ s. (ok tt, with_table s (prepare options.mode data'.table.config s.table)))
  n ← import_docs data'.docs options (record {
    docs_imported = 0;
    tombstones_imported = 0;
    blobs_imported = 0;
    docs_skipped = 0;
    blobs_skipped = 0;
  })
  m ← import_blobs host data'.blobs created_at_ms options n
  (λ s. (ok tt, with_table s (import_watermark options.mode data'.watermark s.table)))
  done m

abbrev pub same_type : TableType → TableType → Bool
same_type json json = true
same_type binary binary = true
same_type _ _ = false

abbrev pub conflicts : Option TableInfo → TableType → Bool
conflicts none type = false
conflicts (some info) type = not (same_type info.type type)

-- `importTableSnapshot`, with whether it created the table.
unfoldable pub import_table_snapshot :
    Host → SnapshotTableData → ℕ → ImportOptions → Exec Error Engine (Bool × ImportCounts)
import_table_snapshot host data' created_at_ms options engine =
    let info = data'.table in
    let existing = get_table_info info.app info.db info.table_name engine in
    let (ensured, engine') = ensure_table info.app info.db info.table_name info.type engine in
    let go : Result Error (Bool × ImportCounts) × Engine =
      (do
        n ← on_table ensured.table_id (import_into host data' created_at_ms options)
        done (elim existing [ none ↦ true | some _ ↦ false ], n))
        engine' in
    if conflicts existing info.type
    then (
      err (type_conflict (elim existing [ none ↦ info.type | some old ↦ old.type ]) info.type),
      engine,
    )
    else go
