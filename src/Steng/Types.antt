-- ===== src/Steng/Types.antt =====
-- src/steng/types.ts: the records that the engine stores and hands out.
use netab.Common.{ℕ, String, Bool, Option, List, Dict}
use netab.Json.{Value}

pub data TableType : Type 0 where
  json binary : TableType

pub data IndexType : Type 0 where
  i64 str bool time hash64 : IndexType

pub data FilterOp : Type 0 where
  eq ne gt ge lt le between in_list contains prefix : FilterOp

pub record FilterClause : Type 0 where
  pub field : String
  pub op : FilterOp
  pub value : Value

-- `null` is no filtering.
abbrev pub Filter : Type 0
Filter = Option (List FilterClause)

pub record IndexConfig : Type 0 where
  pub type : IndexType
  pub multi : Bool

pub record IndexInfo : Type 0 where
  pub field : String
  pub type : IndexType
  pub multi : Bool

pub record TableConfig : Type 0 where
  pub indexes : Dict String IndexConfig
  pub time_field : Option String
  pub retention_hours : Option ℕ
  pub id_prefix : Option String

pub record TableInfo : Type 0 where
  pub table_id : ℕ
  pub app : String
  pub db : String
  pub table_name : String
  pub type : TableType
  pub config : TableConfig

pub record DocMeta : Type 0 where
  pub updated_at_ms : ℕ
  pub etag : String
  pub deleted : Bool

pub data Miss : Type 0 where
  not_found pruned : Miss

pub record ObjRow : Type 0 where
  pub id : String
  pub value : Value
  pub meta : Option DocMeta
  pub miss : Option Miss

pub record Watermark : Type 0 where
  pub local_min_time_ms : Option ℕ

pub record GetResult : Type 0 where
  pub items : List ObjRow
  pub next_pos : ℕ
  pub watermark : Option Watermark

pub data EventKind : Type 0 where
  added updated deleted : EventKind

pub record ChangeEvent : Type 0 where
  pub ts : ℕ
  pub op : EventKind
  pub id : String
  pub value : Value

pub record BlobRecord : Type 0 where
  pub id : String
  pub bytes : List ℕ
  pub content_type : String
  pub sha256 : String
  pub size : ℕ

pub data OpType : Type 0 where
  add update replace delete blob_add blob_del schema : OpType

pub record Op : Type 0 where
  pub table_id : ℕ
  pub op_seq : ℕ
  pub ts_ms : ℕ
  pub op_type : OpType
  pub id : String
  pub payload : Value

pub record SnapshotTableSelection : Type 0 where
  pub filter : Filter
  pub include_blobs : Bool
  pub include_tombstones : Bool

pub record SnapshotDocRecord : Type 0 where
  pub id : String
  pub value : Value
  pub meta : DocMeta

-- The exceptions of the engine and of its filters.
pub data Error : Type 0 where
  no_table : ℕ → Error
  not_json : String → Error
  caller_id : Error
  no_object no_update_target no_blob bad_payload doc_conflict blob_conflict : String → Error
  not_indexed : (field table_name : String) → Error
  out_of_order : (op_seq table_id : ℕ) → Error
  type_conflict : TableType → TableType → Error
