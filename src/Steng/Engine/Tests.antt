-- ===== src/Steng/Engine/Tests.antt =====
-- The engine at concrete inputs: a host whose clock counts up from 1000, and small tables.
use netab.Common.{
  ℕ, zero, suc, ◌+◌, ◌≤◌, String, ◌⋅◌, true, false, List, [], ◌∷◌, Option, none, some, ◌≡◌, ◌↔◌,
  refl, ok, length, for_each, equals-false_iff, get, string_eq,
}
use netab.Json.{Value, undefined, null, num, str, obj, end, field, text_of}
use netab.Utils.{deep_merge}
use netab.Steng.Types.{json, TableType, Op, Filter, GetResult, Error, Watermark, ObjRow}
use netab.Steng.Types
use netab.Steng.Host.{Host, World}
use netab.Steng.ChangeBus.{new_bus}
use netab.Steng.Engine.{StoredDoc, TableState, Session, publish_change}
use netab.Steng.Engine.Docs.{commit_delete_op}
use netab.Steng.Engine.Methods.{
  Patch, Replacement, deep, shallow, merged, live, update_row, replace_row,
}
use netab.Steng.Engine.Replica.{apply_op, apply_ops, read_ops_since, apply_kind, apply_write}
use netab.Steng.Engine.Log.{IsLog}
use netab.Steng.Engine.Mirroring.{Mirrors}
use netab.Steng.Engine.Replication.{Write, adds, updates, replaces, deletes}
use netab.Steng.Engine.CatchUp.{perform_all, replica_catches_up}
use netab.Steng.Engine.Shallow.{update_op, update_row_replays_iff}
use netab.Steng.Engine.Again.{apply_ops_twice}
use netab.Steng.Engine.Query.{get_table_objs, row_by_id, candidate, found_row}
use netab.Steng.Engine.Pages.{get_table_objs_pages, Continues}
use netab.Steng.Engine.Reads.{row_after_write, row_of, missing_row}
use netab.Steng.Engine.Retention.{retain_since, mark_or_zero}
use netab.Steng.Engine.Expiry.{retain_since-live, unless_before}
use netab.Steng.Engine.Kept.{perform_all-IsStore}
use netab.Steng.Engine.Stores.{IsStore}
use netab.Steng.Engine.RoundTrip.{everything, import-export}
use netab.Steng.Engine.Scans.{shadowed_row}
use netab.Steng.Engine.Snapshot.{
  merge_watermark, SnapshotTableData, export_table_snapshot, import_into, ImportCounts,
  replace_tables, error,
}
use netab.Steng.Engine.Watermarks.{merge_watermark_semilattice}
use netab.Steng.Engine.Tables.{new_table}

abbrev pub bytes_of : ℕ → ℕ → List ℕ
bytes_of n zero = []
bytes_of n (suc count) = n ∷ bytes_of n count

abbrev pub demo_host : Host
demo_host = record {
  clock = λ n. 1000 + n;
  random_bytes = bytes_of;
  sha256_text = λ s. "hash " ⋅ s;
  sha256_bytes = λ bytes. "hash";
  sha256_digest = λ s. 0 ∷ [];
  stringify = text_of;
  bytes_to_base64 = λ bytes. "bytes";
  base64_to_bytes = λ s. [];
  locale_le = λ a b. true;
}

abbrev demo_world : World
demo_world = record { clock_reads = 0; draws = 0; bus = new_bus; delivered = [] }

abbrev demo_session : Session
demo_session = record { table = new_table 1 "shop" "main" "users" json; world = demo_world }

abbrev pub person : String → ℕ → Value
person name age = obj (field "name" (str name) (field "age" (num age) end))

abbrev nested : String → Value → Value
nested key value = obj (field "address" (obj (field key value end)) end)

abbrev demo_doc : String → Value → StoredDoc
demo_doc id value = record {
  id = id;
  value = value;
  deleted = false;
  updated_at_ms = 900;
  etag = "etag";
}

-- A table with two documents, one of which is nested.
abbrev demo_table : TableState
demo_table = record {
  info = record {
    table_id = 7;
    app = "shop";
    db = "main";
    table_name = "users";
    type = json;
    config = record {
      indexes = [];
      time_field = some "age";
      retention_hours = some 1;
      id_prefix = none;
    };
  };
  docs =
      ("a", demo_doc "a" (person "Ann" 30)) ∷ ("b", demo_doc "b" (nested "city" (str "Oslo"))) ∷ [];
  blobs = [];
  ops = [];
  latest_seq = 0;
  watermark = none;
}

abbrev filled : Session
filled = record { table = demo_table; world = demo_world }

abbrev pub demo_writes : List Write
demo_writes =
    adds (record { id = undefined; value = person "Ann" 30 })
    ∷ replaces (record { id = "x"; value = person "Bob" 40 })
    ∷ updates (record { id = "x"; patch = obj (field "age" (num 41) end); merge = deep })
    ∷ updates (record { id = "nobody"; patch = null; merge = deep })
    ∷ deletes "x"
    ∷ []

fresh-IsLog : IsLog demo_session.table
unfolding new_table
fresh-IsLog = refl

fresh-Mirrors : Mirrors demo_session.table demo_session.table
fresh-Mirrors = record { seq = refl; docs = λ id. refl }

replica_catches_up_example :
    let p = (perform_all demo_host "local" demo_writes demo_session).1.table in
    let run =
      apply_ops demo_host
        (read_ops_since p demo_session.table.latest_seq (length p.ops))
        demo_session in
    (run.0 ≡ ok tt) × Mirrors p run.1.table × IsLog p
replica_catches_up_example =
    replica_catches_up demo_host "local" demo_writes demo_session demo_session
      (tt, (tt, (refl, (refl, (tt, tt))))) fresh-IsLog fresh-Mirrors

abbrev move : Patch
move = record { id = "b"; patch = nested "street" (str "Main"); merge = shallow }

found_b : live move.id filled.table ≡ some (demo_doc "b" (nested "city" (str "Oslo")))
unfolding live get
found_b = refl

filled-Mirrors : Mirrors filled.table filled.table
filled-Mirrors = record { seq = refl; docs = λ id. refl }

update_row_replays_iff_example :
    let doc = demo_doc "b" (nested "city" (str "Oslo")) in
    let op = update_op demo_host move filled doc found_b in
    ((apply_op demo_host op filled).0 ≡ ok tt)
    × (Mirrors (update_row demo_host move filled).1.table (apply_op demo_host op filled).1.table
        ↔ (merged move.merge doc.value move.patch ≡ deep_merge doc.value move.patch))
update_row_replays_iff_example =
    update_row_replays_iff demo_host move filled (demo_doc "b" (nested "city" (str "Oslo"))) found_b
      filled filled-Mirrors

abbrev demo_op : Op
demo_op = record {
  table_id = 7;
  op_seq = 1;
  ts_ms = 950;
  op_type = Types.replace;
  id = "c";
  payload = person "Cid" 50;
}

demo_op_applied : (apply_ops demo_host (demo_op ∷ demo_op ∷ []) filled).0 ≡ ok tt
unfolding apply_ops apply_op for_each apply_kind apply_write publish_change
demo_op_applied = refl

apply_ops_twice_example :
    apply_ops demo_host
      (demo_op ∷ demo_op ∷ [])
      (apply_ops demo_host (demo_op ∷ demo_op ∷ []) filled).1
    ≡ (ok tt, (apply_ops demo_host (demo_op ∷ demo_op ∷ []) filled).1)
apply_ops_twice_example = apply_ops_twice demo_host (demo_op ∷ demo_op ∷ []) filled demo_op_applied

get_table_objs_pages_example :
    Continues demo_host demo_table none 1 1 0
      (λ limit from. get_table_objs demo_host demo_table (some ("b" ∷ "zz" ∷ [])) none from limit)
get_table_objs_pages_example =
    get_table_objs_pages demo_host demo_table none 1 1 0 (some ("b" ∷ "zz" ∷ []))

abbrev rewrite_a : Replacement
rewrite_a = record { id = "a"; value = person "Ada" 31 }

row_after_write_example :
    (row_by_id (replace_row demo_host rewrite_a filled).1.table "b" ≡ row_by_id demo_table "b")
    × (row_by_id (update_row demo_host move filled).1.table "b"
        ≡ row_of demo_host filled "b" (merged shallow (nested "city" (str "Oslo")) move.patch))
    × (row_by_id (commit_delete_op demo_host "b" filled).1.table "b" ≡ missing_row "b")
row_after_write_example =
    row_after_write demo_host filled rewrite_a move (demo_doc "b" (nested "city" (str "Oslo"))) "b"
      "b" found_b

retain_since-live_example :
    let r = retain_since demo_host 35 "age" filled in
    (r.0 ≡ ok tt)
    × ((j : String) → live j r.1.table ≡ unless_before 35 "age" (live j filled.table))
    × (35 ≤ mark_or_zero r.1.table.watermark)
retain_since-live_example =
    retain_since-live demo_host 35 "age" filled
      ((((equals-false_iff "b" "a").0 refl, tt), (tt, tt)), (refl, (refl, tt)))

abbrev mark : ℕ → Option Watermark
mark n = some (record { local_min_time_ms = some n })

merge_watermark_semilattice_example :
    (merge_watermark (mark 3) (mark 5) ≡ merge_watermark (mark 5) (mark 3))
    × (merge_watermark (merge_watermark (mark 3) (mark 5)) none
        ≡ merge_watermark (mark 3) (merge_watermark (mark 5) none))
    × (merge_watermark (mark 3) (mark 3) ≡ mark 3)
    × (merge_watermark none (mark 3) ≡ mark 3)
    × (merge_watermark (mark 3) none ≡ mark 3)
merge_watermark_semilattice_example = merge_watermark_semilattice (mark 3) (mark 5) none

filled-IsStore : IsStore demo_table.docs
filled-IsStore = ((((equals-false_iff "b" "a").0 refl, tt), (tt, tt)), (refl, (refl, tt)))

perform_all-IsStore_example :
    IsStore (perform_all demo_host "local" demo_writes filled).1.table.docs
perform_all-IsStore_example =
    perform_all-IsStore demo_host "local" demo_writes filled filled-IsStore

abbrev sly : StoredDoc
sly = demo_doc "s" (obj (field "id" (str "t") (field "name" (str "Sly") end)))

not_there : get "t" demo_table.docs ≡ none
unfolding get
not_there = refl

shadowed_row_example :
    found_row demo_table (candidate sly)
    ≡ record { id = "t"; value = undefined; meta = none; miss = none }
shadowed_row_example =
    shadowed_row demo_table sly "t" (field "name" (str "Sly") end) refl (refl, tt) not_there

-- The table with a tombstone beside its documents.
abbrev with_tombstone : TableState
with_tombstone = record demo_table {
  docs =
      ("a", demo_doc "a" (person "Ann" 30))
      ∷ ("b", record (demo_doc "b" null) { deleted = true })
      ∷ [];
  watermark = mark 500;
}

import-export_example :
    (data' : SnapshotTableData) × (export_table_snapshot demo_host with_tombstone everything
      ≡ ok data')
    × (let run =
          import_into demo_host data' 2000
            (record { mode = replace_tables; conflict_mode = error })
            filled in
        ((m : ImportCounts) × (run.0 ≡ ok m))
        × ((id : String) → get id run.1.table.docs ≡ get id with_tombstone.docs)
        × (run.1.table.watermark ≡ mark 500))
import-export_example =
    import-export demo_host with_tombstone 2000 error filled
      ((((equals-false_iff "b" "a").0 refl, tt), (tt, tt)), (refl, (refl, tt)))
