-- ===== src/Steng/Engine/Reads.antt =====
-- What `get_objs` returns for an id after a write of a document.
use netab.Common.{String, none, some, ◌≡◌, arith, if◌then◌else◌, ◌==◌, string_eq, ap, ◌∙◌}
use netab.Json.{Value, undefined}
use netab.Steng.Types.{ObjRow, not_found, replace}
use netab.Steng.Host.{Host}
use netab.Steng.Engine.{StoredDoc, Session}
use netab.Steng.Engine.Docs.{commit_delete_op}
use netab.Steng.Engine.Methods.{Patch, Replacement, merged, live, update_row, replace_row}
use netab.Steng.Engine.Query.{row_by_id, meta_of}
use netab.Steng.Engine.Commit.{live-write_doc, clock_now, doc_of, commit_doc_op_lem}
use netab.Steng.Engine.Mirroring.{live-push_op}
use netab.Steng.Engine.Shallow.{updated_table}
use netab.Steng.Engine.Expiry.{delete-live}

abbrev pub row_of : Host → Session → String → Value → ObjRow
row_of host s id value = record {
  id = id;
  value = value;
  meta = some (meta_of (doc_of host id value (clock_now host s)));
  miss = none;
}

abbrev pub missing_row : String → ObjRow
missing_row id = record { id = id; value = undefined; meta = none; miss = some not_found }

live_replaced :
    (host : Host) (s : Session) (r : Replacement) (j : String)
    → live j (replace_row host r s).1.table
      ≡ (if r.id == j then some (doc_of host r.id r.value (clock_now host s)) else live j s.table)
unfolding replace_row
live_replaced host s r j =
    ap (live j) (commit_doc_op_lem host s replace r.id r.value undefined).1
    ∙ live-push_op j _ _
    ∙ live-write_doc host r.id j r.value (clock_now host s) s.table

live_updated :
    (host : Host) (s : Session) (u : Patch) (doc : StoredDoc) (j : String)
    → live u.id s.table ≡ some doc
    → live j (update_row host u s).1.table ≡ (
        if u.id == j
        then some (doc_of host u.id (merged u.merge doc.value u.patch) (clock_now host s))
        else live j s.table)
live_updated host s u doc j found =
    ap (live j) (updated_table host u s doc found)
    ∙ live-push_op j _ _
    ∙ live-write_doc host u.id j (merged u.merge doc.value u.patch) (clock_now host s) s.table

pub row_after_write :
    (host : Host) (s : Session) (r : Replacement) (u : Patch) (doc : StoredDoc) (id j : String)
    → live u.id s.table ≡ some doc
    → (row_by_id (replace_row host r s).1.table j
        ≡ (if r.id == j then row_of host s j r.value else row_by_id s.table j))
      × (row_by_id (update_row host u s).1.table j ≡ (
          if u.id == j
          then row_of host s j (merged u.merge doc.value u.patch)
          else row_by_id s.table j))
      × (row_by_id (commit_delete_op host id s).1.table j
          ≡ (if id == j then missing_row j else row_by_id s.table j))
unfolding row_by_id
row_after_write host s r u doc id j found = (
  ground (arith, live_replaced host s r j),
  ground (arith, live_updated host s u doc j found),
  ground (arith, delete-live host id j s),
)
