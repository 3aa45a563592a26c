-- ===== src/Steng/Engine/Replica.antt =====
-- Following another engine's log: `read_ops_since`, `latest_seq` and `apply_ops`.
use netab.Common.{
  ℕ, ◌+◌, String, List, Option, none, some, delete, not, string_eq, nat_eq, ◌>>◌, done, throw,
  for_each, if◌then◌else◌, ok, ltb, leb, ◌==◌, keep, take,
}
use netab.Json.{Value, undefined, str, fields_of, get_prop}
use netab.Utils.{deep_clone, deep_merge}
use netab.Steng.Types
use netab.Steng.Types.{
  OpType, add, update, replace, blob_add, blob_del, schema, Op, EventKind, added, updated, deleted,
  ChangeEvent, Error, out_of_order, no_update_target, bad_payload,
}
use netab.Steng.Host.{Host}
use netab.Steng.Engine.{TableState, Act, publish_change}
use netab.Steng.Engine.Docs.{with_table, write_doc, write_tombstone, push_op}
use netab.Steng.Engine.Methods.{live, new_blob, put_blob}

unfoldable pub read_ops_since : TableState → ℕ → ℕ → List Op
read_ops_since state after_seq limit = take limit (keep (λ op. ltb after_seq op.op_seq) state.ops)

abbrev pub event_of : Op → EventKind → Value → ChangeEvent
event_of op kind value = record { ts = op.ts_ms; op = kind; id = op.id; value = value }

unfoldable pub apply_write : Host → Op → EventKind → Value → Act (Unit {0})
apply_write host op kind value = do
  (λ s. (ok tt, with_table s (write_doc host op.id value op.ts_ms s.table)))
  publish_change (event_of op kind (deep_clone value))

unfoldable pub apply_update : Host → Op → Act (Unit {0})
apply_update host op s = elim (live op.id s.table) [
  | none ↦ throw (no_update_target op.id) s
  | some doc ↦ apply_write host op updated (deep_merge doc.value op.payload) s
]

unfoldable pub apply_delete : Host → Op → Act (Unit {0})
apply_delete host op = do
  write_tombstone host op.id op.ts_ms
  publish_change (event_of op deleted undefined)

-- The texts of a blob's payload; anything else makes the Base64 decoder throw.
abbrev pub blob_texts : Value → Value → Option (String × String)
blob_texts (str bytes) (str content_type) = some (bytes, content_type)
blob_texts _ _ = none

unfoldable pub apply_blob : Host → Op → Act (Unit {0})
apply_blob host op s =
    elim (blob_texts (get_prop "bytes" (fields_of op.payload))
      (get_prop "contentType" (fields_of op.payload))) [
        | none ↦ throw (bad_payload op.id) s
        | some (bytes, content_type) ↦ (
          ok tt,
          with_table s
              (put_blob (new_blob host op.id (host.base64_to_bytes bytes) content_type) s.table),
        )
      ]

-- The `switch` over the kind of an op.
unfoldable pub apply_kind : Host → OpType → Op → Act (Unit {0})
apply_kind host add op = apply_write host op added op.payload
apply_kind host replace op = apply_write host op updated op.payload
apply_kind host update op = apply_update host op
apply_kind host Types.delete op = apply_delete host op
apply_kind host blob_add op = apply_blob host op
apply_kind host blob_del op =
    λ s. (ok tt, with_table s (record (s.table) { blobs = delete op.id s.table.blobs }))
apply_kind host schema op = done tt

-- One round of the loop of `apply_ops`.
unfoldable pub apply_op : Host → Op → Act (Unit {0})
apply_op host op s =
    if leb op.op_seq s.table.latest_seq
    then (ok tt, s)
    else if not (op.op_seq == s.table.latest_seq + 1)
    then throw (out_of_order op.op_seq s.table.info.table_id) s
    else (do apply_kind host op.op_type op; (λ t. (ok tt, with_table t (push_op op t.table)))) s

unfoldable pub apply_ops : Host → List Op → Act (Unit {0})
apply_ops host ops = for_each (apply_op host) ops
