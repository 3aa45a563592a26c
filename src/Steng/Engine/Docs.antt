-- ===== src/Steng/Engine/Docs.antt =====
-- Writing documents, and the log of the writes: `writeDoc`, `writeTombstone`, `appendOp`,
-- `commitDocOp`, `commitDeleteOp`, and the methods that are loops over them.
use netab.Common.{
  ℕ, ◌+◌, String, true, false, [], ◌∷◌, ◌++◌, Option, none, some, get, set, string_eq, ◌>>=◌, ◌>>◌,
  done, ok,
}
use netab.Json.{Value, undefined, null}
use netab.Utils.{deep_clone}
use netab.Steng.Types
use netab.Steng.Types.{
  json, binary, TableInfo, OpType, add, update, replace, blob_add, blob_del, Op, BlobRecord,
  EventKind, added, updated, deleted, ChangeEvent, not_json, caller_id, no_object, no_blob, Error,
}
use netab.Steng.Host.{Host}
use netab.Steng.Engine.{StoredDoc, TableState, Session, Act, date_now, random_id, publish_change}

abbrev pub with_table : Session → TableState → Session
with_table s table = record s { table = table }

unfoldable pub write_doc : Host → String → Value → ℕ → TableState → TableState
write_doc host id value updated_at_ms state = record state {
  docs =
      set id
        (record {
          id = id;
          value = deep_clone value;
          deleted = false;
          updated_at_ms = updated_at_ms;
          etag = host.sha256_text (host.stringify value);
        })
        state.docs;
}

-- `current?.value ?? null`.
abbrev pub value_or_null : Option StoredDoc → Value
value_or_null none = null
value_or_null (some doc) = elim doc.value [ undefined ↦ null | _ ↦ doc.value ]

abbrev pub tombstone : String → ℕ → String → Option StoredDoc → StoredDoc
tombstone id updated_at_ms etag current = record {
  id = id;
  value = value_or_null current;
  deleted = true;
  updated_at_ms = updated_at_ms;
  etag = etag;
}

unfoldable pub set_tombstone : String → ℕ → String → TableState → TableState
set_tombstone id updated_at_ms etag state = record state {
  docs = set id (tombstone id updated_at_ms etag (get id state.docs)) state.docs;
}

-- `current?.etag ?? randomId('etag')`.
unfoldable pub tombstone_etag : Host → Option StoredDoc → Act String
tombstone_etag host none = random_id host "etag"
tombstone_etag host (some doc) = done doc.etag

unfoldable pub write_tombstone : Host → String → ℕ → Act (Unit {0})
write_tombstone host id updated_at_ms = do
  current ← λ s. (ok (get id s.table.docs), s)
  etag ← tombstone_etag host current
  λ s. (ok tt, with_table s (set_tombstone id updated_at_ms etag s.table))

-- The new op, and the table with it at the end of its log.
unfoldable pub next_op : OpType → String → Value → ℕ → TableState → Op
next_op op_type id payload ts_ms state = record {
  table_id = state.info.table_id;
  op_seq = state.latest_seq + 1;
  ts_ms = ts_ms;
  op_type = op_type;
  id = id;
  payload = deep_clone payload;
}

abbrev pub push_op : Op → TableState → TableState
push_op op state = record state { latest_seq = op.op_seq; ops = state.ops ++ op ∷ [] }

unfoldable pub append_op : OpType → String → Value → ℕ → Act Op
append_op op_type id payload ts_ms s =
    let op = next_op op_type id payload ts_ms s.table in (ok op, with_table s (push_op op s.table))

abbrev pub event_kind : OpType → EventKind
event_kind add = added
event_kind _ = updated

abbrev pub written : OpType → Value → Value → Value
written update payload replacement = replacement
written _ payload replacement = payload

unfoldable pub commit_doc_op : Host → OpType → String → Value → Value → Act (Unit {0})
commit_doc_op host op_type id payload replacement = do
  ts ← date_now host
  let value = written op_type payload replacement
  (λ s. (ok tt, with_table s (write_doc host id value ts s.table)))
  op ← append_op op_type id payload ts
  publish_change
      (record { ts = op.ts_ms; op = event_kind op_type; id = id; value = deep_clone value })

unfoldable pub commit_delete_op : Host → String → Act (Unit {0})
commit_delete_op host id = do
  ts ← date_now host
  write_tombstone host id ts
  op ← append_op Types.delete id null ts
  publish_change (record { ts = op.ts_ms; op = deleted; id = id; value = undefined })
