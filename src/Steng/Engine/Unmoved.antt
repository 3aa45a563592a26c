-- ===== src/Steng/Engine/Unmoved.antt =====
-- What no write of documents touches: the info of the table, and the change bus.
use netab.Common.{
  ℕ, String, List, Option, none, some, ◌≡◌, arith, Keeps, Keeps-for_each, Keeps-bind, for_each,
  Result-cases, string_eq, nat_eq, ◌-◌, Bool-cases, Option-cases, inl, inr, get,
}
use netab.Json.{Value, undefined, null, strict_eq, get_prop, fields_of}
use netab.Utils.{deep_merge}
use netab.Steng.Types
use netab.Steng.Types.{TableInfo, OpType, Op, Error, EventKind}
use netab.Steng.Host.{Host}
use netab.Steng.ChangeBus.{ChangeBus}
use netab.Steng.Engine.{StoredDoc, Session, date_now, random_bytes, random_id, publish_change}
use netab.Steng.Engine.Docs.{
  write_doc, set_tombstone, tombstone_etag, write_tombstone, append_op, commit_doc_op,
  commit_delete_op,
}
use netab.Steng.Engine.Methods.{
  NewRow, Patch, merged, add_row, update_row, replace_row, assert_generated_id_only, generate_id,
  live,
}
use netab.Steng.Engine.Replica.{
  apply_write, apply_update, apply_delete, apply_blob, blob_texts, apply_kind, apply_op, apply_ops,
}
use netab.Steng.Engine.Retention.{ids_to_delete, move_watermark, retain_since, window, retain_table}
use netab.Steng.Engine.CatchUp.{perform_all}
use netab.Steng.Engine.Replication.{Write, adds, updates, replaces, deletes, perform}

module _ (info : TableInfo) (bus : ChangeBus) where
  abbrev pub IsUnmoved : Session → Type 0
  IsUnmoved s = (s.table.info ≡ info) × (s.world.bus ≡ bus)

  date_now-Keeps : (host : Host) → Keeps IsUnmoved (date_now host)
  unfolding date_now
  date_now-Keeps host s h = h

  publish_change-Keeps : (evt : Types.ChangeEvent) → Keeps IsUnmoved (publish_change evt)
  unfolding publish_change
  publish_change-Keeps evt s h = h

  append_op-Keeps :
      (kind : OpType) (id : String) (payload : Value) (ts : ℕ)
      → Keeps IsUnmoved (append_op kind id payload ts)
  unfolding append_op
  append_op-Keeps kind id payload ts s h = h

  commit_doc_op-Keeps :
      (host : Host) (kind : OpType) (id : String) (payload replacement : Value)
      → Keeps IsUnmoved (commit_doc_op host kind id payload replacement)
  unfolding commit_doc_op date_now append_op publish_change write_doc
  commit_doc_op-Keeps host kind id payload replacement s h = h

  tombstone_etag-Keeps :
      (host : Host) (o : Option StoredDoc) → Keeps IsUnmoved (tombstone_etag host o)
  unfolding tombstone_etag random_id date_now random_bytes
  tombstone_etag-Keeps host none s h = h
  tombstone_etag-Keeps host (some doc) s h = h

  write_tombstone-Keeps :
      (host : Host) (id : String) (ts : ℕ) → Keeps IsUnmoved (write_tombstone host id ts)
  unfolding write_tombstone set_tombstone
  write_tombstone-Keeps host id ts s h =
      Keeps-bind IsUnmoved (tombstone_etag host (get id s.table.docs)) _
        (tombstone_etag-Keeps host (get id s.table.docs)) (λ etag t k. k) s h

  commit_delete_op-Keeps : (host : Host) (id : String) → Keeps IsUnmoved (commit_delete_op host id)
  unfolding commit_delete_op
  commit_delete_op-Keeps host id =
      Keeps-bind IsUnmoved (date_now host) _ (date_now-Keeps host) λ ts.
        Keeps-bind IsUnmoved (write_tombstone host id ts) _ (write_tombstone-Keeps host id ts) λ _.
          Keeps-bind IsUnmoved (append_op Types.delete id null ts) _
            (append_op-Keeps Types.delete id null ts) λ op. publish_change-Keeps _

  update_row-Keeps : (host : Host) (row : Patch) → Keeps IsUnmoved (update_row host row)
  unfolding update_row
  update_row-Keeps host row s h = elim (Option-cases (live row.id s.table)) [
    | inl missing ↦ (ground (arith, h, missing), ground (arith, h, missing))
    | inr (doc, found) ↦
        let k =
          commit_doc_op-Keeps host Types.update row.id row.patch
            (merged row.merge doc.value row.patch) s h in
        (ground (arith, k, found), ground (arith, k, found))
  ]

  assert_generated_id_only-Keeps : (row : NewRow) → Keeps IsUnmoved (assert_generated_id_only row)
  unfolding assert_generated_id_only
  assert_generated_id_only-Keeps row s h = elim (Bool-cases (strict_eq row.id undefined)) [
    | inl fresh ↦ (ground (arith, h, fresh), ground (arith, h, fresh))
    | inr given ↦ (ground (arith, h, given), ground (arith, h, given))
  ]

  generate_id-Keeps : (host : Host) (c : String) → Keeps IsUnmoved (generate_id host c)
  unfolding generate_id date_now random_bytes
  generate_id-Keeps host c s h = h

  add_row-Keeps : (host : Host) (c : String) (row : NewRow) → Keeps IsUnmoved (add_row host c row)
  unfolding add_row
  add_row-Keeps host c row =
      Keeps-bind IsUnmoved (assert_generated_id_only row) _ (assert_generated_id_only-Keeps row)
        λ _. Keeps-bind IsUnmoved (generate_id host c) _ (generate_id-Keeps host c) λ id.
          Keeps-bind IsUnmoved (commit_doc_op host Types.add id row.value undefined) _
            (commit_doc_op-Keeps host Types.add id row.value undefined) λ _ s h. h

  perform-Keeps : (host : Host) (c : String) (w : Write) → Keeps IsUnmoved (perform host c w)
  unfolding perform replace_row
  perform-Keeps host c (adds row) =
      Keeps-bind IsUnmoved (add_row host c row) _ (add_row-Keeps host c row) λ _ s h. h
  perform-Keeps host c (updates row) = update_row-Keeps host row
  perform-Keeps host c (replaces row) =
      commit_doc_op-Keeps host Types.replace row.id row.value undefined
  perform-Keeps host c (deletes id) = commit_delete_op-Keeps host id

  apply_write-Keeps :
      (host : Host) (op : Op) (kind : EventKind) (value : Value)
      → Keeps IsUnmoved (apply_write host op kind value)
  unfolding apply_write publish_change write_doc
  apply_write-Keeps host op kind value s h = h

  apply_update-Keeps : (host : Host) (op : Op) → Keeps IsUnmoved (apply_update host op)
  unfolding apply_update
  apply_update-Keeps host op s h = elim (Option-cases (live op.id s.table)) [
    | inl missing ↦ (ground (arith, h, missing), ground (arith, h, missing))
    | inr (doc, found) ↦
        let k = apply_write-Keeps host op Types.updated (deep_merge doc.value op.payload) s h in
        (ground (arith, k, found), ground (arith, k, found))
  ]

  apply_delete-Keeps : (host : Host) (op : Op) → Keeps IsUnmoved (apply_delete host op)
  unfolding apply_delete
  apply_delete-Keeps host op =
      Keeps-bind IsUnmoved (write_tombstone host op.id op.ts_ms) _
        (write_tombstone-Keeps host op.id op.ts_ms) λ _. publish_change-Keeps _

  abbrev texts_of : Op → Option (String × String)
  texts_of op =
      blob_texts (get_prop "bytes" (fields_of op.payload))
        (get_prop "contentType" (fields_of op.payload))

  apply_blob-Keeps : (host : Host) (op : Op) → Keeps IsUnmoved (apply_blob host op)
  unfolding apply_blob
  apply_blob-Keeps host op s h = elim (Option-cases (texts_of op)) [
    | inl missing ↦ (ground (arith, h, missing), ground (arith, h, missing))
    | inr (texts, found) ↦ (ground (arith, h, found), ground (arith, h, found))
  ]

  apply_kind-Keeps :
      (host : Host) (kind : OpType) (op : Op) → Keeps IsUnmoved (apply_kind host kind op)
  unfolding apply_kind
  apply_kind-Keeps host Types.add op s h = apply_write-Keeps host op Types.added op.payload s h
  apply_kind-Keeps host Types.replace op s h =
      apply_write-Keeps host op Types.updated op.payload s h
  apply_kind-Keeps host Types.update op s h = apply_update-Keeps host op s h
  apply_kind-Keeps host Types.delete op s h = apply_delete-Keeps host op s h
  apply_kind-Keeps host Types.blob_add op s h = apply_blob-Keeps host op s h
  apply_kind-Keeps host Types.blob_del op s h = h
  apply_kind-Keeps host Types.schema op s h = h

  apply_op-Keeps : (host : Host) (op : Op) → Keeps IsUnmoved (apply_op host op)
  unfolding apply_op
  apply_op-Keeps host op s h =
      let k = apply_kind-Keeps host op.op_type op s h in
      elim (Result-cases (apply_kind host op.op_type op s).0) [
        | inl fine ↦ (ground (arith, h, k, fine), ground (arith, h, k, fine))
        | inr (e, failed) ↦ (ground (arith, h, k, failed), ground (arith, h, k, failed))
      ]

  -- The steps of an engine that work on one table leave its info and the bus alone.
  pub perform_all-Keeps :
      (host : Host) (c : String) (ws : List Write) → Keeps IsUnmoved (perform_all host c ws)
  unfolding perform_all
  perform_all-Keeps host c ws = Keeps-for_each IsUnmoved (perform host c) ws (perform-Keeps host c)

  pub apply_ops-Keeps : (host : Host) (ops : List Op) → Keeps IsUnmoved (apply_ops host ops)
  unfolding apply_ops
  apply_ops-Keeps host ops = Keeps-for_each IsUnmoved (apply_op host) ops (apply_op-Keeps host)

  move_watermark-Keeps :
      (cutoff : ℕ) (ids : List String) → Keeps IsUnmoved (move_watermark cutoff ids)
  unfolding move_watermark
  move_watermark-Keeps cutoff ids s h = (ground (arith, h), ground (arith, h))

  retain_since-Keeps :
      (host : Host) (cutoff : ℕ) (name : String) → Keeps IsUnmoved (retain_since host cutoff name)
  unfolding retain_since
  retain_since-Keeps host cutoff name s h =
      Keeps-bind IsUnmoved (for_each (commit_delete_op host) (ids_to_delete cutoff name s.table)) _
        (Keeps-for_each IsUnmoved (commit_delete_op host) (ids_to_delete cutoff name s.table)
          (commit_delete_op-Keeps host))
        (λ _. move_watermark-Keeps cutoff (ids_to_delete cutoff name s.table)) s h

  pub retain_table-Keeps : (host : Host) (now_ms : ℕ) → Keeps IsUnmoved (retain_table host now_ms)
  unfolding retain_table
  retain_table-Keeps host now_ms s h = elim (Option-cases (window s.table.info.config)) [
    | inl never ↦ (ground (arith, h, never), ground (arith, h, never))
    | inr (w, set_up) ↦
        let k = retain_since-Keeps host (now_ms - w.0) w.1 s h in
        (ground (arith, k, set_up), ground (arith, k, set_up))
  ]
