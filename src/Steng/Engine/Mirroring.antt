-- ===== src/Steng/Engine/Mirroring.antt =====
-- A replica that mirrors a primary, and an op that brings it along.
use netab.Common.{
  ℕ, ◌+◌, String, [], ◌∷◌, ◌++◌, some, string_eq, ◌≡◌, refl, sym, ap, ◌∙◌, subst, arith, ok, done,
  ◌⊎◌,
}
use netab.Json.{Value, null}
use netab.Utils.{deep_merge}
use netab.Steng.Types
use netab.Steng.Types.{OpType, add, update, replace, blob_add, blob_del, Op, Error}
use netab.Steng.Host.{Host}
use netab.Steng.Engine.{StoredDoc, TableState, Session, publish_change}
use netab.Steng.Engine.Docs.{write_doc, set_tombstone, next_op, push_op}
use netab.Steng.Engine.Methods.{live}
use netab.Steng.Engine.Replica.{apply_op, apply_kind, apply_write, apply_update, apply_delete}
use netab.Steng.Engine.Commit.{
  live-write_doc, live-set_tombstone, clock_now, stored, write_tombstone_lem,
}

-- The same place in the log, and the same documents that are not deleted.
pub record Mirrors (p r : TableState) : Type 0 where
  pub seq : p.latest_seq ≡ r.latest_seq
  pub docs : (id : String) → live id p ≡ live id r

-- The primary has gone on by one op, which brings each replica that mirrored it along.
pub record Logged (host : Host) (p p' : TableState) (op : Op) : Type 0 where
  pub ops : p'.ops ≡ p.ops ++ op ∷ []
  pub seq : op.op_seq ≡ p.latest_seq + 1
  pub latest : p'.latest_seq ≡ op.op_seq
  pub replays :
      (t : Session)
      → Mirrors p t.table
      → ((apply_op host op t).0 ≡ ok tt) × Mirrors p' (apply_op host op t).1.table

-- An op that is next in line is applied, and goes to the end of the replica's log.
pub apply_op_next :
    (host : Host) (op : Op) (t : Session) (st : TableState)
    → op.op_seq ≡ t.table.latest_seq + 1
    → (apply_kind host op.op_type op t).0 ≡ ok tt
    → (apply_kind host op.op_type op t).1.table ≡ st
    → ((apply_op host op t).0 ≡ ok tt) × ((apply_op host op t).1.table ≡ push_op op st)
unfolding apply_op
apply_op_next host op t st next done same = ground arith

pub live-push_op : (id : String) (op : Op) (st : TableState) → live id (push_op op st) ≡ live id st
unfolding live
live-push_op id op st = refl

module _ (host : Host) (p st : TableState) (op : Op) (kept : st.ops ≡ p.ops)
    (next : op.op_seq ≡ p.latest_seq + 1)
    (step : (t : Session)
      → Mirrors p t.table
      → (r : TableState) × ((apply_kind host op.op_type op t).0 ≡ ok tt)
        × ((apply_kind host op.op_type op t).1.table ≡ r)
        × ((id : String) → live id st ≡ live id r)) where
  replays_of_step :
      (t : Session)
      → Mirrors p t.table
      → ((apply_op host op t).0 ≡ ok tt) × Mirrors (push_op op st) (apply_op host op t).1.table
  replays_of_step t m =
      let (r, done, same, docs) = step t m in
      let (fine, table) = apply_op_next host op t r (ground arith) done same in
      (
        fine,
        subst (Mirrors (push_op op st)) (sym table) (record {
          seq = refl;
          docs = λ id. live-push_op id op st ∙ docs id ∙ sym (live-push_op id op r);
        }),
      )

  Logged-push_op : Logged host p (push_op op st) op
  Logged-push_op = record {
    ops = ap (λ ops. ops ++ op ∷ []) kept;
    seq = next;
    latest = refl;
    replays = replays_of_step;
  }

-- What a method does to a table and its replicas: nothing at all, or one more op.
abbrev pub Follows : Host → TableState → TableState → Type 0
Follows host p p' = (p' ≡ p) ⊎ ((op : Op) × Logged host p p' op)

pub write-docs :
    (host : Host) (id j : String) (value : Value) (ts : ℕ) (p r : TableState)
    → Mirrors p r
    → live j (write_doc host id value ts p) ≡ live j (write_doc host id value ts r)
write-docs host id j value ts p r m =
    ground
      (arith, live-write_doc host id j value ts p, live-write_doc host id j value ts r, m.docs j)

tombstone-docs :
    (id j : String) (ts : ℕ) (etag other : String) (p r : TableState)
    → Mirrors p r
    → live j (set_tombstone id ts etag p) ≡ live j (set_tombstone id ts other r)
tombstone-docs id j ts etag other p r m =
    ground (arith, live-set_tombstone id j ts etag p, live-set_tombstone id j ts other r, m.docs j)

pub apply_update_lem :
    (host : Host) (op : Op) (t : Session) (doc : StoredDoc)
    → live op.id t.table ≡ some doc
    → ((apply_update host op t).0 ≡ ok tt)
      × ((apply_update host op t).1.table
          ≡ write_doc host op.id (deep_merge doc.value op.payload) op.ts_ms t.table)
unfolding apply_update apply_write publish_change
apply_update_lem host op t doc found = ground arith

apply_delete_lem :
    (host : Host) (op : Op) (t : Session)
    → (etag : String) × ((apply_delete host op t).0 ≡ ok tt)
      × ((apply_delete host op t).1.table ≡ set_tombstone op.id op.ts_ms etag t.table)
unfolding apply_delete publish_change
apply_delete_lem host op t =
    let (etag, e, same) = write_tombstone_lem host op.id op.ts_ms t in
    (etag, ground arith, ground arith)

module _ (host : Host) (s : Session) (id : String) where
  -- The op that a commit appends, and the table that it leaves.
  abbrev pub doc_op : OpType → Value → Value → Op
  doc_op kind payload value = next_op kind id payload (clock_now host s) (stored host s id value)

  abbrev pub delete_op : String → Op
  delete_op etag =
      next_op Types.delete id null (clock_now host s)
        (set_tombstone id (clock_now host s) etag s.table)

  pub add-Logged :
      (value : Value)
      → Logged host s.table
          (push_op (doc_op add value value) (stored host s id value))
          (doc_op add value value)
  unfolding next_op apply_kind apply_write publish_change write_doc
  add-Logged value =
      Logged-push_op host s.table (stored host s id value) (doc_op add value value) refl refl λ t m.
        (
          write_doc host id value (clock_now host s) t.table,
          refl,
          refl,
          λ j. write-docs host id j value (clock_now host s) s.table t.table m,
        )

  pub replace-Logged :
      (value : Value)
      → Logged host s.table
          (push_op (doc_op replace value value) (stored host s id value))
          (doc_op replace value value)
  unfolding next_op apply_kind apply_write publish_change write_doc
  replace-Logged value =
      Logged-push_op host s.table (stored host s id value) (doc_op replace value value) refl refl
        λ t m. (
          write_doc host id value (clock_now host s) t.table,
          refl,
          refl,
          λ j. write-docs host id j value (clock_now host s) s.table t.table m,
        )

  -- The replica merges the patch into its own copy of the document.
  pub update-Logged :
      (doc : StoredDoc) (patch : Value)
      → live id s.table ≡ some doc
      → Logged host s.table
          (push_op
            (doc_op update patch (deep_merge doc.value patch))
            (stored host s id (deep_merge doc.value patch)))
          (doc_op update patch (deep_merge doc.value patch))
  unfolding next_op apply_kind write_doc
  update-Logged doc patch found =
      Logged-push_op host s.table (stored host s id (deep_merge doc.value patch))
        (doc_op update patch (deep_merge doc.value patch)) refl refl
        λ t m.
          let op = doc_op update patch (deep_merge doc.value patch) in
          let (fine, table) = apply_update_lem host op t doc (sym (m.docs id) ∙ found) in
          (
            write_doc host id (deep_merge doc.value patch) (clock_now host s) t.table,
            fine,
            table,
            λ j.
                write-docs host id j (deep_merge doc.value patch) (clock_now host s) s.table t.table
                  m,
          )

  pub delete-Logged :
      (etag : String)
      → Logged host s.table
          (push_op (delete_op etag) (set_tombstone id (clock_now host s) etag s.table))
          (delete_op etag)
  unfolding next_op apply_kind set_tombstone apply_delete
  delete-Logged etag =
      Logged-push_op host s.table (set_tombstone id (clock_now host s) etag s.table)
        (delete_op etag) refl refl
        λ t m.
          let (other, fine, table) = apply_delete_lem host (delete_op etag) t in
          (
            set_tombstone id (clock_now host s) other t.table,
            fine,
            table,
            λ j. tombstone-docs id j (clock_now host s) etag other s.table t.table m,
          )
