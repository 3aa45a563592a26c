-- ===== src/Steng/Engine/Commit.antt =====
-- What a committed write leaves in the table: the document, and one op at the end of the log.
use netab.Common.{
  ℕ, String, false, Option, none, some, get, get-set, string_eq, ◌≡◌, refl, arith, if◌then◌else◌,
  ◌==◌, ok,
}
use netab.Json.{Value, null}
use netab.Steng.Types
use netab.Steng.Types.{OpType, Op}
use netab.Steng.Host.{Host}
use netab.Steng.Engine.{
  StoredDoc, TableState, Session, date_now, random_bytes, random_id, publish_change,
}
use netab.Steng.Engine.Docs.{
  write_doc, tombstone, set_tombstone, tombstone_etag, write_tombstone, next_op, push_op, append_op,
  written, commit_doc_op, commit_delete_op,
}
use netab.Steng.Engine.Methods.{live}

-- The document that `writeDoc` stores.
abbrev pub doc_of : Host → String → Value → ℕ → StoredDoc
doc_of host id value ts = record {
  id = id;
  value = value;
  deleted = false;
  updated_at_ms = ts;
  etag = host.sha256_text (host.stringify value);
}

pub live-write_doc :
    (host : Host) (id j : String) (value : Value) (ts : ℕ) (st : TableState)
    → live j (write_doc host id value ts st)
      ≡ (if id == j then some (doc_of host id value ts) else live j st)
unfolding live write_doc
live-write_doc host id j value ts st =
    ground (arith, get-set id j (doc_of host id value ts) st.docs)

pub live-set_tombstone :
    (id j : String) (ts : ℕ) (etag : String) (st : TableState)
    → live j (set_tombstone id ts etag st) ≡ (if id == j then none else live j st)
unfolding live set_tombstone
live-set_tombstone id j ts etag st =
    ground (arith, get-set id j (tombstone id ts etag (get id st.docs)) st.docs)

module _ (host : Host) (s : Session) where
  abbrev pub clock_now : ℕ
  clock_now = host.clock s.world.clock_reads

  abbrev pub stored : String → Value → TableState
  stored id value = write_doc host id value clock_now s.table

  pub commit_doc_op_lem :
      (kind : OpType) (id : String) (payload replacement : Value)
      → ((commit_doc_op host kind id payload replacement s).0 ≡ ok tt)
        × ((commit_doc_op host kind id payload replacement s).1.table
            ≡ push_op
                (next_op kind id payload clock_now (stored id (written kind payload replacement)))
                (stored id (written kind payload replacement)))
  unfolding commit_doc_op date_now append_op publish_change
  commit_doc_op_lem kind id payload replacement = (refl, refl)

tombstone_etag_lem :
    (host : Host) (o : Option StoredDoc) (s : Session)
    → (etag : String) × ((tombstone_etag host o s).0 ≡ ok etag)
      × ((tombstone_etag host o s).1.table ≡ s.table)
unfolding tombstone_etag random_id date_now random_bytes
tombstone_etag_lem host none s = (_, refl, refl)
tombstone_etag_lem host (some doc) s = (doc.etag, refl, refl)

-- A tombstone is written whatever was there; only its etag may be drawn at random.
pub write_tombstone_lem :
    (host : Host) (id : String) (ts : ℕ) (s : Session)
    → (etag : String) × ((write_tombstone host id ts s).0 ≡ ok tt)
      × ((write_tombstone host id ts s).1.table ≡ set_tombstone id ts etag s.table)
unfolding write_tombstone
write_tombstone_lem host id ts s =
    let (etag, e, same) = tombstone_etag_lem host (get id s.table.docs) s in
    (etag, ground arith, ground arith)

pub commit_delete_op_lem :
    (host : Host) (s : Session) (id : String)
    → (etag : String) × ((commit_delete_op host id s).0 ≡ ok tt)
      × ((commit_delete_op host id s).1.table
          ≡ push_op
              (next_op Types.delete id null
                (clock_now host s)
                (set_tombstone id (clock_now host s) etag s.table))
              (set_tombstone id (clock_now host s) etag s.table))
unfolding commit_delete_op date_now append_op publish_change
commit_delete_op_lem host s id =
    let (etag, e, same) = write_tombstone_lem host id (clock_now host s) (date_now host s).1 in
    (etag, ground arith, ground arith)
