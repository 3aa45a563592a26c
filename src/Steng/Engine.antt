-- ===== src/Steng/Engine.antt =====
-- src/steng/engine/steng_engine.ts: the in-memory engine. A table's state is one object that both
-- maps of the engine refer to; here the map by id holds it, and the map by name holds its id.
-- The methods that work on one table are actions on a `Session`, that table with the world.
pub mod Docs
pub mod Methods
pub mod Replica
pub mod Commit
pub mod Log
pub mod Mirroring
pub mod Replication
pub mod CatchUp
pub mod Tables
pub mod Query
pub mod Retention
pub mod Snapshot
pub mod Access
pub mod Shallow
pub mod Again
pub mod Pages
pub mod Watermarks
pub mod Directory
pub mod Dropping
pub mod Stores
pub mod Reads
pub mod Expiry
pub mod Kept
pub mod Unmoved
pub mod Reached
pub mod Scans
pub mod Sorting
pub mod RoundTrip
mod Tests
mod RunTests
use netab.Common.{
  ℕ, suc, String, Bool, true, false, List, [], ◌∷◌, ◌++◌, Option, none, some, Dict, get, set, ◌⋅◌,
  nat_eq, string_eq, Result, ok, err, Exec, ◌>>=◌, ◌>>◌, done, throw, radix_text,
}
use netab.Json.{Value}
use netab.Steng.Types.{TableInfo, BlobRecord, Op, OpType, Watermark, Error, no_table, ChangeEvent}
use netab.Steng.Host.{Host, World, hex_text}
use netab.Steng.ChangeBus.{publish}

pub record StoredDoc : Type 0 where
  pub id : String
  pub value : Value
  pub deleted : Bool
  pub updated_at_ms : ℕ
  pub etag : String

pub record TableState : Type 0 where
  pub info : TableInfo
  pub docs : Dict String StoredDoc
  pub blobs : Dict String BlobRecord
  pub ops : List Op
  pub latest_seq : ℕ
  pub watermark : Option Watermark

pub record Engine : Type 0 where
  pub tables_by_name : Dict String ℕ
  pub tables_by_id : Dict ℕ TableState
  pub next_table_id : ℕ
  pub cluster_short : String
  pub world : World

pub record Session : Type 0 where
  pub table : TableState
  pub world : World

abbrev pub Act : Type 0 → Type 0
Act A = Exec Error Session A

-- `Date.now()`.
unfoldable pub date_now : Host → Act ℕ
date_now host s = (
  ok (host.clock s.world.clock_reads),
  record s { world = record (s.world) { clock_reads = suc s.world.clock_reads } },
)

unfoldable pub random_bytes : Host → ℕ → Act (List ℕ)
random_bytes host count s = (
  ok (host.random_bytes s.world.draws count),
  record s { world = record (s.world) { draws = suc s.world.draws } },
)

-- `randomId(prefix)` of src/shared/utils.ts.
unfoldable pub random_id : Host → String → Act String
unfolding date_now random_bytes
random_id host prefix = do
  now ← date_now host
  bytes ← random_bytes host 6
  done (prefix ⋅ "_" ⋅ radix_text 36 now ⋅ "_" ⋅ hex_text bytes)

-- The callbacks are called there and then; each call is recorded.
unfoldable pub publish_change : ChangeEvent → Act (Unit {0})
publish_change evt s = (
  ok tt,
  record s {
    world = record (s.world) {
      delivered = s.world.delivered ++ publish s.table.info.table_id evt s.world.bus;
    };
  },
)

abbrev pub write_back :
    {A : Type 0} → ℕ → Engine → Result Error A × Session → Result Error A × Engine
write_back table_id engine (r, s) =
    (r, record engine { tables_by_id = set table_id s.table engine.tables_by_id; world = s.world })

-- A method on the table that `requireTable` finds.
unfoldable pub on_table : {A : Type 0} → ℕ → Act A → Exec Error Engine A
on_table table_id act engine = elim (get table_id engine.tables_by_id) [
  | none ↦ (err (no_table table_id), engine)
  | some table ↦ write_back table_id engine (act (record { table = table; world = engine.world }))
]
