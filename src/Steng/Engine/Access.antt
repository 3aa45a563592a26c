-- ===== src/Steng/Engine/Access.antt =====
-- The rest of the engine's interface: the constructor, `add_obj`, `latest_seq`, `get_watermark` and
-- `subscribe_objs`.
use netab.Common.{
  ℕ, String, List, [], ◌∷◌, Option, none, some, get, nat_eq, string_eq, ok, err, Exec, ◌>>=◌, done,
  if◌then◌else◌, ◌==◌,
}
use netab.Json.{Value, undefined}
use netab.Steng.Types.{Filter, Watermark, Error, no_table}
use netab.Steng.Host.{Host}
use netab.Steng.IdGeneration.{derive_cluster_short}
use netab.Steng.ChangeBus.{Unsub, subscribe}
use netab.Steng.Engine.{Act, Engine}
use netab.Steng.Engine.Methods.{add_objs}
use netab.Steng.Engine.Tables.{new_engine}

pub record StengIdentityOptions : Type 0 where
  pub cluster_id : Option String
  pub cluster_short : Option String

unfoldable pub cluster_short_of : Host → StengIdentityOptions → String
cluster_short_of host identity = elim identity.cluster_short [
  | some short ↦ short
  | none ↦ elim identity.cluster_id [
    | none ↦ "local"
    | some id ↦ if id == "" then "local" else derive_cluster_short (host.sha256_digest id) 4
  ]
]

unfoldable pub steng_engine : Host → StengIdentityOptions → Engine
steng_engine host identity = new_engine (cluster_short_of host identity)

abbrev first_id : List String → String
first_id [] = ""
first_id (id ∷ ids) = id

-- `add_objs` returns one id for the one row.
unfoldable pub add_obj : Host → String → Value → Act String
add_obj host cluster_short value = do
  ids ← add_objs host cluster_short (record { id = undefined; value = value } ∷ [])
  done (first_id ids)

unfoldable pub latest_seq : Act ℕ
latest_seq s = (ok s.table.latest_seq, s)

unfoldable pub get_watermark : Act (Option Watermark)
get_watermark s = (ok s.table.watermark, s)

unfoldable pub subscribe_objs : ℕ → Filter → Exec Error Engine Unsub
subscribe_objs table_id filter engine = elim (get table_id engine.tables_by_id) [
  | none ↦ (err (no_table table_id), engine)
  | some state ↦ (
    ok (subscribe table_id filter engine.world.bus).0,
    record engine {
      world = record (engine.world) { bus = (subscribe table_id filter engine.world.bus).1 };
    },
  )
]
