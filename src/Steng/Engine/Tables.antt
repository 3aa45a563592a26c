-- ===== src/Steng/Engine/Tables.antt =====
-- The table directory: `ensure_table`, `get_table_info`, `get_table_info_by_id`, `list_tables`,
-- `drop_table`, `add_index`, `list_indexes` and `set_table_config`.
use netab.Common.{
  ℕ, ◌+◌, String, Bool, true, List, [], ◌∷◌, Option, none, some, Dict, get, set, delete, values,
  string_eq, nat_eq, ◌==◌, ◌&&◌, ◌||◌, ok, err, ◌⋅◌, keep, map, Exec, leb, sort_by,
}
use netab.Steng.Types.{
  TableType, TableInfo, TableConfig, IndexType, IndexConfig, IndexInfo, Error, no_table,
}
use netab.Steng.Host.{Host}
use netab.Steng.ChangeBus.{new_bus}
use netab.Steng.IdGeneration.{default_id_prefix}
use netab.Steng.Engine.{TableState, Act, Engine}
use netab.Steng.Engine.Docs.{with_table}

unfoldable pub make_table_key : String → String → String → String
make_table_key app db table_name = app ⋅ "::" ⋅ db ⋅ "::" ⋅ table_name

unfoldable pub new_engine : String → Engine
unfolding new_bus
new_engine cluster_short = record {
  tables_by_name = [];
  tables_by_id = [];
  next_table_id = 1;
  cluster_short = cluster_short;
  world = record { clock_reads = 0; draws = 0; bus = new_bus; delivered = [] };
}

unfoldable pub new_table : ℕ → String → String → String → TableType → TableState
new_table table_id app db table_name type = record {
  info = record {
    table_id = table_id;
    app = app;
    db = db;
    table_name = table_name;
    type = type;
    config = record {
      indexes = [];
      time_field = none;
      retention_hours = none;
      id_prefix = some (default_id_prefix table_name);
    };
  };
  docs = [];
  blobs = [];
  ops = [];
  latest_seq = 0;
  watermark = none;
}

-- The state that `tablesByName.get(key)` refers to.
unfoldable pub find_table : String → Engine → Option TableState
find_table key engine = elim (get key engine.tables_by_name) [
  | none ↦ none
  | some table_id ↦ get table_id engine.tables_by_id
]

unfoldable pub insert_table : String → TableState → Engine → Engine
insert_table key state engine = record engine {
  tables_by_name = set key state.info.table_id engine.tables_by_name;
  tables_by_id = set state.info.table_id state engine.tables_by_id;
  next_table_id = engine.next_table_id + 1;
}

unfoldable pub ensure_table : String → String → String → TableType → Engine → TableInfo × Engine
ensure_table app db table_name type engine =
    elim (find_table (make_table_key app db table_name) engine) [
      | some state ↦ (state.info, engine)
      | none ↦ (
        (new_table engine.next_table_id app db table_name type).info,
        insert_table (make_table_key app db table_name)
            (new_table engine.next_table_id app db table_name type) engine,
      )
    ]

unfoldable pub get_table_info : String → String → String → Engine → Option TableInfo
get_table_info app db table_name engine =
    elim (find_table (make_table_key app db table_name) engine) [
      | none ↦ none
      | some state ↦ some state.info
    ]

unfoldable pub get_table_info_by_id : ℕ → Engine → Option TableInfo
get_table_info_by_id table_id engine = elim (get table_id engine.tables_by_id) [
  | none ↦ none
  | some state ↦ some state.info
]

-- `app && state.info.app !== app` is false for an absent and for an empty text.
abbrev pub selects : Option String → String → Bool
selects none name = true
selects (some wanted) name = wanted == "" || wanted == name

unfoldable pub list_tables : Option String → Option String → Engine → List TableInfo
list_tables app db engine =
    sort_by (λ a b. leb a.table_id b.table_id)
      (keep (λ info. selects app info.app && selects db info.db)
        (map (λ (state : TableState). state.info) (values engine.tables_by_id)))

unfoldable pub drop_table : ℕ → Exec Error Engine (Unit {0})
drop_table table_id engine = elim (get table_id engine.tables_by_id) [
  | none ↦ (err (no_table table_id), engine)
  | some state ↦ (
    ok tt,
    record engine {
      tables_by_id = delete table_id engine.tables_by_id;
      tables_by_name =
          delete (make_table_key state.info.app state.info.db state.info.table_name)
            engine.tables_by_name;
    },
  )
]

abbrev pub with_config : TableConfig → TableState → TableState
with_config config state = record state { info = record (state.info) { config = config } }

unfoldable pub add_index : String → IndexType → Bool → Act (Unit {0})
add_index name type multi s = (
  ok tt,
  with_table s (
      with_config
        (record (s.table.info.config) {
          indexes = set name (record { type = type; multi = multi }) s.table.info.config.indexes;
        })
        s.table),
)

index_infos : Dict String IndexConfig → List IndexInfo
index_infos [] = []
index_infos ((name, index) ∷ indexes) =
    record { field = name; type = index.type; multi = index.multi } ∷ index_infos indexes

unfoldable pub list_indexes : Host → TableState → List IndexInfo
unfolding index_infos
list_indexes host state =
    sort_by (λ a b. host.locale_le a.field b.field) (index_infos state.info.config.indexes)

-- A `Partial<TableConfig>`; a key that the patch lacks is `none`.
pub record ConfigPatch : Type 0 where
  pub indexes : Dict String IndexConfig
  pub time_field : Option String
  pub retention_hours : Option ℕ
  pub id_prefix : Option String

abbrev pub or_old {ℓ} : {A : Type ℓ} → Option A → Option A → Option A
or_old none old = old
or_old (some a) old = some a

unfoldable pub set_all {ℓ} : {V : Type ℓ} → Dict String V → Dict String V → Dict String V
set_all [] m = m
set_all ((k, v) ∷ more) m = set_all more (set k v m)

unfoldable pub set_table_config : ConfigPatch → Act (Unit {0})
set_table_config patch s = (
  ok tt,
  with_table s (
      with_config
        (record {
          indexes = set_all patch.indexes s.table.info.config.indexes;
          time_field = or_old patch.time_field s.table.info.config.time_field;
          retention_hours = or_old patch.retention_hours s.table.info.config.retention_hours;
          id_prefix = or_old patch.id_prefix s.table.info.config.id_prefix;
        })
        s.table),
)
