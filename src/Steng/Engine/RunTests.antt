-- ===== src/Steng/Engine/RunTests.antt =====
-- The directory and runs of the engine at concrete inputs.
use netab.Common.{◌⋅◌, none, some, ◌≡◌, nat_eq, string_eq}
use netab.Steng.Types.{json}
use netab.Steng.Types
use netab.Steng.Engine.{Engine, on_table}
use netab.Steng.Engine.CatchUp.{perform_all}
use netab.Steng.Engine.Tables.{new_engine, ensure_table, get_table_info}
use netab.Steng.Engine.Access.{subscribe_objs}
use netab.Steng.Engine.Directory.{ensure_table_again, ensure_table_collision}
use netab.Steng.Engine.Reached.{
  Reached, starts, steps, ensures, writes, listens, IsWellFormed, Reached-IsWellFormed,
}
use netab.Steng.Engine.Tests.{demo_host, demo_writes}

ensure_table_again_example :
    let r = ensure_table "shop" "main" "users" json (new_engine "local") in
    (get_table_info "shop" "main" "users" r.1 ≡ some r.0)
    × (ensure_table "shop" "main" "users" Types.binary r.1 ≡ (r.0, r.1))
ensure_table_again_example =
    ensure_table_again "shop" "main" "users" json Types.binary (new_engine "local")

ensure_table_collision_example :
    let r = ensure_table ("shop" ⋅ "::" ⋅ "eu") "main" "users" json (new_engine "local") in
    ensure_table "shop" ("eu" ⋅ "::" ⋅ "main") "users" json r.1 ≡ (r.0, r.1)
ensure_table_collision_example =
    ensure_table_collision "shop" "eu" "main" "users" json json (new_engine "local")

abbrev one_table : Engine
one_table = (ensure_table "shop" "main" "users" json (new_engine "local")).1

-- A table is created, listened to and written to.
abbrev written_table : Engine
written_table =
    let heard : Engine = (subscribe_objs 1 none one_table).1 in
    (on_table 1 (perform_all demo_host heard.cluster_short demo_writes) heard).1

written_table-Reached : Reached demo_host written_table
written_table-Reached =
    steps (steps (steps (starts "local") (ensures "shop" "main" "users" json)) (listens 1 none))
      (writes 1 demo_writes)

Reached-IsWellFormed_example : IsWellFormed written_table
Reached-IsWellFormed_example = Reached-IsWellFormed demo_host written_table written_table-Reached
