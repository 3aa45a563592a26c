-- ===== src/Steng/Engine/Retention.antt =====
-- `run_retention`: what is older than a table's window is deleted, and the watermark follows.
use netab.Common.{
  ℕ, ◌*◌, ◌-◌, String, Bool, true, false, List, [], ◌∷◌, Option, none, some, values, not, ◌&&◌,
  ◌||◌, if◌then◌else◌, ◌==◌, nat_eq, string_eq, ltb, keep, map, ok, ◌>>=◌, ◌>>◌, for_each, keys,
}
use netab.Json.{Value, num}
use netab.Utils.{get_field}
use netab.Steng.Types.{Watermark, TableConfig}
use netab.Steng.Host.{Host}
use netab.Steng.Engine.{StoredDoc, TableState, Act, Engine, on_table}
use netab.Steng.Engine.Docs.{with_table, commit_delete_op}

-- `typeof fieldValue === 'number' && fieldValue < cutoff`.
abbrev pub is_before : ℕ → Value → Bool
is_before cutoff (num n) = ltb n cutoff
is_before cutoff _ = false

unfoldable pub is_expired : ℕ → String → StoredDoc → Bool
is_expired cutoff time_field doc =
    not doc.deleted && is_before cutoff (get_field doc.value time_field)

unfoldable pub ids_to_delete : ℕ → String → TableState → List String
ids_to_delete cutoff time_field state =
    map (λ (doc : StoredDoc). doc.id) (keep (is_expired cutoff time_field) (values state.docs))

-- `localMinTimeMs`, where a missing one and 0 both count as none.
abbrev pub mark_or_zero : Option Watermark → ℕ
mark_or_zero none = 0
mark_or_zero (some wm) = elim wm.local_min_time_ms [ none ↦ 0 | some n ↦ n ]

is_some_id : List String → Bool
is_some_id [] = false
is_some_id (id ∷ ids) = true

unfoldable pub advances : ℕ → List String → TableState → Bool
unfolding is_some_id
advances cutoff ids state =
    is_some_id ids || mark_or_zero state.watermark == 0 || ltb (mark_or_zero state.watermark) cutoff

unfoldable pub move_watermark : ℕ → List String → Act (Unit {0})
move_watermark cutoff ids s =
    if advances cutoff ids s.table
    then (
      ok tt,
      with_table s
          (record (s.table) { watermark = some (record { local_min_time_ms = some cutoff }) }),
    )
    else (ok tt, s)

unfoldable pub retain_since : Host → ℕ → String → Act (Unit {0})
retain_since host cutoff time_field = do
  ids ← λ s. (ok (ids_to_delete cutoff time_field s.table), s)
  for_each (commit_delete_op host) ids
  move_watermark cutoff ids

-- `!retentionHours || !timeField`, and the start of the window.
abbrev pub window : TableConfig → Option (ℕ × String)
window config = elim config.retention_hours [
  | none ↦ none
  | some hours ↦ elim config.time_field [
    | none ↦ none
    | some name ↦ if hours == 0 || name == "" then none else some (hours * 60 * 60 * 1000, name)
  ]
]

unfoldable pub retain_table : Host → ℕ → Act (Unit {0})
retain_table host now_ms s = elim (window s.table.info.config) [
  | none ↦ (ok tt, s)
  | some (span, name) ↦ retain_since host (now_ms - span) name s
]

-- The loop over the tables.
unfoldable pub retain_each : Host → ℕ → List ℕ → Engine → Engine
retain_each host now_ms [] engine = engine
retain_each host now_ms (table_id ∷ more) engine =
    retain_each host now_ms more (on_table table_id (retain_table host now_ms) engine).1

unfoldable pub run_retention : Host → ℕ → Engine → Engine
run_retention host now_ms engine = retain_each host now_ms (keys engine.tables_by_id) engine
