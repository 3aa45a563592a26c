-- ===== src/Netab/Reads.antt =====
-- `get_objs` of src/netab/netab_service.ts with its fallbacks to other clusters, and `subscribe_objs`.
use netab.Common.{
  ℕ, String, Bool, true, false, not, ◌&&◌, ◌||◌, List, [], ◌∷◌, Option, none, some, string_eq,
  nat_eq, ◌==◌, if◌then◌else◌, ok, ◌>>=◌, ◌>>◌, done, map, any, min, leb,
}
use netab.Json.{Value, undefined, num, arr, nil, cons, strict_eq}
use netab.Steng.Types.{
  TableInfo, lt, le, between, FilterOp, FilterClause, Filter, ObjRow, GetResult, Watermark,
  ChangeEvent,
}
use netab.Steng.ChangeBus.{Unsub}
use netab.Steng.Engine.Query
use netab.Steng.Engine.Tables.{get_table_info}
use netab.Steng.Engine.Access
use netab.Netab.Types.{
  Permission, read, query, subscribe, TablePermission, NetabContext, NetabGetResult, local,
  fallback, ReadMode, local_only, fallback_only,
}
use netab.Netab.Rbac.{filter_readable_value}
use netab.Netab.Service.{
  Surroundings, Call, check, on_engine, get_leader, admit, policy_for, type_for,
  get_or_ensure_table, ensure_indexes_for_filter,
}
use netab.Netab.Scope.{apply_site_scope}

-- The arguments of `get_objs` that select rows; without a limit `max_count` is -1.
pub record Selection : Type 0 where
  pub ids : Option (List String)
  pub filter : Filter
  pub start_pos : ℕ
  pub max_count : Option ℕ

-- `filter && !ids ? 'query' : 'read'`.
abbrev pub action_of : Selection → Permission
action_of selection = elim selection.filter [
  | none ↦ read
  | some clauses ↦ elim selection.ids [ none ↦ query | some ids ↦ read ]
]

abbrev pub readable_value : TablePermission → Value → Value
readable_value permission value =
    if strict_eq value undefined then value else filter_readable_value value permission

abbrev pub readable_row : TablePermission → ObjRow → ObjRow
readable_row permission item = record item { value = readable_value permission item.value }

abbrev pub readable : TablePermission → GetResult → NetabGetResult
readable permission result = record {
  result = record result { items = map (readable_row permission) result.items };
  source = local;
}

-- What the local part of `get_objs` finds, and the context and the filter that it used.
pub record Reading : Type 0 where
  pub ctx : NetabContext
  pub selection : Selection
  pub found : NetabGetResult

unfoldable pub read_local : Surroundings → ℕ → String → String → Selection → Call Reading
read_local env self token table_name selection fleet =
    (do
      admitted ← check (admit (fleet.service self) token table_name (action_of selection))
      table ← get_or_ensure_table self table_name (type_for (fleet.service self) table_name)
      let scoped = apply_site_scope (fleet.service self) table_name admitted.0 selection.filter
      ensure_indexes_for_filter self table scoped
      result ← on_engine self (λ engine. (
        Query.get_objs env.host engine table.table_id selection.ids scoped selection.start_pos
            selection.max_count,
        engine,
      ))
      done (record {
        ctx = admitted.0;
        selection = record selection { filter = scoped };
        found = readable admitted.1 result;
      }))
      fleet

abbrev pub served_by_fallback : Reading → NetabGetResult
served_by_fallback reading = record (reading.found) { source = fallback }

-- The loop of `readFromFallbacks`: the first cluster that has a leader other than this service.
unfoldable pub read_from :
    Surroundings → ℕ → String → String → Selection → List String → Call (Option NetabGetResult)
read_from env self token table_name selection [] fleet = (ok none, fleet)
read_from env self token table_name selection (cluster_id ∷ cluster_ids) fleet =
    let rest = read_from env self token table_name selection cluster_ids fleet in
    elim (get_leader env fleet cluster_id) [
      | none ↦ rest
      | some leader ↦
          if leader == self
          then rest
          else (do
            reading ← read_local env leader token table_name selection
            done (some (served_by_fallback reading)))
              fleet
    ]

unfoldable pub read_from_fallbacks :
    Surroundings → ℕ → String → String → Selection → Call (Option NetabGetResult)
read_from_fallbacks env self token table_name selection fleet =
    read_from env self token table_name selection
      (policy_for (fleet.service self) table_name).read_fallback_clusters fleet

-- `extractUpperBound`.
abbrev pub lesser : Option ℕ → ℕ → Option ℕ
lesser none bound = some bound
lesser (some upper) bound = some (min upper bound)

abbrev pub bounded_by : Option ℕ → FilterOp → Value → Option ℕ
bounded_by upper lt (num n) = lesser upper n
bounded_by upper le (num n) = lesser upper n
bounded_by upper between (arr (cons lo (cons (num n) nil))) = lesser upper n
bounded_by upper op value = upper

unfoldable pub extract_from : Option ℕ → List FilterClause → String → Option ℕ
extract_from upper [] name = upper
extract_from upper (c ∷ clauses) name =
    extract_from (if c.field == name then bounded_by upper c.op c.value else upper) clauses name

unfoldable pub extract_upper_bound : Filter → String → Option ℕ
extract_upper_bound none name = none
extract_upper_bound (some clauses) name = extract_from none clauses name

abbrev pub is_miss : ObjRow → Bool
is_miss item = elim item.miss [ none ↦ false | some why ↦ true ]

-- `localResult.items.find(…) ?? fallbackItem`.
abbrev pub local_or : List ObjRow → ObjRow → ObjRow
local_or [] other = other
local_or (item ∷ items) other =
    let rest = local_or items other in
    if item.id == other.id && not (is_miss item) then item else rest

abbrev pub merged_result : List ObjRow → Option NetabGetResult → Option NetabGetResult
merged_result items none = none
merged_result items (some other) = some (record {
  result = record (other.result) { items = map (local_or items) other.result.items };
  source = fallback;
})

abbrev local_min : Option Watermark → Option ℕ
local_min none = none
local_min (some mark) = mark.local_min_time_ms

-- `watermark !== undefined && upperBound !== undefined && upperBound <= watermark`.
abbrev is_before_mark : Option ℕ → Option ℕ → Bool
is_before_mark (some mark) (some upper) = leb upper mark
is_before_mark _ _ = false

-- `table?.config.timeField`, where an empty name counts as none.
abbrev time_field_of : Option TableInfo → Option String
time_field_of none = none
time_field_of (some table) = table.config.time_field

-- Whether the rows that a filter asks for are older than what the table keeps.
unfoldable pub is_outdated : Filter → Option Watermark → Option TableInfo → Bool
is_outdated filter mark table = elim (time_field_of table) [
  | none ↦ false
  | some name ↦
      not (name == "") && is_before_mark (local_min mark) (extract_upper_bound filter name)
]

abbrev is_nothing : {A : Type 0} → List A → Bool
is_nothing [] = true
is_nothing (x ∷ xs) = false

-- `ids && …`: a list of ids is asked for, be it empty.
abbrev asks_ids : Selection → Bool
asks_ids selection = elim selection.ids [ none ↦ false | some ids ↦ true ]

unfoldable pub maybe_fallback_read :
    Surroundings → ℕ → String → Reading → ReadMode → Call (Option NetabGetResult)
maybe_fallback_read env self table_name reading mode fleet =
    let service = fleet.service self in
    let items = reading.found.result.items in
    let others = read_from_fallbacks env self reading.ctx.token table_name reading.selection in
    let table = get_table_info service.app service.db table_name service.engine in
    elim mode [
      | fallback_only ↦ others fleet
      | _ ↦
          if asks_ids reading.selection && any is_miss items
          then (do other ← others; done (merged_result items other)) fleet
          else if not (asks_ids reading.selection)
                && is_nothing items
                && not (is_nothing (policy_for service table_name).read_fallback_clusters)
              || is_outdated reading.selection.filter reading.found.result.watermark table
          then others fleet
          else (ok none, fleet)
    ]

abbrev or_local : NetabGetResult → Option NetabGetResult → NetabGetResult
or_local found none = found
or_local found (some other) = other

unfoldable pub get_objs :
    Surroundings → ℕ → String → String → Selection → ReadMode → Call NetabGetResult
get_objs env self token table_name selection mode = do
  reading ← read_local env self token table_name selection
  elim mode [
    | local_only ↦ done reading.found
    | wider ↦ do
      other ← maybe_fallback_read env self table_name reading wider
      done (or_local reading.found other)
  ]

-- The subscription, and what its callback makes of an event.
pub record Subscription : Type 0 where
  pub unsub : Unsub
  pub permission : TablePermission

unfoldable pub subscribe_objs : ℕ → String → String → Filter → Call Subscription
subscribe_objs self token table_name filter fleet =
    (do
      admitted ← check (admit (fleet.service self) token table_name subscribe)
      table ← get_or_ensure_table self table_name (type_for (fleet.service self) table_name)
      let scoped = apply_site_scope (fleet.service self) table_name admitted.0 filter
      ensure_indexes_for_filter self table scoped
      unsub ← on_engine self (Access.subscribe_objs table.table_id scoped)
      done (record { unsub = unsub; permission = admitted.1 }))
      fleet

unfoldable pub seen_event : Subscription → ChangeEvent → ChangeEvent
seen_event subscription evt = record evt {
  value = readable_value subscription.permission evt.value;
}
