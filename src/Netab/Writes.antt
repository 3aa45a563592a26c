-- ===== src/Netab/Writes.antt =====
-- The methods of src/netab/netab_service.ts that write: they go to the leader of the cluster that owns
-- the table, and its engine does them.
use netab.Common.{
  ℕ, String, List, [], ◌∷◌, Option, none, some, if◌then◌else◌, Result, ok, err, ◌>>=◌, ◌>>◌, done,
  not,
}
use netab.Json.{Value, undefined, null, obj, end, strict_eq}
use netab.Steng.Engine.{on_table}
use netab.Steng.Engine.Methods
use netab.Steng.Engine.Methods.{NewRow, Patch, Merge, Replacement}
use netab.Netab.Types
use netab.Netab.Types.{Permission, write, TablePermission, NetabContext}
use netab.Netab.Rbac.{assert_writable_fields}
use netab.Netab.Service.{
  Service, Surroundings, NetabError, no_leader, caller_id, Call, check, on_engine, get_leader,
  admit, policy_for, type_for, get_or_ensure_table,
}
use netab.Netab.Scope.{apply_write_scope}

abbrev leader_or : String → Option ℕ → Result NetabError ℕ
leader_or cluster_id none = err (no_leader cluster_id)
leader_or cluster_id (some leader) = ok leader

unfoldable pub route_write : Surroundings → ℕ → String → Call ℕ
route_write env self table_name fleet =
    let target = (policy_for (fleet.service self) table_name).write_primary_cluster_id in
    (leader_or target (get_leader env fleet target), fleet)

-- A value in the scope of the caller, if all its fields may be written.
abbrev pub if_writable : TablePermission → Result NetabError Value → Result NetabError Value
if_writable permission (err e) = err e
if_writable permission (ok value) = elim (assert_writable_fields value permission) [
  | err e ↦ err (NetabError.access e)
  | ok done ↦ ok value
]

unfoldable pub writable_value :
    Service → String → NetabContext → TablePermission → Value → Result NetabError Value
writable_value service table_name ctx permission value =
    if_writable permission (apply_write_scope service table_name ctx value)

-- `rows.map(…)`, where a row may throw.
abbrev pub then_more :
    {A : Type 0} → Result NetabError A → Result NetabError (List A) → Result NetabError (List A)
then_more (err e) rest = err e
then_more (ok a) (err e) = err e
then_more (ok a) (ok more) = ok (a ∷ more)

abbrev pub as_new : Result NetabError Value → Result NetabError NewRow
as_new (err e) = err e
as_new (ok value) = ok (record { id = undefined; value = value })

unfoldable pub new_rows :
    Service
    → String
    → NetabContext
    → TablePermission
    → List NewRow
    → Result NetabError (List NewRow)
new_rows service table_name ctx permission [] = ok []
new_rows service table_name ctx permission (row ∷ rows) =
    then_more
      (if not (strict_eq row.id undefined)
        then err caller_id
        else as_new (writable_value service table_name ctx permission row.value))
      (new_rows service table_name ctx permission rows)

abbrev pub value_at : List Value → Value
value_at [] = undefined
value_at (v ∷ vs) = v

abbrev pub values_after : List Value → List Value
values_after [] = []
values_after (v ∷ vs) = vs

-- `patches[index] ?? {}`.
abbrev pub or_object : Value → Value
or_object undefined = obj end
or_object null = obj end
or_object value = value

abbrev pub as_patch : String → Merge → Result NetabError Value → Result NetabError Patch
as_patch id merge (err e) = err e
as_patch id merge (ok patch) = ok (record { id = id; patch = patch; merge = merge })

unfoldable pub patch_rows :
    Service
    → String
    → NetabContext
    → TablePermission
    → Merge
    → List String
    → List Value
    → Result NetabError (List Patch)
patch_rows service table_name ctx permission merge [] patches = ok []
patch_rows service table_name ctx permission merge (id ∷ ids) patches =
    then_more
      (as_patch id merge
        (writable_value service table_name ctx permission (or_object (value_at patches))))
      (patch_rows service table_name ctx permission merge ids (values_after patches))

abbrev pub as_replacement : String → Result NetabError Value → Result NetabError Replacement
as_replacement id (err e) = err e
as_replacement id (ok value) = ok (record { id = id; value = value })

unfoldable pub replacement_rows :
    Service
    → String
    → NetabContext
    → TablePermission
    → List String
    → List Value
    → Result NetabError (List Replacement)
replacement_rows service table_name ctx permission [] values = ok []
replacement_rows service table_name ctx permission (id ∷ ids) values =
    then_more
      (as_replacement id (writable_value service table_name ctx permission (value_at values)))
      (replacement_rows service table_name ctx permission ids (values_after values))

abbrev pub table_id_at : ℕ → String → Call ℕ
table_id_at leader table_name fleet =
    (do
      table ← get_or_ensure_table leader table_name (type_for (fleet.service leader) table_name)
      done table.table_id)
      fleet

unfoldable pub add_objs : Surroundings → ℕ → String → String → List NewRow → Call (List String)
add_objs env self token table_name rows fleet =
    (do
      admitted ← check (admit (fleet.service self) token table_name write)
      leader ← route_write env self table_name
      table_id ← table_id_at leader table_name
      normalized ← check (new_rows (fleet.service leader) table_name admitted.0 admitted.1 rows)
      on_engine leader (λ engine.
          on_table table_id (Methods.add_objs env.host engine.cluster_short normalized) engine))
      fleet

abbrev only_id : List String → String
only_id [] = ""
only_id (id ∷ ids) = id

unfoldable pub add_obj : Surroundings → ℕ → String → String → Value → Call String
add_obj env self token table_name value = do
  ids ← add_objs env self token table_name (record { id = undefined; value = value } ∷ [])
  done (only_id ids)

unfoldable pub update_objs :
    Surroundings → ℕ → String → String → List String → List Value → Merge → Call (Unit {0})
update_objs env self token table_name ids patches merge fleet =
    (do
      admitted ← check (admit (fleet.service self) token table_name write)
      leader ← route_write env self table_name
      table_id ← table_id_at leader table_name
      rows ←
          check
            (patch_rows (fleet.service leader) table_name admitted.0 admitted.1 merge ids patches)
      on_engine leader (on_table table_id (Methods.update_objs env.host rows)))
      fleet

unfoldable pub replace_objs :
    Surroundings → ℕ → String → String → List String → List Value → Call (Unit {0})
replace_objs env self token table_name ids values fleet =
    (do
      admitted ← check (admit (fleet.service self) token table_name write)
      leader ← route_write env self table_name
      table_id ← table_id_at leader table_name
      rows ←
          check
            (replacement_rows (fleet.service leader) table_name admitted.0 admitted.1 ids values)
      on_engine leader (on_table table_id (Methods.replace_objs env.host rows)))
      fleet

unfoldable pub delete_objs : Surroundings → ℕ → String → String → List String → Call (Unit {0})
delete_objs env self token table_name ids fleet =
    (do
      check (admit (fleet.service self) token table_name Types.delete)
      leader ← route_write env self table_name
      table_id ← table_id_at leader table_name
      on_engine leader (on_table table_id (Methods.delete_objs env.host ids)))
      fleet
