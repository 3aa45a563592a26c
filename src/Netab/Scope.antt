-- ===== src/Netab/Scope.antt =====
-- `applySiteScope` and `applyWriteScope` of src/netab/netab_service.ts: a token that is bound to a site
-- reads and writes the rows of that site.
pub mod Written
pub mod Scanned
use netab.Common.{
  String, Bool, true, false, not, ◌&&◌, ◌||◌, List, [], ◌∷◌, ◌++◌, Option, none, some, includes,
  string_eq, if◌then◌else◌, Result, ok, err,
}
use netab.Json.{
  Value, undefined, arr, obj, Fields, end, get_prop, set_prop, strict_eq, is_truthy, spread,
}
use netab.Utils.{is_container}
use netab.Steng.Types.{eq, FilterClause, Filter}
use netab.Netab.Types.{NetabContext}
use netab.Netab.Service.{Service, NetabError, other_site}

-- `this.siteScopedTables.has(tableName) && ctx.siteId`.
unfoldable pub is_scoped : Service → String → NetabContext → Bool
is_scoped service table_name ctx =
    includes service.site_scoped_tables table_name && is_truthy ctx.site_id

abbrev pub clauses_of : Filter → List FilterClause
clauses_of none = []
clauses_of (some clauses) = clauses

abbrev pub site_clause : NetabContext → FilterClause
site_clause ctx = record { field = "siteId"; op = eq; value = ctx.site_id }

unfoldable pub apply_site_scope : Service → String → NetabContext → Filter → Filter
apply_site_scope service table_name ctx filter =
    if is_scoped service table_name ctx
    then some (clauses_of filter ++ site_clause ctx ∷ [])
    else filter

-- `if (given && record[name] === undefined) record[name] = given`.
abbrev pub fill : String → Value → Fields → Fields
fill name given fs =
    if is_truthy given && strict_eq (get_prop name fs) undefined then set_prop name given fs else fs

abbrev pub fill_both : NetabContext → Fields → Fields
fill_both ctx fs = fill "brandId" ctx.brand_id (fill "locationId" ctx.location_id fs)

-- The branch of a table with a site's rows.
abbrev pub claim_site : NetabContext → Fields → Result NetabError Fields
claim_site ctx fs =
    if is_truthy (get_prop "siteId" fs) && not (strict_eq (get_prop "siteId" fs) ctx.site_id)
    then err other_site
    else ok (set_prop "siteId" ctx.site_id fs)

abbrev pub filled : NetabContext → Result NetabError Fields → Result NetabError Value
filled ctx (err e) = err e
filled ctx (ok fs) = ok (obj (fill_both ctx fs))

-- The object `{ ...value }` of an object or array.
abbrev pub copied : Value → Fields
copied value = spread value end

unfoldable pub apply_write_scope : Service → String → NetabContext → Value → Result NetabError Value
apply_write_scope service table_name ctx value =
    if not (is_container value)
    then ok value
    else filled ctx (
        if is_scoped service table_name ctx
        then claim_site ctx (copied value)
        else ok (copied value))
