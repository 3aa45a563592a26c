-- ===== src/Netab/Service.antt =====
-- `NetabService` of src/netab/netab_service.ts: its state, who leads a cluster, and what its methods
-- have in common. The services are objects that a directory and each other refer to; here they
-- stand in a store under numbers. A token is read by a function that each service has.
use netab.Common.{
  ℕ, String, false, ◌||◌, List, [], ◌∷◌, Option, none, some, Dict, get, set, delete, keys, includes,
  string_eq, nat_eq, ◌==◌, if◌then◌else◌, Result, ok, err, Exec, ◌>>◌, done, get,
}
use netab.Json.{Value, bool, num, arr, nil, cons}
use netab.Steng.Types
use netab.Steng.Types.{
  TableType, json, TableInfo, IndexType, IndexConfig, FilterOp, between, FilterClause, Filter,
  Error,
}
use netab.Steng.Host.{Host}
use netab.Steng.Engine.{Engine, on_table}
use netab.Steng.Engine.Tables.{ensure_table, get_table_info, add_index}
use netab.Netab.Types.{
  Permission, TablePermission, AclRule, JwtClaims, NetabContext, SiteRecord, PinRecord, TablePolicy,
}
use netab.Netab.Rbac.{Forbidden, assert_permission}

pub data NetabError : Type 0 where
  access : Forbidden → NetabError
  storage : Error → NetabError
  bad_token invalid_pin unknown_code unknown_location proof_required admin_required : NetabError
  wrong_app unknown_site no_leader : String → NetabError
  not_public ambiguous_brand no_hint other_site caller_id : NetabError

pub record Service : Type 0 where
  pub app : String
  pub db : String
  pub cluster_id : String
  pub node_id : String
  pub engine : Engine
  pub decode : String → Result NetabError JwtClaims
  pub issue : JwtClaims → Result NetabError String
  pub acl_rules : List AclRule
  pub pins : List PinRecord
  pub sites : Dict String SiteRecord
  pub join_codes : Dict String String
  pub table_policies : Dict String TablePolicy
  pub site_scoped_tables : List String
  pub default_table_type : TableType

-- The services, and the `NetabDirectory` of those that run.
pub record Fleet : Type 0 where
  pub service : ℕ → Service
  pub directory : Dict String (Dict String ℕ)

-- The host, and whom a service's node of CORD takes for the leader of its cluster.
pub record Surroundings : Type 0 where
  pub host : Host
  pub leader_of : ℕ → Option String

abbrev pub Call : Type 0 → Type 0
Call A = Exec NetabError Fleet A

abbrev pub or_none : Option (Dict String ℕ) → Dict String ℕ
or_none none = []
or_none (some cluster) = cluster

unfoldable pub register_service : ℕ → Fleet → Fleet
register_service self fleet =
    let service = fleet.service self in
    record fleet {
      directory =
          set service.cluster_id
            (set service.node_id self (or_none (get service.cluster_id fleet.directory)))
            fleet.directory;
    }

abbrev without_node :
    String → Dict String ℕ → Dict String (Dict String ℕ) → Dict String (Dict String ℕ)
without_node cluster_id [] directory = delete cluster_id directory
without_node cluster_id (node ∷ nodes) directory = set cluster_id (node ∷ nodes) directory

unfoldable pub unregister_service : ℕ → Fleet → Fleet
unregister_service self fleet =
    let service = fleet.service self in
    elim (get service.cluster_id fleet.directory) [
      | none ↦ fleet
      | some cluster ↦ record fleet {
        directory =
            without_node service.cluster_id (delete service.node_id cluster) fleet.directory;
      }
    ]

abbrev leader_among : (ℕ → Option String) → Dict String ℕ → Option ℕ
leader_among leader_of [] = none
leader_among leader_of ((node_id, sample) ∷ cluster) = elim (leader_of sample) [
  | none ↦ none
  | some leader_id ↦ if leader_id == "" then none else get leader_id ((node_id, sample) ∷ cluster)
]

unfoldable pub get_leader : Surroundings → Fleet → String → Option ℕ
get_leader env fleet cluster_id =
    leader_among env.leader_of (or_none (get cluster_id fleet.directory))

abbrev pub check : {A : Type 0} → Result NetabError A → Call A
check r fleet = (r, fleet)

abbrev pub put_engine : ℕ → Engine → Fleet → Fleet
put_engine self engine fleet = record fleet {
  service =
      λ r. if r == self then record (fleet.service r) { engine = engine } else fleet.service r;
}

abbrev pub as_storage : {A : Type 0} → Result Error A → Result NetabError A
as_storage (ok a) = ok a
as_storage (err e) = err (storage e)

-- A method of a service's own engine.
abbrev pub on_engine : {A : Type 0} → ℕ → Exec Error Engine A → Call A
on_engine self method fleet =
    let r = method (fleet.service self).engine in (as_storage r.0, put_engine self r.1 fleet)

abbrev pub context_of : Service → String → JwtClaims → Result NetabError NetabContext
context_of service token claims =
    if claims.app == service.app
    then ok (record {
      sub = claims.sub;
      app = claims.app;
      db = claims.db;
      groups = claims.groups;
      site_id = claims.site_id;
      location_id = claims.location_id;
      brand_id = claims.brand_id;
      exp = claims.exp;
      token = token;
    })
    else err (wrong_app claims.app)

unfoldable pub require_context : Service → String → Result NetabError NetabContext
require_context service token = elim (service.decode token) [
  | err e ↦ err e
  | ok claims ↦ context_of service token claims
]

abbrev pub as_access : {A : Type 0} → Result Forbidden A → Result NetabError A
as_access (ok a) = ok a
as_access (err e) = err (access e)

abbrev pub permission_for :
    Service
    → String
    → Permission
    → NetabContext
    → Result NetabError (NetabContext × TablePermission)
permission_for service table_name action ctx =
    elim (assert_permission service.acl_rules ctx table_name action) [
      | err e ↦ err (access e)
      | ok permission ↦ ok (ctx, permission)
    ]

-- What each method begins with: the context of the token, and the permission on the table.
unfoldable pub admit :
    Service → String → String → Permission → Result NetabError (NetabContext × TablePermission)
admit service token table_name action = elim (require_context service token) [
  | err e ↦ err e
  | ok ctx ↦ permission_for service table_name action ctx
]

unfoldable pub policy_for : Service → String → TablePolicy
policy_for service table_name = elim (get table_name service.table_policies) [
  | some policy ↦ policy
  | none ↦ record {
    type = some json;
    write_primary_cluster_id = service.cluster_id;
    read_fallback_clusters = [];
  }
]

-- `policyFor(table_name).type ?? defaultTableType`.
abbrev pub type_for : Service → String → TableType
type_for service table_name = elim (policy_for service table_name).type [
  | some type ↦ type
  | none ↦ service.default_table_type
]

abbrev ensured : ℕ → String → TableType → Option TableInfo → Call TableInfo
ensured self table_name type (some existing) fleet = (ok existing, fleet)
ensured self table_name type none fleet =
    let service = fleet.service self in
    let r = ensure_table service.app service.db table_name type service.engine in
    (ok r.0, put_engine self r.1 fleet)

unfoldable pub get_or_ensure_table : ℕ → String → TableType → Call TableInfo
get_or_ensure_table self table_name type fleet =
    let service = fleet.service self in
    ensured self table_name type (get_table_info service.app service.db table_name service.engine)
      fleet

-- `inferIndexType(op, Array.isArray(value) ? value[0] : value)`.
abbrev type_of_value : Value → IndexType
type_of_value (bool b) = Types.bool
type_of_value (num n) = Types.i64
type_of_value _ = Types.str

unfoldable pub infer_index_type : FilterOp → Value → IndexType
infer_index_type between value = Types.time
infer_index_type _ value = type_of_value value

abbrev first_value : Value → Value
first_value (arr nil) = Value.undefined
first_value (arr (cons v vs)) = v
first_value value = value

-- The loop of `ensureIndexesForFilter`; `indexes` is the copy of the table's that it extends.
unfoldable pub ensure_indexes :
    ℕ → ℕ → Dict String IndexConfig → List FilterClause → Call (Unit {0})
ensure_indexes self table_id indexes [] = done tt
ensure_indexes self table_id indexes (c ∷ clauses) =
    let type = infer_index_type c.op (first_value c.value) in
    let skipped = ensure_indexes self table_id indexes clauses in
    let extended =
      ensure_indexes self table_id (set c.field (record { type = type; multi = false }) indexes)
        clauses in
    if c.field == "id" || includes (keys indexes) c.field
    then skipped
    else on_engine self (on_table table_id (add_index c.field type false)) >> extended

unfoldable pub ensure_indexes_for_filter : ℕ → TableInfo → Filter → Call (Unit {0})
ensure_indexes_for_filter self table none = done tt
ensure_indexes_for_filter self table (some clauses) =
    ensure_indexes self table.table_id table.config.indexes clauses
