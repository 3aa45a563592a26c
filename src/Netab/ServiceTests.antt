-- ===== src/Netab/ServiceTests.antt =====
-- A service with two sites, and its callers, at concrete inputs.
use netab.Common.{
  sort_by, ◌+◌, ◌*◌, String, Bool, true, false, ◌||◌, List, [], ◌∷◌, none, some, values, Result, ok,
  err, ◌≡◌, refl, All, equals-false_iff, string_eq, get,
}
use netab.Json.{
  undefined, str, num, obj, end, field, is_truthy, strict_eq, get_prop, set_prop, spread, text_of,
}
use netab.Steng
use netab.Steng.Types.{json, eq, FilterClause, Filter, GetResult}
use netab.Steng.Filtering.{assert_filter_supported, matches_filter, match_clause, actual_of}
use netab.Utils.{get_field}
use netab.Steng.Host.{Host}
use netab.Steng.Engine.{TableState, StoredDoc}
use netab.Steng.Engine.Stores.{IsStore}
use netab.Steng.Engine.Tables.{new_engine}
use netab.Steng.Engine.Query.{
  get_table_objs, get_by_filter, scan, found_row, candidate, candidate_id,
}
use netab.Steng.Engine.Methods.{NewRow, Patch, deep, Replacement}
use netab.Netab.Types
use netab.Netab.Types.{
  Permission, read, write, admin, TablePermission, AclRule, NetabContext, SiteRecord, JwtClaims,
  AccessResult,
}
use netab.Netab.Rbac.{forbidden, table_permission}
use netab.Netab.Rbac.Grants.{is_granted, grants}
use netab.Netab.Service.{Service, Fleet, Surroundings, NetabError, access, require_context}
use netab.Netab.Requests.{serve, deletes, serve-forbidden}
use netab.Netab.Scope.{is_scoped, apply_site_scope}
use netab.Netab.Scope.Written.{InSite, OnOk, written-InSite}
use netab.Netab.Scope.Scanned.{IsAt, IsPlain, scanned-IsAt}
use netab.Netab.Sites.{resolve_anonymous_site, auth_anonymous, site_claims}
use netab.Netab.Sites.Given.{IsOffered, auth_anonymous_lem}
use netab.Netab.Writes.{new_rows, patch_rows, replacement_rows}

abbrev a_host : Host
a_host = record {
  clock = λ n. 1000 + n;
  random_bytes = λ n count. [];
  sha256_text = λ s. s;
  sha256_bytes = λ bytes. "hash";
  sha256_digest = λ s. [];
  stringify = λ value. "json";
  bytes_to_base64 = λ bytes. "bytes";
  base64_to_bytes = λ s. [];
  locale_le = λ a b. true;
}

abbrev site : String → Bool → SiteRecord
site id public = record {
  site_id = id;
  location_id = "l";
  brand_id = "b";
  brand_name = "Brand";
  db = "db";
  hostname = none;
  public = public;
  location_proof = none;
}

abbrev clerk : TablePermission
clerk = record { allow = read ∷ write ∷ []; read_fields = none; write_fields = none }

-- A token is the name of its caller's group.
abbrev claims_of : String → Result NetabError JwtClaims
claims_of token = ok (record {
  sub = "u";
  app = "app";
  db = "db";
  groups = token ∷ [];
  site_id = str "s1";
  location_id = undefined;
  brand_id = undefined;
  exp = 2000;
})

abbrev shop : Service
shop = record {
  app = "app";
  db = "db";
  cluster_id = "c";
  node_id = "n";
  engine = new_engine "local";
  decode = claims_of;
  issue = λ claims. ok "fresh";
  acl_rules = record { group = "clerks"; tables = ("orders", clerk) ∷ [] } ∷ [];
  pins = [];
  sites = ("s1", site "s1" false) ∷ ("s2", site "s2" true) ∷ [];
  join_codes = [];
  table_policies = [];
  site_scoped_tables = "orders" ∷ [];
  default_table_type = json;
}

abbrev ctx : NetabContext
ctx = record {
  sub = "u";
  app = "app";
  db = "db";
  groups = "clerks" ∷ [];
  site_id = str "s1";
  location_id = undefined;
  brand_id = undefined;
  exp = 2000;
  token = "clerks";
}

abbrev fleet : Fleet
fleet = record { service = λ n. shop; directory = ("c", ("n", 0) ∷ []) ∷ [] }

abbrev env : Surroundings
env = record { host = a_host; leader_of = λ n. some "n" }

not_granted :
    (is_granted shop.acl_rules ctx "orders" Types.delete
      || is_granted shop.acl_rules ctx "orders" admin)
    ≡ false
unfolding is_granted grants get table_permission
not_granted = refl

serve-forbidden_example :
    (require_context shop "clerks" ≡ ok ctx
      → serve env 0 "clerks" "orders" (deletes ("o1" ∷ [])) fleet
        ≡ (err (access (forbidden Types.delete "orders")), fleet))
    × ((e : NetabError)
        → require_context shop "clerks" ≡ err e
        → serve env 0 "clerks" "orders" (deletes ("o1" ∷ [])) fleet ≡ (err e, fleet))
serve-forbidden_example =
    serve-forbidden env 0 "clerks" "orders" (deletes ("o1" ∷ [])) fleet ctx not_granted

its_context : require_context shop "clerks" ≡ ok ctx
unfolding require_context
its_context = refl

bound : is_scoped shop "orders" ctx ≡ true
unfolding is_scoped is_truthy
bound = refl

abbrev rows : List NewRow
rows = record { id = undefined; value = obj (field "total" (num 3) end) } ∷ []

written-InSite_example :
    OnOk (All (λ (row : NewRow). InSite ctx row.value)) (new_rows shop "orders" ctx clerk rows)
    × OnOk
        (All (λ (row : Patch). InSite ctx row.patch))
        (patch_rows shop "orders" ctx clerk deep ("o1" ∷ []) (obj end ∷ []))
    × OnOk
        (All (λ (row : Replacement). InSite ctx row.value))
        (replacement_rows shop "orders" ctx clerk ("o1" ∷ []) (obj end ∷ []))
written-InSite_example =
    written-InSite shop "orders" ctx clerk bound rows deep ("o1" ∷ []) (obj end ∷ [])

abbrev order : String → String → StoredDoc
order id at = record {
  id = id;
  value = obj (field "siteId" (str at) end);
  deleted = false;
  updated_at_ms = 1;
  etag = "e";
}

abbrev orders : TableState
orders = record {
  info = record {
    table_id = 1;
    app = "app";
    db = "db";
    table_name = "orders";
    type = json;
    config = record {
      indexes = ("siteId", record { type = Steng.Types.str; multi = false }) ∷ [];
      time_field = none;
      retention_hours = none;
      id_prefix = none;
    };
  };
  blobs = [];
  ops = [];
  latest_seq = 0;
  watermark = none;
  docs = ("o1", order "o1" "s1") ∷ ("o2", order "o2" "s2") ∷ [];
}

-- What a scan for the caller's site returns.
abbrev own_orders : GetResult
own_orders = record {
  items =
      record {
        id = "o1";
        value = obj (field "siteId" (str "s1") end);
        meta = some (record { updated_at_ms = 1; etag = "e"; deleted = false });
        miss = none;
      }
      ∷ [];
  next_pos = 1;
  watermark = none;
}

scanned :
    get_table_objs a_host orders none (apply_site_scope shop "orders" ctx none) 0 none
    ≡ ok own_orders
unfolding get_table_objs get_by_filter apply_site_scope is_scoped is_truthy assert_filter_supported
    get scan sort_by matches_filter match_clause strict_eq actual_of get_field candidate get_prop
    spread set_prop found_row candidate_id text_of
scanned = refl

orders-IsStore : IsStore orders.docs
orders-IsStore =
    ((((λ same. (equals-false_iff "o2" "o1").0 refl same), tt), (tt, tt)), (refl, (refl, tt)))

orders-IsPlain : All IsPlain (values orders.docs)
orders-IsPlain = (
  (field "siteId" (str "s1") end, refl, (refl, tt), (tt, tt)),
  ((field "siteId" (str "s2") end, refl, (refl, tt), (tt, tt)), tt),
)

scanned-IsAt_example : All (IsAt ctx.site_id) own_orders.items
scanned-IsAt_example =
    scanned-IsAt a_host orders shop "orders" ctx none 0 none own_orders orders-IsStore
      orders-IsPlain bound scanned

abbrev given_access : AccessResult
given_access = record { token = "fresh"; site = site "s2" true }

given_lem : auth_anonymous (λ a b. true) shop "anon" 5 none none ≡ ok given_access
unfolding auth_anonymous resolve_anonymous_site
given_lem = refl

auth_anonymous_lem_example :
    IsOffered (λ a b. true) shop given_access.site
    × (shop.issue (site_claims shop "anon" ("customer" ∷ []) (5 + 8 * 60 * 60) given_access.site)
        ≡ ok given_access.token)
auth_anonymous_lem_example =
    auth_anonymous_lem (λ a b. true) shop "anon" 5 none none given_access given_lem
