-- ===== src/Netab/Sites.antt =====
-- The methods of src/netab/netab_service.ts that give out tokens and look up sites. `token_id` is what
-- `randomId` returns, and `now_s` the time in seconds, rounded down. Names of brands are compared with
-- their ASCII letters in lower case.
pub mod Given
use netab.Common.{
  ℕ, ◌+◌, ◌*◌, String, Bool, true, false, not, ◌&&◌, ◌||◌, List, [], ◌∷◌, Option, none, some, get,
  values, includes, keep, sort_by, string_eq, ◌==◌, if◌then◌else◌, Result, ok, err,
}
use netab.Json.{Value, undefined, str, is_truthy}
use netab.Steng.IdGeneration.{to_lower}
use netab.Netab.Types.{JwtClaims, NetabContext, SiteRecord, PinRecord, AccessResult}
use netab.Netab.Service.{
  Service, NetabError, unknown_site, not_public, ambiguous_brand, no_hint, invalid_pin,
  unknown_code, unknown_location, proof_required, admin_required, require_context,
}

abbrev pub or_err : {A : Type 0} → NetabError → Option A → Result NetabError A
or_err e none = err e
or_err e (some a) = ok a

-- `array.find(test)`.
abbrev pub find : {A : Type 0} → (A → Bool) → List A → Option A
find test [] = none
find test (x ∷ xs) = let rest = find test xs in if test x then some x else rest

unfoldable pub require_site : Service → String → Result NetabError SiteRecord
require_site service site_id = or_err (unknown_site site_id) (get site_id service.sites)

unfoldable pub find_sites_by_brand : (String → String → Bool) → Service → String → List SiteRecord
find_sites_by_brand locale_le service brand_name =
    sort_by (λ (left right : SiteRecord). locale_le left.location_id right.location_id)
      (keep (λ (site : SiteRecord). to_lower site.brand_name == to_lower brand_name)
        (values service.sites))

abbrev pub only_one : NetabError → List SiteRecord → Result NetabError SiteRecord
only_one e (site ∷ []) = ok site
only_one e _ = err e

abbrev pub if_public : Result NetabError SiteRecord → Result NetabError SiteRecord
if_public (err e) = err e
if_public (ok site) = if not site.public then err not_public else ok site

-- The arguments; an empty text counts as none.
abbrev pub given : Option String → Option String
given none = none
given (some s) = if s == "" then none else some s

unfoldable pub resolve_anonymous_site :
    (String → String → Bool)
    → Service
    → Option String
    → Option String
    → Result NetabError SiteRecord
resolve_anonymous_site locale_le service brand site_id = elim (given site_id) [
  | some id ↦ if_public (require_site service id)
  | none ↦ elim (given brand) [
    | some name ↦
        only_one ambiguous_brand
          (keep (λ (site : SiteRecord). site.public) (find_sites_by_brand locale_le service name))
    | none ↦ only_one no_hint (keep (λ (site : SiteRecord). site.public) (values service.sites))
  ]
]

-- A token that is bound to a site.
abbrev pub site_claims : Service → String → List String → ℕ → SiteRecord → JwtClaims
site_claims service sub groups exp site = record {
  sub = sub;
  app = service.app;
  db = site.db;
  groups = groups;
  site_id = str site.site_id;
  location_id = str site.location_id;
  brand_id = str site.brand_id;
  exp = exp;
}

abbrev pub with_token : SiteRecord → Result NetabError String → Result NetabError AccessResult
with_token site (err e) = err e
with_token site (ok token) = ok (record { token = token; site = site })

abbrev pub grant_site :
    Service
    → String
    → List String
    → ℕ
    → Result NetabError SiteRecord
    → Result NetabError AccessResult
grant_site service sub groups exp (err e) = err e
grant_site service sub groups exp (ok site) =
    with_token site (service.issue (site_claims service sub groups exp site))

unfoldable pub auth_anonymous :
    (String → String → Bool)
    → Service
    → String
    → ℕ
    → Option String
    → Option String
    → Result NetabError AccessResult
auth_anonymous locale_le service token_id now_s brand site_id =
    grant_site service token_id ("customer" ∷ []) (now_s + 8 * 60 * 60)
      (resolve_anonymous_site locale_le service brand site_id)

-- `record.siteId ? this.sites.get(record.siteId) ?? null : null`.
abbrev pub site_of : Service → Option String → Option SiteRecord
site_of service site_id = elim (given site_id) [ none ↦ none | some id ↦ get id service.sites ]

abbrev pub own_or : Option String → Option String → Value
own_or (some s) other = str s
own_or none (some s) = str s
own_or none none = undefined

abbrev pub location_of : Option SiteRecord → Option String
location_of none = none
location_of (some site) = some site.location_id

abbrev pub brand_of : Option SiteRecord → Option String
brand_of none = none
brand_of (some site) = some site.brand_id

abbrev pub pin_claims : Service → ℕ → PinRecord → JwtClaims
pin_claims service now_s pin = record {
  sub = pin.sub;
  app = service.app;
  db = pin.db;
  groups = pin.groups;
  site_id = own_or pin.site_id none;
  location_id = own_or pin.location_id (location_of (site_of service pin.site_id));
  brand_id = own_or pin.brand_id (brand_of (site_of service pin.site_id));
  exp = now_s + 30 * 24 * 60 * 60;
}

abbrev pub login_with :
    Service → ℕ → Option PinRecord → Result NetabError (String × Option SiteRecord)
login_with service now_s none = err invalid_pin
login_with service now_s (some pin) = elim (service.issue (pin_claims service now_s pin)) [
  | err e ↦ err e
  | ok token ↦ ok (token, site_of service pin.site_id)
]

unfoldable pub auth_login_pin :
    Service → ℕ → String → Result NetabError (String × Option SiteRecord)
auth_login_pin service now_s pin =
    login_with service now_s (find (λ (candidate : PinRecord). candidate.pin == pin) service.pins)

abbrev pub site_of_code : Service → Option String → Result NetabError SiteRecord
site_of_code service site_id = elim (given site_id) [
  | none ↦ err unknown_code
  | some id ↦ require_site service id
]

unfoldable pub access_redeem_join_code :
    Service → String → ℕ → String → Result NetabError AccessResult
access_redeem_join_code service token_id now_s join_code =
    grant_site service token_id ("staff" ∷ []) (now_s + 24 * 60 * 60)
      (site_of_code service (get join_code service.join_codes))

-- `site.locationProof && site.locationProof !== proof`.
abbrev pub is_disproved : Option String → Option String → Bool
is_disproved none proof = false
is_disproved (some wanted) none = not (wanted == "")
is_disproved (some wanted) (some proof) = not (wanted == "") && not (wanted == proof)

abbrev pub if_proved : Option String → Option SiteRecord → Result NetabError SiteRecord
if_proved proof none = err unknown_location
if_proved proof (some site) =
    if is_disproved site.location_proof proof then err proof_required else ok site

unfoldable pub access_request_location_access :
    Service → String → ℕ → String → Option String → Result NetabError AccessResult
access_request_location_access service token_id now_s location_id proof =
    grant_site service token_id ("staff" ∷ []) (now_s + 24 * 60 * 60) (
      if_proved proof
        (find (λ (site : SiteRecord). site.location_id == location_id) (values service.sites)))

abbrev if_admin : Result NetabError NetabContext → Result NetabError NetabContext
if_admin (err e) = err e
if_admin (ok ctx) =
    if not (includes ctx.groups "admin") && not (includes ctx.groups "installer")
    then err admin_required
    else ok ctx

unfoldable pub require_admin : Service → String → Result NetabError NetabContext
require_admin service token = if_admin (require_context service token)

-- `access_list_sites_for_brand` is the same.
unfoldable pub access_lookup_brand :
    (String → String → Bool) → Service → String → String → Result NetabError (List SiteRecord)
access_lookup_brand locale_le service token brand_name = elim (require_admin service token) [
  | err e ↦ err e
  | ok ctx ↦ ok (find_sites_by_brand locale_le service brand_name)
]

unfoldable pub access_resolve_domain : Service → String → Option SiteRecord
access_resolve_domain service hostname =
    find (λ (site : SiteRecord). has_hostname site.hostname) (values service.sites)
  where
    has_hostname : Option String → Bool
    has_hostname none = false
    has_hostname (some name) = name == hostname

-- A claim that is no text is no key of the map.
abbrev pub site_of_claim : Service → Value → Option SiteRecord
site_of_claim service (str id) = site_of service (some id)
site_of_claim service _ = none

unfoldable pub access_resolve_token_site : Service → String → Result NetabError (Option SiteRecord)
access_resolve_token_site service token = elim (require_context service token) [
  | err e ↦ err e
  | ok ctx ↦ ok (site_of_claim service ctx.site_id)
]
