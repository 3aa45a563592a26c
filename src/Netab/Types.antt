-- ===== src/Netab/Types.antt =====
-- src/netab/types.ts: the permissions and the rules that grant them, claims and contexts of callers,
-- sites, policies of tables, and results.
use netab.Common.{
  ℕ, String, Bool, true, List, Option, Dict, nat_eq, Equality, nat_beq, ◌≡◌, arith, ◌↔◌,
}
use netab.Json.{Value}
use netab.Steng.Types.{TableType, GetResult}

pub data Permission : Type 0 where
  read write delete query subscribe blob_add blob_delete admin : Permission

abbrev pub rank : Permission → ℕ
rank read = 0
rank write = 1
rank delete = 2
rank query = 3
rank subscribe = 4
rank blob_add = 5
rank blob_delete = 6
rank admin = 7

pub rank_iff : (a b : Permission) → (nat_beq (rank a) (rank b) ≡ true) ↔ (a ≡ b)
rank_iff a b = ground arith

-- `===` of two permissions.
instance abbrev pub permission_eq : Equality Permission
permission_eq = record { equals = λ a b. nat_beq (rank a) (rank b); equals_iff = rank_iff }

pub record TablePermission : Type 0 where
  pub allow : List Permission
  pub read_fields : Option (List String)
  pub write_fields : Option (List String)

pub record AclRule : Type 0 where
  pub group : String
  pub tables : Dict String TablePermission

-- The claims of a token; an optional one is `undefined` or whatever the token has there.
pub record JwtClaims : Type 0 where
  pub sub : String
  pub app : String
  pub db : String
  pub groups : List String
  pub site_id : Value
  pub location_id : Value
  pub brand_id : Value
  pub exp : ℕ

pub record NetabContext : Type 0 where
  pub sub : String
  pub app : String
  pub db : String
  pub groups : List String
  pub site_id : Value
  pub location_id : Value
  pub brand_id : Value
  pub exp : ℕ
  pub token : String

pub record SiteRecord : Type 0 where
  pub site_id : String
  pub location_id : String
  pub brand_id : String
  pub brand_name : String
  pub db : String
  pub hostname : Option String
  pub public : Bool
  pub location_proof : Option String

pub record PinRecord : Type 0 where
  pub pin : String
  pub sub : String
  pub groups : List String
  pub site_id : Option String
  pub location_id : Option String
  pub brand_id : Option String
  pub db : String

pub record TablePolicy : Type 0 where
  pub type : Option TableType
  pub write_primary_cluster_id : String
  pub read_fallback_clusters : List String

pub data Source : Type 0 where
  local fallback : Source

pub record NetabGetResult : Type 0 where
  pub result : GetResult
  pub source : Source

pub data ReadMode : Type 0 where
  local_only local_then_fallback fallback_only : ReadMode

pub record AccessResult : Type 0 where
  pub token : String
  pub site : SiteRecord
