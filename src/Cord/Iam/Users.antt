-- ===== src/Cord/Iam/Users.antt =====
-- `CordPermissionCatalog` and `CordUserManager` of src/cord/iam.ts. The hash of a text is a
-- parameter. The definition of a permission is kept as the value that it is.
use netab.Common.{
  String, Bool, true, false, not, List, map, string_eq, if◌then◌else◌, sort_by, slice_after, ◌⋅◌,
  Exec, ◌>>◌, done,
}
use netab.Json.{
  Value, undefined, bool, str, obj, end, field, fields_of, get_prop, strict_eq, spread, is_truthy,
  text_of,
}
use netab.Cord.Store.{Store, store_get, store_set, store_list}
use netab.Cord.Iam.{IamError, user_key, cred_key, permission_prefix, perm_key}
use netab.Cord.Iam.Groups.{create_group, add_member, remove_member}

unfoldable pub define_permission : String → String → Value → Store → Store
define_permission ns perm_id definition store = store_set (perm_key ns perm_id) definition store

unfoldable pub get_permission : String → String → Store → Value
get_permission ns perm_id store = store_get (perm_key ns perm_id) store

-- `{ permId, ...definition }`.
abbrev pub listed_permission : String → String × Value → Value
listed_permission ns entry =
    obj (spread entry.1 (field "permId" (str (slice_after (permission_prefix ns) entry.0)) end))

unfoldable pub list_permissions : (String → String → Bool) → String → String → Store → List Value
list_permissions locale_le ns prefix store =
    sort_by
      (λ left right.
        locale_le (text_of (get_prop "permId" (fields_of left)))
          (text_of (get_prop "permId" (fields_of right))))
      (map (listed_permission ns) (store_list locale_le (permission_prefix ns ⋅ prefix) store))

pub record UserRecord : Type 0 where
  pub user_id : String
  pub display_name : Value
  pub props : Value

pub data CredentialType : Type 0 where
  pin : CredentialType
  password : CredentialType
  none_needed : CredentialType

pub record CredentialRecord : Type 0 where
  pub type : CredentialType
  pub secret_hash : Value

abbrev pub type_text : CredentialType → String
type_text pin = "pin"
type_text password = "password"
type_text none_needed = "none"

-- The objects that these records are.
unfoldable pub user_value : UserRecord → Value
user_value user = obj (
    field "userId" (str user.user_id)
      (field "displayName" user.display_name (field "props" user.props end)))

unfoldable pub credential_value : CredentialType → Value → Value
credential_value none_needed hash = obj (field "type" (str "none") end)
credential_value type hash = obj (field "type" (str (type_text type)) (field "secretHash" hash end))

unfoldable pub create_user : String → UserRecord → Store → Store
create_user ns user store = store_set (user_key ns user.user_id) (user_value user) store

unfoldable pub get_user : String → String → Store → Value
get_user ns user_id store = store_get (user_key ns user_id) store

unfoldable pub set_credential : String → String → CredentialRecord → Store → Store
set_credential ns user_id cred store =
    store_set (cred_key ns user_id) (credential_value cred.type cred.secret_hash) store

-- The test of a proof against a stored secret.
abbrev pub is_secret : (String → String) → Value → Value → Bool
is_secret sha256_hex hash (str proof) = strict_eq hash (str (sha256_hex proof))
is_secret sha256_hex hash _ = false

unfoldable pub verify_credential : (String → String) → String → String → Value → Store → Bool
verify_credential sha256_hex ns user_id proof store =
    let cred = store_get (cred_key ns user_id) store in
    if not (is_truthy cred)
    then false
    else if strict_eq (get_prop "type" (fields_of cred)) (str "none")
    then true
    else is_secret sha256_hex (get_prop "secretHash" (fields_of cred)) proof

unfoldable pub add_user_to_group : String → String → String → Exec IamError Store (Unit {0})
add_user_to_group ns user_id group_id = add_member ns group_id user_id

unfoldable pub remove_user_from_group : String → String → String → Exec IamError Store (Unit {0})
remove_user_from_group ns user_id group_id = remove_member ns group_id user_id

abbrev pub guest_user : UserRecord
guest_user = record { user_id = "user:guest"; display_name = str "Guest"; props = undefined }

abbrev pub no_credential : CredentialRecord
no_credential = record { type = none_needed; secret_hash = undefined }

abbrev pub with_guest : String → Store → Store
with_guest ns store =
    if not (is_truthy (get_user ns "user:guest" store))
    then set_credential ns "user:guest" no_credential (create_user ns guest_user store)
    else store

-- `createGroup` throws nothing here, so that nothing is caught.
unfoldable pub ensure_guest : String → Exec IamError Store String
ensure_guest ns store =
    (add_member ns "guest" "user:guest" >> done "user:guest")
      (create_group ns "guest" (obj (field "system" (bool true) end)) (with_guest ns store))
