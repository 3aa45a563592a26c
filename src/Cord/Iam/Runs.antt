-- ===== src/Cord/Iam/Runs.antt =====
-- Runs of the four managers of src/cord/iam.ts on one namespace: any sequence of calls, whether they
-- throw or not.
use netab.Common.{String, Bool, [], string_eq, arith, get}
use netab.Json.{Value}
use netab.Cord.Store.{Store}
use netab.Cord.Iam.{perm_key, command_key, grant_key}
use netab.Cord.Iam.Groups.{
  read_group, create_group, delete_group, add_member, remove_member, add_subgroup, remove_subgroup,
}
use netab.Cord.Iam.Groups.Hierarchy.{IsHierarchy, read_group_lem}
use netab.Cord.Iam.Groups.Deleted.{delete_group_lem}
use netab.Cord.Iam.Users.{
  define_permission, UserRecord, create_user, CredentialRecord, set_credential, ensure_guest,
  add_user_to_group, remove_user_from_group,
}
use netab.Cord.Iam.Commands.{CommandGrant, define_command, grant, revoke}
use netab.Cord.Iam.Keys.{
  store_set-IsHierarchy, store_del-IsHierarchy, command_key-IsApart, grant_key-IsApart,
  perm_key-IsApart,
}
use netab.Cord.Iam.Calls.{
  create_group-IsHierarchy, add_member-IsHierarchy, remove_member-IsHierarchy,
  remove_subgroup-IsHierarchy, add_subgroup-IsHierarchy, ensure_guest-IsHierarchy,
  create_user-IsHierarchy, set_credential-IsHierarchy,
}

module _ (locale_le : String → String → Bool) (ns : String) where
  -- One call, and the store after it.
  pub data Step (store : Store) : Store → Type 0 where
    creates_group :
        (group_id : String) (meta : Value) → Step store (create_group ns group_id meta store)
    deletes_group : (group_id : String) → Step store (delete_group locale_le ns group_id store)
    adds_member :
        (group_id item_ref : String) → Step store (add_member ns group_id item_ref store).1
    removes_member :
        (group_id item_ref : String) → Step store (remove_member ns group_id item_ref store).1
    adds_subgroup :
        (group_id child_group_id : String)
        → Step store (add_subgroup ns group_id child_group_id store).1
    removes_subgroup :
        (group_id child_group_id : String)
        → Step store (remove_subgroup ns group_id child_group_id store).1
    defines_permission :
        (perm_id : String) (definition : Value)
        → Step store (define_permission ns perm_id definition store)
    creates_user : (user : UserRecord) → Step store (create_user ns user store)
    sets_credential :
        (user_id : String) (cred : CredentialRecord)
        → Step store (set_credential ns user_id cred store)
    ensures_guest : Step store (ensure_guest ns store).1
    adds_user :
        (user_id group_id : String) → Step store (add_user_to_group ns user_id group_id store).1
    removes_user :
        (user_id group_id : String)
        → Step store (remove_user_from_group ns user_id group_id store).1
    defines_command :
        (command_id : String) (definition : Value)
        → Step store (define_command ns command_id definition store)
    grants :
        (subject command_id : String) (g : CommandGrant)
        → Step store (grant ns subject command_id g store)
    revokes : (subject command_id : String) → Step store (revoke ns subject command_id store)

  pub data Reached : Store → Type 0 where
    empty : Reached []
    next : {store after : Store} → Reached store → Step store after → Reached after

module _ (locale_le : String → String → Bool) (ns : String) where
  Step-IsHierarchy :
      {store after : Store}
      → Step locale_le ns store after
      → IsHierarchy ns store
      → IsHierarchy ns after
  unfolding add_user_to_group remove_user_from_group define_permission define_command grant revoke
  Step-IsHierarchy {store} (creates_group g meta) h = create_group-IsHierarchy ns g meta store h
  Step-IsHierarchy {store} (deletes_group g) h = (delete_group_lem locale_le ns g store h).0
  Step-IsHierarchy {store} (adds_member g item) h = add_member-IsHierarchy ns g item store h
  Step-IsHierarchy {store} (removes_member g item) h = remove_member-IsHierarchy ns g item store h
  Step-IsHierarchy {store} (adds_subgroup g c) h = add_subgroup-IsHierarchy ns g c store h
  Step-IsHierarchy {store} (removes_subgroup g c) h = remove_subgroup-IsHierarchy ns g c store h
  Step-IsHierarchy {store} (defines_permission p def) h =
      store_set-IsHierarchy ns (perm_key ns p) def store (perm_key-IsApart ns p) h
  Step-IsHierarchy {store} (creates_user user) h = create_user-IsHierarchy ns user store h
  Step-IsHierarchy {store} (sets_credential u cred) h = set_credential-IsHierarchy ns u cred store h
  Step-IsHierarchy {store} ensures_guest h = ensure_guest-IsHierarchy ns store h
  Step-IsHierarchy {store} (adds_user u g) h = add_member-IsHierarchy ns g u store h
  Step-IsHierarchy {store} (removes_user u g) h = remove_member-IsHierarchy ns g u store h
  Step-IsHierarchy {store} (defines_command c def) h =
      store_set-IsHierarchy ns (command_key ns c) def store (command_key-IsApart ns c) h
  Step-IsHierarchy {store} (grants u c g) h =
      store_set-IsHierarchy ns (grant_key ns u c) _ store (grant_key-IsApart ns u c) h
  Step-IsHierarchy {store} (revokes u c) h =
      store_del-IsHierarchy ns (grant_key ns u c) store (grant_key-IsApart ns u c) h

  empty-IsHierarchy : IsHierarchy ns []
  unfolding get read_group
  empty-IsHierarchy = record {
    is_map = tt;
    filled = λ g v found. absurd (cc);
    rank = λ g. 0;
    falls = λ g c (r, found, has). absurd (ground (arith, found, read_group_lem ns g []));
    closed = λ g c (r, found, has). absurd (ground (arith, found, read_group_lem ns g []));
  }

  -- After any calls of the four managers on one namespace, from an empty store, and whether they
  -- threw or not, the groups are a hierarchy: each subgroup is a group of the namespace, and no
  -- group is below itself.
  pub Reached-IsHierarchy : {store : Store} → Reached locale_le ns store → IsHierarchy ns store
  Reached-IsHierarchy empty = empty-IsHierarchy
  Reached-IsHierarchy (next r step) = Step-IsHierarchy step (Reached-IsHierarchy r)
