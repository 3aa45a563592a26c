-- ===== src/Netab/Requests.antt =====
-- The requests of a caller to a service, and what happens to one that is not permitted.
use netab.Common.{
  ℕ, String, false, ◌||◌, List, ok, err, ◌>>=◌, done, ◌≡◌, arith, ◌∙◌, Option-cases, inl, inr,
}
use netab.Json.{Value}
use netab.Steng.Types.{Filter}
use netab.Steng.Engine.Methods.{NewRow, Merge}
use netab.Netab.Types
use netab.Netab.Types.{
  Permission, write, subscribe, admin, TablePermission, NetabContext, ReadMode, permission_eq,
  AclRule,
}
use netab.Netab.Rbac.{forbidden, assert_permission, resolve_permission}
use netab.Netab.Rbac.Grants.{is_granted, is_ok, assert_permission_granted}
use netab.Netab.Service.{
  Fleet, Surroundings, NetabError, Call, require_context, admit, permission_for,
}
use netab.Netab.Reads.{Selection, action_of, get_objs, read_local, subscribe_objs}
use netab.Netab.Writes.{add_objs, add_obj, update_objs, replace_objs, delete_objs}

pub data Request : Type 0 where
  reads : Selection → ReadMode → Request
  adds : List NewRow → Request
  adds_one : Value → Request
  updates : List String → List Value → Merge → Request
  replaces : List String → List Value → Request
  deletes : List String → Request
  subscribes : Filter → Request

abbrev pub action : Request → Permission
action (reads selection mode) = action_of selection
action (adds rows) = write
action (adds_one value) = write
action (updates ids patches merge) = write
action (replaces ids values) = write
action (deletes ids) = Types.delete
action (subscribes filter) = subscribe

abbrev pub discard : {A : Type 0} → Call A → Call (Unit {0})
discard m = m >>= λ _. done tt

unfoldable pub serve : Surroundings → ℕ → String → String → Request → Call (Unit {0})
serve env self token table_name (reads selection mode) =
    discard (get_objs env self token table_name selection mode)
serve env self token table_name (adds rows) = discard (add_objs env self token table_name rows)
serve env self token table_name (adds_one value) = discard (add_obj env self token table_name value)
serve env self token table_name (updates ids patches merge) =
    update_objs env self token table_name ids patches merge
serve env self token table_name (replaces ids values) =
    replace_objs env self token table_name ids values
serve env self token table_name (deletes ids) = delete_objs env self token table_name ids
serve env self token table_name (subscribes filter) =
    discard (subscribe_objs self token table_name filter)

-- A request that is not admitted.
serve-refused :
    (env : Surroundings) (self : ℕ) (token table_name : String) (request : Request) (fleet : Fleet)
    (e : NetabError)
    → admit (fleet.service self) token table_name (action request) ≡ err e
    → serve env self token table_name request fleet ≡ (err e, fleet)
unfolding serve get_objs read_local add_objs add_obj update_objs replace_objs delete_objs
    subscribe_objs
serve-refused env self token table_name (reads selection mode) fleet e h = rw h
serve-refused env self token table_name (adds rows) fleet e h = rw h
serve-refused env self token table_name (adds_one value) fleet e h = rw h
serve-refused env self token table_name (updates ids patches merge) fleet e h = rw h
serve-refused env self token table_name (replaces ids values) fleet e h = rw h
serve-refused env self token table_name (deletes ids) fleet e h = rw h
serve-refused env self token table_name (subscribes filter) fleet e h = rw h

assert_permission-refused :
    (rules : List AclRule) (ctx : NetabContext) (table_name : String) (a : Permission)
    → is_ok (assert_permission rules ctx table_name a) ≡ false
    → assert_permission rules ctx table_name a ≡ err (forbidden a table_name)
unfolding assert_permission
assert_permission-refused rules ctx table_name a h =
    elim (Option-cases (resolve_permission rules ctx table_name)) [
      | inl missing ↦ ground (arith, missing)
      | inr (p, found) ↦ ground (arith, found, h)
    ]

-- A request under a token of the service that no rule of one of the caller's groups permits fails,
-- whatever it asks for, and changes nothing on any service; so does one under a token that is not
-- good, with the error that the token has.
pub serve-forbidden :
    (env : Surroundings) (self : ℕ) (token table_name : String) (request : Request) (fleet : Fleet)
    (ctx : NetabContext)
    → (is_granted (fleet.service self).acl_rules ctx table_name (action request)
        || is_granted (fleet.service self).acl_rules ctx table_name admin)
      ≡ false
    → (require_context (fleet.service self) token ≡ ok ctx
        → serve env self token table_name request fleet
          ≡ (err (NetabError.access (forbidden (action request) table_name)), fleet))
      × ((e : NetabError)
          → require_context (fleet.service self) token ≡ err e
          → serve env self token table_name request fleet ≡ (err e, fleet))
unfolding admit
serve-forbidden env self token table_name request fleet ctx denied = (
  λ good. serve-refused env self token table_name request fleet _ (
      rw (good, admit)
        (rw (
          assert_permission-refused (fleet.service self).acl_rules ctx table_name (action request) (
              assert_permission_granted (fleet.service self).acl_rules ctx table_name
                (action request)
              ∙ denied),
          permission_for,
        ))),
  λ e bad. serve-refused env self token table_name request fleet e (rw (bad, admit)),
)
