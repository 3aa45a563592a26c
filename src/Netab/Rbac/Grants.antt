-- ===== src/Netab/Rbac/Grants.antt =====
-- `assertPermission` against the rules that grant an action.
use netab.Common.{
  String, Bool, true, false, ◌&&◌, ◌||◌, List, [], ◌∷◌, ◌++◌, Option, none, some, keep, includes,
  any, ◌≡◌, refl, sym, ap, ◌∙◌, arith, Result, ok, err, Option-cases, inl, inr, string_eq,
  includes-append, includes-unique,
}
use netab.Netab.Types.{Permission, admin, permission_eq, TablePermission, AclRule, NetabContext}
use netab.Netab.Rbac.{
  table_permission, add_rule, resolve_all, if_allowed, matching, nothing_yet, resolve_permission,
  Forbidden, assert_permission,
}

-- Whether a rule grants an action on a table.
unfoldable pub grants : String → Permission → AclRule → Bool
grants table_name action rule = elim (table_permission rule table_name) [
  | none ↦ false
  | some permission ↦ includes permission.allow action
]

-- Whether a rule of one of the caller's groups grants it.
unfoldable pub is_granted : List AclRule → NetabContext → String → Permission → Bool
is_granted rules ctx table_name action =
    any (λ rule. includes ctx.groups rule.group && grants table_name action rule) rules

includes-add_rule :
    (rule : AclRule) (table_name : String) (resolved : TablePermission) (a : Permission)
    → includes (add_rule (table_permission rule table_name) resolved).allow a
      ≡ (includes resolved.allow a || grants table_name a rule)
unfolding add_rule grants
includes-add_rule rule table_name resolved a =
    elim (Option-cases (table_permission rule table_name)) [
      | inl missing ↦ ground (arith, missing)
      | inr (p, found) ↦ ground (
        arith,
        found,
        includes-unique (resolved.allow ++ p.allow) a,
        includes-append resolved.allow p.allow a,
      )
    ]

includes-resolve_all :
    (rules : List AclRule) (table_name : String) (resolved : TablePermission) (a : Permission)
    → includes (resolve_all rules table_name resolved).allow a
      ≡ (includes resolved.allow a || any (grants table_name a) rules)
unfolding resolve_all
includes-resolve_all [] table_name resolved a = ground arith
includes-resolve_all (rule ∷ rules) table_name resolved a = ground (
  arith,
  includes-resolve_all rules table_name (add_rule (table_permission rule table_name) resolved) a,
  includes-add_rule rule table_name resolved a,
)

any-keep :
    (p q : AclRule → Bool) (rules : List AclRule)
    → any q (keep p rules) ≡ any (λ rule. p rule && q rule) rules
any-keep p q [] = refl
any-keep p q (rule ∷ rules) = ground (arith, any-keep p q rules)

-- What the caller may do: nothing without a permission, else what that allows.
abbrev pub allows : Option TablePermission → Permission → Bool
allows none a = false
allows (some permission) a = includes permission.allow a

allows-if_allowed :
    (resolved : TablePermission) (xs : List Permission) (a : Permission)
    → xs ≡ resolved.allow
    → allows (if_allowed resolved xs) a ≡ includes xs a
allows-if_allowed resolved [] a h = refl
allows-if_allowed resolved (x ∷ xs) a h = ap (λ ys. includes ys a) (sym h)

resolve_permission-allows :
    (rules : List AclRule) (ctx : NetabContext) (table_name : String) (a : Permission)
    → allows (resolve_permission rules ctx table_name) a ≡ is_granted rules ctx table_name a
unfolding resolve_permission is_granted matching
resolve_permission-allows rules ctx table_name a =
    allows_of (matching rules ctx)
    ∙ any-keep (λ rule. includes ctx.groups rule.group) (grants table_name a) rules
  where
    allows_of :
        (rules : List AclRule)
        → allows
            (elim rules [
              | [] ↦ none
              | rule ∷ more ↦
                  if_allowed
                    (resolve_all (rule ∷ more) table_name nothing_yet)
                    (resolve_all (rule ∷ more) table_name nothing_yet).allow
            ])
            a
          ≡ any (grants table_name a) rules
    allows_of [] = refl
    allows_of (rule ∷ more) =
        allows-if_allowed (resolve_all (rule ∷ more) table_name nothing_yet) _ a refl
        ∙ includes-resolve_all (rule ∷ more) table_name nothing_yet a

abbrev pub is_ok : {A : Type 0} → Result Forbidden A → Bool
is_ok (ok a) = true
is_ok (err e) = false

-- A caller may act on a table exactly if some rule of one of the caller's groups grants that action
-- there or grants `admin`; a rule's entry for the table stands before its entry for `*`.
pub assert_permission_granted :
    (rules : List AclRule) (ctx : NetabContext) (table_name : String) (action : Permission)
    → is_ok (assert_permission rules ctx table_name action)
      ≡ (is_granted rules ctx table_name action || is_granted rules ctx table_name admin)
unfolding assert_permission
assert_permission_granted rules ctx table_name action = ground (
  arith,
  resolve_permission-allows rules ctx table_name action,
  resolve_permission-allows rules ctx table_name admin,
)
