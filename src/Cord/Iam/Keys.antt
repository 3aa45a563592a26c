-- ===== src/Cord/Iam/Keys.antt =====
-- The keys of the records of one namespace: a write under another key leaves the groups alone.
use netab.Common.{
  String, false, get, set, delete, string_eq, ◌⋅◌, ◌≡◌, ◌≢◌, refl, sym, ap, ◌∙◌, arith, get-set,
  get-delete, set-IsMap, delete-IsMap, equals-false_iff, IsMap,
}
use text.Mathlib.TextLemmas.{append_assoc, append_cancel_left, append_inj}
use Prim.Native.String.{count}
use netab.Json.{Value}
use netab.Cord.Store.{Store, store_set, store_del}
use netab.Cord.Iam.{
  group_prefix, group_key, user_key, cred_key, perm_key, permission_prefix, command_key, grant_key,
}
use netab.Cord.Iam.Groups.{read_group}
use netab.Cord.Iam.Groups.Hierarchy.{IsHierarchy, read_group_lem, parsed}

-- A key of the namespace whose section begins with the four characters `p`.
abbrev within : String → String → String → String
within ns p x = "iam/" ⋅ ns ⋅ p ⋅ x

group_key_lem : (ns g : String) → group_key ns g ≡ within ns "/gro" ("ups/" ⋅ g)
unfolding group_key group_prefix
group_key_lem ns g =
    append_assoc "iam/" (ns ⋅ "/groups/") g
    ∙ ap (λ s. "iam/" ⋅ s)
        (append_assoc ns "/groups/" g ∙ ap (λ s. ns ⋅ s) (append_assoc "/gro" "ups/" g))

within-ne-group_key :
    (ns p x g : String)
    → count p ≡ count "/gro"
    → string_eq.equals p "/gro" ≡ false
    → within ns p x ≢ group_key ns g
within-ne-group_key ns p x g len differ e =
    (equals-false_iff p "/gro").0 differ
      (append_inj
        (append_cancel_left ns _ _ (append_cancel_left "iam/" _ _ (e ∙ group_key_lem ns g))) len).0

-- A key under which no group of the namespace is kept.
abbrev pub IsApart : String → String → Type 0
IsApart ns key = (g : String) → key ≢ group_key ns g

pub user_key-IsApart : (ns user_id : String) → IsApart ns (user_key ns user_id)
unfolding user_key
user_key-IsApart ns user_id g e =
    within-ne-group_key ns "/use" ("rs/" ⋅ user_id) g refl refl
      (ap (λ s. "iam/" ⋅ ns ⋅ s) (sym (append_assoc "/use" "rs/" user_id)) ∙ e)

pub cred_key-IsApart : (ns user_id : String) → IsApart ns (cred_key ns user_id)
unfolding cred_key
cred_key-IsApart ns user_id g e =
    within-ne-group_key ns "/cre" ("ds/" ⋅ user_id) g refl refl
      (ap (λ s. "iam/" ⋅ ns ⋅ s) (sym (append_assoc "/cre" "ds/" user_id)) ∙ e)

pub command_key-IsApart : (ns command_id : String) → IsApart ns (command_key ns command_id)
unfolding command_key
command_key-IsApart ns command_id g e =
    within-ne-group_key ns "/com" ("mands/" ⋅ command_id) g refl refl
      (ap (λ s. "iam/" ⋅ ns ⋅ s) (sym (append_assoc "/com" "mands/" command_id)) ∙ e)

pub grant_key-IsApart :
    (ns subject command_id : String) → IsApart ns (grant_key ns subject command_id)
unfolding grant_key
grant_key-IsApart ns subject command_id g e =
    within-ne-group_key ns "/gra" ("nts/" ⋅ subject ⋅ "/" ⋅ command_id) g refl refl (
      ap (λ s. "iam/" ⋅ ns ⋅ s) (sym (append_assoc "/gra" "nts/" (subject ⋅ "/" ⋅ command_id))) ∙ e)

pub perm_key-IsApart : (ns perm_id : String) → IsApart ns (perm_key ns perm_id)
unfolding perm_key permission_prefix
perm_key-IsApart ns perm_id g e =
    within-ne-group_key ns "/per" ("missions/" ⋅ perm_id) g refl refl (
      sym (
        append_assoc "iam/" (ns ⋅ "/permissions/") perm_id
        ∙ ap (λ s. "iam/" ⋅ s)
            (append_assoc ns "/permissions/" perm_id
              ∙ ap (λ s. ns ⋅ s) (append_assoc "/per" "missions/" perm_id)))
      ∙ e)

-- Two stores with the same groups, both with each key once.
module _ (ns : String) (store after : Store) where
  abbrev HaveSameGroups : Type 0
  HaveSameGroups = (g : String) → get (group_key ns g) after ≡ get (group_key ns g) store

  same-IsHierarchy : HaveSameGroups → IsMap after → IsHierarchy ns store → IsHierarchy ns after
  same-IsHierarchy same is_map h = record {
    is_map = is_map;
    filled = λ g v found. h.filled g v (sym (same g) ∙ found);
    rank = h.rank;
    falls = λ g c (r, found, has). h.falls g c (r, sym (agree g) ∙ found, has);
    closed = λ g c (r, found, has).
        let (r', found') = h.closed g c (r, sym (agree g) ∙ found, has) in (r', agree c ∙ found');
  }
    where
      agree : (g : String) → read_group ns g after ≡ read_group ns g store
      agree g = read_group_lem ns g after ∙ ap (parsed g) (same g) ∙ sym (read_group_lem ns g store)

pub store_set-IsHierarchy :
    (ns key : String) (value : Value) (store : Store)
    → IsApart ns key
    → IsHierarchy ns store
    → IsHierarchy ns (store_set key value store)
unfolding store_set
store_set-IsHierarchy ns key value store apart h =
    same-IsHierarchy ns store (set key value store)
      (λ g. ground (
        arith,
        get-set key (group_key ns g) value store,
        string_eq.equals_iff key (group_key ns g),
        apart g,
      ))
      (set-IsMap key value store h.is_map) h

pub store_del-IsHierarchy :
    (ns key : String) (store : Store)
    → IsApart ns key
    → IsHierarchy ns store
    → IsHierarchy ns (store_del key store)
unfolding store_del
store_del-IsHierarchy ns key store apart h =
    same-IsHierarchy ns store (delete key store)
      (λ g. ground (
        arith,
        get-delete key (group_key ns g) store,
        string_eq.equals_iff key (group_key ns g),
        apart g,
      ))
      (delete-IsMap key store h.is_map) h
