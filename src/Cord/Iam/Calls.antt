-- ===== src/Cord/Iam/Calls.antt =====
-- Every call of the managers of groups and of users keeps a hierarchy of groups.
use netab.Common.{
  String, true, false, not, [], ◌∷◌, ◌++◌, Option, none, some, includes, string_eq, ◌≡◌, inl, inr,
  refl, sym, ap, ◌∙◌, subst, arith, Bool-cases, Option-cases, includes-keep_ne, Exec, ◌>>=◌,
  Keeps-bind, done, if◌then◌else◌, sort_by, string_le,
}
use netab.Json.{Value, is_truthy}
use netab.Cord.Store.{Store}
use netab.Cord.Iam.{IamError, user_key, cred_key}
use netab.Cord.Iam.Groups.{
  GroupRecord, read_group, write_group, create_group, created, add_member, remove_member,
  add_subgroup, remove_subgroup, require_group, without,
}
use netab.Cord.Iam.Groups.Hierarchy.{Child, IsHierarchy, shrink-IsHierarchy, read_group-id}
use netab.Cord.Iam.Groups.Linking.{add_subgroup_lem}
use netab.Cord.Iam.Users.{
  UserRecord, create_user, CredentialRecord, set_credential, ensure_guest, with_guest, get_user,
  guest_user, no_credential,
}
use netab.Cord.Iam.Keys.{store_set-IsHierarchy, user_key-IsApart, cred_key-IsApart}

module _ (ns : String) where
  pub create_group-IsHierarchy :
      (group_id : String) (meta : Value) (store : Store)
      → IsHierarchy ns store
      → IsHierarchy ns (create_group ns group_id meta store)
  unfolding create_group
  create_group-IsHierarchy group_id meta store h = go (read_group ns group_id store) refl
    where
      go :
          (o : Option GroupRecord)
          → read_group ns group_id store ≡ o
          → IsHierarchy ns
              (write_group ns (created group_id meta (read_group ns group_id store)) store)
      go none e =
          subst (λ q. IsHierarchy ns (write_group ns (created group_id meta q) store)) (sym e)
            (shrink-IsHierarchy ns (created group_id meta none) store (λ c k. absurd (cc)) h)
      go (some r) e =
          subst (λ q. IsHierarchy ns (write_group ns (created group_id meta q) store)) (sym e)
            (shrink-IsHierarchy ns (created group_id meta (some r)) store (λ c k. (r, e, k)) h)

  require_group-IsHierarchy :
      (g : String) (f : GroupRecord → Exec IamError Store (Unit {0})) (store : Store)
      → ((r : GroupRecord) → read_group ns g store ≡ some r → IsHierarchy ns (f r store).1)
      → IsHierarchy ns store
      → IsHierarchy ns ((require_group ns g >>= f) store).1
  unfolding require_group
  require_group-IsHierarchy g f store k h = go (read_group ns g store) refl
    where
      go :
          (o : Option GroupRecord)
          → read_group ns g store ≡ o
          → IsHierarchy ns ((require_group ns g >>= f) store).1
      go none e = subst (IsHierarchy ns) (ground (arith, e)) h
      go (some r) e = subst (IsHierarchy ns) (ground (arith, e)) (k r e)

  -- A record with another list of members, or with fewer subgroups, is written.
  save-IsHierarchy :
      (g : String) (r new : GroupRecord) (store : Store)
      → read_group ns g store ≡ some r
      → new.group_id ≡ r.group_id
      → ((c : String) → includes new.subgroups c ≡ true → includes r.subgroups c ≡ true)
      → IsHierarchy ns store
      → IsHierarchy ns (write_group ns new store)
  save-IsHierarchy g r new store found own fewer h =
      shrink-IsHierarchy ns new store
        (λ c k.
          subst (λ i. Child ns store i c) (sym (own ∙ read_group-id ns g store r found))
            (r, found, fewer c k))
        h

  pub add_member-IsHierarchy :
      (g item : String) (store : Store)
      → IsHierarchy ns store
      → IsHierarchy ns (add_member ns g item store).1
  unfolding add_member
  add_member-IsHierarchy g item store h =
      require_group-IsHierarchy g _ store
        (λ r found. elim (Bool-cases (includes r.members item)) [
          | inl there ↦ subst (IsHierarchy ns) (ground (arith, there)) h
          | inr new ↦ subst (IsHierarchy ns) (ground (arith, new)) (
              save-IsHierarchy g r
                (record r { members = sort_by string_le (r.members ++ item ∷ []) }) store found refl
                (λ c k. k) h)
        ])
        h

  pub remove_member-IsHierarchy :
      (g item : String) (store : Store)
      → IsHierarchy ns store
      → IsHierarchy ns (remove_member ns g item store).1
  unfolding remove_member
  remove_member-IsHierarchy g item store h =
      require_group-IsHierarchy g _ store
        (λ r found.
          save-IsHierarchy g r (record r { members = without item r.members }) store found refl
            (λ c k. k) h)
        h

  pub remove_subgroup-IsHierarchy :
      (g c : String) (store : Store)
      → IsHierarchy ns store
      → IsHierarchy ns (remove_subgroup ns g c store).1
  unfolding remove_subgroup
  remove_subgroup-IsHierarchy g c store h =
      require_group-IsHierarchy g _ store
        (λ r found.
          save-IsHierarchy g r (record r { subgroups = without c r.subgroups }) store found refl
            (λ x k. ground (arith, k, includes-keep_ne c r.subgroups x)) h)
        h

  pub add_subgroup-IsHierarchy :
      (g c : String) (store : Store)
      → IsHierarchy ns store
      → IsHierarchy ns (add_subgroup ns g c store).1
  unfolding add_subgroup require_group
  add_subgroup-IsHierarchy g c store h = elim (Option-cases (read_group ns g store)) [
    | inl e ↦ subst (IsHierarchy ns) (ground (arith, e)) h
    | inr (r, e) ↦ elim (Option-cases (read_group ns c store)) [
      | inl e' ↦ subst (IsHierarchy ns) (ground (arith, e, e')) h
      | inr (r', e') ↦ elim (add_subgroup_lem ns store g c h (r, e) (r', e')) [
        | inl (_, same) ↦ subst (IsHierarchy ns) (sym (ap (λ p. p.1) same)) h
        | inr (_, _, linked) ↦ linked.1
      ]
    ]
  ]

  pub create_user-IsHierarchy :
      (user : UserRecord) (store : Store)
      → IsHierarchy ns store
      → IsHierarchy ns (create_user ns user store)
  unfolding create_user
  create_user-IsHierarchy user store =
      store_set-IsHierarchy ns (user_key ns user.user_id) _ store (user_key-IsApart ns user.user_id)

  pub set_credential-IsHierarchy :
      (user_id : String) (cred : CredentialRecord) (store : Store)
      → IsHierarchy ns store
      → IsHierarchy ns (set_credential ns user_id cred store)
  unfolding set_credential
  set_credential-IsHierarchy user_id cred store =
      store_set-IsHierarchy ns (cred_key ns user_id) _ store (cred_key-IsApart ns user_id)

  with_guest-IsHierarchy :
      (store : Store) → IsHierarchy ns store → IsHierarchy ns (with_guest ns store)
  with_guest-IsHierarchy store h =
      elim (not (is_truthy (get_user ns "user:guest" store)))
        as (λ b. IsHierarchy ns (
          if b
          then set_credential ns "user:guest" no_credential (create_user ns guest_user store)
          else store)) [
            | true ↦
                set_credential-IsHierarchy "user:guest" no_credential
                  (create_user ns guest_user store) (create_user-IsHierarchy guest_user store h)
            | false ↦ h
          ]

  pub ensure_guest-IsHierarchy :
      (store : Store) → IsHierarchy ns store → IsHierarchy ns (ensure_guest ns store).1
  unfolding ensure_guest
  ensure_guest-IsHierarchy store h =
      Keeps-bind (IsHierarchy ns) (add_member ns "guest" "user:guest") (λ _. done "user:guest")
        (add_member-IsHierarchy "guest" "user:guest") (λ _ s p. p) _
        (create_group-IsHierarchy "guest" _ (with_guest ns store) (with_guest-IsHierarchy store h))
