-- ===== src/Cord/Iam/Commands/Invoke.antt =====
-- `canInvoke` in a hierarchy of groups: whom it lets invoke a command.
use netab.Common.{
  ℕ, String, Bool, true, ◌&&◌, ◌||◌, List, [], ◌∷◌, any, includes, string_eq, ◌≡◌, ◌↔◌, inl, inr,
  sym, ap, ◌∙◌, subst, arith, equals-cases, equals_refl, Bool-cases, ok,
}
use netab.Json.{Value, is_truthy}
use netab.Cord.Store.{Store, store_get}
use netab.Cord.Iam.{grant_key}
use netab.Cord.Iam.Groups.Hierarchy.{IsHierarchy}
use netab.Cord.Iam.Commands.{
  can_invoke, grants_of, decide, decided_by, denies, permits, resolve_subjects,
}
use netab.Cord.Iam.Commands.Subjects.{IsSubject, resolve_subjects_lem}

module _ (ns command_id : String) (store : Store) where
  -- What is stored as the grant of a subject.
  abbrev pub stored_grant : String → Value
  stored_grant subject = store_get (grant_key ns subject command_id) store

  -- The subject has a grant that passes the test.
  abbrev pub HasGrant : (Value → Bool) → String → Type 0
  HasGrant test subject = (is_truthy (stored_grant subject) && test (stored_grant subject)) ≡ true

  any-grants_of :
      (test : Value → Bool) (x : String) (xs : List String)
      → any test (grants_of ns command_id store (x ∷ xs)) ≡ (
          is_truthy (stored_grant x) && test (stored_grant x)
          || any test (grants_of ns command_id store xs))
  unfolding grants_of
  any-grants_of test x xs = ground arith

  any-HasGrant :
      (test : Value → Bool) (subjects : List String)
      → any test (grants_of ns command_id store subjects) ≡ true
      → (s : String) × (includes subjects s ≡ true) × HasGrant test s
  unfolding grants_of
  any-HasGrant test [] e = absurd (cc)
  any-HasGrant test (x ∷ xs) e =
      elim (Bool-cases (is_truthy (stored_grant x) && test (stored_grant x))) [
        | inl own ↦ (x, ground (arith, equals_refl x), own)
        | inr other ↦
            let (s, h, g) =
              any-HasGrant test xs (ground (arith, any-grants_of test x xs, e, other)) in
            (s, ground (arith, h), g)
      ]

  HasGrant-any :
      (test : Value → Bool) (subjects : List String) (s : String)
      → includes subjects s ≡ true
      → HasGrant test s
      → any test (grants_of ns command_id store subjects) ≡ true
  unfolding grants_of
  HasGrant-any test [] s h g = absurd (cc)
  HasGrant-any test (x ∷ xs) s h g = elim (equals-cases x s) [
    | inl (_, e) ↦
        let own : HasGrant test x = subst (HasGrant test) (sym e) g in
        any-grants_of test x xs ∙ ap (λ b. b || any test (grants_of ns command_id store xs)) own
    | inr (other, _) ↦
        ground (arith, any-grants_of test x xs, HasGrant-any test xs s (ground (arith, other, h)) g)
  ]

-- In a hierarchy of groups, `canInvoke` returns, whatever is asked. It permits exactly if one of
-- the caller's subjects has a grant that permits what is asked, and none has a grant that denies
-- it. The subjects are the user, the groups that the caller names, and each group that contains one
-- of these, directly or through subgroups.
pub can_invoke_lem :
    (locale_le : String → String → Bool) (ns user_id : String) (groups : List String)
    (scope : Value) (command_id : String) (requested_mask : ℕ) (store : Store)
    → IsHierarchy ns store
    → (b : Bool) × (can_invoke locale_le ns user_id groups scope command_id requested_mask store
        ≡ ok b)
      × ((b ≡ true) ↔ (
          ((s : String) × IsSubject ns store user_id groups s
            × HasGrant ns command_id store (permits requested_mask scope) s)
          × ((s : String)
              → IsSubject ns store user_id groups s
              → ¬ HasGrant ns command_id store (denies requested_mask scope) s)))
unfolding can_invoke
can_invoke_lem locale_le ns user_id groups scope command_id requested_mask store h =
    (decided, ap (decided_by ns command_id store requested_mask scope) found.1, (there, back))
  where
    found :
        (xs : List String) × (resolve_subjects locale_le ns user_id groups store ≡ ok xs)
        × ((s : String) → (includes xs s ≡ true) ↔ IsSubject ns store user_id groups s)
    found = resolve_subjects_lem ns store h user_id groups locale_le

    denied : Bool
    denied = any (denies requested_mask scope) (grants_of ns command_id store found.0)

    permitted : Bool
    permitted = any (permits requested_mask scope) (grants_of ns command_id store found.0)

    decided : Bool
    decided = decide requested_mask scope (grants_of ns command_id store found.0)

    there :
        decided ≡ true
        → ((s : String) × IsSubject ns store user_id groups s
            × HasGrant ns command_id store (permits requested_mask scope) s)
          × ((s : String)
              → IsSubject ns store user_id groups s
              → ¬ HasGrant ns command_id store (denies requested_mask scope) s)
    there e =
        let (s, h', g) =
          any-HasGrant ns command_id store (permits requested_mask scope) found.0
            (ground (arith, e)) in
        (
          (s, (found.2 s).0 h', g),
          λ t k d. ground (
            arith,
            e,
            HasGrant-any ns command_id store (denies requested_mask scope) found.0 t
                ((found.2 t).1 k) d,
          ),
        )

    back :
        ((s : String) × IsSubject ns store user_id groups s
            × HasGrant ns command_id store (permits requested_mask scope) s)
          × ((s : String)
              → IsSubject ns store user_id groups s
              → ¬ HasGrant ns command_id store (denies requested_mask scope) s)
        → decided ≡ true
    back ((s, k, g), none_denies) = elim (Bool-cases denied) [
      | inl e ↦
          let (t, h', d) =
            any-HasGrant ns command_id store (denies requested_mask scope) found.0 e in
          absurd (none_denies t ((found.2 t).0 h') d)
      | inr e ↦ ground (
        arith,
        e,
        HasGrant-any ns command_id store (permits requested_mask scope) found.0 s ((found.2 s).1 k)
            g,
      )
    ]
