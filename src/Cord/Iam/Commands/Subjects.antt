-- ===== src/Cord/Iam/Commands/Subjects.antt =====
-- `resolveSubjects` in a hierarchy of groups: it returns, and it finds the user, the groups that the
-- caller names, and every group that contains one of these.
use netab.Common.{
  String, Bool, true, List, [], ◌∷◌, map, some, includes, All, string_eq, ◌⋅◌, ◌≡◌, ◌↔◌, ◌⊎◌, inl,
  inr, sym, ap, subst, arith, equals-cases, equals_refl, Result, ok, and_then, for_each, unique,
  includes-unique,
}
use netab.Cord.Store.{Store}
use netab.Cord.Store.Listing.{All-In}
use netab.Cord.Iam.{IamError}
use netab.Cord.Iam.Groups.{GroupRecord, read_group, is_member, list_groups}
use netab.Cord.Iam.Groups.Hierarchy.{IsGroup, IsHierarchy, read_group-id}
use netab.Cord.Iam.Groups.Listed.{All-list_groups, In-list_groups}
use netab.Cord.Iam.Groups.Membership.{Contains, is_member_lem}
use netab.Cord.Iam.Commands.Collecting.{
  Adds, Adds-then, Some, Some-In, In-Some, for_each-Adds, add_if-Adds, includes-In, In-includes,
  includes-map,
}
use netab.Cord.Iam.Commands.{
  add_if, resolve_group, resolve_subjects, as_group, bare_group, result_with,
}

module _ (ns : String) (store : Store) (user_id : String) (groups : List String) where
  -- Who a caller is, as a subject of grants.
  pub data IsSubject (s : String) : Type 0 where
    the_user : s ≡ user_id → IsSubject s
    named : (e : String) → includes groups e ≡ true → s ≡ as_group e → IsSubject s
    of_user :
        (g : String)
        → IsGroup ns store g
        → s ≡ "grp:" ⋅ g
        → Contains ns store user_id g
        → IsSubject s
    of_group :
        (g e : String)
        → IsGroup ns store g
        → includes groups e ≡ true
        → s ≡ "grp:" ⋅ g
        → Contains ns store ("grp:" ⋅ bare_group e) g
        → IsSubject s

module _ (ns : String) (store : Store) (h : IsHierarchy ns store) (user_id : String)
    (groups : List String) where
  -- What one round of the loop adds.
  abbrev ByUser : GroupRecord → String → Type 0
  ByUser group s = (s ≡ "grp:" ⋅ group.group_id) × Contains ns store user_id group.group_id

  abbrev ByNamed : GroupRecord → String → String → Type 0
  ByNamed group e s =
      (s ≡ "grp:" ⋅ group.group_id) × Contains ns store ("grp:" ⋅ bare_group e) group.group_id

  abbrev ByRound : GroupRecord → String → Type 0
  ByRound group s = ByUser group s ⊎ Some (ByNamed group) groups s

  resolve_group-Adds :
      (group : GroupRecord)
      → IsGroup ns store group.group_id
      → (found : List String)
      → Adds (ByRound group) found (resolve_group ns user_id groups store group found)
  unfolding resolve_group
  resolve_group-Adds group there found =
      subst (λ q. Adds (ByRound group) found (and_then q first.1 (λ _. loop))) (sym own.0)
        (Adds-then (ByUser group) (Some (ByNamed group) groups) found first.1 (loop first.1) own.1
          (for_each-Adds _ (ByNamed group) groups (each groups) first.1))
    where
      first : Result IamError (Unit {0}) × List String
      first =
          add_if (is_member true ns group.group_id user_id store) ("grp:" ⋅ group.group_id) found

      step : String → List String → Result IamError (Unit {0}) × List String
      step explicit =
          add_if (is_member true ns group.group_id ("grp:" ⋅ bare_group explicit) store)
            ("grp:" ⋅ group.group_id)

      loop : List String → Result IamError (Unit {0}) × List String
      loop = for_each step groups

      own : Adds (ByUser group) found first
      own =
          add_if-Adds _ ("grp:" ⋅ group.group_id) (Contains ns store user_id group.group_id)
            (is_member_lem ns store user_id group.group_id h there) found

      each :
          (es : List String)
          → All (λ e. (found' : List String) → Adds (ByNamed group e) found' (step e found')) es
      each [] = tt
      each (e ∷ es) = (
        add_if-Adds _ ("grp:" ⋅ group.group_id)
            (Contains ns store ("grp:" ⋅ bare_group e) group.group_id)
            (is_member_lem ns store ("grp:" ⋅ bare_group e) group.group_id h there),
        each es,
      )

  module _ (locale_le : String → String → Bool) where
    abbrev start : List String
    start = unique (user_id ∷ map as_group groups)

    includes-start :
        (s : String)
        → (includes start s ≡ true)
          ↔ ((s ≡ user_id) ⊎ ((e : String) × (includes groups e ≡ true) × (s ≡ as_group e)))
    includes-start s = (there, back)
      where
        there :
            includes start s ≡ true
            → (s ≡ user_id) ⊎ ((e : String) × (includes groups e ≡ true) × (s ≡ as_group e))
        there k = elim (equals-cases user_id s) [
          | inl (_, e) ↦ inl (sym e)
          | inr (other, _) ↦ inr (
              (includes-map as_group groups s).0
                (ground (arith, other, k, includes-unique (user_id ∷ map as_group groups) s)))
        ]

        back :
            (s ≡ user_id) ⊎ ((e : String) × (includes groups e ≡ true) × (s ≡ as_group e))
            → includes start s ≡ true
        back (inl e) =
            ground (arith, e, equals_refl s, includes-unique (user_id ∷ map as_group groups) s)
        back (inr k) = ground (
          arith,
          (includes-map as_group groups s).1 k,
          includes-unique (user_id ∷ map as_group groups) s,
        )

    every_group :
        (xs : List GroupRecord)
        → All (λ x. read_group ns x.group_id store ≡ some x) xs
        → All
            (λ x.
              (found : List String)
              → Adds (ByRound x) found (resolve_group ns user_id groups store x found))
            xs
    every_group [] k = tt
    every_group (x ∷ xs) (found, k) = (resolve_group-Adds x (x, found), every_group xs k)

    abbrev looped : Result IamError (Unit {0}) × List String
    looped = for_each (resolve_group ns user_id groups store) (list_groups locale_le ns store) start

    collected : Adds (Some ByRound (list_groups locale_le ns store)) start looped
    collected =
        for_each-Adds (resolve_group ns user_id groups store) ByRound
          (list_groups locale_le ns store)
          (every_group _ (All-list_groups locale_le ns store (h.is_map, h.filled))) start

    by_round :
        (s : String) (x : GroupRecord)
        → IsGroup ns store x.group_id
        → ByRound x s
        → IsSubject ns store user_id groups s
    by_round s x there (inl (e, k)) = of_user x.group_id there e k
    by_round s x there (inr k) =
        let (e, m, (same, c)) = Some-In (ByNamed x) groups s k in
        of_group x.group_id e there (In-includes e groups m) same c

    rounded :
        (s g : String)
        → IsGroup ns store g
        → ((x : GroupRecord) → x.group_id ≡ g → ByRound x s)
        → includes looped.1 s ≡ true
    rounded s g (r, found) k = (collected.1 s).1 (
        inr (
          In-Some ByRound _ s r (In-list_groups locale_le ns store (h.is_map, h.filled) g r found)
            (k r (read_group-id ns g store r found))))

    pub resolve_subjects_lem :
        (found : List String) × (resolve_subjects locale_le ns user_id groups store ≡ ok found)
        × ((s : String) → (includes found s ≡ true) ↔ IsSubject ns store user_id groups s)
    unfolding resolve_subjects
    resolve_subjects_lem =
        (looped.1, ap (λ r. result_with (r, looped.1)) collected.0, λ s. (there s, back s))
      where
        there : (s : String) → includes looped.1 s ≡ true → IsSubject ns store user_id groups s
        there s k = elim ((collected.1 s).0 k) [
          | inl at_start ↦ elim ((includes-start s).0 at_start) [
            | inl e ↦ the_user e
            | inr (e, m, same) ↦ named e m same
          ]
          | inr later ↦
              let (x, m, p) = Some-In ByRound _ s later in
              by_round s x
                (x, All-In _ x _ (All-list_groups locale_le ns store (h.is_map, h.filled)) m) p
        ]

        back : (s : String) → IsSubject ns store user_id groups s → includes looped.1 s ≡ true
        back s (the_user e) = (collected.1 s).1 (inl ((includes-start s).1 (inl e)))
        back s (named e m same) = (collected.1 s).1 (inl ((includes-start s).1 (inr (e, m, same))))
        back s (of_user g there' e k) = rounded s g there' (λ x own.
            inl (subst (λ i. (s ≡ "grp:" ⋅ i) × Contains ns store user_id i) (sym own) (e, k)))
        back s (of_group g e there' m same k) = rounded s g there' (λ x own. inr (
            In-Some (ByNamed x) groups s e (includes-In e groups m) (
              subst (λ i. (s ≡ "grp:" ⋅ i) × Contains ns store ("grp:" ⋅ bare_group e) i) (sym own)
                (same, k))))
