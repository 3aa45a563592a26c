-- ===== src/Cord/Store/Listing.antt =====
-- What `list` of a store returns: the entries under a prefix, each of them, and no other.
use netab.Common.{
  All-sort, All-keep, String, Bool, true, false, get, keys, IsMap, string_eq, some, List, [], ◌∷◌,
  All, sort_by, insert_by, keep, ◌≡◌, ◌≢◌, sym, ◌∙◌, ap, subst, arith, if◌then◌else◌, ◌⊎◌, inl, inr,
  equals_refl, equals-cases,
}
use netab.Json.{Value}
use netab.Cord.Store.{Store, store_list}
use text.Mathlib.Text.{starts_with}

-- `a` is an element of the list.
abbrev pub In : {A : Type 0} → A → List A → Type 0
In a [] = ⊥
In a (x ∷ xs) = (x ≡ a) ⊎ In a xs

pub All-In : {A : Type 0} (P : A → Type 0) (a : A) (xs : List A) → All P xs → In a xs → P a
All-In P a [] h m = elim m [ ]
All-In P a (x ∷ xs) (p, h) (inl e) = subst P e p
All-In P a (x ∷ xs) (p, h) (inr m) = All-In P a xs h m

module _ {A : Type 0} where
  In-keep : (p : A → Bool) (a : A) (xs : List A) → p a ≡ true → In a xs → In a (keep p xs)
  In-keep p a [] h m = m
  In-keep p a (x ∷ xs) h (inl e) =
      subst (λ b. In a (if b then x ∷ keep p xs else keep p xs)) (sym (ap p e ∙ h)) (inl e)
  In-keep p a (x ∷ xs) h (inr m) = go (p x) (In-keep p a xs h m)
    where
      go : (b : Bool) → In a (keep p xs) → In a (if b then x ∷ keep p xs else keep p xs)
      go true k = inr k
      go false k = k

  module _ (le : A → A → Bool) where
    In-insert : (a x : A) (xs : List A) → (x ≡ a) ⊎ In a xs → In a (insert_by le x xs)
    unfolding insert_by
    In-insert a x [] h = h
    In-insert a x (y ∷ ys) h = go (le x y) h (In-insert a x ys)
      where
        go :
            (b : Bool)
            → (x ≡ a) ⊎ In a (y ∷ ys)
            → ((x ≡ a) ⊎ In a ys → In a (insert_by le x ys))
            → In a (if b then x ∷ y ∷ ys else y ∷ insert_by le x ys)
        go true k later = k
        go false (inl e) later = inr (later (inl e))
        go false (inr (inl e)) later = inl e
        go false (inr (inr m)) later = inr (later (inr m))

    In-sort : (a : A) (xs : List A) → In a xs → In a (sort_by le xs)
    unfolding sort_by
    In-sort a [] m = m
    In-sort a (x ∷ xs) (inl e) = In-insert a x (sort_by le xs) (inl e)
    In-sort a (x ∷ xs) (inr m) = In-insert a x (sort_by le xs) (inr (In-sort a xs m))

    insert-In : (a x : A) (xs : List A) → In a (insert_by le x xs) → (x ≡ a) ⊎ In a xs
    unfolding insert_by
    insert-In a x [] m = m
    insert-In a x (y ∷ ys) m = go (le x y) m (insert-In a x ys)
      where
        go :
            (b : Bool)
            → In a (if b then x ∷ y ∷ ys else y ∷ insert_by le x ys)
            → (In a (insert_by le x ys) → (x ≡ a) ⊎ In a ys)
            → (x ≡ a) ⊎ In a (y ∷ ys)
        go true k later = k
        go false (inl e) later = inr (inl e)
        go false (inr k) later = elim (later k) [ inl e ↦ inl e | inr l ↦ inr (inr l) ]

    -- A sorted list has no other elements.
    pub sort-In : (a : A) (xs : List A) → In a (sort_by le xs) → In a xs
    unfolding sort_by
    sort-In a [] m = m
    sort-In a (x ∷ xs) m = elim (insert-In a x (sort_by le xs) m) [
      | inl e ↦ inl e
      | inr k ↦ inr (sort-In a xs k)
    ]

In-get : (k : String) (v : Value) (m : Store) → get k m ≡ some v → In (k, v) m
unfolding get
In-get k v [] h = cc
In-get k v ((j, w) ∷ m) h = elim (equals-cases j k) [
  | inl (same, e) ↦ inl (ground (arith, same, e, h))
  | inr (other, e) ↦ inr (In-get k v m (ground (arith, other, h)))
]

-- An entry is what `get` finds under its key.
abbrev pub IsEntry : Store → String × Value → Type 0
IsEntry m entry = get entry.0 m ≡ some entry.1

IsEntry-cons :
    (j : String) (w : Value) (m : Store) (entries : Store)
    → All (λ i. i ≢ j) (keys entries)
    → All (IsEntry m) entries
    → All (IsEntry ((j, w) ∷ m)) entries
unfolding get
IsEntry-cons j w m [] h k = tt
IsEntry-cons j w m ((i, v) ∷ rest) (p, h) (e, k) =
    (ground (arith, e, string_eq.equals_iff j i, p), IsEntry-cons j w m rest h k)

All-IsEntry : (m : Store) → IsMap m → All (IsEntry m) m
unfolding get
All-IsEntry [] h = tt
All-IsEntry ((j, w) ∷ m) (apart, h) =
    (ground (arith, equals_refl j), IsEntry-cons j w m m apart (All-IsEntry m h))

module _ (locale_le : String → String → Bool) (prefix : String) (store : Store) where
  pub In-store_list :
      (k : String) (v : Value)
      → get k store ≡ some v
      → starts_with k prefix ≡ true
      → In (k, v) (store_list locale_le prefix store)
  unfolding store_list
  In-store_list k v found under =
      In-sort _ (k, v) _ (In-keep _ (k, v) store under (In-get k v store found))

  pub All-store_list :
      IsMap store
      → All
          (λ entry. (starts_with entry.0 prefix ≡ true) × IsEntry store entry)
          (store_list locale_le prefix store)
  unfolding store_list
  All-store_list is_map =
      All-sort _ _ _ (All-keep (IsEntry store) _ store (All-IsEntry store is_map))
