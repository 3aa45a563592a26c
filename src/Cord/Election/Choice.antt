-- ===== src/Cord/Election/Choice.antt =====
-- Which node is chosen to lead a shard.
use netab.Common.{
  ℕ, ◌≤◌, ◌<◌, String, Bool, true, false, List, [], ◌∷◌, none, some, Dict, get, string_eq, nat_eq,
  if◌then◌else◌, sort_by, insert_by, ◌≡◌, ◌⊎◌, inl, inr, refl, sym, ap, subst, arith, All,
  Bool-cases,
}
use netab.Cord.Cluster.{ClusterNodeConfig, priority_from_config, or_zero}
use netab.Cord.Election.Balance.{comes_first, choose, first_of}
use netab.Cord.Store.Listing.{In, sort-In}

module _ (locale_le : String → String → Bool) (loads : Dict String ℕ) where
  abbrev pub load : ClusterNodeConfig → ℕ
  load node = or_zero (get node.node_id loads)

  -- `a` has the lesser load, or the same one and at least the priority.
  abbrev pub IsPreferred : ClusterNodeConfig → ClusterNodeConfig → Type 0
  IsPreferred a b =
      (load a < load b) ⊎ ((load a ≡ load b) × (priority_from_config b ≤ priority_from_config a))

  comes_first-IsPreferred :
      (a b : ClusterNodeConfig)
      → (comes_first locale_le loads a b ≡ true → IsPreferred a b)
        × (comes_first locale_le loads a b ≡ false → IsPreferred b a)
  unfolding comes_first
  comes_first-IsPreferred a b = (λ h. ground (arith, h), λ h. ground (arith, h))

  IsPreferred-trans :
      (a b c : ClusterNodeConfig) → IsPreferred a b → IsPreferred b c → IsPreferred a c
  IsPreferred-trans a b c p q = ground (arith, p, q)

  -- The head of the sorted list is preferred to all the others, whatever the order of the ids.
  abbrev IsFirst : ClusterNodeConfig → List ClusterNodeConfig → Type 0
  IsFirst a xs = All (IsPreferred a) xs

  abbrev HasFirst : List ClusterNodeConfig → List ClusterNodeConfig → Type 0
  HasFirst [] ys = Unit {0}
  HasFirst (x ∷ xs) ys = IsFirst x ys

  All-preferred :
      (a b : ClusterNodeConfig) (xs : List ClusterNodeConfig)
      → IsPreferred a b
      → IsFirst b xs
      → IsFirst a xs
  All-preferred a b [] p h = tt
  All-preferred a b (x ∷ xs) p (q, h) = (IsPreferred-trans a b x p q, All-preferred a b xs p h)

  insert-HasFirst :
      (x : ClusterNodeConfig) (sorted xs : List ClusterNodeConfig)
      → HasFirst sorted xs
      → (sorted ≡ [] → xs ≡ [])
      → HasFirst (insert_by (comes_first locale_le loads) x sorted) (x ∷ xs)
  unfolding insert_by
  insert-HasFirst x [] xs h none_left =
      (inr (refl, omega arith), subst (IsFirst x) (sym (none_left refl)) tt)
  insert-HasFirst x (y ∷ ys) xs h none_left = elim (Bool-cases (comes_first locale_le loads x y)) [
    | inl first ↦
        subst
          (λ b.
            HasFirst (if b then x ∷ y ∷ ys else y ∷ insert_by (comes_first locale_le loads) x ys)
              (x ∷ xs))
          (sym first)
          (inr (refl, omega arith), All-preferred x y xs ((comes_first-IsPreferred x y).0 first) h)
    | inr later ↦
        subst
          (λ b.
            HasFirst (if b then x ∷ y ∷ ys else y ∷ insert_by (comes_first locale_le loads) x ys)
              (x ∷ xs))
          (sym later) ((comes_first-IsPreferred x y).1 later, h)
  ]

  insert-ne-nil :
      (x : ClusterNodeConfig) (xs : List ClusterNodeConfig)
      → insert_by (comes_first locale_le loads) x xs ≡ []
      → ⊥
  unfolding insert_by
  insert-ne-nil x [] e = absurd (cc)
  insert-ne-nil x (y ∷ ys) e = ground (arith, e)

  sort-nil : (xs : List ClusterNodeConfig) → sort_by (comes_first locale_le loads) xs ≡ [] → xs ≡ []
  unfolding sort_by
  sort-nil [] e = refl
  sort-nil (x ∷ xs) e = absurd (insert-ne-nil x (sort_by (comes_first locale_le loads) xs) e)

  sort-HasFirst :
      (xs : List ClusterNodeConfig) → HasFirst (sort_by (comes_first locale_le loads) xs) xs
  unfolding sort_by
  sort-HasFirst [] = tt
  sort-HasFirst (x ∷ xs) =
      insert-HasFirst x (sort_by (comes_first locale_le loads) xs) xs (sort-HasFirst xs)
        (sort-nil xs)

-- The node that is chosen for a shard is eligible, no eligible node has a lesser load, and none
-- with the same load has a higher priority. There is no such node only if none is eligible.
pub choose_lem :
    (locale_le : String → String → Bool) (loads : Dict String ℕ) (eligible : List ClusterNodeConfig)
    → ((choose locale_le loads eligible ≡ none) × (eligible ≡ []))
      ⊎ ((chosen : ClusterNodeConfig) × (choose locale_le loads eligible ≡ some chosen)
          × In chosen eligible
          × All (IsPreferred locale_le loads chosen) eligible)
unfolding choose
choose_lem locale_le loads eligible = go (sort_by (comes_first locale_le loads) eligible) refl
  where
    go :
        (sorted : List ClusterNodeConfig)
        → sort_by (comes_first locale_le loads) eligible ≡ sorted
        → ((first_of (sort_by (comes_first locale_le loads) eligible) ≡ none) × (eligible ≡ []))
          ⊎ ((chosen : ClusterNodeConfig) × (first_of
                  (sort_by (comes_first locale_le loads) eligible)
                ≡ some chosen)
              × In chosen eligible
              × All (IsPreferred locale_le loads chosen) eligible)
    go [] e = inl (ap first_of e, sort-nil locale_le loads eligible e)
    go (x ∷ xs) e = inr (
      x,
      ap first_of e,
      sort-In (comes_first locale_le loads) x eligible (subst (In x) (sym e) (inl refl)),
      subst (λ ys. HasFirst locale_le loads ys eligible) e (sort-HasFirst locale_le loads eligible),
    )
