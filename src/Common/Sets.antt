-- ===== src/Common/Sets.antt =====
-- A `Set` as a list that holds each element once, in insertion order, and what a list holds after
-- it was joined, filtered or sorted.
use mathlib.Core.Path.{◌≡◌, refl, ◌∙◌}
use mathlib.Core.Bool.{Bool, not, ◌&&◌, ◌||◌}
use mathlib.Core.List.{List, [], ◌∷◌, ◌++◌}
use native.Mathlib.Omega.{arith}
use netab.Common.Tests.{if◌then◌else◌, Equality, ◌==◌}
use netab.Common.Lists.{keep, includes, insert_by, sort_by}

module _ {ℓ} {A : Type ℓ} ⦃e : Equality A⦄ where
  -- `Array.from(new Set(xs))`: the first of each.
  unfoldable pub unique : List A → List A
  unique [] = []
  unique (x ∷ xs) = x ∷ keep (λ y. not (y == x)) (unique xs)

  -- `set.add(x)`.
  abbrev pub add_once : A → List A → List A
  add_once x xs = if includes xs x then xs else xs ++ x ∷ []

  pub includes-append :
      (xs ys : List A) (a : A) → includes (xs ++ ys) a ≡ (includes xs a || includes ys a)
  includes-append [] ys a = refl
  includes-append (x ∷ xs) ys a = ground (arith, includes-append xs ys a)

  pub includes-keep_ne :
      (x : A) (xs : List A) (a : A)
      → includes (keep (λ y. not (y == x)) xs) a ≡ (not (x == a) && includes xs a)
  includes-keep_ne x [] a = ground arith
  includes-keep_ne x (y ∷ ys) a =
      ground (arith, includes-keep_ne x ys a, e.equals_iff y x, e.equals_iff y a, e.equals_iff x a)

  pub includes-unique : (xs : List A) (a : A) → includes (unique xs) a ≡ includes xs a
  unfolding unique
  includes-unique [] a = refl
  includes-unique (x ∷ xs) a =
      ground (arith, includes-keep_ne x (unique xs) a, includes-unique xs a)

  pub includes-add_once :
      (x : A) (xs : List A) (a : A) → includes (add_once x xs) a ≡ (includes xs a || x == a)
  includes-add_once x xs a = ground (arith, includes-append xs (x ∷ []) a, e.equals_iff x a)

  module _ (le : A → A → Bool) where
    includes-insert :
        (x : A) (xs : List A) (a : A) → includes (insert_by le x xs) a ≡ (x == a || includes xs a)
    unfolding insert_by
    includes-insert x [] a = refl
    includes-insert x (y ∷ ys) a = ground (arith, includes-insert x ys a)

    pub includes-sort : (xs : List A) (a : A) → includes (sort_by le xs) a ≡ includes xs a
    unfolding sort_by
    includes-sort [] a = refl
    includes-sort (x ∷ xs) a =
        includes-insert x (sort_by le xs) a ∙ ground (arith, includes-sort xs a)
