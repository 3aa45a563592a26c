-- ===== src/Common/Every.antt =====
-- Lists all of whose elements satisfy a predicate, through the methods of arrays.
use mathlib.Core.Path.{◌≡◌, refl}
use mathlib.Core.Bool.{Bool, true, false}
use mathlib.Core.List.{List, [], ◌∷◌, map}
use Prim.Native.Nat.{ℕ, zero, suc}
use netab.Common.Tests.{if◌then◌else◌}
use netab.Common.Lists.{All, keep, take, drop, insert_by, sort_by}

module _ {A : Type 0} where
  module _ (le : A → A → Bool) where
    All-insert : (P : A → Type 0) (x : A) (xs : List A) → P x → All P xs → All P (insert_by le x xs)
    unfolding insert_by
    All-insert P x [] p h = (p, tt)
    All-insert P x (y ∷ ys) p (q, h) = go (le x y) (All-insert P x ys p h)
      where
        go :
            (b : Bool)
            → All P (insert_by le x ys)
            → All P (if b then x ∷ y ∷ ys else y ∷ insert_by le x ys)
        go true k = (p, (q, h))
        go false k = (q, k)

    pub All-sort : (P : A → Type 0) (xs : List A) → All P xs → All P (sort_by le xs)
    unfolding sort_by
    All-sort P [] h = tt
    All-sort P (x ∷ xs) (p, h) = All-insert P x (sort_by le xs) p (All-sort P xs h)

  pub All-keep :
      (P : A → Type 0) (p : A → Bool) (xs : List A)
      → All P xs
      → All (λ x. (p x ≡ true) × P x) (keep p xs)
  All-keep P p [] h = tt
  All-keep P p (x ∷ xs) (q, h) = go (p x) refl (All-keep P p xs h)
    where
      go :
          (b : Bool)
          → p x ≡ b
          → All (λ y. (p y ≡ true) × P y) (keep p xs)
          → All (λ y. (p y ≡ true) × P y) (if b then x ∷ keep p xs else keep p xs)
      go true e k = ((e, q), k)
      go false e k = k

  module _ (P : A → Type 0) where
    pub All-take : (n : ℕ) (xs : List A) → All P xs → All P (take n xs)
    All-take zero xs h = tt
    All-take (suc n) [] h = tt
    All-take (suc n) (x ∷ xs) (p, h) = (p, All-take n xs h)

    pub All-drop : (n : ℕ) (xs : List A) → All P xs → All P (drop n xs)
    All-drop zero xs h = h
    All-drop (suc n) [] h = tt
    All-drop (suc n) (x ∷ xs) (p, h) = All-drop n xs h

  pub All-map :
      {B : Type 0} (P : A → Type 0) (Q : B → Type 0) (f : A → B) (xs : List A)
      → ((a : A) → P a → Q (f a))
      → All P xs
      → All Q (map f xs)
  All-map P Q f [] g h = tt
  All-map P Q f (x ∷ xs) g (p, h) = (g x p, All-map P Q f xs g h)
