-- ===== src/Common/Outcome.antt =====
-- Code that throws, with and without state. An exception keeps what was written before it.
use mathlib.Core.Path.{◌≡◌, refl, ap}
use mathlib.Core.Logic.{◌⊎◌, inl, inr}
use mathlib.Core.List.{List, [], ◌∷◌}

pub data Result {ℓ κ} (E : Type ℓ) (A : Type κ) : Type (ℓ ⊔ κ) where
  ok : A → Result E A
  err : E → Result E A

abbrev pub Exec : Type 0 → Type 0 → Type 0 → Type 0
Exec E S A = S → Result E A × S

module _ {E S : Type 0} where
  abbrev pub and_then : {A B : Type 0} → Result E A → S → (A → Exec E S B) → Result E B × S
  and_then (ok a) t f = f a t
  and_then (err e) t f = (err e, t)

  infixl 5 ◌>>=◌ ◌>>◌
  abbrev pub ◌>>=◌ : {A B : Type 0} → Exec E S A → (A → Exec E S B) → Exec E S B
  ◌>>=◌ m f s = let r = m s in and_then r.0 r.1 f

  abbrev pub ◌>>◌ : {A B : Type 0} → Exec E S A → Exec E S B → Exec E S B
  m >> n = m >>= λ _. n

  abbrev pub done : {A : Type 0} → A → Exec E S A
  done a s = (ok a, s)

  abbrev pub throw : {A : Type 0} → E → Exec E S A
  throw e s = (err e, s)

  -- `for (const x of xs) await f(x)`.
  unfoldable pub for_each : {A : Type 0} → (A → Exec E S (Unit {0})) → List A → Exec E S (Unit {0})
  for_each f [] s = (ok tt, s)
  for_each f (x ∷ xs) s = let r = f x s in and_then r.0 r.1 (λ _. for_each f xs)

  -- A predicate on the state that every step keeps, thrown errors included.
  abbrev pub Keeps : {A : Type 0} → (S → Type 0) → Exec E S A → Type 0
  Keeps P m = (s : S) → P s → P (m s).1

  pub Keeps-for_each :
      {A : Type 0} (P : S → Type 0) (f : A → Exec E S (Unit {0})) (xs : List A)
      → ((x : A) → Keeps P (f x))
      → Keeps P (for_each f xs)
  unfolding for_each
  Keeps-for_each P f [] h s p = p
  Keeps-for_each P f (x ∷ xs) h s p = rest (f x s).0 (f x s).1 (h x s p) (Keeps-for_each P f xs h)
    where
      rest :
          (r : Result E (Unit {0})) (t : S)
          → P t
          → Keeps P (for_each f xs)
          → P (and_then r t (λ _. for_each f xs)).1
      rest (ok a) t q k = k t q
      rest (err e) t q k = q

  pub Keeps-bind :
      {A B : Type 0} (P : S → Type 0) (m : Exec E S A) (f : A → Exec E S B)
      → Keeps P m
      → ((a : A) → Keeps P (f a))
      → Keeps P (m >>= f)
  Keeps-bind {A} P m f h k s p = go (m s).0 (m s).1 (h s p)
    where
      go : (r : Result E A) (t : S) → P t → P (and_then r t f).1
      go (ok a) t q = k a t q
      go (err e) t q = q

  -- How a loop goes on after a round, and how a thrown error ends it.
  pub for_each-ok :
      {A : Type 0} (f : A → Exec E S (Unit {0})) (x : A) (xs : List A) (s : S)
      → (f x s).0 ≡ ok tt
      → for_each f (x ∷ xs) s ≡ for_each f xs (f x s).1
  unfolding for_each
  for_each-ok f x xs s h = ap (λ r. and_then r (f x s).1 (λ _. for_each f xs)) h

  pub for_each-err :
      {A : Type 0} (f : A → Exec E S (Unit {0})) (x : A) (xs : List A) (s : S) (e : E)
      → (f x s).0 ≡ err e
      → for_each f (x ∷ xs) s ≡ (err e, (f x s).1)
  unfolding for_each
  for_each-err f x xs s e h = ap (λ r. and_then r (f x s).1 (λ _. for_each f xs)) h

pub Result-cases {ℓ} :
    {E : Type ℓ} (r : Result E (Unit {0})) → (r ≡ ok tt) ⊎ ((e : E) × (r ≡ err e))
Result-cases (ok a) = inl refl
Result-cases (err e) = inr (e, refl)
