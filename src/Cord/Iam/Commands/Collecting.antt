-- ===== src/Cord/Iam/Commands/Collecting.antt =====
-- Loops that collect a set of texts.
use netab.Common.{
  String, Bool, true, false, List, [], ◌∷◌, map, includes, All, string_eq, ◌≡◌, ◌↔◌, ◌⊎◌, inl, inr,
  refl, sym, ap, subst, arith, equals-cases, equals_refl, Result, ok, for_each, includes-add_once,
  for_each-ok,
}
use netab.Cord.Store.Listing.{In}
use netab.Cord.Iam.{IamError}
use netab.Cord.Iam.Commands.{add_if}

-- `r` returns, and the set after it has what `found` has and what `P` says.
abbrev pub Adds :
    (String → Type 0) → List String → Result IamError (Unit {0}) × List String → Type 0
Adds P found r =
    (r.0 ≡ ok tt) × ((s : String) → (includes r.1 s ≡ true) ↔ ((includes found s ≡ true) ⊎ P s))

pub Adds-then :
    (P Q : String → Type 0) (found mid : List String) (r : Result IamError (Unit {0}) × List String)
    → ((s : String) → (includes mid s ≡ true) ↔ ((includes found s ≡ true) ⊎ P s))
    → Adds Q mid r
    → Adds (λ s. P s ⊎ Q s) found r
Adds-then P Q found mid r first (fine, later) = (fine, λ s. (there s, back s))
  where
    there : (s : String) → includes r.1 s ≡ true → (includes found s ≡ true) ⊎ (P s ⊎ Q s)
    there s k = elim ((later s).0 k) [
      | inl old ↦ elim ((first s).0 old) [ inl older ↦ inl older | inr p ↦ inr (inl p) ]
      | inr q ↦ inr (inr q)
    ]

    back : (s : String) → (includes found s ≡ true) ⊎ (P s ⊎ Q s) → includes r.1 s ≡ true
    back s (inl old) = (later s).1 (inl ((first s).1 (inl old)))
    back s (inr (inl p)) = (later s).1 (inl ((first s).1 (inr p)))
    back s (inr (inr q)) = (later s).1 (inr q)

module _ {A : Type 0} (P : A → String → Type 0) where
  abbrev pub Some : List A → String → Type 0
  Some [] s = ⊥
  Some (x ∷ xs) s = P x s ⊎ Some xs s

  pub Some-In : (xs : List A) (s : String) → Some xs s → (x : A) × In x xs × P x s
  Some-In [] s k = absurd k
  Some-In (x ∷ xs) s (inl p) = (x, inl refl, p)
  Some-In (x ∷ xs) s (inr k) = let (y, m, p) = Some-In xs s k in (y, inr m, p)

  pub In-Some : (xs : List A) (s : String) (x : A) → In x xs → P x s → Some xs s
  In-Some [] s x m p = absurd m
  In-Some (y ∷ xs) s x (inl e) p = inl (subst (λ z. P z s) (sym e) p)
  In-Some (y ∷ xs) s x (inr m) p = inr (In-Some xs s x m p)

module _ {A : Type 0} (f : A → List String → Result IamError (Unit {0}) × List String)
    (P : A → String → Type 0) where
  pub for_each-Adds :
      (xs : List A)
      → All (λ x. (found : List String) → Adds (P x) found (f x found)) xs
      → (found : List String) → Adds (Some P xs) found (for_each f xs found)
  unfolding for_each
  for_each-Adds [] h found = (refl, λ s. (inl, λ p. elim p [ inl k ↦ k | inr k ↦ absurd k ]))
  for_each-Adds (x ∷ xs) (p, h) found =
      subst (Adds (Some P (x ∷ xs)) found) (sym (for_each-ok f x xs found (p found).0)) (
        Adds-then (P x) (Some P xs) found (f x found).1 (for_each f xs (f x found).1) (p found).1
          (for_each-Adds xs h (f x found).1))

pub add_if-Adds :
    (r : Result IamError Bool) (subject : String) (P : Type 0)
    → (b : Bool) × (r ≡ ok b) × ((b ≡ true) ↔ P)
    → (found : List String) → Adds (λ s. (s ≡ subject) × P) found (add_if r subject found)
unfolding add_if
add_if-Adds r subject P (true, e, iff) found =
    subst (λ q. Adds (λ s. (s ≡ subject) × P) found (add_if q subject found)) (sym e)
      (
        refl,
        λ s. (
          λ k. elim (equals-cases subject s) [
            | inl (_, same) ↦ inr (sym same, iff.0 refl)
            | inr (other, _) ↦ inl (ground (arith, includes-add_once subject found s, k, other))
          ],
          λ k. elim k [
            | inl old ↦ ground (arith, includes-add_once subject found s, old)
            | inr (same, _) ↦ ground (
              arith,
              includes-add_once subject found s,
              same,
              equals_refl subject,
              string_eq.equals_iff subject s,
            )
          ],
        ),
      )
add_if-Adds r subject P (false, e, iff) found =
    subst (λ q. Adds (λ s. (s ≡ subject) × P) found (add_if q subject found)) (sym e)
      (refl, λ s. (inl, λ k. elim k [ inl old ↦ old | inr (_, p) ↦ cc (iff.1 p) ]))

pub In-includes : (a : String) (xs : List String) → In a xs → includes xs a ≡ true
In-includes a [] m = absurd m
In-includes a (x ∷ xs) (inl e) = ground (arith, e, equals_refl a)
In-includes a (x ∷ xs) (inr m) = ground (arith, In-includes a xs m)

pub includes-In : (a : String) (xs : List String) → includes xs a ≡ true → In a xs
includes-In a [] h = absurd (cc)
includes-In a (x ∷ xs) h = elim (equals-cases x a) [
  | inl (_, e) ↦ inl e
  | inr (other, _) ↦ inr (includes-In a xs (ground (arith, other, h)))
]

pub includes-map :
    (f : String → String) (xs : List String) (s : String)
    → (includes (map f xs) s ≡ true) ↔ ((x : String) × (includes xs x ≡ true) × (s ≡ f x))
includes-map f xs s = (there xs, λ (x, h, e). back xs x h e)
  where
    there :
        (ys : List String)
        → includes (map f ys) s ≡ true
        → (x : String) × (includes ys x ≡ true) × (s ≡ f x)
    there [] h = absurd (cc)
    there (y ∷ ys) h = elim (equals-cases (f y) s) [
      | inl (_, e) ↦ (y, ground (arith, equals_refl y), sym e)
      | inr (other, _) ↦
          let (x, k, e) = there ys (ground (arith, other, h)) in (x, ground (arith, k), e)
    ]

    back :
        (ys : List String) (x : String)
        → includes ys x ≡ true
        → s ≡ f x
        → includes (map f ys) s ≡ true
    back [] x h e = absurd (cc)
    back (y ∷ ys) x h e = elim (equals-cases y x) [
      | inl (_, same) ↦ ground (arith, ap f same, e, equals_refl s)
      | inr (other, _) ↦ ground (arith, back ys x (ground (arith, other, h)) e)
    ]
