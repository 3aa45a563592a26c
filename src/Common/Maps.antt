-- ===== src/Common/Maps.antt =====
-- A `Map` or a plain object as an association list in insertion order: `set` keeps the place of a
-- key that is there and appends a new one.
use mathlib.Core.Path.{◌≡◌, refl, sym, subst}
use mathlib.Core.Logic.{◌≢◌, inl, inr}
use mathlib.Core.Option.{Option, none, some}
use mathlib.Core.List.{List, [], ◌∷◌}
use native.Mathlib.Omega.{arith}
use netab.Common.Tests.{if◌then◌else◌, Equality, ◌==◌, equals_refl, equals-cases}
use netab.Common.Lists.{All}

abbrev pub Dict {ℓ κ} : Type ℓ → Type κ → Type (ℓ ⊔ κ)
Dict K V = List (K × V)

module _ {ℓ κ} {K : Type ℓ} {V : Type κ} ⦃e : Equality K⦄ where
  unfoldable pub get : K → Dict K V → Option V
  get k [] = none
  get k ((j, v) ∷ m) = if j == k then some v else get k m

  unfoldable pub set : K → V → Dict K V → Dict K V
  set k v [] = (k, v) ∷ []
  set k v ((j, w) ∷ m) = if j == k then (j, v) ∷ m else (j, w) ∷ set k v m

  unfoldable pub delete : K → Dict K V → Dict K V
  delete k [] = []
  delete k ((j, w) ∷ m) = let rest = delete k m in if j == k then rest else (j, w) ∷ rest

  abbrev pub keys : Dict K V → List K
  keys [] = []
  keys ((j, w) ∷ m) = j ∷ keys m

  abbrev pub values : Dict K V → List V
  values [] = []
  values ((j, w) ∷ m) = w ∷ values m

  -- A `Map` holds each key once.
  abbrev pub IsMap : Dict K V → Type ℓ
  IsMap [] = Unit
  IsMap ((j, w) ∷ m) = All (λ i. i ≢ j) (keys m) × IsMap m

  pub get-set :
      (k j : K) (v : V) (m : Dict K V) → get j (set k v m) ≡ (if k == j then some v else get j m)
  unfolding get set
  get-set k j v [] = refl
  get-set k j v ((i, w) ∷ m) =
      ground (arith, e.equals_iff k j, e.equals_iff i k, e.equals_iff i j, get-set k j v m)

  pub get-delete :
      (k j : K) (m : Dict K V) → get j (delete k m) ≡ (if k == j then none else get j m)
  unfolding get delete
  get-delete k j [] = ground arith
  get-delete k j ((i, w) ∷ m) =
      ground (arith, e.equals_iff k j, e.equals_iff i k, e.equals_iff i j, get-delete k j m)

  pub get-set_self : (k : K) (v : V) (m : Dict K V) → get k (set k v m) ≡ some v
  get-set_self k v m = ground (arith, get-set k k v m, equals_refl k)

  pub get-set_ne : (k j : K) (v : V) (m : Dict K V) → k ≢ j → get j (set k v m) ≡ get j m
  get-set_ne k j v m h = ground (arith, get-set k j v m, e.equals_iff k j)

  -- Writing back what is read changes nothing.
  pub set-get : (k : K) (v : V) (m : Dict K V) → get k m ≡ some v → set k v m ≡ m
  unfolding get set
  set-get k v [] h = cc
  set-get k v ((i, w) ∷ m) h = ground (arith, set-get k v m)

  pub All-keys-set {κ'} :
      (P : K → Type κ') (k : K) (v : V) (m : Dict K V)
      → P k
      → All P (keys m)
      → All P (keys (set k v m))
  unfolding set
  All-keys-set P k v [] p h = (p, tt)
  All-keys-set P k v ((j, w) ∷ m) p (q, h) = elim (equals-cases j k) [
    | inl (e, same) ↦
        subst (λ b. All P (keys (if b then (j, v) ∷ m else (j, w) ∷ set k v m))) (sym e) (q, h)
    | inr (e, differ) ↦
        subst (λ b. All P (keys (if b then (j, v) ∷ m else (j, w) ∷ set k v m))) (sym e)
          (q, All-keys-set P k v m p h)
  ]

  All-keys-delete {κ'} :
      (P : K → Type κ') (k : K) (m : Dict K V) → All P (keys m) → All P (keys (delete k m))
  unfolding delete
  All-keys-delete P k [] h = tt
  All-keys-delete P k ((j, w) ∷ m) (q, h) = elim (equals-cases j k) [
    | inl (e, same) ↦
        subst (λ b. All P (keys (if b then delete k m else (j, w) ∷ delete k m))) (sym e)
          (All-keys-delete P k m h)
    | inr (e, differ) ↦
        subst (λ b. All P (keys (if b then delete k m else (j, w) ∷ delete k m))) (sym e)
          (q, All-keys-delete P k m h)
  ]

  pub set-IsMap : (k : K) (v : V) (m : Dict K V) → IsMap m → IsMap (set k v m)
  unfolding set
  set-IsMap k v [] h = (tt, tt)
  set-IsMap k v ((j, w) ∷ m) (apart, h) = elim (equals-cases j k) [
    | inl (e, same) ↦
        subst (λ b. IsMap (if b then (j, v) ∷ m else (j, w) ∷ set k v m)) (sym e) (apart, h)
    | inr (e, differ) ↦
        subst (λ b. IsMap (if b then (j, v) ∷ m else (j, w) ∷ set k v m)) (sym e)
          (All-keys-set (λ i. i ≢ j) k v m (λ same. differ (sym same)) apart, set-IsMap k v m h)
  ]

  pub delete-IsMap : (k : K) (m : Dict K V) → IsMap m → IsMap (delete k m)
  unfolding delete
  delete-IsMap k [] h = tt
  delete-IsMap k ((j, w) ∷ m) (apart, h) = elim (equals-cases j k) [
    | inl (e, same) ↦
        subst (λ b. IsMap (if b then delete k m else (j, w) ∷ delete k m)) (sym e)
          (delete-IsMap k m h)
    | inr (e, differ) ↦
        subst (λ b. IsMap (if b then delete k m else (j, w) ∷ delete k m)) (sym e)
          (All-keys-delete (λ i. i ≢ j) k m apart, delete-IsMap k m h)
  ]
