-- ===== src/Steng/Engine/Sorting.antt =====
-- Documents with ids of their own, sorted.
use netab.Common.{
  String, Bool, List, [], ◌∷◌, Option, none, some, Dict, get, values, keys, All, insert_by, sort_by,
  ◌≡◌, ◌≢◌, refl, sym, ◌∙◌, subst, arith, string_eq, if◌then◌else◌, ◌==◌, inl, inr, Bool-cases,
}
use netab.Steng.Engine.{StoredDoc}
use netab.Steng.Engine.Stores.{Keyed, IsStore}

abbrev pub find_doc : String → List StoredDoc → Option StoredDoc
find_doc id [] = none
find_doc id (doc ∷ docs) = let rest = find_doc id docs in if doc.id == id then some doc else rest

abbrev pub Lacks : String → List StoredDoc → Type 0
Lacks id = All (λ (doc : StoredDoc). doc.id ≢ id)

-- No two documents have the same id.
abbrev pub AreDistinct : List StoredDoc → Type 0
AreDistinct [] = Unit
AreDistinct (doc ∷ docs) = Lacks doc.id docs × AreDistinct docs

module _ (le : StoredDoc → StoredDoc → Bool) where
  Lacks-insert :
      (id : String) (doc : StoredDoc) (docs : List StoredDoc)
      → doc.id ≢ id
      → Lacks id docs
      → Lacks id (insert_by le doc docs)
  unfolding insert_by
  Lacks-insert id doc [] other h = (other, tt)
  Lacks-insert id doc (x ∷ xs) other (p, h) = elim (Bool-cases (le doc x)) [
    | inl first ↦
        subst (λ b. Lacks id (if b then doc ∷ x ∷ xs else x ∷ insert_by le doc xs)) (sym first)
          (other, (p, h))
    | inr later ↦
        subst (λ b. Lacks id (if b then doc ∷ x ∷ xs else x ∷ insert_by le doc xs)) (sym later)
          (p, Lacks-insert id doc xs other h)
  ]

  AreDistinct-insert :
      (doc : StoredDoc) (docs : List StoredDoc)
      → Lacks doc.id docs
      → AreDistinct docs
      → AreDistinct (insert_by le doc docs)
  unfolding insert_by
  AreDistinct-insert doc [] l d = (tt, tt)
  AreDistinct-insert doc (x ∷ xs) (p, l) (q, d) = elim (Bool-cases (le doc x)) [
    | inl first ↦
        subst (λ b. AreDistinct (if b then doc ∷ x ∷ xs else x ∷ insert_by le doc xs)) (sym first)
          ((p, l), (q, d))
    | inr later ↦
        subst (λ b. AreDistinct (if b then doc ∷ x ∷ xs else x ∷ insert_by le doc xs)) (sym later)
          (Lacks-insert x.id doc xs (λ e. p (sym e)) q, AreDistinct-insert doc xs l d)
  ]

  find-insert :
      (id : String) (doc : StoredDoc) (docs : List StoredDoc)
      → Lacks doc.id docs
      → find_doc id (insert_by le doc docs) ≡ (if doc.id == id then some doc else find_doc id docs)
  unfolding insert_by
  find-insert id doc [] l = refl
  find-insert id doc (x ∷ xs) (p, l) = ground (
    arith,
    p,
    find-insert id doc xs l,
    string_eq.equals_iff doc.id id,
    string_eq.equals_iff x.id id,
  )

  Lacks-sort : (id : String) (docs : List StoredDoc) → Lacks id docs → Lacks id (sort_by le docs)
  unfolding sort_by
  Lacks-sort id [] h = tt
  Lacks-sort id (x ∷ xs) (p, h) = Lacks-insert id x (sort_by le xs) p (Lacks-sort id xs h)

  pub AreDistinct-sort : (docs : List StoredDoc) → AreDistinct docs → AreDistinct (sort_by le docs)
  unfolding sort_by
  AreDistinct-sort [] d = tt
  AreDistinct-sort (x ∷ xs) (l, d) =
      AreDistinct-insert x (sort_by le xs) (Lacks-sort x.id xs l) (AreDistinct-sort xs d)

  pub find-sort :
      (id : String) (docs : List StoredDoc)
      → AreDistinct docs
      → find_doc id (sort_by le docs) ≡ find_doc id docs
  unfolding sort_by
  find-sort id [] d = refl
  find-sort id (x ∷ xs) (l, d) =
      find-insert id x (sort_by le xs) (Lacks-sort x.id xs l) ∙ ground (arith, find-sort id xs d)

pub find-values :
    (id : String) (m : Dict String StoredDoc) → Keyed m → find_doc id (values m) ≡ get id m
unfolding get
find-values id [] k = refl
find-values id ((i, w) ∷ m) (own, k) = ground (arith, own, find-values id m k)

Lacks-values :
    (id : String) (m : Dict String StoredDoc)
    → All (λ i. i ≢ id) (keys m)
    → Keyed m
    → Lacks id (values m)
Lacks-values id [] h k = tt
Lacks-values id ((i, w) ∷ m) (p, h) (own, k) = ((λ e. p (sym own ∙ e)), Lacks-values id m h k)

pub AreDistinct-values : (m : Dict String StoredDoc) → IsStore m → AreDistinct (values m)
AreDistinct-values [] s = tt
AreDistinct-values ((i, w) ∷ m) ((apart, is_map), (own, k)) = (
  Lacks-values w.id m (subst (λ j. All (λ l. l ≢ j) (keys m)) (sym own) apart) k,
  AreDistinct-values m (is_map, k),
)
