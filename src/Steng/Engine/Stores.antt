-- ===== src/Steng/Engine/Stores.antt =====
-- Stores in which each document stands once, under its own id.
use netab.Common.{
  String, Bool, false, [], ◌∷◌, Option, none, some, Dict, get, set, keys, values, keep, map,
  includes, All, IsMap, ◌≡◌, ◌≢◌, refl, sym, ◌∙◌, subst, arith, string_eq, nat_eq, if◌then◌else◌,
  equals-cases, inl, inr, All-keys-set,
}
use netab.Steng.Engine.{StoredDoc}

abbrev pub Keyed : Dict String StoredDoc → Type 0
Keyed [] = Unit
Keyed ((k, doc) ∷ m) = (doc.id ≡ k) × Keyed m

abbrev pub IsStore : Dict String StoredDoc → Type 0
IsStore m = IsMap m × Keyed m

pub set-IsStore :
    (k : String) (doc : StoredDoc) (m : Dict String StoredDoc)
    → doc.id ≡ k
    → IsStore m
    → IsStore (set k doc m)
unfolding set
set-IsStore k doc [] own s = ((tt, tt), (own, tt))
set-IsStore k doc ((j, w) ∷ m) own ((apart, is_map), (there, keyed)) = elim (equals-cases j k) [
  | inl (e, same) ↦
      subst (λ b. IsStore (if b then (j, doc) ∷ m else (j, w) ∷ set k doc m)) (sym e)
        ((apart, is_map), (own ∙ sym same, keyed))
  | inr (e, differ) ↦
      let (is_map', keyed') = set-IsStore k doc m own (is_map, keyed) in
      subst (λ b. IsStore (if b then (j, doc) ∷ m else (j, w) ∷ set k doc m)) (sym e)
        ((All-keys-set (λ i. i ≢ j) k doc m (λ h. differ (sym h)) apart, is_map'), (there, keyed'))
]

abbrev pub selected : (StoredDoc → Bool) → Option StoredDoc → Bool
selected p none = false
selected p (some doc) = p doc

get_apart : (j : String) (m : Dict String StoredDoc) → All (λ i. i ≢ j) (keys m) → get j m ≡ none
unfolding get
get_apart j [] h = refl
get_apart j ((i, w) ∷ m) (differ, h) = ground (arith, get_apart j m h, string_eq.equals_iff i j)

-- The ids of the documents that a test selects.
pub includes-selected :
    (p : StoredDoc → Bool) (j : String) (m : Dict String StoredDoc)
    → IsStore m
    → includes (map (λ (doc : StoredDoc). doc.id) (keep p (values m))) j ≡ selected p (get j m)
unfolding get
includes-selected p j [] s = refl
includes-selected p j ((i, w) ∷ m) ((apart, is_map), (own, keyed)) = elim (equals-cases i j) [
  | inl (e, same) ↦ ground (
    arith,
    includes-selected p j m (is_map, keyed),
    get_apart j m (subst (λ k. All (λ i. i ≢ k) (keys m)) same apart),
    string_eq.equals_iff w.id j,
  )
  | inr (e, differ) ↦
      ground (arith, includes-selected p j m (is_map, keyed), string_eq.equals_iff w.id j)
]
