-- ===== src/Utils/Merge.antt =====
-- Deep merging, the meaning of a patch.
use netab.Common.{
  String, true, ◌&&◌, ◌||◌, if◌then◌else◌, ◌==◌, ◌≡◌, refl, sym, ap, ◌∙◌, subst, arith, string_eq,
  equals-cases, equals_refl, inl, inr,
}
use netab.Json.{
  Value, undefined, obj, Fields, end, field, get_prop, set_prop, is_record, HasNo,
  get_prop-set_prop, get_prop_of_HasNo,
}
use netab.Utils.{deep_merge, merge_entries, has_prop}

-- An object as JavaScript builds it: no key twice, at any depth that a merge can reach.
abbrev mutual
  pub IsProper : Value → Type 0
  IsProper (obj fs) = AreProper fs
  IsProper _ = Unit

  pub AreProper : Fields → Type 0
  AreProper end = Unit
  AreProper (field k v fs) = HasNo k fs × IsProper v × AreProper fs

-- What a property holds after the merge: the merge of two records, and else the patch's value.
merge_prop :
    (c v : Value) → (if is_record c && is_record v then deep_merge c v else v) ≡ deep_merge c v
unfolding deep_merge
merge_prop c (obj p) = ground arith
merge_prop c undefined = ground arith
merge_prop c _ = ground arith

merge_entries-cons :
    (t p : Fields) (k : String) (v : Value)
    → merge_entries t (field k v p) ≡ merge_entries (set_prop k (deep_merge (get_prop k t) v) t) p
unfolding deep_merge
merge_entries-cons t p k v =
    ap (λ w. merge_entries (set_prop k w t) p) (merge_prop (get_prop k t) v)

has_prop-set_prop :
    (k j : String) (v : Value) (t : Fields) → has_prop j (set_prop k v t) ≡ (k == j || has_prop j t)
unfolding has_prop set_prop
has_prop-set_prop k j v end = refl
has_prop-set_prop k j v (field i w t) = ground (
  arith,
  string_eq.equals_iff k j,
  string_eq.equals_iff i k,
  string_eq.equals_iff i j,
  has_prop-set_prop k j v t,
)

get_prop-merge_of_HasNo :
    (k : String) (p t : Fields) → HasNo k p → get_prop k (merge_entries t p) ≡ get_prop k t
unfolding deep_merge
get_prop-merge_of_HasNo k end t h = refl
get_prop-merge_of_HasNo k (field j v p) t h = rw (merge_entries-cons t p j v) (
    get_prop-merge_of_HasNo k p _ h.1
    ∙ ground (arith, get_prop-set_prop j k (deep_merge (get_prop j t) v) t))

-- A deep merge as seen through one property of the result, for a patch whose keys are distinct:
-- a property that the patch has is merged with the target's, and any other is the target's.
pub get_prop-merge_entries :
    (k : String) (p t : Fields)
    → AreProper p
    → get_prop k (merge_entries t p)
      ≡ (if has_prop k p then deep_merge (get_prop k t) (get_prop k p) else get_prop k t)
unfolding deep_merge has_prop get_prop
get_prop-merge_entries k end t h = refl
get_prop-merge_entries k (field j v p) t (fresh, h, hs) = elim (equals-cases j k) [
  | inl (same, e) ↦
      rw (merge_entries-cons t p j v, same)
        (get_prop-merge_of_HasNo k p _ (subst (λ i. HasNo i p) e fresh)
          ∙ ground (arith, get_prop-set_prop j k (deep_merge (get_prop j t) v) t))
  | inr (other, ne) ↦
      rw (merge_entries-cons t p j v, other)
        (ground (
          arith,
          get_prop-merge_entries k p (set_prop j (deep_merge (get_prop j t) v) t) hs,
          get_prop-set_prop j k (deep_merge (get_prop j t) v) t,
        ))
]

-- What the patch holds is there already, and merging it again would give the same value.
abbrev Absorbs : Fields → Fields → Type 0
Absorbs t end = Unit
Absorbs t (field k v p) =
    (has_prop k t ≡ true) × (deep_merge (get_prop k t) v ≡ get_prop k t) × Absorbs t p

set_prop-get_prop :
    (k : String) (t : Fields) → has_prop k t ≡ true → set_prop k (get_prop k t) t ≡ t
unfolding set_prop get_prop has_prop
set_prop-get_prop k end h = cc
set_prop-get_prop k (field j v t) h = ground (arith, set_prop-get_prop k t)

merge_of_Absorbs : (t p : Fields) → Absorbs t p → merge_entries t p ≡ t
unfolding deep_merge
merge_of_Absorbs t end h = refl
merge_of_Absorbs t (field k v p) (here, same, h) =
    merge_entries-cons t p k v ∙ rw (same, set_prop-get_prop k t here) (merge_of_Absorbs t p h)

has_prop-merge :
    (k : String) (p t : Fields) → has_prop k t ≡ true → has_prop k (merge_entries t p) ≡ true
unfolding deep_merge
has_prop-merge k end t h = h
has_prop-merge k (field j v p) t h =
    rw (merge_entries-cons t p j v)
      (has_prop-merge k p _ (ground (arith, has_prop-set_prop j k (deep_merge (get_prop j t) v) t)))

has_prop-set_self : (k : String) (v : Value) (t : Fields) → has_prop k (set_prop k v t) ≡ true
has_prop-set_self k v t = ground (arith, has_prop-set_prop k k v t, equals_refl k)

get_prop-set_self : (k : String) (v : Value) (t : Fields) → get_prop k (set_prop k v t) ≡ v
get_prop-set_self k v t = ground (arith, get_prop-set_prop k k v t, equals_refl k)

append_fields : Fields → Fields → Fields
append_fields end q = q
append_fields (field k v p) q = field k v (append_fields p q)

HasNo-append : (k : String) (p q : Fields) → HasNo k p → HasNo k q → HasNo k (append_fields p q)
unfolding append_fields
HasNo-append k end q h i = i
HasNo-append k (field j v p) q h i = (h.0, HasNo-append k p q h.1 i)

set_prop_new :
    (k : String) (v : Value) (t : Fields)
    → HasNo k t
    → set_prop k v t ≡ append_fields t (field k v end)
unfolding set_prop append_fields
set_prop_new k v end h = refl
set_prop_new k v (field j w t) h = ground (arith, set_prop_new k v t h.1)

append_fields_assoc :
    (p q r : Fields) → append_fields (append_fields p q) r ≡ append_fields p (append_fields q r)
unfolding append_fields
append_fields_assoc end q r = refl
append_fields_assoc (field k v p) q r = ap (field k v) (append_fields_assoc p q r)

abbrev AreNew : Fields → Fields → Type 0
AreNew t end = Unit
AreNew t (field k v p) = HasNo k t × AreNew t p

AreNew-append :
    (t p : Fields) (k : String) (v : Value)
    → AreNew t p
    → HasNo k p
    → AreNew (append_fields t (field k v end)) p
AreNew-append t end k v h i = tt
AreNew-append t (field j w p) k v (new, h) (ne, i) = (
  HasNo-append j t _ new (ground (arith, string_eq.equals_iff k j, string_eq.equals_iff j k), tt),
  AreNew-append t p k v h i,
)

append_fields-end : (t : Fields) → append_fields t end ≡ t
unfolding append_fields
append_fields-end end = refl
append_fields-end (field k v t) = ap (field k v) (append_fields-end t)

deep_merge-undefined : (v : Value) → deep_merge undefined v ≡ v
unfolding deep_merge
deep_merge-undefined (obj p) = refl
deep_merge-undefined _ = refl

-- Merging entries that are all new appends them.
merge_new : (p t : Fields) → AreProper p → AreNew t p → merge_entries t p ≡ append_fields t p
unfolding deep_merge
merge_new end t h i = sym (append_fields-end t)
merge_new (field k v p) t (fresh, h, hs) (new, i) =
    merge_entries-cons t p k v
    ∙ rw (get_prop_of_HasNo k t new, deep_merge-undefined v, set_prop_new k v t new)
        (merge_new p _ hs (AreNew-append t p k v i fresh)
          ∙ append_fields_assoc t (field k v end) p
          ∙ ap (append_fields t) (unfold append_fields in refl))

AreNew-end : (p : Fields) → AreNew end p
AreNew-end end = tt
AreNew-end (field k v p) = (tt, AreNew-end p)

merge_end : (p : Fields) → AreProper p → merge_entries end p ≡ p
unfolding append_fields
merge_end p h = merge_new p end h (AreNew-end p)

mutual
  unfolding deep_merge

  merge_again : (v c : Value) → IsProper v → deep_merge (deep_merge c v) v ≡ deep_merge c v
  merge_again (obj p) (obj t) h = ap obj (merge_of_Absorbs _ p (merge-Absorbs p t h))
  merge_again (obj p) _ h =
      ap obj
        (merge_of_Absorbs p p (subst (λ t. Absorbs t p) (merge_end p h) (merge-Absorbs p end h)))
  merge_again _ c h = refl

  merge-Absorbs : (p t : Fields) → AreProper p → Absorbs (merge_entries t p) p
  merge-Absorbs end t h = tt
  merge-Absorbs (field k v p) t (fresh, h, hs) = (
    rw (merge_entries-cons t p k v)
        (has_prop-merge k p _ (has_prop-set_self k (deep_merge (get_prop k t) v) t)),
    rw
        (
          merge_entries-cons t p k v,
          get_prop-merge_of_HasNo k p (set_prop k (deep_merge (get_prop k t) v) t) fresh,
          get_prop-set_self k (deep_merge (get_prop k t) v) t,
        )
        (merge_again v (get_prop k t) h),
    subst (λ r. Absorbs r p) (sym (merge_entries-cons t p k v)) (merge-Absorbs p _ hs),
  )

-- A patch whose objects repeat no key may be applied twice: the second time changes nothing.
pub deep_merge_idempotent :
    (target patch : Value)
    → IsProper patch
    → deep_merge (deep_merge target patch) patch ≡ deep_merge target patch
deep_merge_idempotent target patch h = merge_again patch target h
