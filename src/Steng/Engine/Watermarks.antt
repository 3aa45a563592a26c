-- ===== src/Steng/Engine/Watermarks.antt =====
-- Merging the watermarks of a table and of a snapshot.
use netab.Common.{Option, none, some, ◌≡◌, refl, arith}
use netab.Steng.Types.{Watermark}
use netab.Steng.Engine.Snapshot.{merge_watermark}

merge_watermark_comm : (a b : Option Watermark) → merge_watermark a b ≡ merge_watermark b a
unfolding merge_watermark
merge_watermark_comm none none = refl
merge_watermark_comm none (some b) = refl
merge_watermark_comm (some a) none = refl
merge_watermark_comm (some a) (some b) = ground arith

merge_watermark_assoc :
    (a b c : Option Watermark)
    → merge_watermark (merge_watermark a b) c ≡ merge_watermark a (merge_watermark b c)
unfolding merge_watermark
merge_watermark_assoc none b c = refl
merge_watermark_assoc (some a) none c = refl
merge_watermark_assoc (some a) (some b) none = ground arith
merge_watermark_assoc (some a) (some b) (some c) = ground arith

merge_watermark_idem : (a : Option Watermark) → merge_watermark a a ≡ a
unfolding merge_watermark
merge_watermark_idem none = refl
merge_watermark_idem (some a) = ground arith

-- The order and the repetition of imports do not matter to the merged watermark: merging is
-- commutative, associative and idempotent, and no watermark is its neutral element.
pub merge_watermark_semilattice :
    (a b c : Option Watermark)
    → (merge_watermark a b ≡ merge_watermark b a)
      × (merge_watermark (merge_watermark a b) c ≡ merge_watermark a (merge_watermark b c))
      × (merge_watermark a a ≡ a)
      × (merge_watermark none a ≡ a)
      × (merge_watermark a none ≡ a)
unfolding merge_watermark
merge_watermark_semilattice a b c = (
  merge_watermark_comm a b,
  merge_watermark_assoc a b c,
  merge_watermark_idem a,
  refl,
  merge_watermark_comm a none,
)
