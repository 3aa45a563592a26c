-- ===== src/Steng/IdGeneration/Time.antt =====
-- The digits of the time in an id.
use netab.Common.{
  ℕ, zero, suc, ◌+◌, ◌*◌, ◌/◌, ◌%◌, ◌^◌, ◌<◌, List, [], ◌∷◌, ◌++◌, ◌≡◌, refl, ◌∙◌, arith, length,
  length-append, All, All-append,
}
use netab.Steng.IdGeneration.{encode_time}

-- The number that digits to the base 32 stand for.
abbrev pub digits_value : ℕ → List ℕ → ℕ
digits_value acc [] = acc
digits_value acc (d ∷ ds) = digits_value (acc * 32 + d) ds

digits_value-append :
    (acc d : ℕ) (ds : List ℕ) → digits_value acc (ds ++ d ∷ []) ≡ digits_value acc ds * 32 + d
digits_value-append acc d [] = refl
digits_value-append acc d (e ∷ ds) = digits_value-append (acc * 32 + e) d ds

power-suc : (n : ℕ) → 32 ^ suc n ≡ 32 ^ n * 32
power-suc n = omega arith

shrink_bound : (value bound : ℕ) → value < bound * 32 → value / 32 < bound
shrink_bound value bound h = omega arith

-- The time of an id can be read back: `encodeTime` gives as many digits as are asked for, each below
-- 32, and they stand for the time, if it is below 32 to the power of their number.
pub encode_time_lem :
    (value n : ℕ)
    → value < 32 ^ n
    → (length (encode_time value n) ≡ n)
      × All (λ d. d < 32) (encode_time value n)
      × (digits_value 0 (encode_time value n) ≡ value)
unfolding encode_time
encode_time_lem value zero h = (refl, tt, omega arith)
encode_time_lem value (suc n) h =
    let (count, small, back) =
      encode_time_lem (value / 32) n (shrink_bound value (32 ^ n) (omega (arith, power-suc n))) in
    (
      omega (arith, count, length-append (encode_time (value / 32) n) (value % 32 ∷ [])),
      All-append (λ d. d < 32) (encode_time (value / 32) n) (value % 32 ∷ []) small
          (omega arith, tt),
      digits_value-append 0 (value % 32) (encode_time (value / 32) n) ∙ omega (arith, back),
    )
