-- ===== src/Common/Texts.antt =====
-- The string methods that the source calls.
use Prim.Native.Nat.{ℕ, zero, suc, ◌+◌, ◌-◌, ◌/◌, ◌%◌}
use Prim.Native.Char.{Char, code}
use Prim.Native.String
use Prim.Native.String.{String, [], ◌∷◌}
use mathlib.Core.Path.{◌≡◌, refl}
use mathlib.Core.Bool.{Bool, true, false, ◌||◌}
use mathlib.Core.List.{List}
use text.Mathlib.Text.{starts_with}
use text.Mathlib.TextLemmas.{nil-append, cons-append, append_cancel_left}
use native.Mathlib.Omega.{arith}
use netab.Common.Tests.{if◌then◌else◌, ltb, ◌==◌, nat_eq, string_eq}

-- `a + b` of two strings, as a template literal writes it.
infixr 66 ◌⋅◌
abbrev pub ◌⋅◌ : String → String → String
◌⋅◌ = String.◌++◌

-- `s[n]`, as a text of one character.
unfoldable pub char_text : String → ℕ → String
char_text [] n = ""
char_text (c ∷ s) zero = c ∷ []
char_text (c ∷ s) (suc n) = char_text s n

abbrev digit_text : ℕ → String
digit_text = char_text "0123456789abcdefghijklmnopqrstuvwxyz"

-- The fuel is above the number, and so above the count of its digits.
radix_fuel : ℕ → ℕ → ℕ → String
radix_fuel zero base n = ""
radix_fuel (suc f) base n =
    let more = radix_fuel f base (n / base) ⋅ digit_text (n % base) in
    if n / base == 0 then digit_text (n % base) else more

-- `n.toString(base)` of a non-negative integer.
unfoldable pub radix_text : ℕ → ℕ → String
unfolding radix_fuel char_text
radix_text base n = radix_fuel (suc n) base n

-- `String(n)`.
unfoldable pub decimal : ℕ → String
unfolding radix_text
decimal = radix_text 10

-- `s.includes(part)`.
unfoldable pub has_text : String → String → Bool
has_text [] part = starts_with [] part
has_text (c ∷ s) part = starts_with (c ∷ s) part || has_text s part

add_char : Char → List String → List String
add_char c List.[] = List.◌∷◌ (c ∷ []) List.[]
add_char c (List.◌∷◌ part parts) = List.◌∷◌ (c ∷ part) parts

-- `s.split(sep)` for a separator of one character, given by its code.
unfoldable pub split : ℕ → String → List String
unfolding add_char
split sep [] = List.◌∷◌ "" List.[]
split sep (c ∷ s) =
    let parts = split sep s in if code c == sep then List.◌∷◌ "" parts else add_char c parts

-- `s.slice(n)` where `n` is the length of a prefix of `s`.
unfoldable pub drop_text : ℕ → String → String
drop_text zero s = s
drop_text (suc n) [] = []
drop_text (suc n) (c ∷ s) = drop_text n s

-- The code units of a string, by which `sort` orders strings.
units_of : Char → List ℕ → List ℕ
units_of c rest =
    if ltb (code c) 65536
    then List.◌∷◌ (code c) rest
    else List.◌∷◌ (55296 + (code c - 65536) / 1024)
        (List.◌∷◌ (56320 + (code c - 65536) % 1024) rest)

code_units : String → List ℕ
unfolding units_of
code_units [] = List.[]
code_units (c ∷ s) = units_of c (code_units s)

units_le : List ℕ → List ℕ → Bool
units_le List.[] ys = true
units_le (List.◌∷◌ x xs) List.[] = false
units_le (List.◌∷◌ x xs) (List.◌∷◌ y ys) =
    let rest = units_le xs ys in if x == y then rest else ltb x y

unfoldable pub string_le : String → String → Bool
unfolding code_units units_le
string_le a b = units_le (code_units a) (code_units b)

-- `s.slice(prefix.length)`.
unfoldable pub slice_after : String → String → String
slice_after [] s = s
slice_after (c ∷ prefix) [] = []
slice_after (c ∷ prefix) (d ∷ s) = slice_after prefix s

pub slice_after-append : (prefix s : String) → slice_after prefix (prefix ⋅ s) ≡ s
unfolding slice_after
slice_after-append [] s = nil-append s
slice_after-append (c ∷ prefix) s = rw (cons-append c prefix s) (slice_after-append prefix s)

-- Two texts after one prefix are equal if they are.
pub equals-prefix : (prefix s t : String) → (prefix ⋅ s == prefix ⋅ t) ≡ (s == t)
equals-prefix prefix s t = ground (
  arith,
  string_eq.equals_iff (prefix ⋅ s) (prefix ⋅ t),
  string_eq.equals_iff s t,
  append_cancel_left prefix s t,
)

decimal_test : decimal 4096 ≡ "4096"
unfolding decimal
decimal_test = refl

radix_test : radix_text 36 46655 ≡ "zzz"
unfolding radix_text
radix_test = refl
