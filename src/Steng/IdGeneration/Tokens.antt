-- ===== src/Steng/IdGeneration/Tokens.antt =====
-- The characters of a sanitized token.
use Prim.Native.Char.{Char, char, code}
use text.Mathlib.TextLemmas.{cons-append, nil-append}
use netab.Common.{
  ℕ, String, Bool, true, false, ◌&&◌, ◌||◌, if◌then◌else◌, ◌==◌, nat_eq, ◌⋅◌, ◌≡◌, refl, ap, ◌∙◌,
  subst, sym, arith, Bool-cases, inl, inr,
}
use netab.Steng.IdGeneration.{
  is_token_char, replace_gaps, strip_left, push_back, strip_right, or_else, to_lower,
  sanitize_id_token,
}

-- A digit, a lower-case letter or an underscore.
abbrev pub is_part : ℕ → Bool
is_part c = is_token_char c || c == b'_'

abbrev pub all_parts : String → Bool
all_parts String.[] = true
all_parts (String.◌∷◌ c s) = is_part (code c) && all_parts s

underscore : (s : String) → all_parts s ≡ true → all_parts ("_" ⋅ s) ≡ true
unfolding is_token_char
underscore s h =
    ap all_parts (cons-append (char 95 tt) "" s ∙ ap (String.◌∷◌ (char 95 tt)) (nil-append s)) ∙ h

all_parts-replace_gaps : (gap : Bool) (s : String) → all_parts (replace_gaps gap s) ≡ true
unfolding replace_gaps
all_parts-replace_gaps gap String.[] = refl
all_parts-replace_gaps gap (String.◌∷◌ c s) = ground (
  arith,
  all_parts-replace_gaps false s,
  all_parts-replace_gaps true s,
  underscore (replace_gaps true s),
)

all_parts-strip_left : (s : String) → all_parts s ≡ true → all_parts (strip_left s) ≡ true
unfolding strip_left
all_parts-strip_left String.[] h = refl
all_parts-strip_left (String.◌∷◌ c s) h = ground (arith, h, all_parts-strip_left s)

all_parts-push_back :
    (c : Char) (s : String)
    → is_part (code c) ≡ true
    → all_parts s ≡ true
    → all_parts (push_back c s) ≡ true
unfolding push_back
all_parts-push_back c String.[] p h = elim (Bool-cases (code c == b'_')) [
  | inl gap ↦
      subst (λ b. all_parts (if b then "" else String.◌∷◌ c String.[]) ≡ true) (sym gap) refl
  | inr kept ↦
      subst (λ b. all_parts (if b then "" else String.◌∷◌ c String.[]) ≡ true) (sym kept)
        (ground (arith, p))
]
all_parts-push_back c (String.◌∷◌ d s) p h = ground (arith, p, h)

all_parts-strip_right : (s : String) → all_parts s ≡ true → all_parts (strip_right s) ≡ true
unfolding strip_right
all_parts-strip_right String.[] h = refl
all_parts-strip_right (String.◌∷◌ c s) h =
    ground (arith, h, all_parts-strip_right s, all_parts-push_back c (strip_right s))

all_parts-or_else :
    (s fallback : String)
    → all_parts s ≡ true
    → all_parts fallback ≡ true
    → all_parts (or_else s fallback) ≡ true
unfolding or_else
all_parts-or_else String.[] fallback h k = k
all_parts-or_else (String.◌∷◌ c s) fallback h k = h

-- A sanitized token has digits, lower-case letters and underscores only, whatever it was made of, if
-- that is true of the fallback.
pub all_parts-sanitize_id_token :
    (value fallback : String)
    → all_parts fallback ≡ true
    → all_parts (sanitize_id_token value fallback) ≡ true
unfolding sanitize_id_token
all_parts-sanitize_id_token value fallback h =
    let gaps = replace_gaps false (to_lower value) in
    all_parts-or_else (strip_right (strip_left gaps)) fallback
      (all_parts-strip_right (strip_left gaps)
        (all_parts-strip_left gaps (all_parts-replace_gaps false (to_lower value))))
      h
