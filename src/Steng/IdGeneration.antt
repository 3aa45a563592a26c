-- ===== src/Steng/IdGeneration.antt =====
-- src/steng/engine/id_generation.ts. Texts are built from digits, the indices into the alphabet.
pub mod Time
pub mod Tokens
use Prim.Native.Char.{Char, code}
use netab.Common.{
  ℕ, zero, suc, ◌+◌, ◌-◌, ◌*◌, ◌/◌, ◌%◌, ◌^◌, String, Bool, true, false, List, [], ◌∷◌, ◌++◌, ◌&&◌,
  ◌||◌, if◌then◌else◌, ◌==◌, nat_eq, leb, take, ◌⋅◌, char_text, ◌≡◌, refl,
}

abbrev pub crockford32 : String
crockford32 = "0123456789ABCDEFGHJKMNPQRSTVWXYZ"

unfoldable pub digits_text : List ℕ → String
digits_text [] = ""
digits_text (d ∷ ds) = char_text crockford32 d ⋅ digits_text ds

-- `value << 8 | byte` in 32 bits.
abbrev pub shift_in : ℕ → ℕ → ℕ
shift_in value byte = (value * 256 + byte) % 2 ^ 32

-- The inner loop: digits are taken while five bits are at hand. At most 12 bits are, so two
-- rounds are enough; `rounds` counts down those that are left.
unfoldable pub take_digits : ℕ → ℕ → ℕ → List ℕ × ℕ
take_digits zero value bits = ([], bits)
take_digits (suc rounds) value bits =
    let (ds, left) = take_digits rounds value (bits - 5) in
    let more : List ℕ × ℕ = ((value / 2 ^ (bits - 5) % 32) ∷ ds, left) in
    if leb 5 bits then more else ([], bits)

-- The loop over the bytes, and the padded digit for the bits that are left over.
unfoldable pub crockford_digits : List ℕ → ℕ → ℕ → List ℕ
unfolding take_digits
crockford_digits [] value bits = if bits == 0 then [] else (value * 2 ^ (5 - bits) % 32) ∷ []
crockford_digits (byte ∷ bytes) value bits =
    let next = shift_in value byte in
    let (ds, left) = take_digits 2 next (bits + 8) in ds ++ crockford_digits bytes next left

unfoldable pub encode_crockford : List ℕ → List ℕ
unfolding crockford_digits
encode_crockford bytes = crockford_digits bytes 0 0

-- The digits of the time, the least significant one last.
unfoldable pub encode_time : ℕ → ℕ → List ℕ
encode_time value zero = []
encode_time value (suc length) = encode_time (value / 32) length ++ (value % 32) ∷ []

-- `generateUlid(timeMs)`, with the random bytes that it draws.
unfoldable pub generate_ulid : ℕ → List ℕ → String
generate_ulid time_ms random =
    digits_text (encode_time time_ms 10) ⋅ digits_text (take 16 (encode_crockford random))

is_digit : ℕ → Bool
is_digit c = leb b'0' c && leb c b'9'

is_lower : ℕ → Bool
is_lower c = leb b'a' c && leb c b'z'

unfoldable pub is_token_char : ℕ → Bool
unfolding is_digit is_lower
is_token_char c = is_digit c || is_lower c

lower_char : Char → String
unfolding char_text
lower_char c =
    if leb b'A' (code c) && leb (code c) b'Z'
    then char_text "abcdefghijklmnopqrstuvwxyz" (code c - b'A')
    else String.◌∷◌ c String.[]

-- `.toLowerCase()`; letters outside ASCII stay, and are no token characters.
unfoldable pub to_lower : String → String
unfolding lower_char
to_lower String.[] = ""
to_lower (String.◌∷◌ c s) = lower_char c ⋅ to_lower s

-- `.replace(/[^a-z0-9]+/g, '_')`: `gap` says that the character before was replaced.
unfoldable pub replace_gaps : Bool → String → String
unfolding is_token_char
replace_gaps gap String.[] = ""
replace_gaps gap (String.◌∷◌ c s) =
    let kept = String.◌∷◌ c (replace_gaps false s) in
    let rest = replace_gaps true s in
    if is_token_char (code c) then kept else if gap then rest else "_" ⋅ rest

-- `.replace(/^_+|_+$/g, '')`, the one end after the other.
unfoldable pub strip_left : String → String
strip_left String.[] = ""
strip_left (String.◌∷◌ c s) =
    let rest = strip_left s in if code c == b'_' then rest else String.◌∷◌ c s

push_back : Char → String → String
push_back c String.[] = if code c == b'_' then "" else String.◌∷◌ c String.[]
push_back c (String.◌∷◌ d s) = String.◌∷◌ c (String.◌∷◌ d s)

unfoldable pub strip_right : String → String
unfolding push_back
strip_right String.[] = ""
strip_right (String.◌∷◌ c s) = push_back c (strip_right s)

or_else : String → String → String
or_else String.[] fallback = fallback
or_else (String.◌∷◌ c s) fallback = String.◌∷◌ c s

-- The trimming before comes to nothing: white space is replaced, and stripped at the ends.
unfoldable pub sanitize_id_token : String → String → String
unfolding strip_right strip_left replace_gaps to_lower or_else
sanitize_id_token value fallback =
    or_else (strip_right (strip_left (replace_gaps false (to_lower value)))) fallback

unfoldable pub default_id_prefix : String → String
unfolding sanitize_id_token
default_id_prefix table_name = sanitize_id_token table_name "obj"

-- `deriveClusterShort`, from the digest of the cluster's id.
unfoldable pub derive_cluster_short : List ℕ → ℕ → String
unfolding to_lower
derive_cluster_short digest length = to_lower (digits_text (take length (encode_crockford digest)))

unfoldable pub generate_distributed_id : String → String → ℕ → List ℕ → String
unfolding sanitize_id_token generate_ulid digits_text encode_time encode_crockford
generate_distributed_id prefix cluster_short now_ms random =
    sanitize_id_token prefix "obj"
    ⋅ "_"
    ⋅ sanitize_id_token cluster_short "local"
    ⋅ "_"
    ⋅ generate_ulid now_ms random

sanitize_test : sanitize_id_token "  Menu -- Items! " "obj" ≡ "menu_items"
unfolding sanitize_id_token
sanitize_test = refl

ulid_test :
    generate_ulid 1700000000000 (255 ∷ 0 ∷ 1 ∷ 2 ∷ 3 ∷ 4 ∷ 5 ∷ 6 ∷ 7 ∷ 8 ∷ [])
    ≡ "01HF7YAT00ZW0020G30G2GC1R8"
unfolding generate_ulid digits_text char_text encode_time encode_crockford
ulid_test = refl
