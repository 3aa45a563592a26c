-- ===== src/Json.antt =====
-- The `unknown` values of the source: JSON, with `undefined`. Numbers are the non-negative
-- integers, the only ones that the program itself makes; an object lists its own properties in
-- insertion order.
use netab.Common.{
  ℕ, suc, String, Bool, true, false, List, [], ◌∷◌, ◌≡◌, refl, Dict, if◌then◌else◌, ◌==◌, ◌⋅◌,
  decimal, not, nat_eq, string_eq, arith,
}

mutual
  pub data Value : Type 0 where
    undefined : Value
    null : Value
    bool : Bool → Value
    num : ℕ → Value
    str : String → Value
    arr : Items → Value
    obj : Fields → Value

  pub data Fields : Type 0 where
    end : Fields
    field : String → Value → Fields → Fields

  pub data Items : Type 0 where
    nil : Items
    cons : Value → Items → Items

abbrev pub items : Items → List Value
items nil = []
items (cons v vs) = v ∷ items vs

abbrev pub entries : Fields → Dict String Value
entries end = []
entries (field k v fs) = (k, v) ∷ entries fs

-- `o[k]` and `o[k] = v` for an object's own properties.
unfoldable pub get_prop : String → Fields → Value
get_prop k end = undefined
get_prop k (field j v fs) = if j == k then v else get_prop k fs

unfoldable pub set_prop : String → Value → Fields → Fields
set_prop k v end = field k v end
set_prop k v (field j w fs) = if j == k then field j v fs else field j w (set_prop k v fs)

-- The keys, and that no key is there twice, as in every object.
abbrev pub HasNo : String → Fields → Type 0
HasNo k end = Unit {0}
HasNo k (field j v fs) = ((j == k) ≡ false) × HasNo k fs

-- An array's own properties: its length, and its elements under their indices.
element : ℕ → String → Items → Value
element i k nil = undefined
element i k (cons v vs) = if decimal i == k then v else element (suc i) k vs

count_items : Items → ℕ
count_items nil = 0
count_items (cons v vs) = suc (count_items vs)

unfoldable pub get_item : String → Items → Value
unfolding element count_items
get_item k vs = if k == "length" then num (count_items vs) else element 0 k vs

-- `typeof value === 'object' && value !== null && !Array.isArray(value)`.
abbrev pub is_record : Value → Bool
is_record (obj fs) = true
is_record _ = false

-- The properties of a record; none of any other value.
abbrev pub fields_of : Value → Fields
fields_of (obj fs) = fs
fields_of _ = end

-- `===`. An array or object is equal only to itself, and a stored value is a clone that nothing
-- outside refers to, so two of them are never equal here.
unfoldable pub strict_eq : Value → Value → Bool
strict_eq undefined undefined = true
strict_eq null null = true
strict_eq (bool true) (bool true) = true
strict_eq (bool false) (bool false) = true
strict_eq (num a) (num b) = a == b
strict_eq (str a) (str b) = a == b
strict_eq _ _ = false

-- Whether a value counts as true in a condition.
unfoldable pub is_truthy : Value → Bool
is_truthy undefined = false
is_truthy null = false
is_truthy (bool b) = b
is_truthy (num n) = not (n == 0)
is_truthy (str s) = not (s == "")
is_truthy _ = true

abbrev bool_text : Bool → String
bool_text true = "true"
bool_text false = "false"

unfoldable mutual
  -- `String(value)`.
  pub text_of : Value → String
  text_of undefined = "undefined"
  text_of null = "null"
  text_of (bool b) = bool_text b
  text_of (num n) = decimal n
  text_of (str s) = s
  text_of (arr nil) = ""
  text_of (arr (cons v vs)) = item_text v ⋅ more_text vs
  text_of (obj fs) = "[object Object]"

  pub item_text : Value → String
  item_text undefined = ""
  item_text null = ""
  item_text (bool b) = bool_text b
  item_text (num n) = decimal n
  item_text (str s) = s
  item_text (arr nil) = ""
  item_text (arr (cons v vs)) = item_text v ⋅ more_text vs
  item_text (obj fs) = "[object Object]"

  pub more_text : Items → String
  more_text nil = ""
  more_text (cons v vs) = "," ⋅ item_text v ⋅ more_text vs

-- `{ ...o }` over an array gives its elements their indices as keys.
spread_items : ℕ → Items → Fields → Fields
spread_items i nil fs = fs
spread_items i (cons v vs) fs = spread_items (suc i) vs (set_prop (decimal i) v fs)

unfoldable pub spread_fields : Fields → Fields → Fields
spread_fields end fs = fs
spread_fields (field k v more) fs = spread_fields more (set_prop k v fs)

-- `{ ...fs, ...(value is an object ? value : {}) }`.
unfoldable pub spread : Value → Fields → Fields
unfolding spread_items spread_fields
spread (obj more) fs = spread_fields more fs
spread (arr vs) fs = spread_items 0 vs fs
spread _ fs = fs

pub get_prop-set_prop :
    (k j : String) (v : Value) (fs : Fields)
    → get_prop j (set_prop k v fs) ≡ (if k == j then v else get_prop j fs)
unfolding get_prop set_prop
get_prop-set_prop k j v end = refl
get_prop-set_prop k j v (field i w fs) = ground (
  arith,
  string_eq.equals_iff k j,
  string_eq.equals_iff i k,
  string_eq.equals_iff i j,
  get_prop-set_prop k j v fs,
)

pub get_prop_of_HasNo : (k : String) (fs : Fields) → HasNo k fs → get_prop k fs ≡ undefined
unfolding get_prop
get_prop_of_HasNo k end h = refl
get_prop_of_HasNo k (field j v fs) h = ground (arith, get_prop_of_HasNo k fs)
