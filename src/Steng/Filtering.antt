-- ===== src/Steng/Filtering.antt =====
-- src/steng/engine/filtering.ts.
pub mod Laws
use Prim.Native.String.{String}
use text.Mathlib.Text.{starts_with}
use netab.Common.{
  ℕ, Bool, true, false, List, [], ◌∷◌, Option, none, some, ◌&&◌, not, if◌then◌else◌, ◌==◌,
  string_eq, leb, ltb, any, all, keep, get, has_text, min, Result, ok, err,
}
use netab.Json.{Value, undefined, null, num, str, arr, nil, cons, items, strict_eq, text_of}
use netab.Utils.{get_field, get_part}
use netab.Steng.Types.{
  FilterOp, eq, ne, gt, ge, lt, le, between, in_list, contains, prefix, FilterClause, Filter,
  IndexConfig, TableConfig, TableInfo, Error, not_indexed,
}

-- `typeof a === 'number' && typeof b === 'number' && test(a, b)`.
abbrev pub numbers : (ℕ → ℕ → Bool) → Value → Value → Bool
numbers test (num a) (num b) = test a b
numbers test _ _ = false

abbrev pub in_range : Value → Value → Bool
in_range (num a) (arr (cons (num lo) (cons (num hi) nil))) = leb lo a && ltb a hi
in_range _ _ = false

abbrev pub is_in : Value → Value → Bool
is_in actual (arr vs) = any (λ v. strict_eq v actual) (items vs)
is_in actual _ = false

unfoldable pub holds : Value → Value → Bool
holds (arr vs) expected = any (λ v. strict_eq v expected) (items vs)
holds (str s) expected = has_text s (text_of expected)
holds _ expected = false

unfoldable pub has_prefix : Value → Value → Bool
has_prefix (str s) expected = starts_with s (text_of expected)
has_prefix _ expected = false

unfoldable pub match_clause : Value → FilterOp → Value → Bool
match_clause actual eq expected = strict_eq actual expected
match_clause actual ne expected = not (strict_eq actual expected)
match_clause actual gt expected = numbers (λ a b. ltb b a) actual expected
match_clause actual ge expected = numbers (λ a b. leb b a) actual expected
match_clause actual lt expected = numbers ltb actual expected
match_clause actual le expected = numbers leb actual expected
match_clause actual between expected = in_range actual expected
match_clause actual in_list expected = is_in actual expected
match_clause actual contains expected = holds actual expected
match_clause actual prefix expected = has_prefix actual expected

-- The value that a clause of `matchesFilter` looks at.
unfoldable pub actual_of : Value → String → Value
actual_of value name = if name == "id" then get_part "id" value else get_field value name

unfoldable pub matches_filter : Value → Filter → Bool
matches_filter value none = true
matches_filter value (some clauses) =
    all (λ c. match_clause (actual_of value c.field) c.op c.value) clauses

unfoldable pub assert_clauses : TableInfo → List FilterClause → Result Error (Unit {0})
assert_clauses info [] = ok tt
assert_clauses info (c ∷ clauses) =
    let rest = assert_clauses info clauses in
    if c.field == "id" then rest else elim (get c.field info.config.indexes) [
      | none ↦ err (not_indexed c.field info.table_name)
      | some _ ↦ rest
    ]

unfoldable pub assert_filter_supported : TableInfo → Filter → Result Error (Unit {0})
unfolding assert_clauses
assert_filter_supported info none = ok tt
assert_filter_supported info (some clauses) = assert_clauses info clauses

is_present : Value → Bool
is_present undefined = false
is_present null = false
is_present _ = true

index_values : IndexConfig → Value → List Value
unfolding is_present
index_values index undefined = []
index_values index null = []
index_values index (arr vs) = if index.multi then keep is_present (items vs) else arr vs ∷ []
index_values index raw = raw ∷ []

unfoldable pub index_values_for_field : TableConfig → String → Value → List Value
unfolding index_values
index_values_for_field config name value = elim (get name config.indexes) [
  | none ↦ []
  | some index ↦ index_values index (get_field value name)
]

-- The bound of a clause whose field is the one that is asked for.
op_upper_bound : FilterOp → Value → Option ℕ
op_upper_bound lt (num n) = some n
op_upper_bound le (num n) = some n
op_upper_bound between (arr (cons lo (cons (num n) nil))) = some n
op_upper_bound _ _ = none

unfoldable pub clause_upper_bound : FilterClause → String → Option ℕ
unfolding op_upper_bound
clause_upper_bound c name = if c.field == name then op_upper_bound c.op c.value else none

abbrev pub tighter : Option ℕ → Option ℕ → Option ℕ
tighter upper none = upper
tighter none (some bound) = some bound
tighter (some upper) (some bound) = some (min upper bound)

unfoldable pub upper_bound_from : Option ℕ → List FilterClause → String → Option ℕ
upper_bound_from upper [] name = upper
upper_bound_from upper (c ∷ clauses) name =
    upper_bound_from (tighter upper (clause_upper_bound c name)) clauses name

unfoldable pub filter_upper_bound : Filter → String → Option ℕ
unfolding upper_bound_from clause_upper_bound
filter_upper_bound none name = none
filter_upper_bound (some clauses) name = upper_bound_from none clauses name
