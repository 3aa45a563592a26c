-- ===== src/Steng/ChangeBus/Filters.antt =====
-- The filter of the bus against the one of the queries.
use netab.Common.{
  String, List, [], ◌∷◌, none, some, ◌≡◌, refl, arith, string_eq, equals-cases, inl, inr, all,
}
use netab.Json.{Value, num, str, arr, obj, nil, cons}
use netab.Utils.{get_field, get_part}
use netab.Steng.Types.{
  FilterOp, eq, ne, gt, ge, lt, le, between, in_list, contains, prefix, FilterClause, Filter,
}
use netab.Steng.Filtering
use netab.Steng.Filtering.{match_clause, holds, has_prefix, actual_of}
use netab.Steng.ChangeBus.{clause_holds, matches_filter}

clause_holds-match_clause :
    (op : FilterOp) (actual expected : Value)
    → clause_holds actual op expected ≡ match_clause actual op expected
unfolding clause_holds match_clause holds has_prefix
clause_holds-match_clause eq a x = ground arith
clause_holds-match_clause ne a x = ground arith
clause_holds-match_clause gt (num a) (num b) = refl
clause_holds-match_clause ge (num a) (num b) = refl
clause_holds-match_clause lt (num a) (num b) = refl
clause_holds-match_clause le (num a) (num b) = refl
clause_holds-match_clause between (num a) (arr (cons (num lo) (cons (num hi) nil))) = refl
clause_holds-match_clause in_list a (arr vs) = ground arith
clause_holds-match_clause contains (arr vs) x = refl
clause_holds-match_clause contains (str s) x = refl
clause_holds-match_clause prefix (str s) x = refl
clause_holds-match_clause _ _ _ = refl

get_field-id : (value : Value) → get_field value "id" ≡ get_part "id" value
unfolding get_field get_part
get_field-id (obj fs) = ground arith
get_field-id (arr vs) = refl
get_field-id _ = refl

actual_of-get_field : (value : Value) (name : String) → get_field value name ≡ actual_of value name
unfolding actual_of
actual_of-get_field value name = elim (equals-cases name "id") [
  | inl (same, e) ↦ rw (e, get_field-id value)
  | inr (other, _) ↦ rw other
]

all-clauses :
    (value : Value) (cs : List FilterClause)
    → all (λ c. clause_holds (get_field value c.field) c.op c.value) cs
      ≡ all (λ c. match_clause (actual_of value c.field) c.op c.value) cs
all-clauses value [] = refl
all-clauses value (c ∷ cs) = rw (
  clause_holds-match_clause c.op (get_field value c.field) c.value,
  actual_of-get_field value c.field,
  all-clauses value cs,
)

-- The two implementations of the filter accept the same values.
pub matches_filter-agree :
    (filter : Filter) (value : Value)
    → matches_filter filter value ≡ Filtering.matches_filter value filter
unfolding matches_filter Filtering.matches_filter
matches_filter-agree none value = refl
matches_filter-agree (some cs) value = all-clauses value cs
