-- ===== src/Steng/Filtering/Laws.antt =====
-- What the filters of src/steng/engine/filtering.ts promise.
use netab.Common.{
  ℕ, ◌≤◌, String, true, List, [], ◌∷◌, Option, none, some, ◌&&◌, ◌≡◌, ◌≢◌, refl, ◌↔◌, ◌⊎◌, inl, inr,
  arith, string_eq, equals-cases, subst, all, get, ok, All,
}
use netab.Json.{Value, num, arr, nil, cons}
use netab.Steng.Types.{
  FilterOp, eq, ne, gt, ge, lt, le, between, in_list, contains, prefix, FilterClause, TableInfo,
}
use netab.Steng.Filtering.{
  match_clause, actual_of, matches_filter, op_upper_bound, clause_upper_bound, upper_bound_from,
  filter_upper_bound, tighter, assert_filter_supported,
}

-- What a bound says of the value that a clause looks at.
abbrev pub IsBelow : Value → Option ℕ → Type 0
IsBelow v none = Unit
IsBelow v (some n) = (a : ℕ) × (v ≡ num a) × (a ≤ n)

match_clause-IsBelow :
    (op : FilterOp) (v x : Value) → match_clause v op x ≡ true → IsBelow v (op_upper_bound op x)
unfolding match_clause op_upper_bound
match_clause-IsBelow eq v x h = tt
match_clause-IsBelow ne v x h = tt
match_clause-IsBelow gt v x h = tt
match_clause-IsBelow ge v x h = tt
match_clause-IsBelow in_list v x h = tt
match_clause-IsBelow contains v x h = tt
match_clause-IsBelow prefix v x h = tt
match_clause-IsBelow lt (num a) (num n) h = (a, refl, ground arith)
match_clause-IsBelow le (num a) (num n) h = (a, refl, ground arith)
match_clause-IsBelow between (num a) (arr (cons (num lo) (cons (num n) nil))) h =
    (a, refl, ground arith)
match_clause-IsBelow _ _ _ h = cc

IsBelow-tighter :
    (v : Value) (upper bound : Option ℕ)
    → IsBelow v upper
    → IsBelow v bound
    → IsBelow v (tighter upper bound)
IsBelow-tighter v none none h k = tt
IsBelow-tighter v (some m) none h k = h
IsBelow-tighter v none (some n) h k = k
IsBelow-tighter v (some m) (some n) (a, e, h) (b, f, k) = (a, e, ground arith)

module _ (value : Value) (name : String) where
  clause_upper_bound-IsBelow :
      (c : FilterClause)
      → match_clause (actual_of value c.field) c.op c.value ≡ true
      → IsBelow (actual_of value name) (clause_upper_bound c name)
  unfolding clause_upper_bound
  clause_upper_bound-IsBelow c h = elim (equals-cases c.field name) [
    | inl (same, e) ↦ rw (same, ← e) (match_clause-IsBelow c.op (actual_of value c.field) c.value h)
    | inr (other, _) ↦ rw other tt
  ]

  upper_bound_from-IsBelow :
      (upper : Option ℕ) (cs : List FilterClause)
      → IsBelow (actual_of value name) upper
      → all (λ c. match_clause (actual_of value c.field) c.op c.value) cs ≡ true
      → IsBelow (actual_of value name) (upper_bound_from upper cs name)
  unfolding upper_bound_from
  upper_bound_from-IsBelow upper [] b h = b
  upper_bound_from-IsBelow upper (c ∷ cs) b h =
      upper_bound_from-IsBelow (tighter upper (clause_upper_bound c name)) cs
        (IsBelow-tighter _ upper (clause_upper_bound c name) b
          (clause_upper_bound-IsBelow c (ground arith)))
        (ground arith)

-- A row that matches a filter holds, in the field that is asked for, a number that is not above
-- the bound that `filterUpperBound` reads off the filter.
pub filter_upper_bound_sound :
    (value : Value) (name : String) (clauses : List FilterClause) (n : ℕ)
    → matches_filter value (some clauses) ≡ true
    → filter_upper_bound (some clauses) name ≡ some n
    → (a : ℕ) × (actual_of value name ≡ num a) × (a ≤ n)
unfolding matches_filter filter_upper_bound
filter_upper_bound_sound value name clauses n h e =
    subst (IsBelow (actual_of value name)) e (upper_bound_from-IsBelow value name none clauses tt h)

-- `between` of two bounds is `>=` the first one and `<` the second one, of whatever type the value
-- and the bounds are.
pub match_clause-between :
    (actual lo hi : Value)
    → match_clause actual between (arr (cons lo (cons hi nil)))
      ≡ (match_clause actual ge lo && match_clause actual lt hi)
unfolding match_clause
match_clause-between (num a) (num lo) (num hi) = refl
match_clause-between (num a) (num lo) hi = ground arith
match_clause-between _ _ _ = ground arith

-- A filter is accepted exactly when each of its clauses is on `id` or on an indexed field.
pub assert_filter_supported_iff :
    (info : TableInfo) (clauses : List FilterClause)
    → (assert_filter_supported info (some clauses) ≡ ok tt)
      ↔ All (λ c. (c.field ≡ "id") ⊎ (get c.field info.config.indexes ≢ none)) clauses
unfolding assert_filter_supported
assert_filter_supported_iff info [] = (λ h. tt, λ h. refl)
assert_filter_supported_iff info (c ∷ clauses) =
    ground (arith, string_eq.equals_iff c.field "id", assert_filter_supported_iff info clauses)
