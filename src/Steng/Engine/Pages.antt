-- ===== src/Steng/Engine/Pages.antt =====
-- Reading a table in pages: each call of `get_objs` starts at the `next_pos` of the one before.
use netab.Common.{
  ℕ, zero, suc, ◌+◌, ◌-◌, ◌≤◌, min, List, [], ◌∷◌, ◌++◌, Option, none, some, map, take, drop,
  length, ◌≡◌, refl, sym, ap, ◌∙◌, arith, String, ok, err, Result, length-take, ◌⊎◌, inl, inr,
}
use netab.Steng.Types.{Filter, GetResult, ObjRow, Error}
use netab.Steng.Filtering.{assert_filter_supported}
use netab.Steng.Host.{Host}
use netab.Steng.Engine.{TableState}
use netab.Steng.Engine.Query.{
  get_table_objs, get_by_ids, get_by_filter, result_of, page, scan, found_row, row_by_id,
}

≤-cases : (a b : ℕ) → (a ≤ b) ⊎ (b ≤ a)
≤-cases a b = ground arith

any_result :
    {A : Type 0} (r : Result Error A) → ((a : A) × (r ≡ ok a)) ⊎ ((e : Error) × (r ≡ err e))
any_result (ok a) = inl (a, refl)
any_result (err e) = inr (e, refl)

suc-plus : (a b : ℕ) → suc a + b ≡ suc (a + b)
suc-plus a b = omega arith

module _ {A B : Type 0} where
  map-append : (f : A → B) (xs ys : List A) → map f (xs ++ ys) ≡ map f xs ++ map f ys
  map-append f [] ys = refl
  map-append f (x ∷ xs) ys = ap (◌∷◌ (f x)) (map-append f xs ys)

module _ {A : Type 0} where
  abbrev nothing : List A
  nothing = []

  take_none : (n : ℕ) → take n nothing ≡ []
  take_none zero = refl
  take_none (suc n) = refl

  drop_none : (n : ℕ) → drop n nothing ≡ []
  drop_none zero = refl
  drop_none (suc n) = refl

  take-split : (m n : ℕ) (xs : List A) → take (m + n) xs ≡ take m xs ++ take n (drop m xs)
  take-split zero n xs = ground arith
  take-split (suc m) zero [] = ground arith
  take-split (suc m) (suc n) [] = ground (arith, take_none (suc m + suc n))
  take-split (suc m) n (x ∷ xs) =
      ap (λ k. take k (x ∷ xs)) (suc-plus m n) ∙ ap (◌∷◌ x) (take-split m n xs)

  drop-drop : (m n : ℕ) (xs : List A) → drop m (drop n xs) ≡ drop (n + m) xs
  drop-drop m zero xs = ground arith
  drop-drop zero (suc n) [] = ground arith
  drop-drop (suc m) (suc n) [] = ground (arith, drop_none (suc n + suc m))
  drop-drop m (suc n) (x ∷ xs) = drop-drop m n xs ∙ sym (ap (λ k. drop k (x ∷ xs)) (suc-plus n m))

  length-drop : (m : ℕ) (xs : List A) → length (drop m xs) ≡ length xs - m
  length-drop zero xs = omega arith
  length-drop (suc m) [] = omega arith
  length-drop (suc m) (x ∷ xs) = omega (arith, length-drop m xs)

  drop_all : (m : ℕ) (xs : List A) → length xs ≤ m → drop m xs ≡ []
  drop_all zero [] h = refl
  drop_all zero (x ∷ xs) h = absurd (omega arith)
  drop_all (suc m) [] h = refl
  drop_all (suc m) (x ∷ xs) h = drop_all m xs (omega arith)

  -- From where a page ends on, by its `next_pos`, the next page goes on.
  page-split :
      (m n start : ℕ) (xs : List A)
      → page start (some (m + n)) xs
        ≡ page start (some m) xs
          ++ page (min (start + length (page start (some m) xs)) (length xs)) (some n) xs
  page-split m n start xs =
      let got = length-take m (drop start xs) in
      let left = length-drop start xs in
      elim (≤-cases (start + m) (length xs)) [
        | inl inside ↦
            take-split m n (drop start xs)
            ∙ ap (λ rest. take m (drop start xs) ++ take n rest)
                (drop-drop m start xs ∙ ap (λ k. drop k xs) (omega (arith, got, left)))
        | inr outside ↦
            take-split m n (drop start xs)
            ∙ ap (λ rest. take m (drop start xs) ++ take n rest)
                (drop-drop m start xs
                  ∙ drop_all (start + m) xs outside
                  ∙ sym (
                      drop_all (min (start + length (take m (drop start xs))) (length xs)) xs
                        (omega (arith, got, left))))
      ]

module _ {A : Type 0} (state : TableState) (to_row : A → ObjRow) (all : List A) where
  abbrev answer : ℕ → Option ℕ → GetResult
  answer start limit = result_of state to_row start (page start limit all) all

  answer-split :
      (m n start : ℕ)
      → (answer start (some (m + n))).items
        ≡ (answer start (some m)).items ++ (answer (answer start (some m)).next_pos (some n)).items
  answer-split m n start = ap (map to_row) (page-split m n start all) ∙ map-append to_row _ _

module _ (host : Host) (state : TableState) (filter : Filter) (m n start : ℕ) where
  -- What a call of `get_objs` returns, with the items of a second call from its `next_pos` on: the
  -- same as the items of one call for as many items as the two together.
  abbrev pub Continues : (Option ℕ → ℕ → Result Error GetResult) → Type 0
  Continues get_from =
      ((e : Error) × (get_from (some m) start ≡ err e) × (get_from (some (m + n)) start ≡ err e))
      ⊎ ((first next both : GetResult) × (get_from (some m) start ≡ ok first)
          × (get_from (some n) first.next_pos ≡ ok next)
          × (get_from (some (m + n)) start ≡ ok both)
          × (both.items ≡ first.items ++ next.items))

  filter_pages : Continues (λ limit from. get_by_filter host state filter from limit)
  unfolding get_by_filter
  filter_pages = elim (any_result (assert_filter_supported state.info filter)) [
    | inl (u, fine) ↦ inr (
      answer state (found_row state) (scan host state filter) start (some m),
      answer state (found_row state) (scan host state filter)
          (answer state (found_row state) (scan host state filter) start (some m)).next_pos
          (some n),
      answer state (found_row state) (scan host state filter) start (some (m + n)),
      ground arith,
      ground arith,
      ground arith,
      answer-split state (found_row state) (scan host state filter) m n start,
    )
    | inr (e, bad) ↦ inl (e, ground arith, ground arith)
  ]

  pub get_table_objs_pages :
      (ids : Option (List String))
      → Continues (λ limit from. get_table_objs host state ids filter from limit)
  unfolding get_table_objs get_by_ids
  get_table_objs_pages none = filter_pages
  get_table_objs_pages (some []) = filter_pages
  get_table_objs_pages (some (id ∷ ids)) = inr (
    answer state (row_by_id state) (id ∷ ids) start (some m),
    _,
    _,
    refl,
    refl,
    refl,
    answer-split state (row_by_id state) (id ∷ ids) m n start,
  )
