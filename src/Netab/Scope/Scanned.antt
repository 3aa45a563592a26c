-- ===== src/Netab/Scope/Scanned.antt =====
-- What a caller who is bound to a site reads by a scan.
use netab.Common.{
  split, ℕ, String, Bool, true, List, [], ◌∷◌, ◌++◌, Option, none, some, Dict, get, values, keys,
  all, drop, string_eq, if◌then◌else◌, Result, ok, err, ◌≡◌, ◌≢◌, refl, sym, ap, ◌∙◌, subst, arith,
  All, All-sort, All-keep, All-map, All-take, All-drop, equals-cases, inl, inr, not,
  equals-false_iff, equals_refl,
}
use netab.Json.{
  Value, undefined, str, obj, Fields, end, field, HasNo, get_prop, set_prop, fields_of, strict_eq,
  spread, spread_fields, get_prop-set_prop,
}
use netab.Utils.{get_field, get_part, walk, is_container}
use netab.Steng.Types.{eq, FilterClause, Filter, ObjRow, GetResult, Error}
use netab.Steng.Filtering.{assert_filter_supported, matches_filter, match_clause, actual_of}
use netab.Steng.Host.{Host}
use netab.Steng.Engine.{StoredDoc, TableState}
use netab.Steng.Engine.Stores.{IsStore, Keyed}
use netab.Steng.Engine.Query.{
  get_table_objs, get_by_filter, scan, candidate, found_row, page, result_of,
}
use netab.Steng.Engine.Scans.{scanned_row, get_prop-spread}
use netab.Netab.Types.{NetabContext}
use netab.Netab.Service.{Service}
use netab.Netab.Scope.{is_scoped, apply_site_scope, clauses_of}

-- An object has each key once.
abbrev pub IsObject : Fields → Type 0
IsObject end = Unit {0}
IsObject (field k v fs) = HasNo k fs × IsObject fs

-- A document with an object that has no field `id`.
abbrev pub IsPlain : StoredDoc → Type 0
IsPlain doc = (fs : Fields) × (doc.value ≡ obj fs) × HasNo "id" fs × IsObject fs

get_prop-spread_own :
    (k : String) (p t : Fields)
    → IsObject p
    → get_prop k t ≡ undefined
    → get_prop k (spread_fields p t) ≡ get_prop k p
unfolding spread_fields get_prop
get_prop-spread_own k end t h none_there = none_there
get_prop-spread_own k (field j v p) t (once, h) none_there = elim (equals-cases j k) [
  | inl (e, same) ↦
      get_prop-spread k p (set_prop j v t) (subst (λ i. HasNo i p) same once)
      ∙ get_prop-set_prop j k v t
      ∙ rw e refl
  | inr (e, differ) ↦
      get_prop-spread_own k p (set_prop j v t) h (get_prop-set_prop j k v t ∙ rw e none_there)
      ∙ rw e refl
]

module _ {A : Type 0} (P : A → Type 0) where
  All-page : (start : ℕ) (limit : Option ℕ) (xs : List A) → All P xs → All P (page start limit xs)
  All-page start none xs h = All-drop P start xs h
  All-page start (some n) xs h = All-take P n (drop start xs) (All-drop P start xs h)

-- Each document of a store is found under its id.
abbrev IsFound : Dict String StoredDoc → StoredDoc → Type 0
IsFound m doc = get doc.id m ≡ some doc

IsFound-below :
    (k : String) (w : StoredDoc) (m n : Dict String StoredDoc)
    → Keyed n
    → All (λ i. i ≢ k) (keys n)
    → All (IsFound m) (values n)
    → All (IsFound ((k, w) ∷ m)) (values n)
unfolding get
IsFound-below k w m [] own apart h = tt
IsFound-below k w m ((j, doc) ∷ n) (own, keyed) (differ, apart) (there, h) = (
  subst (λ b. (if b then some w else get doc.id m) ≡ some doc)
      (sym ((equals-false_iff k doc.id).1 (λ same. differ (sym (same ∙ own))))) there,
  IsFound-below k w m n keyed apart h,
)

All-IsFound : (m : Dict String StoredDoc) → IsStore m → All (IsFound m) (values m)
unfolding get
All-IsFound [] h = tt
All-IsFound ((k, doc) ∷ m) ((apart, is_map), (own, keyed)) = (
  subst (λ i. get i ((k, doc) ∷ m) ≡ some doc) (sym own)
      (ap (λ b. if b then some doc else get k m) (equals_refl k)),
  IsFound-below k doc m m keyed apart (All-IsFound m (is_map, keyed)),
)

site_id_of : (g : Fields) → actual_of (obj g) "siteId" ≡ get_prop "siteId" g
unfolding actual_of get_field walk split is_container get_part
site_id_of g = refl

site_id-candidate :
    (doc : StoredDoc) (fs : Fields)
    → doc.value ≡ obj fs
    → IsObject fs
    → actual_of (candidate doc) "siteId" ≡ get_prop "siteId" fs
unfolding candidate spread get_prop
site_id-candidate doc fs e own =
    site_id_of (spread doc.value (field "id" (str doc.id) end))
    ∙ ap (λ v. get_prop "siteId" (spread v (field "id" (str doc.id) end))) e
    ∙ get_prop-spread_own "siteId" fs (field "id" (str doc.id) end) own refl

all-last :
    {A : Type 0} (p : A → Bool) (x : A) (xs : List A) → all p (xs ++ x ∷ []) ≡ true → p x ≡ true
all-last p x [] h = ground (arith, h)
all-last p x (y ∷ ys) h = all-last p x ys (ground (arith, h))

-- A row of a site.
abbrev pub IsAt : Value → ObjRow → Type 0
IsAt site row = strict_eq (get_prop "siteId" (fields_of row.value)) site ≡ true

module _ (host : Host) (state : TableState) (site : Value) (clauses : List FilterClause) where
  abbrev scoped : Filter
  scoped = some (clauses ++ record { field = "siteId"; op = eq; value = site } ∷ [])

  abbrev IsCandidate : Value → Type 0
  IsCandidate row = (doc : StoredDoc) × (row ≡ candidate doc) × IsPlain doc × IsFound state.docs doc

  found-IsAt :
      (row : Value)
      → (matches_filter row scoped ≡ true) × IsCandidate row
      → IsAt site (found_row state row)
  unfolding matches_filter match_clause
  found-IsAt row (matches, (doc, same, (fs, e, no_id, own), there)) =
      subst (λ r. IsAt site (found_row state r)) (sym same)
        (subst (IsAt site) (sym (scanned_row state doc fs there e no_id)) (
          ap (λ v. strict_eq v site) (sym (site_id-candidate doc fs e own))
          ∙ all-last (λ c. match_clause (actual_of (candidate doc) c.field) c.op c.value) _ clauses
              (subst (λ r. matches_filter r scoped ≡ true) same matches)))

  scan-candidates :
      IsStore state.docs
      → All IsPlain (values state.docs)
      → All (λ row. (matches_filter row scoped ≡ true) × IsCandidate row) (scan host state scoped)
  unfolding scan
  scan-candidates store plain = All-sort _ _ _ (
      All-keep IsCandidate (λ row. matches_filter row scoped) _
        (All-map (λ doc. (not doc.deleted ≡ true) × (IsPlain doc × IsFound state.docs doc))
          IsCandidate candidate _ (λ doc (alive, (is_plain, there)). (doc, refl, is_plain, there))
          (All-keep (λ doc. IsPlain doc × IsFound state.docs doc) (λ doc. not doc.deleted)
            (values state.docs) (both (values state.docs) plain (All-IsFound state.docs store)))))
    where
      both :
          (docs : List StoredDoc)
          → All IsPlain docs
          → All (IsFound state.docs) docs
          → All (λ doc. IsPlain doc × IsFound state.docs doc) docs
      both [] h k = tt
      both (doc ∷ docs) (p, h) (q, k) = ((p, q), both docs h k)

pub scanned-IsAt :
    (host : Host) (state : TableState) (service : Service) (table_name : String)
    (ctx : NetabContext) (filter : Filter) (start : ℕ) (limit : Option ℕ) (result : GetResult)
    → IsStore state.docs
    → All IsPlain (values state.docs)
    → is_scoped service table_name ctx ≡ true
    → get_table_objs host state none (apply_site_scope service table_name ctx filter) start limit
      ≡ ok result
    → All (IsAt ctx.site_id) result.items
unfolding get_table_objs get_by_filter apply_site_scope
scanned-IsAt host state service table_name ctx filter start limit result store plain is_bound
      found =
    go (assert_filter_supported state.info f)
      (sym (ap (λ b. answer (if b then f else filter)) is_bound) ∙ found)
  where
    f : Filter
    f = scoped host state ctx.site_id (clauses_of filter)

    rows : GetResult
    rows =
        result_of state (found_row state) start (page start limit (scan host state f))
          (scan host state f)

    answer : Filter → Result Error GetResult
    answer g = get_by_filter host state g start limit

    rows-IsAt : All (IsAt ctx.site_id) rows.items
    rows-IsAt =
        All-map _ _ (found_row state) _ (found-IsAt host state ctx.site_id (clauses_of filter)) (
          All-page _ start limit _
            (scan-candidates host state ctx.site_id (clauses_of filter) store plain))

    from_ok : Result Error GetResult → GetResult
    from_ok (ok g) = g
    from_ok (err e) = rows

    go :
        (r : Result Error (Unit {0}))
        → elim r [ err e ↦ err e | ok _ ↦ ok rows ] ≡ ok result
        → All (IsAt ctx.site_id) result.items
    go (err e) h = absurd (cc)
    go (ok d) h = subst (λ (g : GetResult). All (IsAt ctx.site_id) g.items) (ap from_ok h) rows-IsAt
