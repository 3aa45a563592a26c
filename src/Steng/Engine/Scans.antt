-- ===== src/Steng/Engine/Scans.antt =====
-- The rows of a scan: a candidate is the id with the fields of the value over it, and the document
-- is looked up again under the id that the candidate then has.
use netab.Common.{String, none, some, get, ◌≡◌, refl, ◌∙◌, arith, string_eq, ap}
use netab.Json.{
  undefined, str, obj, Fields, end, field, HasNo, get_prop, set_prop, spread, spread_fields,
  get_prop-set_prop, text_of,
}
use netab.Steng.Engine.{StoredDoc, TableState}
use netab.Steng.Engine.Query.{candidate, candidate_id, found_row, meta_of}

pub get_prop-spread :
    (k : String) (p t : Fields) → HasNo k p → get_prop k (spread_fields p t) ≡ get_prop k t
unfolding spread_fields
get_prop-spread k end t h = refl
get_prop-spread k (field j v p) t h =
    get_prop-spread k p (set_prop j v t) h.1 ∙ ground (arith, get_prop-set_prop j k v t)

candidate_id-own :
    (doc : StoredDoc) (fs : Fields)
    → doc.value ≡ obj fs
    → HasNo "id" fs
    → candidate_id (candidate doc) ≡ doc.id
unfolding candidate candidate_id spread text_of get_prop
candidate_id-own doc fs e h =
    ap (λ v. text_of (get_prop "id" (spread v (field "id" (str doc.id) end)))) e
    ∙ ap text_of (get_prop-spread "id" fs (field "id" (str doc.id) end) h)

candidate_id-shadowed :
    (doc : StoredDoc) (other : String) (fs : Fields)
    → doc.value ≡ obj (field "id" (str other) fs)
    → HasNo "id" fs
    → candidate_id (candidate doc) ≡ other
unfolding candidate candidate_id spread spread_fields set_prop text_of get_prop
candidate_id-shadowed doc other fs e h =
    ap (λ v. text_of (get_prop "id" (spread v (field "id" (str doc.id) end)))) e
    ∙ ap text_of (get_prop-spread "id" fs (field "id" (str other) end) h)

-- A document whose value is an object without a field `id`, and which is stored under its id, comes
-- out of a scan with that id, its value and its times.
pub scanned_row :
    (state : TableState) (doc : StoredDoc) (fs : Fields)
    → get doc.id state.docs ≡ some doc
    → doc.value ≡ obj fs
    → HasNo "id" fs
    → found_row state (candidate doc)
      ≡ record { id = doc.id; value = obj fs; meta = some (meta_of doc); miss = none }
unfolding found_row
scanned_row state doc fs there e h = ground (arith, candidate_id-own doc fs e h, there, e)

pub shadowed_row :
    (state : TableState) (doc : StoredDoc) (other : String) (fs : Fields)
    → doc.value ≡ obj (field "id" (str other) fs)
    → HasNo "id" fs
    → get other state.docs ≡ none
    → found_row state (candidate doc)
      ≡ record { id = other; value = undefined; meta = none; miss = none }
unfolding found_row
shadowed_row state doc other fs e h missing =
    ground (arith, candidate_id-shadowed doc other fs e h, missing)
