-- ===== src/Steng/Engine/RoundTrip.antt =====
-- A table that is exported and imported again.
use netab.Common.{
  ℕ, String, Bool, true, false, List, [], ◌∷◌, Option, none, some, Dict, get, set, get-set, values,
  map, keep, All, sort_by, ◌≡◌, refl, sym, ap, ◌∙◌, subst, arith, string_eq, if◌then◌else◌, ◌==◌,
  equals-cases, inl, inr, ok, Result, and_then, ◌>>=◌, ◌>>◌, done,
}
use netab.Steng.Types.{SnapshotDocRecord, SnapshotTableSelection, Error, BlobRecord}
use netab.Steng.Filtering.{assert_filter_supported}
use netab.Steng.Host.{Host}
use netab.Steng.Engine.{StoredDoc, TableState, Session}
use netab.Steng.Engine.Docs.{with_table, append_op}
use netab.Steng.Engine.Snapshot.{
  is_selected, doc_record, select_snapshot_docs, SnapshotTableData, export_table_snapshot,
  ImportOptions, ConflictMode, replace_tables, stored_doc, put_snapshot_doc, import_snapshot_doc,
  import_docs, import_blobs, ImportCounts, imported, count_doc, import_into, reset_table_data,
  prepare, import_watermark,
}
use netab.Steng.Engine.Stores.{IsStore}
use netab.Steng.Engine.Sorting.{
  find_doc, Lacks, AreDistinct, AreDistinct-sort, find-sort, find-values, AreDistinct-values,
}

-- A row whose id the table does not have is imported, whatever is to be done on conflicts.
import-fresh :
    (doc : StoredDoc) (options : ImportOptions) (s : Session)
    → get doc.id s.table.docs ≡ none
    → ((import_snapshot_doc (doc_record doc) options s).0 ≡ ok imported)
      × ((import_snapshot_doc (doc_record doc) options s).1.table.docs
          ≡ set doc.id doc s.table.docs)
unfolding import_snapshot_doc put_snapshot_doc doc_record stored_doc append_op
import-fresh doc options s fresh = (ground (arith, fresh), ground (arith, fresh))

abbrev AreNew : Dict String StoredDoc → List StoredDoc → Type 0
AreNew m = All (λ (doc : StoredDoc). get doc.id m ≡ none)

AreNew-set :
    (doc : StoredDoc) (m : Dict String StoredDoc) (docs : List StoredDoc)
    → Lacks doc.id docs
    → AreNew m docs
    → AreNew (set doc.id doc m) docs
AreNew-set doc m [] l h = tt
AreNew-set doc m (x ∷ xs) (p, l) (q, h) = (
  ground (arith, p, q, get-set doc.id x.id doc m, string_eq.equals_iff doc.id x.id),
  AreNew-set doc m xs l h,
)

AreNew-empty : (docs : List StoredDoc) → AreNew [] docs
unfolding get
AreNew-empty [] = tt
AreNew-empty (x ∷ xs) = (refl, AreNew-empty xs)

import_docs-cons :
    (row : SnapshotDocRecord) (rows : List SnapshotDocRecord) (options : ImportOptions)
    (n : ImportCounts) (s : Session)
    → (import_snapshot_doc row options s).0 ≡ ok imported
    → import_docs (row ∷ rows) options n s
      ≡ import_docs rows options
          (count_doc imported row.meta.deleted n)
          (import_snapshot_doc row options s).1
unfolding import_docs
import_docs-cons row rows options n s h =
    ap
      (λ r.
        and_then r (import_snapshot_doc row options s).1
          (λ outcome. import_docs rows options (count_doc outcome row.meta.deleted n)))
      h

abbrev no_docs : Dict String StoredDoc
no_docs = []

abbrev over : Option StoredDoc → Option StoredDoc → Option StoredDoc
over none old = old
over (some doc) old = some doc

find-Lacks : (id : String) (docs : List StoredDoc) → Lacks id docs → find_doc id docs ≡ none
find-Lacks id [] l = refl
find-Lacks id (x ∷ xs) (p, l) = ground (arith, p, find-Lacks id xs l, string_eq.equals_iff x.id id)

over-step :
    (id : String) (doc : StoredDoc) (docs : List StoredDoc) (old : Option StoredDoc)
    → Lacks doc.id docs
    → over (find_doc id docs) (if doc.id == id then some doc else old)
      ≡ over (if doc.id == id then some doc else find_doc id docs) old
over-step id doc docs old l = elim (equals-cases doc.id id) [
  | inl (e, same) ↦ ground (arith, e, find-Lacks id docs (subst (λ i. Lacks i docs) same l))
  | inr (e, differ) ↦ ground (arith, e)
]

import_docs-fresh :
    (docs : List StoredDoc) (options : ImportOptions) (n : ImportCounts) (s : Session)
    → AreDistinct docs
    → AreNew s.table.docs docs
    → let r = import_docs (map doc_record docs) options n s in
      ((m : ImportCounts) × (r.0 ≡ ok m))
      × ((id : String) → get id r.1.table.docs ≡ over (find_doc id docs) (get id s.table.docs))
import_docs-fresh [] options n s d fresh = unfold import_docs in ((n, refl), λ id. refl)
import_docs-fresh (doc ∷ docs) options n s (l, d) (new, fresh) =
    let (fine, stored) = import-fresh doc options s new in
    let more = import_docs-cons (doc_record doc) (map doc_record docs) options n s fine in
    let next : Session = (import_snapshot_doc (doc_record doc) options s).1 in
    let (ends, found) =
      import_docs-fresh docs options _ next d
        (subst (λ m. AreNew m docs) (sym stored) (AreNew-set doc s.table.docs docs l fresh)) in
    (
      (ends.0, ap (λ r. r.0) more ∙ ends.1),
      λ id.
          ap (λ r. get id r.1.table.docs) more
          ∙ found id
          ∙ ap (over (find_doc id docs)) (ap (get id) stored ∙ get-set doc.id id doc s.table.docs)
          ∙ over-step id doc docs (get id s.table.docs) l,
    )

abbrev no_counts : ImportCounts
no_counts = record {
  docs_imported = 0;
  tombstones_imported = 0;
  blobs_imported = 0;
  docs_skipped = 0;
  blobs_skipped = 0;
}

module _ (host : Host) (data' : SnapshotTableData) (created_at_ms : ℕ) (conflict : ConflictMode)
    (s : Session) (no_blobs : data'.blobs ≡ []) where
  abbrev replacing : ImportOptions
  replacing = record { mode = replace_tables; conflict_mode = conflict }

  abbrev docs_run : Result Error ImportCounts × Session
  docs_run =
      import_docs data'.docs replacing no_counts
        (with_table s (prepare replace_tables data'.table.config s.table))

  -- What `import_into` does after the documents.
  abbrev finish : List BlobRecord → Result Error ImportCounts → Result Error ImportCounts × Session
  finish blobs r = and_then r docs_run.1 (λ n.
      import_blobs host blobs created_at_ms replacing n >>= λ m.
      (λ t. (ok tt, with_table t (import_watermark replace_tables data'.watermark t.table)))
      >> done m)

  abbrev Ends : ImportCounts → Result Error ImportCounts × Session → Type 0
  Ends m run =
      (run.0 ≡ ok m)
      × (run.1.table.docs ≡ docs_run.1.table.docs)
      × (run.1.table.watermark ≡ data'.watermark)

  import_into_lem :
      (m : ImportCounts)
      → docs_run.0 ≡ ok m
      → let run = import_into host data' created_at_ms replacing s in
        (run.0 ≡ ok m)
        × (run.1.table.docs ≡ docs_run.1.table.docs)
        × (run.1.table.watermark ≡ data'.watermark)
  unfolding import_into import_blobs
  import_into_lem m fine =
      subst (λ r. Ends m (finish data'.blobs r)) (sym fine)
        (subst (λ blobs. Ends m (finish blobs (ok m))) (sym no_blobs) (refl, refl, refl))

abbrev pub everything : SnapshotTableSelection
everything = record { filter = none; include_blobs = false; include_tombstones = true }

keep-everything : (docs : List StoredDoc) → keep (is_selected everything) docs ≡ docs
unfolding is_selected
keep-everything [] = refl
keep-everything (x ∷ xs) = ground (arith, keep-everything xs)

abbrev exported : TableState → List StoredDoc → SnapshotTableData
exported state docs = record {
  table = state.info;
  watermark = state.watermark;
  docs = map doc_record docs;
  blobs = [];
}

over-none : (o : Option StoredDoc) (id : String) → over o (get id no_docs) ≡ o
unfolding get
over-none none id = refl
over-none (some doc) id = refl

-- A table is exported in full, with its tombstones and without its blobs, and imported in the mode
-- that replaces a table, into any table and whatever is to be done on conflicts. If it kept each
-- document once, under its own id, both go without an error, and the table then holds, under every
-- id, the document or the tombstone that was exported, and nothing under the other ids; and it has
-- the watermark that was exported.
pub import-export :
    (host : Host) (state : TableState) (created_at_ms : ℕ) (conflict : ConflictMode) (s : Session)
    → IsStore state.docs
    → (data' : SnapshotTableData) × (export_table_snapshot host state everything ≡ ok data')
      × (let run =
            import_into host data' created_at_ms
              (record { mode = replace_tables; conflict_mode = conflict })
              s in
          ((m : ImportCounts) × (run.0 ≡ ok m))
          × ((id : String) → get id run.1.table.docs ≡ get id state.docs)
          × (run.1.table.watermark ≡ state.watermark))
unfolding export_table_snapshot select_snapshot_docs assert_filter_supported reset_table_data
import-export host state created_at_ms conflict s store =
    let le : StoredDoc → StoredDoc → Bool = λ a b. host.locale_le a.id b.id in
    let docs : List StoredDoc = sort_by le (keep (is_selected everything) (values state.docs)) in
    let data' : SnapshotTableData = exported state docs in
    let all = keep-everything (values state.docs) in
    let distinct =
      subst (λ xs. AreDistinct (sort_by le xs)) (sym all)
        (AreDistinct-sort le (values state.docs) (AreDistinct-values state.docs store)) in
    let ((m, fine), found) =
      import_docs-fresh docs (record { mode = replace_tables; conflict_mode = conflict }) no_counts
        (with_table s (prepare replace_tables state.info.config s.table)) distinct
        (AreNew-empty docs) in
    let (ends, same, mark) = import_into_lem host data' created_at_ms conflict s refl m fine in
    (
      data',
      refl,
      (
        (m, ends),
        (λ id.
            ap (get id) same
            ∙ found id
            ∙ over-none (find_doc id docs) id
            ∙ ap (λ xs. find_doc id (sort_by le xs)) all
            ∙ find-sort le id (values state.docs) (AreDistinct-values state.docs store)
            ∙ find-values id state.docs store.1),
        mark,
      ),
    )
