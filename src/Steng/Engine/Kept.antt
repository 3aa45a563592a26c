-- ===== src/Steng/Engine/Kept.antt =====
-- The writes of documents and the store: each document once, under its own id.
use netab.Common.{
  ℕ, Result, throw, String, List, Option, none, some, refl, sym, subst, Keeps, Keeps-for_each, inl,
  inr, string_eq, get,
}
use netab.Json.{Value, undefined}
use netab.Steng.Types.{OpType, update, replace, Op}
use netab.Steng.Types
use netab.Steng.Host.{Host}
use netab.Steng.Engine.{StoredDoc, TableState, Session}
use netab.Steng.Engine.Docs.{write_doc, set_tombstone, tombstone, commit_doc_op, commit_delete_op}
use netab.Steng.Engine.Methods.{NewRow, Patch, update_row, replace_row, add_row, live, merged}
use netab.Steng.Engine.Commit.{doc_of, clock_now, commit_doc_op_lem, commit_delete_op_lem}
use netab.Steng.Engine.Replication.{
  Write, adds, updates, replaces, deletes, perform, add_row_cases, and_done,
}
use netab.Steng.Engine.CatchUp.{perform_all}
use netab.Steng.Engine.Stores.{IsStore, set-IsStore}

abbrev pub IsTidy : Session → Type 0
IsTidy s = IsStore s.table.docs

write_doc-IsStore :
    (host : Host) (id : String) (value : Value) (ts : ℕ) (st : TableState)
    → IsStore st.docs
    → IsStore (write_doc host id value ts st).docs
unfolding write_doc
write_doc-IsStore host id value ts st h = set-IsStore id (doc_of host id value ts) st.docs refl h

commit_doc_op-IsTidy :
    (host : Host) (kind : OpType) (id : String) (payload replacement : Value)
    → Keeps IsTidy (commit_doc_op host kind id payload replacement)
commit_doc_op-IsTidy host kind id payload replacement s h =
    subst (λ (t : TableState). IsStore t.docs)
      (sym (commit_doc_op_lem host s kind id payload replacement).1)
      (write_doc-IsStore host id _ (clock_now host s) s.table h)

commit_delete_op-IsTidy : (host : Host) (id : String) → Keeps IsTidy (commit_delete_op host id)
unfolding set_tombstone
commit_delete_op-IsTidy host id s h =
    let (etag, fine, table) = commit_delete_op_lem host s id in
    subst (λ (t : TableState). IsStore t.docs) (sym table)
      (set-IsStore id (tombstone id (clock_now host s) etag (get id s.table.docs)) s.table.docs refl
        h)

abbrev updated_from :
    Host → Patch → Session → Option StoredDoc → Result Types.Error (Unit {0}) × Session
updated_from host row s none = throw (Types.no_object row.id) s
updated_from host row s (some doc) =
    commit_doc_op host update row.id row.patch (merged row.merge doc.value row.patch) s

updated_from-IsTidy :
    (host : Host) (row : Patch) (s : Session) (found : Option StoredDoc)
    → IsTidy s
    → IsTidy (updated_from host row s found).1
updated_from-IsTidy host row s none h = h
updated_from-IsTidy host row s (some doc) h =
    commit_doc_op-IsTidy host update row.id row.patch (merged row.merge doc.value row.patch) s h

update_row-IsTidy : (host : Host) (row : Patch) → Keeps IsTidy (update_row host row)
unfolding update_row
update_row-IsTidy host row s h = updated_from-IsTidy host row s (live row.id s.table) h

add_row-IsTidy :
    (host : Host) (cluster_short : String) (row : NewRow) (s : Session)
    → IsTidy s
    → IsStore (add_row host cluster_short row s).1.table.docs
add_row-IsTidy host c row s h = elim (add_row_cases host c row s) [
  | inl same ↦ subst (λ (t : TableState). IsStore t.docs) (sym same) h
  | inr (id, t, same, table) ↦
      subst (λ (p : TableState). IsStore p.docs) (sym table)
        (commit_doc_op-IsTidy host Types.add id row.value undefined t
          (subst (λ (p : TableState). IsStore p.docs) (sym same) h))
]

perform-IsTidy :
    (host : Host) (cluster_short : String) (w : Write) → Keeps IsTidy (perform host cluster_short w)
unfolding perform replace_row
perform-IsTidy host c (adds row) s h =
    subst (λ (p : TableState). IsStore p.docs) (sym (and_done (add_row host c row s)))
      (add_row-IsTidy host c row s h)
perform-IsTidy host c (updates row) s h = update_row-IsTidy host row s h
perform-IsTidy host c (replaces row) s h =
    commit_doc_op-IsTidy host replace row.id row.value undefined s h
perform-IsTidy host c (deletes id) s h = commit_delete_op-IsTidy host id s h

-- Any writes, shallow updates among them and whether or not one of them throws, keep each document
-- of the table once, under its own id.
pub perform_all-IsStore :
    (host : Host) (cluster_short : String) (ws : List Write) (s : Session)
    → IsStore s.table.docs
    → IsStore (perform_all host cluster_short ws s).1.table.docs
unfolding perform_all
perform_all-IsStore host c ws s h =
    Keeps-for_each IsTidy (perform host c) ws (perform-IsTidy host c) s h
