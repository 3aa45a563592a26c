-- ===== src/Steng/Engine/Replication.antt =====
-- One write on a primary, and its op applied on a replica.
use netab.Common.{
  String, some, string_eq, ◌≡◌, refl, sym, ◌∙◌, subst, arith, ok, err, Result, and_then, Bool-cases,
  ◌>>◌, done, ◌⊎◌, inl, inr, Option-cases,
}
use netab.Json.{undefined, strict_eq}
use netab.Utils.{deep_merge}
use netab.Steng.Types.{add, update, replace, Error}
use netab.Steng.Host.{Host}
use netab.Steng.IdGeneration.{generate_distributed_id}
use netab.Steng.Engine.{StoredDoc, Session, Act, date_now, random_bytes}
use netab.Steng.Engine.Docs.{push_op, commit_doc_op, commit_delete_op}
use netab.Steng.Engine.Methods.{
  NewRow, Patch, Replacement, deep, merged, live, add_row, update_row, replace_row,
  assert_generated_id_only, generate_id, prefix_of,
}
use netab.Steng.Engine.Commit.{clock_now, stored, commit_doc_op_lem, commit_delete_op_lem}
use netab.Steng.Engine.Mirroring.{
  Follows, doc_op, add-Logged, replace-Logged, update-Logged, delete-Logged,
}

-- The writes of documents: one row of each of the engine's methods.
pub data Write : Type 0 where
  adds : NewRow → Write
  updates : Patch → Write
  replaces : Replacement → Write
  deletes : String → Write

unfoldable pub perform : Host → String → Write → Act (Unit {0})
perform host cluster_short (adds row) = add_row host cluster_short row >> done tt
perform host cluster_short (updates row) = update_row host row
perform host cluster_short (replaces row) = replace_row host row
perform host cluster_short (deletes id) = commit_delete_op host id

-- The log does not say that a merge was shallow.
abbrev pub IsLoggable : Write → Type 0
IsLoggable (updates row) = row.merge ≡ deep
IsLoggable _ = Unit

pub and_done :
    {A : Type 0} (r : Result Error A × Session)
    → (and_then r.0 r.1 (λ _. done tt)).1.table ≡ r.1.table
and_done (ok a, t) = refl
and_done (err e, t) = refl

abbrev new_id : Host → String → Session → String
new_id host cluster_short s =
    generate_distributed_id (prefix_of s.table.info) cluster_short (clock_now host s)
      (host.random_bytes s.world.draws 10)

generate_id_lem :
    (host : Host) (cluster_short : String) (s : Session)
    → ((generate_id host cluster_short s).0 ≡ ok (new_id host cluster_short s))
      × ((generate_id host cluster_short s).1.table ≡ s.table)
unfolding generate_id date_now random_bytes
generate_id_lem host cluster_short s = (refl, refl)

-- `add_row` draws an id, which leaves the table alone, and then commits.
pub add_row_cases :
    (host : Host) (cluster_short : String) (row : NewRow) (s : Session)
    → ((add_row host cluster_short row s).1.table ≡ s.table)
      ⊎ ((id : String) × (t : Session) × (t.table ≡ s.table)
          × ((add_row host cluster_short row s).1.table
              ≡ (commit_doc_op host add id row.value undefined t).1.table))
unfolding add_row assert_generated_id_only
add_row_cases host cluster_short row s = elim (Bool-cases (strict_eq row.id undefined)) [
  | inl fresh ↦
      let (drawn, same) = generate_id_lem host cluster_short s in
      let t : Session = (generate_id host cluster_short s).1 in
      inr (
        new_id host cluster_short s,
        t,
        same,
        ground
            (arith, commit_doc_op_lem host t add (new_id host cluster_short s) row.value undefined),
      )
  | inr given ↦ inl (ground arith)
]

update_row_lem :
    (host : Host) (row : Patch) (s : Session) (doc : StoredDoc)
    → row.merge ≡ deep
    → live row.id s.table ≡ some doc
    → (update_row host row s).1.table
      ≡ (commit_doc_op host update row.id row.patch (deep_merge doc.value row.patch) s).1.table
unfolding update_row merged
update_row_lem host row s doc h found = ground arith

replace_row_lem :
    (host : Host) (row : Replacement) (s : Session)
    → (replace_row host row s).1.table
      ≡ push_op (doc_op host s row.id replace row.value row.value) (stored host s row.id row.value)
unfolding replace_row
replace_row_lem host row s = (commit_doc_op_lem host s replace row.id row.value undefined).1

-- A write that fails changes nothing; any other appends an op that brings the replicas along.
pub perform-Follows :
    (host : Host) (cluster_short : String) (w : Write) (s : Session)
    → IsLoggable w
    → Follows host s.table (perform host cluster_short w s).1.table
unfolding perform
perform-Follows host cluster_short (adds row) s h =
    let performed = and_done (add_row host cluster_short row s) in
    elim (add_row_cases host cluster_short row s) [
      | inl same ↦ inl (performed ∙ same)
      | inr (id, t, same, table) ↦
          subst (λ p. Follows host p (perform host cluster_short (adds row) s).1.table) same
            (subst (Follows host t.table)
              (sym (performed ∙ table ∙ (commit_doc_op_lem host t add id row.value undefined).1))
              (inr (_, add-Logged host t id row.value)))
    ]
perform-Follows host cluster_short (updates row) s h = elim (Option-cases (live row.id s.table)) [
  | inl missing ↦ inl (unfold update_row in ground arith)
  | inr (doc, found) ↦
      subst (Follows host s.table)
        (sym (
          update_row_lem host row s doc h found
          ∙ (commit_doc_op_lem host s update row.id row.patch (deep_merge doc.value row.patch)).1))
        (inr (_, update-Logged host s row.id doc row.patch found))
]
perform-Follows host cluster_short (replaces row) s h =
    subst (Follows host s.table) (sym (replace_row_lem host row s))
      (inr (_, replace-Logged host s row.id row.value))
perform-Follows host cluster_short (deletes id) s h =
    let (etag, fine, table) = commit_delete_op_lem host s id in
    subst (Follows host s.table) (sym table) (inr (_, delete-Logged host s id etag))
