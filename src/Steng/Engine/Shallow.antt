-- ===== src/Steng/Engine/Shallow.antt =====
-- Updates and how they merge: `update_objs` logs the patch and not the kind of merge.
use netab.Common.{
  some, ◌≡◌, ◌↔◌, refl, sym, ◌∙◌, ap, subst, arith, ok, string_eq, equals_refl, Option, none,
}
use netab.Json.{Value, null}
use netab.Utils.{deep_merge}
use netab.Steng.Types.{update, Op}
use netab.Steng.Host.{Host}
use netab.Steng.Engine.{StoredDoc, TableState, Session}
use netab.Steng.Engine.Docs.{next_op, push_op, write_doc}
use netab.Steng.Engine.Methods.{Patch, merged, live, update_row}
use netab.Steng.Engine.Replica.{apply_op, apply_kind}
use netab.Steng.Engine.Commit.{clock_now, stored, doc_of, live-write_doc, commit_doc_op_lem}
use netab.Steng.Engine.Mirroring.{
  Mirrors, apply_op_next, apply_update_lem, live-push_op, write-docs,
}

abbrev value_of : Option StoredDoc → Value
value_of none = null
value_of (some doc) = doc.value

module _ (host : Host) (row : Patch) (s : Session) (doc : StoredDoc)
    (found : live row.id s.table ≡ some doc) where
  -- The op that `update_row` logs.
  abbrev pub update_op : Op
  update_op =
      next_op update row.id row.patch (clock_now host s)
        (stored host s row.id (merged row.merge doc.value row.patch))

  pub updated_table :
      (update_row host row s).1.table
      ≡ push_op update_op (stored host s row.id (merged row.merge doc.value row.patch))
  unfolding update_row
  updated_table = ground (
    arith,
    commit_doc_op_lem host s update row.id row.patch (merged row.merge doc.value row.patch),
  )

  live_written :
      (value : Value) (st : TableState)
      → live row.id (write_doc host row.id value (clock_now host s) st)
        ≡ some (doc_of host row.id value (clock_now host s))
  live_written value st =
      ground
        (arith, live-write_doc host row.id row.id value (clock_now host s) st, equals_refl row.id)

  abbrev replayed : Session → TableState
  replayed t = write_doc host row.id (deep_merge doc.value row.patch) (clock_now host s) t.table

  replayed_table :
      (t : Session)
      → Mirrors s.table t.table
      → ((apply_op host update_op t).0 ≡ ok tt)
        × ((apply_op host update_op t).1.table ≡ push_op update_op (replayed t))
  unfolding next_op apply_kind write_doc
  replayed_table t m =
      let (fine, table) = apply_update_lem host update_op t doc (sym (m.docs row.id) ∙ found) in
      apply_op_next host update_op t (replayed t) (omega (arith, m.seq)) fine table

  same_docs :
      (t : Session)
      → Mirrors s.table t.table
      → merged row.merge doc.value row.patch ≡ deep_merge doc.value row.patch
      → Mirrors
          (push_op update_op (stored host s row.id (merged row.merge doc.value row.patch)))
          (push_op update_op (replayed t))
  same_docs t m same = record {
    seq = refl;
    docs = λ j.
        live-push_op j update_op (stored host s row.id (merged row.merge doc.value row.patch))
        ∙ ap (λ v. live j (stored host s row.id v)) same
        ∙ write-docs host row.id j (deep_merge doc.value row.patch) (clock_now host s) s.table
            t.table m
        ∙ sym (live-push_op j update_op (replayed t));
  }

  same_merge :
      (t : Session)
      → Mirrors
          (push_op update_op (stored host s row.id (merged row.merge doc.value row.patch)))
          (push_op update_op (replayed t))
      → merged row.merge doc.value row.patch ≡ deep_merge doc.value row.patch
  unfolding write_doc live
  same_merge t m = ap value_of (
      sym (live_written (merged row.merge doc.value row.patch) s.table)
      ∙ m.docs row.id
      ∙ live_written (deep_merge doc.value row.patch) t.table)

  pub update_row_replays_iff :
      (t : Session)
      → Mirrors s.table t.table
      → ((apply_op host update_op t).0 ≡ ok tt)
        × (Mirrors (update_row host row s).1.table (apply_op host update_op t).1.table
            ↔ (merged row.merge doc.value row.patch ≡ deep_merge doc.value row.patch))
  update_row_replays_iff t m =
      let (fine, table) = replayed_table t m in
      (
        fine,
        subst
            (λ p.
              Mirrors p (apply_op host update_op t).1.table
              ↔ (merged row.merge doc.value row.patch ≡ deep_merge doc.value row.patch))
            (sym updated_table)
            (subst
              (λ r.
                Mirrors
                  (push_op update_op (stored host s row.id (merged row.merge doc.value row.patch)))
                  r
                ↔ (merged row.merge doc.value row.patch ≡ deep_merge doc.value row.patch))
              (sym table) (same_merge t, same_docs t m)),
      )
