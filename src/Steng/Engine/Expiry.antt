-- ===== src/Steng/Engine/Expiry.antt =====
-- Retention: the documents that are left of a table, and its watermark.
use netab.Common.{
  ℕ, ◌≤◌, String, List, [], ◌∷◌, Option, none, some, includes, for_each, for_each-ok, and_then,
  Result, ok, ◌≡◌, refl, sym, ap, ◌∙◌, subst, arith, if◌then◌else◌, ◌==◌, string_eq, nat_eq,
}
use netab.Steng.Types.{Error}
use netab.Utils.{get_field}
use netab.Steng.Host.{Host}
use netab.Steng.Engine.{StoredDoc, TableState, Session}
use netab.Steng.Engine.Docs.{commit_delete_op}
use netab.Steng.Engine.Methods.{live}
use netab.Steng.Engine.Retention.{
  is_before, is_expired, ids_to_delete, mark_or_zero, move_watermark, retain_since, advances,
}
use netab.Steng.Engine.Commit.{live-set_tombstone, clock_now, commit_delete_op_lem}
use netab.Steng.Engine.Mirroring.{live-push_op}
use netab.Steng.Engine.Stores.{IsStore, includes-selected}

pub delete-live :
    (host : Host) (id j : String) (s : Session)
    → ((commit_delete_op host id s).0 ≡ ok tt)
      × (live j (commit_delete_op host id s).1.table ≡ (if id == j then none else live j s.table))
delete-live host id j s =
    let (etag, fine, table) = commit_delete_op_lem host s id in
    (
      fine,
      ap (live j) table
          ∙ live-push_op j _ _
          ∙ live-set_tombstone id j (clock_now host s) etag s.table,
    )

deletes-live :
    (host : Host) (ids : List String) (j : String) (s : Session)
    → ((for_each (commit_delete_op host) ids s).0 ≡ ok tt)
      × (live j (for_each (commit_delete_op host) ids s).1.table
          ≡ (if includes ids j then none else live j s.table))
deletes-live host [] j s = unfold for_each in (refl, refl)
deletes-live host (id ∷ ids) j s =
    let (fine, here) = delete-live host id j s in
    let (fine', rest) = deletes-live host ids j (commit_delete_op host id s).1 in
    let more = for_each-ok (commit_delete_op host) id ids s fine in
    (ap (λ r. r.0) more ∙ fine', ap (λ r. live j r.1.table) more ∙ rest ∙ ground (arith, here))

abbrev pub unless_before : ℕ → String → Option StoredDoc → Option StoredDoc
unless_before cutoff time_field none = none
unless_before cutoff time_field (some doc) =
    if is_before cutoff (get_field doc.value time_field) then none else some doc

moved_fine :
    (cutoff : ℕ) (ids : List String) (s : Session) → (move_watermark cutoff ids s).0 ≡ ok tt
unfolding move_watermark
moved_fine cutoff ids s = ground arith

retain_since_lem :
    (host : Host) (cutoff : ℕ) (time_field : String) (s : Session)
    → let ids = ids_to_delete cutoff time_field s.table in
      ((retain_since host cutoff time_field s).0 ≡ ok tt)
      × ((retain_since host cutoff time_field s).1.table
          ≡ (move_watermark cutoff ids (for_each (commit_delete_op host) ids s).1).1.table)
unfolding retain_since
retain_since_lem host cutoff time_field s =
    let ids = ids_to_delete cutoff time_field s.table in
    let (fine, rest) = deletes-live host ids "" s in
    let t : Session = (for_each (commit_delete_op host) ids s).1 in
    let go : (r : Result Error (Unit {0})) → Result Error (Unit {0}) × Session =
      λ r. and_then r t (λ _. move_watermark cutoff ids) in
    (ap (λ r. (go r).0) fine ∙ moved_fine cutoff ids t, ap (λ r. (go r).1.table) fine)

live-moved :
    (j : String) (cutoff : ℕ) (ids : List String) (s : Session)
    → live j (move_watermark cutoff ids s).1.table ≡ live j s.table
unfolding move_watermark live
live-moved j cutoff ids s = ground arith

marked :
    (cutoff : ℕ) (ids : List String) (s : Session)
    → cutoff ≤ mark_or_zero (move_watermark cutoff ids s).1.table.watermark
unfolding move_watermark advances
marked cutoff ids s = ground arith

live_expired :
    (cutoff : ℕ) (time_field j : String) (st : TableState)
    → IsStore st.docs
    → (if includes (ids_to_delete cutoff time_field st) j then none else live j st)
      ≡ unless_before cutoff time_field (live j st)
unfolding ids_to_delete live is_expired
live_expired cutoff time_field j st store =
    ground (arith, includes-selected (is_expired cutoff time_field) j st.docs store)

-- Retention never throws. Of a store that keeps each document once and under its own id, it leaves
-- the live documents whose time field is not a number below the cutoff, and no others; and the
-- watermark is then at the cutoff at least.
pub retain_since-live :
    (host : Host) (cutoff : ℕ) (time_field : String) (s : Session)
    → IsStore s.table.docs
    → let r = retain_since host cutoff time_field s in
      (r.0 ≡ ok tt)
      × ((j : String) → live j r.1.table ≡ unless_before cutoff time_field (live j s.table))
      × (cutoff ≤ mark_or_zero r.1.table.watermark)
retain_since-live host cutoff time_field s store =
    let ids = ids_to_delete cutoff time_field s.table in
    let run = for_each (commit_delete_op host) ids s in
    let (fine, moved) = retain_since_lem host cutoff time_field s in
    (
      fine,
      λ j.
          ap (live j) moved
          ∙ live-moved j cutoff ids run.1
          ∙ (deletes-live host ids j s).1
          ∙ live_expired cutoff time_field j s.table store,
      subst (λ t. cutoff ≤ mark_or_zero t.watermark) (sym moved) (marked cutoff ids run.1),
    )
