-- ===== src/Steng/Engine/Again.antt =====
-- Ops that a replica is handed again, as after a lost acknowledgement.
use netab.Common.{
  ℕ, ◌≤◌, List, [], ◌∷◌, ◌≡◌, refl, sym, ap, ◌∙◌, subst, arith, ok, for_each, for_each-ok,
  for_each-err, Result-cases, inl, inr, All, nat_eq,
}
use netab.Steng.Types.{Op}
use netab.Steng.Host.{Host}
use netab.Steng.Engine.{Session}
use netab.Steng.Engine.Replica.{apply_op, apply_ops, apply_kind}

-- An op that was applied is at or before the end of the log, and the log does not get shorter.
apply_op_done :
    (host : Host) (op : Op) (t : Session)
    → (apply_op host op t).0 ≡ ok tt
    → (op.op_seq ≤ (apply_op host op t).1.table.latest_seq)
      × (t.table.latest_seq ≤ (apply_op host op t).1.table.latest_seq)
unfolding apply_op
apply_op_done host op t fine = elim (Result-cases (apply_kind host op.op_type op t).0) [
  | inl applied ↦ (ground arith, ground arith)
  | inr (e, failed) ↦ (ground arith, ground arith)
]

apply_op_known :
    (host : Host) (op : Op) (t : Session)
    → op.op_seq ≤ t.table.latest_seq
    → apply_op host op t ≡ (ok tt, t)
unfolding apply_op
apply_op_known host op t known = ground arith

abbrev Known : ℕ → List Op → Type 0
Known latest = All (λ (op : Op). op.op_seq ≤ latest)

apply_ops-Known :
    (host : Host) (ops : List Op) (t : Session)
    → Known t.table.latest_seq ops
    → apply_ops host ops t ≡ (ok tt, t)
unfolding apply_ops
apply_ops-Known host [] t h = unfold for_each in refl
apply_ops-Known host (op ∷ ops) t (known, h) =
    let same = apply_op_known host op t known in
    for_each-ok (apply_op host) op ops t (ap (λ r. r.0) same)
    ∙ ap (λ r. for_each (apply_op host) ops r.1) same
    ∙ apply_ops-Known host ops t h

apply_ops_done :
    (host : Host) (ops : List Op) (t : Session)
    → (apply_ops host ops t).0 ≡ ok tt
    → Known (apply_ops host ops t).1.table.latest_seq ops
      × (t.table.latest_seq ≤ (apply_ops host ops t).1.table.latest_seq)
unfolding apply_ops
apply_ops_done host [] t fine = (tt, unfold for_each in omega arith)
apply_ops_done host (op ∷ ops) t fine = elim (Result-cases (apply_op host op t).0) [
  | inl first ↦
      let more = for_each-ok (apply_op host) op ops t first in
      let (known, later) =
        apply_ops_done host ops (apply_op host op t).1 (ap (λ r. r.0) (sym more) ∙ fine) in
      let (seq, latest) = apply_op_done host op t first in
      subst
        (λ r. Known r.1.table.latest_seq (op ∷ ops) × (t.table.latest_seq ≤ r.1.table.latest_seq))
        (sym more) ((omega (arith, seq, later), known), omega (arith, latest, later))
  | inr (e, failed) ↦ absurd (ground (arith, fine, for_each-err (apply_op host) op ops t e failed))
]

-- Ops that a table has applied without an error are skipped when it is handed them once more: the
-- second call succeeds too, and leaves the table, the clock and the subscribers alone.
pub apply_ops_twice :
    (host : Host) (ops : List Op) (t : Session)
    → (apply_ops host ops t).0 ≡ ok tt
    → apply_ops host ops (apply_ops host ops t).1 ≡ (ok tt, (apply_ops host ops t).1)
apply_ops_twice host ops t fine =
    apply_ops-Known host ops (apply_ops host ops t).1 (apply_ops_done host ops t fine).0
