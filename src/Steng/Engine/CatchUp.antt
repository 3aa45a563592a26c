-- ===== src/Steng/Engine/CatchUp.antt =====
-- Replicas after any number of writes.
use netab.Common.{
  ℕ, String, List, [], ◌∷◌, ◌++◌, ◌≡◌, refl, sym, ap, ◌∙◌, subst, arith, ok, for_each, for_each-ok,
  for_each-err, Result-cases, inl, inr, append-nil, append_assoc, All, length, length-append,
}
use netab.Steng.Types.{Op}
use netab.Steng.Host.{Host}
use netab.Steng.Engine.{TableState, Session, Act}
use netab.Steng.Engine.Replica.{apply_op, apply_ops, read_ops_since}
use netab.Steng.Engine.Log.{Numbered, IsLog, Numbered-append, read_ops_since-append}
use netab.Steng.Engine.Mirroring.{Mirrors, Logged, Follows}
use netab.Steng.Engine.Replication.{Write, perform, IsLoggable, perform-Follows}

-- Some ops later: what the primary has logged since, and that its replicas follow by it.
abbrev pub CaughtUp : Host → TableState → TableState → List Op → Type 0
CaughtUp host p p' new =
    (p'.ops ≡ p.ops ++ new)
    × Numbered p.latest_seq new p'.latest_seq
    × ((t : Session)
        → Mirrors p t.table
        → ((apply_ops host new t).0 ≡ ok tt) × Mirrors p' (apply_ops host new t).1.table)

CaughtUp-none : (host : Host) (p : TableState) → CaughtUp host p p []
unfolding apply_ops for_each
CaughtUp-none host p = (sym (append-nil p.ops), refl, λ t m. (refl, m))

CaughtUp-cons :
    (host : Host) (p q r : TableState) (op : Op) (new : List Op)
    → Logged host p q op
    → CaughtUp host q r new
    → CaughtUp host p r (op ∷ new)
unfolding apply_ops
CaughtUp-cons host p q r op new l (ops, numbered, replays) = (
  ops ∙ ap (λ xs. xs ++ new) l.ops ∙ append_assoc p.ops (op ∷ []) new,
  (l.seq, subst (λ n. Numbered n new r.latest_seq) (l.latest ∙ l.seq) numbered),
  λ t m.
      let (fine, m') = l.replays t m in
      subst (λ o. (o.0 ≡ ok tt) × Mirrors r o.1.table)
        (sym (for_each-ok (apply_op host) op new t fine)) (replays _ m'),
)

Follows-CaughtUp :
    (host : Host) (p q r : TableState) (new : List Op)
    → Follows host p q
    → CaughtUp host q r new
    → (all : List Op) × CaughtUp host p r all
Follows-CaughtUp host p q r new (inl same) c = (new, subst (λ t. CaughtUp host t r new) same c)
Follows-CaughtUp host p q r new (inr (op, l)) c = (op ∷ new, CaughtUp-cons host p q r op new l c)

unfoldable pub perform_all : Host → String → List Write → Act (Unit {0})
perform_all host cluster_short = for_each (perform host cluster_short)

perform_all-CaughtUp :
    (host : Host) (cluster_short : String) (ws : List Write) (s : Session)
    → All IsLoggable ws
    → (new : List Op) × CaughtUp host s.table (perform_all host cluster_short ws s).1.table new
unfolding perform_all
perform_all-CaughtUp host c [] s h = ([], unfold for_each in CaughtUp-none host s.table)
perform_all-CaughtUp host c (w ∷ ws) s (h, hs) = elim (Result-cases (perform host c w s).0) [
  | inl fine ↦
      let (new, caught) = perform_all-CaughtUp host c ws (perform host c w s).1 hs in
      subst (λ o. (new : List Op) × CaughtUp host s.table o.1.table new)
        (sym (for_each-ok (perform host c) w ws s fine))
        (Follows-CaughtUp host s.table _ _ new (perform-Follows host c w s h) caught)
  | inr (e, failed) ↦
      subst (λ o. (new : List Op) × CaughtUp host s.table o.1.table new)
        (sym (for_each-err (perform host c) w ws s e failed))
        (Follows-CaughtUp host s.table _ _ [] (perform-Follows host c w s h) (CaughtUp-none host _))
]

read_new :
    (p : TableState) (old new : List Op) (seen after : ℕ)
    → p.ops ≡ old ++ new
    → Numbered 0 old seen
    → Numbered seen new p.latest_seq
    → seen ≡ after
    → read_ops_since p after (length p.ops) ≡ new
read_new p old new seen after ops log numbered same =
    subst (λ n. read_ops_since p n (length p.ops) ≡ new) same
      (read_ops_since-append p old new seen p.latest_seq (length p.ops) ops log numbered
        (omega (arith, ap length ops, length-append old new)))

-- Any writes on a primary, with deep merges only: whether or not one of them throws, a replica that
-- mirrored it before reads what was logged since (all of it, by a limit that is large enough),
-- applies it without an error, and mirrors the primary again.
pub replica_catches_up :
    (host : Host) (cluster_short : String) (ws : List Write) (s t : Session)
    → All IsLoggable ws
    → IsLog s.table
    → Mirrors s.table t.table
    → let p = (perform_all host cluster_short ws s).1.table in
      let run = apply_ops host (read_ops_since p t.table.latest_seq (length p.ops)) t in
      (run.0 ≡ ok tt) × Mirrors p run.1.table × IsLog p
replica_catches_up host c ws s t h log m =
    let p : TableState = (perform_all host c ws s).1.table in
    let (new, (ops, numbered, replays)) = perform_all-CaughtUp host c ws s h in
    let (fine, m') = replays t m in
    let reads =
      read_new p s.table.ops new s.table.latest_seq t.table.latest_seq ops log numbered m.seq in
    (
      subst (λ xs. (apply_ops host xs t).0 ≡ ok tt) (sym reads) fine,
      subst (λ xs. Mirrors p (apply_ops host xs t).1.table) (sym reads) m',
      subst (λ xs. Numbered 0 xs p.latest_seq) (sym ops)
          (Numbered-append s.table.ops new 0 s.table.latest_seq p.latest_seq log numbered),
    )
