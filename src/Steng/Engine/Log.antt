-- ===== src/Steng/Engine/Log.antt =====
-- The numbers of the log, and reading it from a position.
use netab.Common.{
  ℕ, zero, suc, subst, ◌+◌, ◌≤◌, List, [], ◌∷◌, ◌++◌, ◌≡◌, refl, sym, ap, arith, length, take, keep,
  keep-append, ltb,
}
use netab.Steng.Types.{Op}
use netab.Steng.Engine.{TableState}
use netab.Steng.Engine.Replica.{read_ops_since}

-- The ops are numbered from `first + 1` on, and `last` is the number of the last one.
abbrev pub Numbered : ℕ → List Op → ℕ → Type 0
Numbered first [] last = first ≡ last
Numbered first (op ∷ ops) last = (op.op_seq ≡ first + 1) × Numbered (first + 1) ops last

abbrev pub IsLog : TableState → Type 0
IsLog st = Numbered 0 st.ops st.latest_seq

pub Numbered-append :
    (ops more : List Op) (first mid last : ℕ)
    → Numbered first ops mid
    → Numbered mid more last
    → Numbered first (ops ++ more) last
Numbered-append [] more first mid last h k = subst (λ n. Numbered n more last) (sym h) k
Numbered-append (op ∷ ops) more first mid last h k =
    (h.0, Numbered-append ops more (first + 1) mid last h.1 k)

pub Numbered-length :
    (ops : List Op) (first last : ℕ) → Numbered first ops last → last ≡ first + length ops
Numbered-length [] first last h = omega arith
Numbered-length (op ∷ ops) first last h = omega (arith, Numbered-length ops (first + 1) last h.1)

keep_later :
    (ops : List Op) (first last after : ℕ)
    → Numbered first ops last
    → after ≤ first
    → keep (λ op. ltb after op.op_seq) ops ≡ ops
keep_later [] first last after h le = refl
keep_later (op ∷ ops) first last after h le =
    ground (arith, keep_later ops (first + 1) last after h.1)

keep_earlier :
    (ops : List Op) (first last after : ℕ)
    → Numbered first ops last
    → last ≤ after
    → keep (λ op. ltb after op.op_seq) ops ≡ []
keep_earlier [] first last after h le = refl
keep_earlier (op ∷ ops) first last after h le =
    ground
      (arith, Numbered-length ops (first + 1) last h.1, keep_earlier ops (first + 1) last after h.1)

take_all : (n : ℕ) (ops : List Op) → length ops ≤ n → take n ops ≡ ops
take_all zero [] h = refl
take_all (suc n) [] h = refl
take_all zero (op ∷ ops) h = absurd (omega arith)
take_all (suc n) (op ∷ ops) h = ap (◌∷◌ op) (take_all n ops (omega arith))

-- A reader who has everything up to `seen` gets exactly the ops that were logged since.
pub read_ops_since-append :
    (st : TableState) (old new : List Op) (seen last limit : ℕ)
    → st.ops ≡ old ++ new
    → Numbered 0 old seen
    → Numbered seen new last
    → length new ≤ limit
    → read_ops_since st seen limit ≡ new
unfolding read_ops_since
read_ops_since-append st old new seen last limit e h k le =
    rw
      (
        e,
        keep-append (λ op. ltb seen op.op_seq) old new,
        keep_earlier old 0 seen seen h (omega arith),
        keep_later new seen last seen k (omega arith),
      )
      (take_all limit new le)
