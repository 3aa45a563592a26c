-- ===== src/Cord/Election/Votes.antt =====
-- What a follower's vote for a lease keeps from the followers of other leaders.
use netab.Common.{
  ℕ, ◌+◌, ◌<◌, ◌≤◌, String, Bool, true, false, List, [], ◌∷◌, some, get, get-set, ◌≡◌, ◌≢◌, refl,
  sym, ◌∙◌, subst, ◌⊎◌, inl, inr, arith, string_eq, nat_eq, All, ◌==◌, equals-cases, Bool-cases,
  Option-cases, equals_refl, ◌&&◌,
}
use netab.Cord.Election.{
  LeaseVote, LeaseParams, LeaseVotes, vote_key, stands_against, vote_for, request_lease,
  handle_renew_lease,
}

-- The messages that a leader sends, as a follower receives them; with a request, whether the
-- follower finds that its sender may lead.
pub data Message : Type 0 where
  asks : (eligible : Bool) → LeaseParams → Message
  renews : LeaseParams → Message

abbrev pub params_of : Message → LeaseParams
params_of (asks eligible p) = p
params_of (renews p) = p

unfoldable pub receive : ℕ × Message → LeaseVotes → LeaseVotes
receive (now, asks eligible p) votes = (request_lease eligible now p votes).1
receive (now, renews p) votes = (handle_renew_lease now p votes).1

unfoldable pub receive_all : List (ℕ × Message) → LeaseVotes → LeaseVotes
receive_all [] votes = votes
receive_all (m ∷ ms) votes = receive_all ms (receive m votes)

-- The vote keeps others out: it is for a higher term, or for this leader in this term.
abbrev pub Covers : String → ℕ → ℕ → LeaseVote → Type 0
Covers leader term until v =
    (until ≤ v.lease_until_ms) × ((term < v.term) ⊎ ((v.term ≡ term) × (v.leader_node_id ≡ leader)))

abbrev pub IsCovered : String → String → ℕ → ℕ → LeaseVotes → Type 0
IsCovered key leader term until votes =
    (v : LeaseVote) × (get key votes ≡ some v) × Covers leader term until v

-- A message that arrives before that time, and whose lease would not end before it.
abbrev pub IsTimely : ℕ → ℕ × Message → Type 0
IsTimely until (now, m) = (now < until) × (until ≤ now + (params_of m).ttl_ms)

nat_cases : (a b : ℕ) → (a < b) ⊎ (b ≤ a)
nat_cases a b = ground arith

abbrev renewed : LeaseParams → ℕ → LeaseVote → LeaseVote
renewed p now v = record v { lease_until_ms = now + p.ttl_ms }

-- A renewal touches no other shard's vote.
renew-other :
    (p : LeaseParams) (now : ℕ) (votes : LeaseVotes) (key : String)
    → (vote_key p == key) ≡ false
    → get key (handle_renew_lease now p votes).1 ≡ get key votes
unfolding handle_renew_lease
renew-other p now votes key other = elim (Option-cases (get (vote_key p) votes)) [
  | inl none_there ↦ ground arith
  | inr (w, there) ↦ ground (arith, get-set (vote_key p) key (renewed p now w) votes)
]

module _ (key leader : String) (term until : ℕ) where
  granted-Covers :
      (p : LeaseParams) (now : ℕ) (v : LeaseVote)
      → Covers leader term until v
      → until ≤ now + p.ttl_ms
      → stands_against v p ≡ false
      → Covers leader term until (vote_for p now)
  granted-Covers p now v (late, inl lower) ends fine = (ends, inl (ground arith))
  granted-Covers p now v (late, inr (same, mine)) ends fine =
      elim (equals-cases v.leader_node_id p.leader_node_id) [
        | inl (e, level) ↦ elim (nat_cases term p.term) [
          | inl below ↦ (ends, inl below)
          | inr above ↦ (ends, inr (ground arith, sym level ∙ mine))
        ]
        | inr (e, differ) ↦ (ends, inl (ground arith))
      ]

  request-IsCovered :
      (eligible : Bool) (p : LeaseParams) (now : ℕ) (votes : LeaseVotes)
      → IsCovered key leader term until votes
      → IsTimely until (now, asks eligible p)
      → IsCovered key leader term until (request_lease eligible now p votes).1
  unfolding request_lease
  request-IsCovered false p now votes c (early, ends) = c
  request-IsCovered true p now votes (v, there, covers) (early, ends) =
      let kept = get-set (vote_key p) key (vote_for p now) votes in
      elim (equals-cases (vote_key p) key) [
        | inr (e, other) ↦ (v, ground (arith, there, kept, e), covers)
        | inl (e, same) ↦
            let mine = subst (λ k. get k votes ≡ some v) (sym same) there in
            elim (Bool-cases (stands_against v p)) [
              | inl stands ↦ (v, ground (arith, there, mine, stands, covers.0), covers)
              | inr falls ↦ (
                vote_for p now,
                ground (arith, mine, kept, e, falls),
                granted-Covers p now v covers ends falls,
              )
            ]
      ]

  renew-IsCovered :
      (p : LeaseParams) (now : ℕ) (votes : LeaseVotes)
      → IsCovered key leader term until votes
      → IsTimely until (now, renews p)
      → IsCovered key leader term until (handle_renew_lease now p votes).1
  unfolding handle_renew_lease
  renew-IsCovered p now votes (v, there, covers) (early, ends) =
      elim (equals-cases (vote_key p) key) [
        | inr (e, other) ↦ (v, renew-other p now votes key e ∙ there, covers)
        | inl (e, same) ↦
            let mine = subst (λ k. get k votes ≡ some v) (sym same) there in
            elim (Bool-cases (v.leader_node_id == p.leader_node_id && v.term == p.term)) [
              | inl match ↦ (
                renewed p now v,
                ground (arith, mine, match, e, get-set (vote_key p) key (renewed p now v) votes),
                (ends, covers.1),
              )
              | inr differ ↦ (v, ground (arith, mine, there, differ), covers)
            ]
      ]

  receive-IsCovered :
      (m : ℕ × Message) (votes : LeaseVotes)
      → IsCovered key leader term until votes
      → IsTimely until m
      → IsCovered key leader term until (receive m votes)
  unfolding receive
  receive-IsCovered (now, asks eligible p) votes c t = request-IsCovered eligible p now votes c t
  receive-IsCovered (now, renews p) votes c t = renew-IsCovered p now votes c t

  pub receive_all-IsCovered :
      (ms : List (ℕ × Message)) (votes : LeaseVotes)
      → IsCovered key leader term until votes
      → All (IsTimely until) ms
      → IsCovered key leader term until (receive_all ms votes)
  unfolding receive_all
  receive_all-IsCovered [] votes c t = c
  receive_all-IsCovered (m ∷ ms) votes c (t, ts) =
      receive_all-IsCovered ms (receive m votes) (receive-IsCovered m votes c t) ts

pub request_lease-ok :
    (eligible : Bool) (p : LeaseParams) (now : ℕ) (votes : LeaseVotes)
    → (request_lease eligible now p votes).0.ok ≡ true
    → IsCovered
        (vote_key p)
        p.leader_node_id
        p.term
        (now + p.ttl_ms)
        (request_lease eligible now p votes).1
unfolding request_lease
request_lease-ok eligible p now votes fine = (
  vote_for p now,
  ground (
    arith,
    fine,
    get-set (vote_key p) (vote_key p) (vote_for p now) votes,
    equals_refl (vote_key p),
  ),
  (omega arith, inr (refl, refl)),
)

-- While a vote is covered, a request of that term or a lower one for another leader is refused.
pub covered-refused :
    (leader : String) (term until now : ℕ) (eligible : Bool) (p : LeaseParams) (votes : LeaseVotes)
    → IsCovered (vote_key p) leader term until votes
    → now < until
    → p.term ≤ term
    → leader ≢ p.leader_node_id
    → (request_lease eligible now p votes).0.ok ≡ false
unfolding request_lease
covered-refused leader term until now eligible p votes (v, there, covers) early low other =
    ground
      (arith, there, covers, early, low, string_eq.equals_iff v.leader_node_id p.leader_node_id)
