-- ===== src/Cord/Cluster/Pool/Ends.antt =====
-- A call on a cluster that records failures ends with a result for each node.
use netab.Common.{
  ℕ, zero, suc, ◌+◌, ◌*◌, ◌<◌, ◌≤◌, ◌==◌, String, Bool, true, false, ◌||◌, List, [], ◌∷◌, ◌++◌, map,
  Option, none, some, length, includes, string_eq, ok, err, ◌≡◌, ◌⊎◌, inl, inr, refl, ap, arith,
  length-append,
}
use netab.Json.{null}
use netab.Cord.Cluster.{ClusterNodeConfig}
use netab.Cord.Cluster.Pool.{
  NodeOutcome, Pool, worker_count, start_pool, start_job, with_result, settle, Step, takes, settles,
  Run, here, next,
}

abbrev pub left_to_do : Pool → ℕ
left_to_do s = 2 * length s.pending + length s.running

abbrev ids : List ClusterNodeConfig → List String
ids nodes = map (λ (node : ClusterNodeConfig). node.node_id) nodes

abbrev pub outcome_ids : List NodeOutcome → List String
outcome_ids outcomes = map (λ (outcome : NodeOutcome). outcome.node_id) outcomes

module _ {A : Type 0} (f : A → String) (n : String) where
  includes-map-append :
      (xs ys : List A)
      → includes (map f (xs ++ ys)) n ≡ (includes (map f xs) n || includes (map f ys) n)
  includes-map-append [] ys = refl
  includes-map-append (x ∷ xs) ys = ground (arith, includes-map-append xs ys)

Step-less : (best : Bool) (s t : Pool) → Step best s t → left_to_do t < left_to_do s
unfolding start_job settle
Step-less best s t (takes job rest idle e f) = omega (arith, ap length e)
Step-less true s t (settles before job after (ok v) e) =
    omega (arith, ap length e, length-append before (job ∷ after), length-append before after)
Step-less false s t (settles before job after (ok v) e) =
    omega (arith, ap length e, length-append before (job ∷ after), length-append before after)
Step-less true s t (settles before job after (err x) e) =
    omega (arith, ap length e, length-append before (job ∷ after), length-append before after)
Step-less false s t (settles before job after (err x) e) =
    omega (arith, ap length e, length-append before (job ∷ after), length-append before after)

-- Each node is in one of three places, and each worker is idle or runs a job.
abbrev Tally : List ClusterNodeConfig → ℕ → Pool → Type 0
Tally nodes workers s =
    (length s.pending + length s.running + length s.results ≡ length nodes)
    × (length s.running + s.idle ≡ workers)
    × ((n : String)
        → (includes (ids s.pending) n
            || includes (ids s.running) n
            || includes (outcome_ids s.results) n)
          ≡ includes (ids nodes) n)

module _ (nodes : List ClusterNodeConfig) (workers : ℕ) where
  takes-Tally :
      (s : Pool) (job : ClusterNodeConfig) (rest : List ClusterNodeConfig) (idle : ℕ)
      → s.pending ≡ job ∷ rest
      → s.idle ≡ suc idle
      → Tally nodes workers s
      → Tally nodes workers (start_job job rest idle s)
  unfolding start_job
  takes-Tally s job rest idle e f (all, busy, where_n) = (
    omega (arith, ap length e, all),
    omega (arith, f, busy),
    λ n. ground (arith, where_n n, ap (λ xs. includes (ids xs) n) e),
  )

  settled-Tally :
      (s : Pool) (before : List ClusterNodeConfig) (job : ClusterNodeConfig)
      (after : List ClusterNodeConfig) (outcome : NodeOutcome)
      → outcome.node_id ≡ job.node_id
      → s.running ≡ before ++ job ∷ after
      → Tally nodes workers s
      → Tally nodes workers (with_result outcome (record s { running = before ++ after }))
  settled-Tally s before job after outcome same e (all, busy, where_n) = (
    omega (
      arith,
      ap length e,
      all,
      length-append before (job ∷ after),
      length-append before after,
      length-append s.results (outcome ∷ []),
    ),
    omega
        (arith, ap length e, busy, length-append before (job ∷ after), length-append before after),
    λ n. ground (
      arith,
      where_n n,
      ap (λ xs. includes (ids xs) n) e,
      includes-map-append (λ (node : ClusterNodeConfig). node.node_id) n before (job ∷ after),
      includes-map-append (λ (node : ClusterNodeConfig). node.node_id) n before after,
      includes-map-append (λ (outcome : NodeOutcome). outcome.node_id) n s.results (outcome ∷ []),
      ap (λ i. i == n) same,
    ),
  )

  Step-Tally : (s t : Pool) → Step true s t → Tally nodes workers s → Tally nodes workers t
  unfolding settle
  Step-Tally s t (takes job rest idle e f) h = takes-Tally s job rest idle e f h
  Step-Tally s t (settles before job after (ok v) e) h = settled-Tally s before job after _ refl e h
  Step-Tally s t (settles before job after (err x) e) h =
      settled-Tally s before job after _ refl e h

  Run-Tally : (s t : Pool) → Tally nodes workers s → Run true s t → Tally nodes workers t
  Run-Tally s t h here = h
  Run-Tally s t h (next {t = u} run step) = Step-Tally u t step (Run-Tally s u h run)

start_pool-Tally :
    (parallel : Option ℕ) (nodes : List ClusterNodeConfig)
    → Tally nodes (worker_count parallel nodes) (start_pool parallel nodes)
unfolding start_pool
start_pool-Tally parallel nodes = (omega arith, omega arith, λ n. ground arith)

worker_count-pos :
    (parallel : Option ℕ) (nodes : List ClusterNodeConfig) → 0 < worker_count parallel nodes
unfolding worker_count
worker_count-pos none nodes = omega arith
worker_count-pos (some n) nodes = omega arith

-- A call on a cluster that records failures ends, however its jobs are interleaved and whatever the
-- nodes answer: each step leaves less to do; while anything is left there is a step; and at the end
-- each node of the cluster has a result, no other node has one, and there are as many as nodes. At
-- no time do more jobs run than there are workers.
pub exec_on_cluster_lem :
    (parallel : Option ℕ) (nodes : List ClusterNodeConfig) (t : Pool)
    → Run true (start_pool parallel nodes) t
    → ((u : Pool) → Step true t u → left_to_do u < left_to_do t)
      × (length t.running ≤ worker_count parallel nodes)
      × (((u : Pool) × Step true t u)
          ⊎ ((length t.results ≡ length nodes)
              × ((n : String)
                  → includes (outcome_ids t.results) n
                    ≡ includes (map (λ (node : ClusterNodeConfig). node.node_id) nodes) n)))
exec_on_cluster_lem parallel nodes t run = (
  λ u step. Step-less true t u step,
  omega (arith, tally.1),
  go t.pending t.running t.idle refl refl refl,
)
  where
    tally : Tally nodes (worker_count parallel nodes) t
    tally =
        Run-Tally nodes (worker_count parallel nodes) (start_pool parallel nodes) t
          (start_pool-Tally parallel nodes) run

    go :
        (pending running : List ClusterNodeConfig) (idle : ℕ)
        → t.pending ≡ pending
        → t.running ≡ running
        → t.idle ≡ idle
        → ((u : Pool) × Step true t u)
          ⊎ ((length t.results ≡ length nodes)
              × ((n : String)
                  → includes (outcome_ids t.results) n
                    ≡ includes (map (λ (node : ClusterNodeConfig). node.node_id) nodes) n))
    go pending (job ∷ running) idle e f g = inl (_, settles [] job running (ok null) f)
    go (job ∷ pending) [] (suc idle) e f g = inl (_, takes job pending idle e g)
    go (job ∷ pending) [] zero e f g =
        absurd (omega (arith, tally.1, ap length f, g, worker_count-pos parallel nodes))
    go [] [] idle e f g = inr (
      omega (arith, tally.0, ap length e, ap length f),
      λ n.
          ground
            (arith, tally.2 n, ap (λ xs. includes (ids xs) n) e, ap (λ xs. includes (ids xs) n) f),
    )
