-- ===== src/Cord/Cluster/Pool.antt =====
-- `execOnCluster` and its `runPool` in src/cord/cluster.ts: workers that take jobs from a common list and
-- wait for the answers of the nodes, which come in any order. A worker whose job throws is gone, and
-- the first error is what the caller gets.
pub mod Ends
use netab.Common.{
  ℕ, zero, suc, ◌+◌, ◌*◌, ◌<◌, ◌≤◌, ◌==◌, String, Bool, true, false, ◌||◌, List, [], ◌∷◌, ◌++◌, map,
  Option, none, some, length, max, includes, string_eq, Result, ok, err, ◌≡◌, ◌⊎◌, inl, inr, refl,
  sym, ap, ◌∙◌, subst, arith, length-append, includes-append,
}
use netab.Json.{Value, undefined, null}
use netab.Cord.Cluster.{ClusterNodeConfig}

pub record NodeOutcome : Type 0 where
  pub node_id : String
  pub ok : Bool
  pub result : Value
  pub err : Option String

pub record Pool : Type 0 where
  pub pending : List ClusterNodeConfig
  pub running : List ClusterNodeConfig
  pub idle : ℕ
  pub results : List NodeOutcome
  pub thrown : Option String

-- `Math.max(1, (opts.parallel ?? nodes.length) || 1)`.
unfoldable pub worker_count : Option ℕ → List ClusterNodeConfig → ℕ
worker_count none nodes = max 1 (length nodes)
worker_count (some parallel) nodes = max 1 parallel

unfoldable pub start_pool : Option ℕ → List ClusterNodeConfig → Pool
start_pool parallel nodes = record {
  pending = nodes;
  running = [];
  idle = worker_count parallel nodes;
  results = [];
  thrown = none;
}

unfoldable pub start_job : ClusterNodeConfig → List ClusterNodeConfig → ℕ → Pool → Pool
start_job job rest idle pool = record pool {
  pending = rest;
  running = job ∷ pool.running;
  idle = idle;
}

abbrev first_error : Option String → String → Option String
first_error none e = some e
first_error (some thrown) e = some thrown

abbrev pub with_result : NodeOutcome → Pool → Pool
with_result outcome pool = record pool {
  idle = suc pool.idle;
  results = pool.results ++ outcome ∷ [];
}

-- A job that ends: with the answer of the node or the message of the error.
unfoldable pub settle : Bool → ClusterNodeConfig → Result String Value → Pool → Pool
settle best_effort node (ok answer) pool =
    with_result (record { node_id = node.node_id; ok = true; result = answer; err = none }) pool
settle true node (err e) pool =
    with_result (record { node_id = node.node_id; ok = false; result = undefined; err = some e })
      pool
settle false node (err e) pool = record pool { thrown = first_error pool.thrown e }

pub data Step (best_effort : Bool) (s : Pool) : Pool → Type 0 where
  takes :
      (job : ClusterNodeConfig) (rest : List ClusterNodeConfig) (idle : ℕ)
      → s.pending ≡ job ∷ rest
      → s.idle ≡ suc idle
      → Step best_effort s (start_job job rest idle s)
  settles :
      (before : List ClusterNodeConfig) (job : ClusterNodeConfig) (after : List ClusterNodeConfig)
      (answer : Result String Value)
      → s.running ≡ before ++ job ∷ after
      → Step best_effort s (settle best_effort job answer (record s { running = before ++ after }))

pub data Run (best_effort : Bool) (s : Pool) : Pool → Type 0 where
  here : Run best_effort s s
  next : {t u : Pool} → Run best_effort s t → Step best_effort t u → Run best_effort s u
