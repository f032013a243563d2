-- ===== src/Cluster.antt =====
-- client.go: the cluster client, which splits a test over its nodes and aggregates their ticks.
pub mod Logged
pub mod Split
pub mod Start
pub mod Growth
pub mod Connect
pub mod Gather
pub mod Aggregate
use loaderbot.Prelude.{
  ℕ, zero, suc, ◌+◌, ◌-◌, ◌≡◌, Bool, true, false, not, ◌||◌, String, Option, none, some, List, [],
  ◌∷◌, ◌++◌, map, length, ◌==◌, if◌then◌else◌,
}
use loaderbot.Prelude.Int.{ℤ, pos, negsuc, quot64, ◌-ℤ◌, eqb_ℤ}
use loaderbot.Prelude.Maps.{ℕ_eq, lookup, insert}
use loaderbot.Float.{Float64, ◌<f◌}
use loaderbot.Config.{RunnerConfig, ReportOptions, ClusterOptions}
use loaderbot.Result.{AttackToken, AttackResult}
use loaderbot.Metrics.{Quantile, Metrics, new_metrics, add_all, update}
use loaderbot.Outcome.{
  Outcome, returned, fatal, panicked, divide_by_zero, nil_dereference, index_out_of_range, ◌>>=◌,
}

-- `copier.Copy` of github.com/jinzhu/copier, from the client's configuration; `none` is its error.
abbrev pub Copier : Type 0 → Type 0
Copier F = RunnerConfig F → Option (RunnerConfig F)

abbrev pub or_fatal {ℓ} : {A : Type ℓ} → String → Option A → Outcome A
or_fatal m none = fatal m
or_fatal m (some a) = returned a

abbrev pub deref {ℓ} : {A : Type ℓ} → Option A → Outcome A
deref none = panicked nil_dereference
deref (some a) = returned a

-- `x / len(nodes)`
abbrev pub share : ℤ → ℕ → Outcome ℤ
share x zero = panicked divide_by_zero
share x (suc n) = returned (quot64 x (suc n))

-- The configuration of each node. That the copy's `ReportOptions` may be the client's own object is
-- not modelled: the result is the copy alone.
unfoldable pub config_to_nodes : {F : Type 0} → Copier F → RunnerConfig F → Outcome (RunnerConfig F)
config_to_nodes copy test_cfg = do
  node ← or_fatal "copy" (copy test_cfg)
  options ← deref node.report_options
  cluster ← deref node.cluster_options
  attackers ← share node.attackers (length cluster.nodes)
  start ← share node.start_rps (length cluster.nodes)
  step ← share node.step_rps (length cluster.nodes)
  returned (record node {
    report_options = some (record options { csv = false; png = false });
    attackers = attackers;
    start_rps = start;
    step_rps = step;
  })

-- What `Recv` returns: a chunk or nil, and whether the error is nil, `io.EOF` or another.
pub data RecvError : Type 0 where
  no_error eof other_error : RecvError

pub record Received (Bytes : Type 0) : Type 0 where
  pub chunk : Option Bytes
  pub err : RecvError

abbrev is_eof : RecvError → Bool
is_eof eof = true
is_eof _ = false

abbrev is_other : RecvError → Bool
is_other other_error = true
is_other _ = false

-- `activeClients`, and the batches sent on `Results`.
pub record Receiver : Type 0 where
  pub active_clients : ℤ
  pub batches : List (List AttackResult)

unfoldable pub leave : Receiver → Receiver
leave r = record r { active_clients = r.active_clients -ℤ pos 1 }

-- `receive` of a node's client; `decode` is the gob decoder. The list ends where the stream still goes
-- on. An error with a chunk is counted, and the chunk is used.
unfoldable pub receive :
    {Bytes : Type 0}
    → (Bytes → Option (List AttackResult))
    → Receiver
    → List (Received Bytes)
    → Outcome Receiver
receive decode r [] = returned r
receive decode r (x ∷ xs) =
    let next = λ (b : List AttackResult).
      let r' = (if is_other x.err then leave r else r) in
      receive decode (record r' { batches = r'.batches ++ b ∷ [] }) xs in
    elim x.chunk [
      | none ↦ returned (leave r)
      | some bytes ↦ elim (is_eof x.err) [
        | true ↦ returned (leave r)
        | false ↦ do b ← or_fatal "decode" (decode bytes); next b
      ]
    ]

pub record ClusterTickMetrics (F E : Type 0) : Type 0 where
  pub samples : List (List AttackResult)
  pub metrics : Metrics F E

pub record ClusterClient (F E : Type 0) : Type 0 where
  pub failed : Bool
  pub cluster_tick_metrics : List (ℕ × ClusterTickMetrics F E)

-- The line logged for a tick, a row of the csv file, `Shutdown` of a node's client, by its index.
pub data Effect (F E : Type 0) : Type 0 where
  log_tick : ℕ → Metrics F E → Effect F E
  write_percentiles : AttackResult → Metrics F E → Effect F E
  shutdown : ℕ → Effect F E

-- What the `select` finds: a batch, or none, with the value of `activeClients` at that moment.
pub data Event : Type 0 where
  batch : List AttackResult → Event
  idle : ℤ → Event

abbrev pub effect_if : {A : Type 0} → Bool → A → List A
effect_if true x = x ∷ []
effect_if false x = []

-- `shutdownOnNodeSampleError`, which calls the nodes from i on; `answers` says of a node whether the call
-- of `ShutdownNode` has no error, and `Shutdown` is fatal if it has one.
unfoldable pub shutdowns : {F E : Type 0} → (ℕ → Bool) → ℕ → ℕ → Outcome (List (Effect F E))
shutdowns answers i zero = returned []
shutdowns answers i (suc n) =
    let rest = shutdowns answers (i + 1) n in
    elim (answers i) [
      | false ↦ fatal "ShutdownNode"
      | true ↦ do es ← rest; returned (shutdown i ∷ es)
    ]

-- The loop over the batches of a tick.
unfoldable pub add_batches :
    {F E : Type 0} ⦃fl : Float64 F⦄ ⦃q : Quantile F E⦄
    → Metrics F E
    → List (List AttackResult)
    → Metrics F E
add_batches m [] = m
add_batches m (b ∷ bs) = add_batches (add_all m b) bs

-- `answers` is as in `shutdowns`, `nodes` the number of nodes, `csv` the report option.
module _ {F E : Type 0} ⦃fl : Float64 F⦄ ⦃q : Quantile F E⦄ (answers : ℕ → Bool) (ratio : F)
    (nodes : ℕ) (csv : Bool) where
  abbrev pub ratio_failed : Metrics F E → Bool
  ratio_failed m = m.success_ratio <f ratio

  abbrev pub or_new : Option (ClusterTickMetrics F E) → ClusterTickMetrics F E
  or_new none = record { samples = []; metrics = new_metrics }
  or_new (some tm) = tm

  -- What follows once the tick of a batch has its metrics: `full` says that all nodes sent a batch, `bad`
  -- that the success ratio is too low.
  abbrev pub report_tick :
      AttackResult
      → ClusterTickMetrics F E
      → Bool
      → Bool
      → ClusterClient F E
      → Outcome (ClusterClient F E × List (Effect F E) × Bool)
  report_tick first tm full bad c =
      let tick = first.attack_token.tick in
      do
        stops ← (if bad then shutdowns answers 0 nodes else returned [])
        returned (
          record {
            failed = if bad then true else c.failed;
            cluster_tick_metrics = insert tick tm c.cluster_tick_metrics;
          },
          (if full
              then log_tick tick tm.metrics
                ∷ (effect_if csv (write_percentiles first tm.metrics) ++ stops)
              else []),
          bad,
        )

  -- One batch. The Boolean says that the loop returns, since the tick has too many errors.
  unfoldable pub collect_batch :
      List AttackResult → ClusterClient F E → Outcome (ClusterClient F E × List (Effect F E) × Bool)
  collect_batch [] c = panicked index_out_of_range
  collect_batch (first ∷ rest) c =
      let tick = first.attack_token.tick in
      let tm = or_new (lookup tick c.cluster_tick_metrics) in
      let samples = tm.samples ++ (first ∷ rest) ∷ [] in
      let full = length samples == nodes in
      let m = (if full then update (add_batches tm.metrics samples) else tm.metrics) in
      let bad = (if full then ratio_failed m else false) in
      report_tick first (record { samples = samples; metrics = m }) full bad c

  -- The loop. The Boolean says whether it has returned.
  unfoldable pub collect_results :
      ClusterClient F E → List Event → Outcome (ClusterClient F E × List (Effect F E) × Bool)
  collect_results c [] = returned (c, [], false)
  collect_results c (idle active ∷ evs) =
      let rest = collect_results c evs in
      if eqb_ℤ active (pos 0) then returned (c, [], true) else rest
  collect_results c (batch b ∷ evs) = do
    (c', es, stop) ← collect_batch b c
    elim stop [
      | true ↦ returned (c', es, true)
      | false ↦ do (c'', es', over) ← collect_results c' evs; returned (c'', es ++ es', over)
    ]
