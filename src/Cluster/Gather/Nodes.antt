-- ===== src/Cluster/Gather/Nodes.antt =====
-- A cluster as a whole: the collectors of the nodes (runner.go), whose batches `streamResults` and
-- `receive` pass on, and the client that aggregates them (client.go).
use loaderbot.Prelude.{
  ℕ, ◌<◌, ◌≡◌, refl, sym, ◌∙◌, ◌⊎◌, inl, inr, Bool, true, List, [], ◌∷◌, arith, length, length-map,
  select, map, All, leb, if◌then◌else◌,
}
use loaderbot.Prelude.Int.{pos}
use loaderbot.Float.{Float64}
use loaderbot.Config.{RunnerConfig, ReportOptions}
use loaderbot.Result.{AttackResult}
use loaderbot.Metrics.{Quantile}
use loaderbot.Outcome.Laws.{Returns-mono, Returns-at}
use loaderbot.Outcome.{returned, Returns}
use loaderbot.Collect.{Collector, Effect, Event, collect_results}
use loaderbot.Collect.Ticks.{on_tick, pending, reports, before_timeout, AllUnfinished}
use loaderbot.Collect.Ticks.Total.{complete_tick}
use loaderbot.Cluster
use loaderbot.Cluster.{ClusterClient, batch}
use loaderbot.Cluster.Logged.{logs}
use loaderbot.Cluster.Gather.{finished, Gathering, gathering, Reach}
use loaderbot.Cluster.Gather.Arrived.{total}
use loaderbot.Cluster.Gather.Batches.{collect_results-IsBatched}
use loaderbot.Cluster.Gather.Sent.{batches, IsBatched}
use loaderbot.Cluster.Gather.Once.{is_of, is_empty, HasFailed, each_tick_once}

module _ {F E : Type 0} ⦃fl : Float64 F⦄ ⦃q : Quantile F E⦄ where
  -- What the collector of a node has received, and what it has done.
  pub record NodeRun (cfg : RunnerConfig F) (opts : ReportOptions) (setup : ℕ → Bool)
      (c : Collector F E) : Type 0 where
    pub events : List Event
    pub last : Collector F E
    pub effects : List (Effect F E)
    pub ran : collect_results cfg opts setup c events ≡ returned (last, effects)

module _ {F E : Type 0} ⦃fl : Float64 F⦄ ⦃q : Quantile F E⦄ (cfg : RunnerConfig F)
    (opts : ReportOptions) (setup : ℕ → Bool) (ready : (i : ℕ) → setup i ≡ true)
    (stream : opts.stream ≡ true) (T : ℕ → ℕ) (T_pos : (t : ℕ) → 0 < T t) (c : Collector F E)
    (fresh : AllUnfinished T c) where
  -- The results are at the rates of their ticks.
  abbrev pub IsOnRate : NodeRun cfg opts setup c → Type 0
  IsOnRate n =
      All (λ r. r.attack_token.target_rps ≡ pos (T r.attack_token.tick)) (before_timeout n.events)

  -- All results of tick t came to the node's collector before its timeout.
  abbrev pub HasAll : ℕ → NodeRun cfg opts setup c → Type 0
  HasAll t n = length (select (on_tick t) (before_timeout n.events)) ≡ T t

  abbrev pub sent_by : NodeRun cfg opts setup c → List (List AttackResult)
  sent_by n = batches n.effects

  sent-IsBatched : (n : NodeRun cfg opts setup c) → IsOnRate n → IsBatched n.effects
  sent-IsBatched n rate =
      Returns-at (λ r. IsBatched r.1) (collect_results cfg opts setup c n.events) _
        (collect_results-IsBatched cfg opts setup ready stream T T_pos c n.events fresh rate) n.ran

  reported_once :
      (t : ℕ) (n : NodeRun cfg opts setup c)
      → pending t c ≡ []
      → IsOnRate n
      → HasAll t n
      → reports t n.effects ≡ 1
  reported_once t n none_waits rate all =
      (Returns-at _ (collect_results cfg opts setup c n.events) _
        (complete_tick cfg opts setup ready stream T T_pos c n.events t fresh rate none_waits all)
        n.ran).2

  none_empty :
      (ns : List (NodeRun cfg opts setup c)) → All IsOnRate ns → total is_empty (map sent_by ns) ≡ 0
  none_empty [] h = refl
  none_empty (n ∷ ns) h = omega (arith, (sent-IsBatched n h.0).1, none_empty ns h.1)

  one_each :
      (t : ℕ) (ns : List (NodeRun cfg opts setup c))
      → pending t c ≡ []
      → All IsOnRate ns
      → All (HasAll t) ns
      → total (is_of t) (map sent_by ns) ≡ length ns
  one_each t [] w h k = refl
  one_each t (n ∷ ns) w h k =
      omega
        (arith, (sent-IsBatched n h.0).0 t, reported_once t n w h.0 k.0, one_each t ns w h.1 k.1)

  leb_same : (n k l : ℕ) → k ≡ n → l ≡ (if leb n k then 1 else 0) → l ≡ 1
  leb_same n k l e h = ground arith

  -- At least one node. The nodes have one configuration, stream, and set up all their attackers; their
  -- collectors start from unfinished ticks with no sample of t, and ask for `T k` results in each tick
  -- k, 0 < T k. The client starts with no batches, and the nodes answer `ShutdownNode`. If at each node all `T t` results of tick t come
  -- before the timeout, then for any interleaving of the nodes' streams, once `collectResults` of the
  -- client returns as no node is active, the batches that it has received make it either fail on a tick
  -- with too many errors, or aggregate tick t exactly once.
  pub cluster_aggregates :
      (answers : ℕ → Bool)
      → ((i : ℕ) → answers i ≡ true)
      → (ratio : F) (csv : Bool) (client : ClusterClient F E) (t : ℕ)
        (ns : List (NodeRun cfg opts setup c)) {s : Gathering (List AttackResult)}
      → Reach (gathering (map sent_by ns)) s
      → s.client ≡ finished
      → 0 < length ns
      → client.cluster_tick_metrics ≡ []
      → pending t c ≡ []
      → All IsOnRate ns
      → All (HasAll t) ns
      → Returns
          (λ r. HasFailed ratio r ⊎ (logs t r.1 ≡ 1))
          (Cluster.collect_results answers ratio
            (length (map sent_by ns))
            csv
            client
            (map batch s.arrived))
  cluster_aggregates answers all_answer ratio csv client t ns {s = s} r e some_node empty none_waits
        rates all =
      let same = length-map ns sent_by in
      Returns-mono _ _
        (Cluster.collect_results answers ratio (length (map sent_by ns)) csv client
          (map batch s.arrived))
        (each_tick_once answers all_answer ratio csv client (map sent_by ns) r e
          (omega (arith, same, some_node)) (none_empty ns rates) empty)
        λ x h. elim h [
          | inl f ↦ inl f
          | inr o ↦ inr (
              leb_same (length (map sent_by ns)) (total (is_of t) (map sent_by ns)) (logs t x.1)
                (one_each t ns none_waits rates all ∙ sym same) (o t))
        ]
