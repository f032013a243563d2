-- ===== src/System/Nodes.antt =====
-- A cluster as a whole: the runs of the nodes (runner.go, attack.go), whose batches `streamResults` of
-- service.go and `receive` of client.go pass on, and the client that aggregates them (client.go).
use loaderbot.Schedule.{Limiters}
use loaderbot.Prelude.{ℕ, ◌<◌, ◌≡◌, Bool, true, List, map, All}
use loaderbot.Prelude.Int.{pos}
use loaderbot.Float.{Float64}
use loaderbot.Config.{RunnerConfig, ReportOptions}
use loaderbot.Result.{AttackResult}
use loaderbot.Metrics.{Quantile}
use loaderbot.Schedule.Correct.{IsBound}
use loaderbot.Schedule.LeftBehind.{has_tick}
use loaderbot.Collect.{Collector, received}
use loaderbot.Collect.Ticks.{AllUnfinished}
use loaderbot.Pipeline.{asked}
use loaderbot.Flow.Kept.{count, held, results}
use loaderbot.Flow.Reported.{IsPositive}
use loaderbot.Cluster
use loaderbot.Cluster.Gather
use loaderbot.Cluster.Gather.Sent.{batches}
use loaderbot.Cluster.Gather.Nodes.{NodeRun}
use loaderbot.System.{System, opening, Reach}
use loaderbot.System.History.{Reach-IsRun}

module _ {L F E : Type 0} ⦃fl : Float64 F⦄ ⦃q : Quantile F E⦄ where
  -- A node of the cluster, whose run has closed `OutResults`.
  pub record NodeSystem (new_limiter : Limiters L) (cfg : RunnerConfig F) (opts : ReportOptions)
      (setup : ℕ → Bool) (c : Collector F E) : Type 0 where
    pub attackers : ℕ
    pub last : System L F E
    pub reached : Reach new_limiter cfg opts setup (opening new_limiter cfg c attackers) last
    pub is_closed : last.out_closed ≡ true

module _ {L F E : Type 0} ⦃fl : Float64 F⦄ ⦃q : Quantile F E⦄ (new_limiter : Limiters L)
    (cfg : RunnerConfig F) (opts : ReportOptions) (setup : ℕ → Bool)
    (ready : (i : ℕ) → setup i ≡ true) (stream : opts.stream ≡ true) (d : ℕ) (d_pos : 0 < d)
    (bound : IsBound cfg.system_mode) (step : cfg.step_duration_sec ≡ pos d) (c : Collector F E)
    (fresh : AllUnfinished (asked cfg d) c) where
  -- The batches on the node's stream.
  abbrev pub streamed_by : NodeSystem new_limiter cfg opts setup c → List (List AttackResult)
  streamed_by n = batches n.last.effects

  -- The results are for tokens with rates above 0. The scheduler has left tick t behind, and no token of t
  -- is with an attacker, was dropped, or has its result in the channel.
  pub record IsDone (t : ℕ) (n : NodeSystem new_limiter cfg opts setup c) : Type 0 where
    pub positive : All IsPositive n.last.received
    pub left_behind : t < n.last.schedule.current_tick
    pub no_hand : held (has_tick t) n.last.crew ≡ 0
    pub no_drop : count (has_tick t) n.last.dropped ≡ 0
    pub no_queue : results (has_tick t) n.last.queue ≡ 0

  abbrev node_run : NodeSystem new_limiter cfg opts setup c → NodeRun cfg opts setup c
  node_run n = record {
    events = map received n.last.received;
    last = n.last.books;
    effects = n.last.effects;
    ran = Reach-IsRun new_limiter cfg opts setup c n.attackers n.reached;
  }
