-- ===== src/Collect.antt =====
-- runner.go: `collectResults`, `processTickMetrics` and `scaleAttackers`, which one goroutine runs.
-- Log lines are left out, but for the one of a reported tick.
pub mod Books
pub mod Ticks
pub mod Counters
use loaderbot.Prelude.{
  ℕ, zero, suc, ◌+◌, ◌≡◌, Bool, true, false, ◌&&◌, ◌||◌, not, String, Option, none, some, List, [],
  ◌∷◌, ◌++◌, length, replicate, if◌then◌else◌,
}
use loaderbot.Prelude.Int.{ℤ, pos, negsuc, pos_part, eqb_ℤ}
use loaderbot.Prelude.Maps.{Eq, ℕ_eq, string_eq, lookup, insert, delete}
use loaderbot.Float.{Float64, of_int, ◌*f◌, ◌<f◌}
use loaderbot.Config.{RunnerConfig, ReportOptions, Prometheus, bound_rps_autoscale, is_mode}
use loaderbot.Result.{AttackToken, AttackResult, has_error}
use loaderbot.Metrics.{Quantile, Metrics, new_metrics, add_all, update}
use loaderbot.Outcome.{Outcome, returned, fatal, ◌>>=◌}
use loaderbot.Attack.{err_attacker_setup}

pub record TickMetrics (F E : Type 0) : Type 0 where
  pub samples : List AttackResult
  pub metrics : Metrics F E
  pub reported : Bool

-- The fields of `Runner` that the goroutine writes. `attackers` is the length of the slice; `failed`
-- and the counters of errors count events and are left unbounded.
pub record Collector (F E : Type 0) : Type 0 where
  pub received_tick_metrics : List (ℕ × TickMetrics F E)
  pub uniq_errors : List (String × ℕ)
  pub failed : ℕ
  pub attackers : ℕ
  pub total_requests_stored : ℕ

-- What the goroutine does to the outside: a batch on `OutResults`, `CancelFunc()`, the report of a tick
-- (whose line is logged in the three modes that have a name), rows of the two csv files, the gauges, a
-- new attacker's goroutine, `close(OutResults)`.
pub data Effect (F E : Type 0) : Type 0 where
  send_batch : List AttackResult → Effect F E
  cancel : Effect F E
  log_tick : AttackToken → Metrics F E → Effect F E
  write_result : AttackResult → String → Effect F E
  write_percentiles : AttackResult → Metrics F E → Effect F E
  set_gauges : TickMetrics F E → Effect F E
  start_attacker : Effect F E
  close_results : Effect F E

-- An `if` with a single effect.
abbrev pub effect_if : {A : Type 0} → Bool → A → List A
effect_if true x = x ∷ []
effect_if false x = []

abbrev pub prometheus_enabled : Option Prometheus → Bool
prometheus_enabled none = false
prometheus_enabled (some p) = p.enable

abbrev pub target_of_first : List AttackResult → ℤ
target_of_first [] = pos 0
target_of_first (r ∷ rs) = r.attack_token.target_rps

abbrev pub or_zero : Option ℕ → ℕ
or_zero none = 0
or_zero (some n) = n

-- `r.uniqErrors[e] += 1`
unfoldable pub count_error : AttackResult → List (String × ℕ) → List (String × ℕ)
count_error res m =
    if has_error res
    then insert res.do_result.error (or_zero (lookup res.do_result.error m) + 1) m
    else m

-- What the `select` finds: the test has timed out, or a result.
pub data Event : Type 0 where
  timed_out : Event
  received : AttackResult → Event

-- `opts` is what `ReportOptions` points to, which `DefaultCfgValues` has made not nil; `setup` says
-- whether `Setup` succeeds on the clone that becomes attacker number i.
module _ {F E : Type 0} ⦃fl : Float64 F⦄ ⦃q : Quantile F E⦄ (cfg : RunnerConfig F)
    (opts : ReportOptions) (setup : ℕ → Bool) where
  -- The `for` loop of `scaleAttackers`, for the attackers still to add.
  unfoldable pub add_attackers : ℕ → Collector F E → Outcome (Collector F E × List (Effect F E))
  add_attackers zero c = returned (c, [])
  add_attackers (suc n) c = elim (setup c.attackers) [
    | false ↦ fatal err_attacker_setup
    | true ↦ do
      (c', es) ← add_attackers n (record c { attackers = c.attackers + 1 })
      returned (c', start_attacker ∷ es)
  ]

  -- Is the rate of the tick below the threshold? `Samples[0]` is there, since the tick is not empty.
  abbrev pub lags : TickMetrics F E → Bool
  lags tm =
      is_mode bound_rps_autoscale cfg
      && tm.metrics.rate <f of_int (target_of_first tm.samples) *f cfg.attackers_scale_threshold

  unfoldable pub scale_attackers :
      TickMetrics F E → Collector F E → Outcome (Collector F E × List (Effect F E))
  scale_attackers tm c =
      if lags tm then add_attackers (pos_part cfg.attackers_scale_amount) c else returned (c, [])

  abbrev pub or_new : Option (TickMetrics F E) → TickMetrics F E
  or_new none = record { samples = []; metrics = new_metrics; reported = false }
  or_new (some tm) = tm

  abbrev pub ratio_failed : Metrics F E → Bool
  ratio_failed m = m.success_ratio <f cfg.success_ratio

  -- The tick is full: report it, scale, and forget it.
  unfoldable pub report_tick :
      AttackResult → TickMetrics F E → Collector F E → Outcome (Collector F E × List (Effect F E))
  report_tick res tm c =
      let tick = res.attack_token.tick in
      let m = update (add_all tm.metrics tm.samples) in
      let tm' : TickMetrics F E = record tm { metrics = m } in
      let c' : Collector F E = record c {
        failed = if ratio_failed m then c.failed + 1 else c.failed;
      } in
      do
        (c'', es) ← scale_attackers tm' c'
        returned (
          record c'' { received_tick_metrics = delete tick c''.received_tick_metrics },
          effect_if opts.stream (send_batch tm.samples)
              ++ effect_if (ratio_failed m) cancel
              ++ log_tick res.attack_token m ∷ effect_if opts.csv (write_percentiles res m)
              ++ effect_if (prometheus_enabled cfg.prometheus) (set_gauges tm')
              ++ es,
        )

  -- The sample joins the metrics of its tick.
  abbrev pub grown : AttackResult → Collector F E → TickMetrics F E
  grown res c =
      let tm = or_new (lookup res.attack_token.tick c.received_tick_metrics) in
      record tm { samples = tm.samples ++ res ∷ [] }

  abbrev pub is_full : AttackResult → TickMetrics F E → Bool
  is_full res tm = eqb_ℤ (pos (length tm.samples)) res.attack_token.target_rps && not tm.reported

  unfoldable pub process_tick_metrics :
      AttackResult → Collector F E → Outcome (Collector F E × List (Effect F E))
  process_tick_metrics res c =
      let tm = grown res c in
      let c' : Collector F E = record c {
        received_tick_metrics = insert res.attack_token.tick tm c.received_tick_metrics;
      } in
      if is_full res tm then report_tick res tm c' else returned (c', [])

  -- One result received from `results`.
  unfoldable pub collect_one :
      AttackResult → Collector F E → Outcome (Collector F E × List (Effect F E))
  collect_one res c =
      let c' : Collector F E = record c {
        total_requests_stored = c.total_requests_stored + 1;
        uniq_errors = count_error res c.uniq_errors;
      } in
      do
        (c'', es) ← process_tick_metrics res c'
        returned (
          c'',
          effect_if opts.csv
                (write_result res (if has_error res then res.do_result.error else "ok"))
              ++ es,
        )

  -- The loop. Events that end with no `timed_out` are a run that still goes on.
  unfoldable pub collect_results :
      Collector F E → List Event → Outcome (Collector F E × List (Effect F E))
  collect_results c [] = returned (c, [])
  collect_results c (timed_out ∷ _) = returned (c, close_results ∷ [])
  collect_results c (received res ∷ evs) = do
    (c', es) ← collect_one res c
    (c'', es') ← collect_results c' evs
    returned (c'', es ++ es')
