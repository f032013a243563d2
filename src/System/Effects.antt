-- ===== src/System/Effects.antt =====
-- What the collector does with one result (runner.go): cancellations and new attackers.
use loaderbot.Prelude.{
  ℕ, zero, suc, ◌+◌, ◌≤◌, ◌≡◌, refl, Bool, true, false, String, List, arith, length, select,
  if◌then◌else◌, Bool-cases, inl, inr,
}
use loaderbot.Prelude.Int.{pos_part}
use loaderbot.Prelude.Maps.{ℕ_eq}
use loaderbot.Float.{Float64}
use loaderbot.Config.{RunnerConfig, ReportOptions}
use loaderbot.Result.{AttackResult, has_error}
use loaderbot.Metrics.{Quantile, Metrics, add_all, update}
use loaderbot.Outcome.Laws.{Returns-bind}
use loaderbot.Outcome.{Returns}
use loaderbot.Collect.{
  TickMetrics, Collector, Effect, log_tick, count_error, add_attackers, scale_attackers, lags,
  ratio_failed, prometheus_enabled, report_tick, grown, is_full, process_tick_metrics, collect_one,
}
use loaderbot.Collect.Ticks.Silent.{report_effects}
use loaderbot.Collect.Books.{
  cancels, starts, is_cancel, is_start, starts-report_effects, cancels-report_effects, count-write,
}

-- The most attackers that one scaling starts.
abbrev pub amount : {F : Type 0} → RunnerConfig F → ℕ
amount cfg = pos_part cfg.attackers_scale_amount

module _ {F E : Type 0} ⦃fl : Float64 F⦄ ⦃q : Quantile F E⦄ (cfg : RunnerConfig F)
    (opts : ReportOptions) (setup : ℕ → Bool) where
  -- The report of a tick whose success ratio is too low.
  abbrev pub is_failing : Effect F E → Bool
  is_failing (log_tick tok m) = ratio_failed cfg opts setup m
  is_failing _ = false

  abbrev pub failing : List (Effect F E) → ℕ
  failing es = length (select is_failing es)

  -- As many cancellations as failing ticks, and no more than `n` new attackers.
  abbrev pub IsJust : ℕ → List (Effect F E) → Type 0
  IsJust n es = (starts es ≤ n) × (cancels es ≡ failing es)

  failing-report_effects :
      (res : AttackResult) (xs : List AttackResult) (tm : TickMetrics F E) (m : Metrics F E)
      (es : List (Effect F E)) (s f w p : Bool)
      → failing (report_effects s f w p res xs tm m es)
        ≡ (if ratio_failed cfg opts setup m then 1 else 0) + failing es
  failing-report_effects res xs tm m es s f w p = ground arith

  module _ (ready : (i : ℕ) → setup i ≡ true) where
    add_attackers-IsJust :
        (n : ℕ) (c : Collector F E) → Returns (λ r. IsJust n r.1) (add_attackers cfg opts setup n c)
    unfolding add_attackers
    add_attackers-IsJust zero c = (omega arith, refl)
    add_attackers-IsJust (suc n) c =
        rw (ready c.attackers, add_attackers)
          (Returns-bind _ _
            (add_attackers cfg opts setup n (record c { attackers = c.attackers + 1 })) _
            (add_attackers-IsJust n (record c { attackers = c.attackers + 1 }))
            (λ r h. (omega (arith, h.0), h.1)))

    scale_attackers-IsJust :
        (tm : TickMetrics F E) (c : Collector F E)
        → Returns (λ r. IsJust (amount cfg) r.1) (scale_attackers cfg opts setup tm c)
    unfolding scale_attackers
    scale_attackers-IsJust tm c = elim (Bool-cases (lags cfg opts setup tm)) [
      | inl e ↦ rw e (add_attackers-IsJust (amount cfg) c)
      | inr e ↦ rw e (omega arith, refl)
    ]

    report_tick-IsJust :
        (res : AttackResult) (tm : TickMetrics F E) (c : Collector F E)
        → Returns (λ r. IsJust (amount cfg) r.1) (report_tick cfg opts setup res tm c)
    unfolding report_tick
    report_tick-IsJust res tm c =
        Returns-bind _ _ (scale_attackers cfg opts setup _ _) _ (scale_attackers-IsJust _ _) λ r h.
          (
            omega (
              arith,
              h.0,
              starts-report_effects res tm.samples _ m r.1 opts.stream
                  (ratio_failed cfg opts setup m) opts.csv (prometheus_enabled cfg.prometheus),
            ),
            omega (
              arith,
              h.1,
              cancels-report_effects res tm.samples (record tm { metrics = m }) m r.1 opts.stream
                  (ratio_failed cfg opts setup m) opts.csv (prometheus_enabled cfg.prometheus),
              failing-report_effects res tm.samples (record tm { metrics = m }) m r.1 opts.stream
                  (ratio_failed cfg opts setup m) opts.csv (prometheus_enabled cfg.prometheus),
            ),
          )
      where
        m : Metrics F E
        m = update (add_all tm.metrics tm.samples)

    process-IsJust :
        (res : AttackResult) (c : Collector F E)
        → Returns (λ r. IsJust (amount cfg) r.1) (process_tick_metrics cfg opts setup res c)
    unfolding process_tick_metrics
    process-IsJust res c =
        elim (Bool-cases (is_full cfg opts setup res (grown cfg opts setup res c))) [
          | inl e ↦ rw e (report_tick-IsJust res _ _)
          | inr e ↦ rw e (omega arith, refl)
        ]

    -- One result starts at most as many attackers as one scaling, and cancels the test exactly as often
    -- as it completes a tick whose success ratio is too low.
    pub collect_one-IsJust :
        (res : AttackResult) (c : Collector F E)
        → Returns (λ r. IsJust (amount cfg) r.1) (collect_one cfg opts setup res c)
    unfolding collect_one
    collect_one-IsJust res c =
        Returns-bind _ _ (process_tick_metrics cfg opts setup res counted) _
          (process-IsJust res counted)
          λ r h. (
            omega (arith, h.0, count-write is_start opts.csv res text r.1 refl),
            omega (
              arith,
              h.1,
              count-write is_cancel opts.csv res text r.1 refl,
              count-write is_failing opts.csv res text r.1 refl,
            ),
          )
      where
        counted : Collector F E
        counted = record c {
          total_requests_stored = c.total_requests_stored + 1;
          uniq_errors = count_error res c.uniq_errors;
        }

        text : String
        text = if has_error res then res.do_result.error else "ok"
