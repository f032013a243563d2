-- ===== src/Collect/Counters.antt =====
-- The counters of `collectResults` (runner.go): stored requests, errors by text, failed ticks, attackers.
use loaderbot.Prelude.{
  ℕ, zero, suc, ◌+◌, ◌≡◌, refl, Bool, true, String, List, [], ◌∷◌, arith, if◌then◌else◌, Bool-cases,
  inl, inr,
}
use loaderbot.Prelude.Int.{pos_part}
use loaderbot.Prelude.Maps.{string_eq, ℕ_eq, insert}
use loaderbot.Float.{Float64}
use loaderbot.Config.{RunnerConfig, ReportOptions}
use loaderbot.Result.{AttackResult, has_error}
use loaderbot.Metrics.{Quantile, Metrics, add_all, update}
use loaderbot.Collect.{
  TickMetrics, Collector, close_results, Event, timed_out, received, count_error, add_attackers,
  scale_attackers, lags, ratio_failed, prometheus_enabled, report_tick, grown, is_full,
  process_tick_metrics, collect_one, collect_results,
}
use loaderbot.Collect.Ticks.{before_timeout}
use loaderbot.Outcome.Laws.{Returns-bind, Returns-mono}
use loaderbot.Outcome.{Returns}
use loaderbot.Collect.Books.{
  starts-report_effects, cancels-report_effects, Books, is_cancel, is_start, Books-trans,
  Books-still, count-write, count_error_lem,
}

module _ {F E : Type 0} ⦃fl : Float64 F⦄ ⦃q : Quantile F E⦄ (cfg : RunnerConfig F)
    (opts : ReportOptions) (setup : ℕ → Bool) (ready : (i : ℕ) → setup i ≡ true) where
  add_attackers-Books :
      (n : ℕ) (c : Collector F E)
      → Returns (λ r. Books c [] r.0 r.1) (add_attackers cfg opts setup n c)
  unfolding add_attackers
  add_attackers-Books zero c = Books-still c [] refl refl
  add_attackers-Books (suc n) c =
      rw (ready c.attackers, add_attackers)
        (Returns-bind _ _
          (add_attackers cfg opts setup n (record c { attackers = c.attackers + 1 })) _
          (add_attackers-Books n (record c { attackers = c.attackers + 1 }))
          (λ r h. record {
            stored = h.stored;
            errors = h.errors;
            failures = h.failures;
            attackers = omega (arith, h.attackers);
          }))

  scale_attackers-Books :
      (tm : TickMetrics F E) (c : Collector F E)
      → Returns (λ r. Books c [] r.0 r.1) (scale_attackers cfg opts setup tm c)
  unfolding scale_attackers
  scale_attackers-Books tm c = elim (Bool-cases (lags cfg opts setup tm)) [
    | inl e ↦ rw e (add_attackers-Books (pos_part cfg.attackers_scale_amount) c)
    | inr e ↦ rw e (Books-still c [] refl refl)
  ]

  report_tick-Books :
      (res : AttackResult) (tm : TickMetrics F E) (c : Collector F E)
      → Returns (λ r. Books c [] r.0 r.1) (report_tick cfg opts setup res tm c)
  unfolding report_tick
  report_tick-Books res tm c =
      Returns-bind _ _ (scale_attackers cfg opts setup tm' counted) _
        (scale_attackers-Books tm' counted)
        λ r h. record {
          stored = h.stored;
          errors = h.errors;
          failures = ground (
            arith,
            h.failures,
            cancels-report_effects res tm.samples tm' m r.1 opts.stream bad opts.csv
                (prometheus_enabled cfg.prometheus),
          );
          attackers = omega (
            arith,
            h.attackers,
            starts-report_effects res tm.samples tm' m r.1 opts.stream bad opts.csv
                (prometheus_enabled cfg.prometheus),
          );
        }
    where
      m : Metrics F E
      m = update (add_all tm.metrics tm.samples)

      tm' : TickMetrics F E
      tm' = record tm { metrics = m }

      bad : Bool
      bad = ratio_failed cfg opts setup m

      counted : Collector F E
      counted = record c { failed = if bad then c.failed + 1 else c.failed }

  process-Books :
      (res : AttackResult) (c : Collector F E)
      → Returns (λ r. Books c [] r.0 r.1) (process_tick_metrics cfg opts setup res c)
  unfolding process_tick_metrics
  process-Books res c = elim (Bool-cases (is_full cfg opts setup res tm)) [
    | inl e ↦ rw e (
        Returns-mono _ _ (report_tick cfg opts setup res tm put) (report_tick-Books res tm put)
          λ r h. record {
            stored = h.stored;
            errors = h.errors;
            failures = h.failures;
            attackers = h.attackers;
          })
    | inr e ↦
        let still = Books-still c [] refl refl in
        rw e (record {
          stored = still.stored;
          errors = still.errors;
          failures = still.failures;
          attackers = still.attackers;
        })
  ]
    where
      tm : TickMetrics F E
      tm = grown cfg opts setup res c

      put : Collector F E
      put = record c {
        received_tick_metrics = insert res.attack_token.tick tm c.received_tick_metrics;
      }

  pub collect_one-Books :
      (res : AttackResult) (c : Collector F E)
      → Returns (λ r. Books c (res ∷ []) r.0 r.1) (collect_one cfg opts setup res c)
  unfolding collect_one
  collect_one-Books res c =
      Returns-bind _ _ (process_tick_metrics cfg opts setup res counted) _
        (process-Books res counted)
        λ r h. record {
          stored = omega (arith, h.stored);
          errors = λ e. omega (arith, h.errors e, count_error_lem res c.uniq_errors e);
          failures = omega (arith, h.failures, count-write is_cancel opts.csv res text r.1 refl);
          attackers = omega (arith, h.attackers, count-write is_start opts.csv res text r.1 refl);
        }
    where
      counted : Collector F E
      counted = record c {
        total_requests_stored = c.total_requests_stored + 1;
        uniq_errors = count_error res c.uniq_errors;
      }

      text : String
      text = if has_error res then res.do_result.error else "ok"

  -- If every attacker sets up, the loop returns, or still runs, with true counters: the requests stored
  -- grow by the number of results received before the timeout; the count of each error text by the
  -- number of those results that failed with it; `Failed` by one for each time that the test is
  -- cancelled; and the slice of attackers by one for each attacker started.
  pub collect_results-Books :
      (c : Collector F E) (evs : List Event)
      → Returns (λ r. Books c (before_timeout evs) r.0 r.1) (collect_results cfg opts setup c evs)
  unfolding collect_results before_timeout
  collect_results-Books c [] = Books-still c [] refl refl
  collect_results-Books c (timed_out ∷ evs) = Books-still c (close_results ∷ []) refl refl
  collect_results-Books c (received res ∷ evs) =
      Returns-bind _ _ (collect_one cfg opts setup res c) _ (collect_one-Books res c) λ r a.
        Returns-bind _ _ (collect_results cfg opts setup r.0 evs) _ (collect_results-Books r.0 evs)
          λ r' b. Books-trans c r.0 r'.0 (res ∷ []) (before_timeout evs) r.1 r'.1 a b
