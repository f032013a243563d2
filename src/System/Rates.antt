-- ===== src/System/Rates.antt =====
-- The ticks that a run reports, the rows of percentiles that it writes, and the rate that `Run` returns.
use loaderbot.Prelude.{
  ℕ, zero, suc, ◌+◌, ◌≡◌, refl, sym, ap, ◌∙◌, Bool, true, String, List, [], ◌∷◌, ◌++◌, arith,
  if◌then◌else◌, Bool-cases, inl, inr,
}
use loaderbot.Prelude.Int.{pos_part}
use loaderbot.Float.{Float64}
use loaderbot.Config.{RunnerConfig, ReportOptions}
use loaderbot.Result.{AttackResult, AttackToken, has_error}
use loaderbot.Metrics.{Quantile, Metrics, add_all, update}
use loaderbot.Outcome.{Returns}
use loaderbot.Outcome.Laws.{Returns-bind}
use loaderbot.Collect.{
  TickMetrics, Collector, Effect, send_batch, cancel, log_tick, write_result, write_percentiles,
  set_gauges, start_attacker, close_results, effect_if, count_error, add_attackers, scale_attackers,
  lags, ratio_failed, prometheus_enabled, report_tick, grown, is_full, process_tick_metrics,
  collect_one,
}
use loaderbot.Collect.Ticks.Silent.{report_effects}

module _ {F E : Type 0} where
  -- The ticks that are reported, with their figures.
  unfoldable pub ticks : List (Effect F E) → List (AttackToken × Metrics F E)
  ticks [] = []
  ticks (log_tick tok m ∷ es) = (tok, m) ∷ ticks es
  ticks (send_batch xs ∷ es) = ticks es
  ticks (cancel ∷ es) = ticks es
  ticks (write_result r s ∷ es) = ticks es
  ticks (write_percentiles r m ∷ es) = ticks es
  ticks (set_gauges tm ∷ es) = ticks es
  ticks (start_attacker ∷ es) = ticks es
  ticks (close_results ∷ es) = ticks es

  -- The rows of percentiles.
  unfoldable pub rows : List (Effect F E) → List (AttackToken × Metrics F E)
  rows [] = []
  rows (write_percentiles r m ∷ es) = (r.attack_token, m) ∷ rows es
  rows (log_tick tok m ∷ es) = rows es
  rows (send_batch xs ∷ es) = rows es
  rows (cancel ∷ es) = rows es
  rows (write_result r s ∷ es) = rows es
  rows (set_gauges tm ∷ es) = rows es
  rows (start_attacker ∷ es) = rows es
  rows (close_results ∷ es) = rows es

  abbrev pub IsWritten : List (Effect F E) → Type 0
  IsWritten es = rows es ≡ ticks es

  ticks-append : (es es' : List (Effect F E)) → ticks (es ++ es') ≡ ticks es ++ ticks es'
  unfolding ticks
  ticks-append [] es' = refl
  ticks-append (log_tick tok m ∷ es) es' = ap (◌∷◌ (tok, m)) (ticks-append es es')
  ticks-append (send_batch xs ∷ es) es' = ticks-append es es'
  ticks-append (cancel ∷ es) es' = ticks-append es es'
  ticks-append (write_result r s ∷ es) es' = ticks-append es es'
  ticks-append (write_percentiles r m ∷ es) es' = ticks-append es es'
  ticks-append (set_gauges tm ∷ es) es' = ticks-append es es'
  ticks-append (start_attacker ∷ es) es' = ticks-append es es'
  ticks-append (close_results ∷ es) es' = ticks-append es es'

  rows-append : (es es' : List (Effect F E)) → rows (es ++ es') ≡ rows es ++ rows es'
  unfolding rows
  rows-append [] es' = refl
  rows-append (write_percentiles r m ∷ es) es' = ap (◌∷◌ (r.attack_token, m)) (rows-append es es')
  rows-append (log_tick tok m ∷ es) es' = rows-append es es'
  rows-append (send_batch xs ∷ es) es' = rows-append es es'
  rows-append (cancel ∷ es) es' = rows-append es es'
  rows-append (write_result r s ∷ es) es' = rows-append es es'
  rows-append (set_gauges tm ∷ es) es' = rows-append es es'
  rows-append (start_attacker ∷ es) es' = rows-append es es'
  rows-append (close_results ∷ es) es' = rows-append es es'

  pub append-IsWritten :
      (es es' : List (Effect F E)) → IsWritten es → IsWritten es' → IsWritten (es ++ es')
  append-IsWritten es es' h k =
      rows-append es es'
      ∙ ap (λ xs. xs ++ rows es') h
      ∙ ap (◌++◌ (ticks es)) k
      ∙ sym (ticks-append es es')

  report_effects-IsWritten :
      (res : AttackResult) (xs : List AttackResult) (tm : TickMetrics F E) (m : Metrics F E)
      (es : List (Effect F E)) (s f w p : Bool)
      → w ≡ true
      → IsWritten es
      → IsWritten (report_effects s f w p res xs tm m es)
  unfolding rows ticks
  report_effects-IsWritten res xs tm m es s f w p e h = ground (arith, e, h)

  write-IsWritten :
      (b : Bool) (r : AttackResult) (s : String) (es : List (Effect F E))
      → IsWritten es
      → IsWritten (effect_if b (write_result r s) ++ es)
  unfolding rows ticks
  write-IsWritten b r s es h = ground (arith, h)

module _ {F E : Type 0} ⦃fl : Float64 F⦄ ⦃q : Quantile F E⦄ (cfg : RunnerConfig F)
    (opts : ReportOptions) (setup : ℕ → Bool) (ready : (i : ℕ) → setup i ≡ true)
    (csv : opts.csv ≡ true) where
  add_attackers-IsWritten :
      (n : ℕ) (c : Collector F E) → Returns (λ r. IsWritten r.1) (add_attackers cfg opts setup n c)
  unfolding add_attackers rows ticks
  add_attackers-IsWritten zero c = refl
  add_attackers-IsWritten (suc n) c =
      rw (ready c.attackers, add_attackers)
        (Returns-bind _ _
          (add_attackers cfg opts setup n (record c { attackers = c.attackers + 1 })) _
          (add_attackers-IsWritten n (record c { attackers = c.attackers + 1 })) (λ r h. h))

  scale_attackers-IsWritten :
      (tm : TickMetrics F E) (c : Collector F E)
      → Returns (λ r. IsWritten r.1) (scale_attackers cfg opts setup tm c)
  unfolding scale_attackers rows ticks
  scale_attackers-IsWritten tm c = elim (Bool-cases (lags cfg opts setup tm)) [
    | inl e ↦ rw e (add_attackers-IsWritten (pos_part cfg.attackers_scale_amount) c)
    | inr e ↦ rw e refl
  ]

  report_tick-IsWritten :
      (res : AttackResult) (tm : TickMetrics F E) (c : Collector F E)
      → Returns (λ r. IsWritten r.1) (report_tick cfg opts setup res tm c)
  unfolding report_tick
  report_tick-IsWritten res tm c =
      Returns-bind _ _ (scale_attackers cfg opts setup _ _) _ (scale_attackers-IsWritten _ _) λ r h.
        report_effects-IsWritten res tm.samples (record tm { metrics = m }) m r.1 opts.stream
          (ratio_failed cfg opts setup m) opts.csv (prometheus_enabled cfg.prometheus) csv h
    where
      m : Metrics F E
      m = update (add_all tm.metrics tm.samples)

  process-IsWritten :
      (res : AttackResult) (c : Collector F E)
      → Returns (λ r. IsWritten r.1) (process_tick_metrics cfg opts setup res c)
  unfolding process_tick_metrics rows ticks
  process-IsWritten res c =
      elim (Bool-cases (is_full cfg opts setup res (grown cfg opts setup res c))) [
        | inl e ↦ rw e (report_tick-IsWritten res _ _)
        | inr e ↦ rw e refl
      ]

  pub collect_one-IsWritten :
      (res : AttackResult) (c : Collector F E)
      → Returns (λ r. IsWritten r.1) (collect_one cfg opts setup res c)
  unfolding collect_one
  collect_one-IsWritten res c =
      Returns-bind _ _ (process_tick_metrics cfg opts setup res counted) _
        (process-IsWritten res counted) λ r h. write-IsWritten opts.csv res text r.1 h
    where
      counted : Collector F E
      counted = record c {
        total_requests_stored = c.total_requests_stored + 1;
        uniq_errors = count_error res c.uniq_errors;
      }

      text : String
      text = if has_error res then res.do_result.error else "ok"
