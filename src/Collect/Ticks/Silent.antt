-- ===== src/Collect/Ticks/Silent.antt =====
-- Calls that return, and effects that leave the ticks alone (runner.go).
use loaderbot.Prelude.{
  ℕ, zero, suc, ◌+◌, ◌≡◌, refl, Bool, true, List, [], ◌∷◌, ◌++◌, arith, ◌==◌, if◌then◌else◌,
  Bool-cases, inl, inr,
}
use loaderbot.Prelude.Int.{pos_part}
use loaderbot.Float.{Float64}
use loaderbot.Config.{RunnerConfig, ReportOptions}
use loaderbot.Result.{AttackResult}
use loaderbot.Metrics.{Quantile, Metrics}
use loaderbot.Outcome.Laws.{Returns-bind}
use loaderbot.Collect.{
  TickMetrics, Collector, Effect, send_batch, cancel, log_tick, write_percentiles, set_gauges,
  effect_if, add_attackers, scale_attackers, lags,
}
use loaderbot.Collect.Ticks.{streamed, reports}
use loaderbot.Outcome.{Returns}

module _ {F E : Type 0} where
  -- Neither a batch nor a report.
  abbrev pub IsSilent : List (Effect F E) → Type 0
  IsSilent es = (streamed es ≡ []) × ((t : ℕ) → reports t es ≡ 0)

  -- The ticks are those given, and the effects are silent.
  abbrev pub KeepsTicks : List (ℕ × TickMetrics F E) → Collector F E × List (Effect F E) → Type 0
  KeepsTicks m r = (r.0.received_tick_metrics ≡ m) × IsSilent r.1

  -- The effects of a reported tick.
  abbrev pub report_effects :
      Bool
      → Bool
      → Bool
      → Bool
      → AttackResult
      → List AttackResult
      → TickMetrics F E
      → Metrics F E
      → List (Effect F E)
      → List (Effect F E)
  report_effects stream failed csv prometheus res xs tm m es =
      effect_if stream (send_batch xs)
      ++ effect_if failed cancel
      ++ log_tick res.attack_token m ∷ effect_if csv (write_percentiles res m)
      ++ effect_if prometheus (set_gauges tm)
      ++ es

  module _ (res : AttackResult) (xs : List AttackResult) (tm : TickMetrics F E) (m : Metrics F E)
      (es : List (Effect F E)) (h : IsSilent es) where
    pub streamed-report_effects :
        (a b c : Bool) → streamed (report_effects true a b c res xs tm m es) ≡ xs ++ []
    unfolding streamed
    streamed-report_effects a b c = ground (arith, h.0)

    pub reports-report_effects :
        (t : ℕ) (a b c : Bool)
        → reports t (report_effects true a b c res xs tm m es)
          ≡ (if res.attack_token.tick == t then 1 else 0)
    unfolding reports
    reports-report_effects t a b c = ground (arith, h.1 t)

module _ {F E : Type 0} ⦃fl : Float64 F⦄ ⦃q : Quantile F E⦄ (cfg : RunnerConfig F)
    (opts : ReportOptions) (setup : ℕ → Bool) (ready : (i : ℕ) → setup i ≡ true) where
  add_attackers-KeepsTicks :
      (n : ℕ) (c : Collector F E)
      → Returns (KeepsTicks c.received_tick_metrics) (add_attackers cfg opts setup n c)
  unfolding add_attackers streamed reports
  add_attackers-KeepsTicks zero c = (refl, (refl, λ t. refl))
  add_attackers-KeepsTicks (suc n) c =
      rw (ready c.attackers, add_attackers)
        (Returns-bind (KeepsTicks c.received_tick_metrics) (KeepsTicks c.received_tick_metrics)
          (add_attackers cfg opts setup n (record c { attackers = c.attackers + 1 })) _
          (add_attackers-KeepsTicks n (record c { attackers = c.attackers + 1 }))
          (λ r h. (h.0, h.1)))

  pub scale_attackers-KeepsTicks :
      (tm : TickMetrics F E) (c : Collector F E)
      → Returns (KeepsTicks c.received_tick_metrics) (scale_attackers cfg opts setup tm c)
  unfolding scale_attackers streamed reports
  scale_attackers-KeepsTicks tm c = elim (Bool-cases (lags cfg opts setup tm)) [
    | inl e ↦ rw e (add_attackers-KeepsTicks (pos_part cfg.attackers_scale_amount) c)
    | inr e ↦ rw e (refl, (refl, λ t. refl))
  ]
