-- ===== src/Cluster/Gather/Batches.antt =====
-- The batches that the runner of a node sends out (runner.go, `collectResults`).
use mathlib.Core.Path.{subst}
use loaderbot.Prelude.{
  ℕ, zero, suc, ◌+◌, ◌<◌, ◌≡◌, refl, sym, ap, inl, inr, Bool, true, false, String, Option, List, [],
  ◌∷◌, ◌++◌, arith, length, length-append, All, All-append, Bool-cases,
}
use loaderbot.Prelude.Int.{pos, pos_part}
use loaderbot.Prelude.Maps.{lookup, ℕ_eq}
use loaderbot.Float.{Float64}
use loaderbot.Config.{RunnerConfig, ReportOptions}
use loaderbot.Result.{AttackResult}
use loaderbot.Metrics.{Metrics, Quantile, update, add_all}
use loaderbot.Outcome.Laws.{Returns-bind, Returns-both}
use loaderbot.Outcome.{Returns}
use loaderbot.Collect.{
  TickMetrics, Collector, Effect, write_result, effect_if, Event, timed_out, received,
  add_attackers, lags, scale_attackers, ratio_failed, report_tick, prometheus_enabled, grown,
  is_full, process_tick_metrics, collect_one, collect_results, count_error,
}
use loaderbot.Collect.Ticks.{AllOn, pending, reports, before_timeout, AllUnfinished}
use loaderbot.Collect.Ticks.Silent.{report_effects, scale_attackers-KeepsTicks}
use loaderbot.Collect.Ticks.Stream.{grown_samples, collect_one-Accounts}
use loaderbot.Collect.Ticks.Entry.{entry_facts}
use loaderbot.Cluster.Gather.Sent.{batches, IsBatched, IsBatched-append, report_effects-IsBatched}

module _ {F E : Type 0} ⦃fl : Float64 F⦄ ⦃q : Quantile F E⦄ (cfg : RunnerConfig F)
    (opts : ReportOptions) (setup : ℕ → Bool) (ready : (i : ℕ) → setup i ≡ true)
    (stream : opts.stream ≡ true) (T : ℕ → ℕ) (T_pos : (t : ℕ) → 0 < T t) where
  -- New attackers are no batch.
  abbrev SendsNone : Collector F E × List (Effect F E) → Type 0
  SendsNone r = batches r.1 ≡ []

  add_attackers-SendsNone :
      (n : ℕ) (c : Collector F E) → Returns SendsNone (add_attackers cfg opts setup n c)
  unfolding add_attackers
  add_attackers-SendsNone zero c = refl
  add_attackers-SendsNone (suc n) c =
      rw (ready c.attackers, add_attackers)
        (Returns-bind SendsNone SendsNone
          (add_attackers cfg opts setup n (record c { attackers = c.attackers + 1 })) _
          (add_attackers-SendsNone n (record c { attackers = c.attackers + 1 })) (λ r h. h))

  scale_attackers-SendsNone :
      (tm : TickMetrics F E) (c : Collector F E)
      → Returns SendsNone (scale_attackers cfg opts setup tm c)
  unfolding scale_attackers
  scale_attackers-SendsNone tm c = elim (Bool-cases (lags cfg opts setup tm)) [
    | inl e ↦ rw e (add_attackers-SendsNone (pos_part cfg.attackers_scale_amount) c)
    | inr e ↦ rw e refl
  ]

  report_tick-IsBatched :
      (c : Collector F E) (res : AttackResult) (tm : TickMetrics F E)
      → AllOn res.attack_token.tick tm.samples
      → 0 < length tm.samples
      → Returns (λ r. IsBatched r.1) (report_tick cfg opts setup res tm c)
  unfolding report_tick
  report_tick-IsBatched c res tm own some_sample =
      Returns-bind _ _ (scale_attackers cfg opts setup _ _) _
        (Returns-both _ SendsNone (scale_attackers cfg opts setup _ _)
          (scale_attackers-KeepsTicks cfg opts setup ready _ _) (scale_attackers-SendsNone _ _))
        λ r k.
          subst
            (λ b. IsBatched (
              report_effects b (ratio_failed cfg opts setup m) opts.csv
                (prometheus_enabled cfg.prometheus) res tm.samples (record tm { metrics = m }) m
                r.1))
            (sym stream)
            (report_effects-IsBatched _ _ _ res tm.samples _ m r.1 k.0.1 k.1 own some_sample)
    where
      m : Metrics F E
      m = update (add_all tm.metrics tm.samples)

  process-IsBatched :
      (c : Collector F E) (res : AttackResult)
      → AllUnfinished T c
      → Returns (λ r. IsBatched r.1) (process_tick_metrics cfg opts setup res c)
  unfolding process_tick_metrics reports
  process-IsBatched c res h = elim (Bool-cases (is_full cfg opts setup res tm)) [
    | inl e ↦ rw e (report_tick-IsBatched _ res tm own some_sample)
    | inr e ↦ rw e ((λ t. refl), refl)
  ]
    where
      k : ℕ
      k = res.attack_token.tick

      o : Option (TickMetrics F E)
      o = lookup k c.received_tick_metrics

      tm : TickMetrics F E
      tm = grown cfg opts setup res c

      samples : tm.samples ≡ pending k c ++ res ∷ []
      samples = ap (λ xs. xs ++ res ∷ []) (grown_samples cfg opts setup ready stream T T_pos res o)

      own : AllOn k tm.samples
      own =
          subst (AllOn k) (sym samples)
            (All-append _ (pending k c) (res ∷ []) (entry_facts T T_pos k o (h k)).0 (refl, tt))

      some_sample : 0 < length tm.samples
      some_sample = omega (arith, ap length samples, length-append (pending k c) (res ∷ []))

  write-IsBatched :
      (b : Bool) (es : List (Effect F E)) (r : AttackResult) (s : String)
      → IsBatched es
      → IsBatched (effect_if b (write_result r s) ++ es)
  unfolding reports
  write-IsBatched true es r s h = h
  write-IsBatched false es r s h = h

  collect_one-IsBatched :
      (c : Collector F E) (res : AttackResult)
      → AllUnfinished T c
      → Returns (λ r. IsBatched r.1) (collect_one cfg opts setup res c)
  unfolding collect_one
  collect_one-IsBatched c res h =
      Returns-bind _ _ (process_tick_metrics cfg opts setup res counted) _
        (process-IsBatched counted res h) λ r a. write-IsBatched opts.csv r.1 res _ a
    where
      counted : Collector F E
      counted = record c {
        total_requests_stored = c.total_requests_stored + 1;
        uniq_errors = count_error res c.uniq_errors;
      }

  pub collect_results-IsBatched :
      (c : Collector F E) (evs : List Event)
      → AllUnfinished T c
      → All (λ r. r.attack_token.target_rps ≡ pos (T r.attack_token.tick)) (before_timeout evs)
      → Returns (λ r. IsBatched r.1) (collect_results cfg opts setup c evs)
  unfolding collect_results before_timeout reports
  collect_results-IsBatched c [] h targets = ((λ t. refl), refl)
  collect_results-IsBatched c (timed_out ∷ evs) h targets = ((λ t. refl), refl)
  collect_results-IsBatched c (received res ∷ evs) h targets =
      let rest = λ (c' : Collector F E) (h' : AllUnfinished T c').
        collect_results-IsBatched c' evs h' targets.1 in
      Returns-bind _ _ (collect_one cfg opts setup res c) _
        (Returns-both _ _ (collect_one cfg opts setup res c)
          (collect_one-Accounts cfg opts setup ready stream T T_pos c res h targets.0)
          (collect_one-IsBatched c res h))
        λ r a.
          Returns-bind _ _ (collect_results cfg opts setup r.0 evs) _ (rest r.0 a.0.unfinished)
            λ r' b. IsBatched-append r.1 r'.1 a.1 b
