-- ===== src/Collect/Ticks/Stream.antt =====
-- The stream of batches that a node sends (runner.go, `collectResults` and `processTickMetrics`).
use mathlib.Core.List.{append-nil}
use mathlib.Core.Path.{subst}
use loaderbot.Prelude.{
  ℕ, ◌+◌, ◌<◌, ◌≡◌, refl, sym, ap, ◌∙◌, inl, inr, Bool, true, false, Option, none, some, List, [],
  ◌∷◌, ◌++◌, arith, length, length-append, All-append, ◌==◌, if◌then◌else◌, Bool-cases, String,
}
use loaderbot.Prelude.Int.{pos}
use loaderbot.Prelude.Maps.{ℕ_eq, lookup, insert, delete, lookup-insert, lookup-delete}
use loaderbot.Float.{Float64}
use loaderbot.Config.{RunnerConfig, ReportOptions}
use loaderbot.Result.{AttackResult}
use loaderbot.Metrics.{Quantile, Metrics, add_all, update}
use loaderbot.Collect.{
  TickMetrics, Collector, Effect, or_new, grown, is_full, report_tick, process_tick_metrics,
  collect_one, scale_attackers, prometheus_enabled, ratio_failed, effect_if, write_result,
  count_error,
}
use loaderbot.Collect.Ticks.{
  AllOn, samples_of, pending, streamed, reports, IsUnfinished, AllUnfinished, Accounts,
}
use loaderbot.Outcome.Laws.{Returns-bind}
use loaderbot.Outcome.{Returns}
use loaderbot.Collect.Ticks.Silent.{
  KeepsTicks, report_effects, streamed-report_effects, reports-report_effects,
  scale_attackers-KeepsTicks,
}
use loaderbot.Collect.Ticks.Entry.{step-Accounts, whole_tick, entry_facts}

module _ {F E : Type 0} ⦃fl : Float64 F⦄ ⦃q : Quantile F E⦄ (cfg : RunnerConfig F)
    (opts : ReportOptions) (setup : ℕ → Bool) (ready : (i : ℕ) → setup i ≡ true)
    (stream : opts.stream ≡ true) (T : ℕ → ℕ) (T_pos : (t : ℕ) → 0 < T t) where
  pub grown_samples :
      (res : AttackResult) (o : Option (TickMetrics F E))
      → (or_new cfg opts setup o).samples ≡ samples_of o
  grown_samples res none = refl
  grown_samples res (some tm) = refl

  grown_reported :
      (k : ℕ) (o : Option (TickMetrics F E))
      → IsUnfinished T k o
      → (or_new cfg opts setup o).reported ≡ false
  grown_reported k none h = refl
  grown_reported k (some tm) h = h.2

  lookup_forgotten :
      (k t : ℕ) (tm : TickMetrics F E) (m m' : List (ℕ × TickMetrics F E))
      → m' ≡ insert k tm m
      → lookup t (delete k m') ≡ (if k == t then none else lookup t m)
  lookup_forgotten k t tm m m' e =
      ap (λ n. lookup t (delete k n)) e
      ∙ ground (arith, lookup-delete k t (insert k tm m), lookup-insert k t tm m)

  -- The tick is full: all of it is sent, and it is forgotten.
  report_tick-Accounts :
      (c : Collector F E) (res : AttackResult) (tm : TickMetrics F E) (c0 : Collector F E)
      → AllUnfinished T c
      → c0.received_tick_metrics ≡ insert res.attack_token.tick tm c.received_tick_metrics
      → tm.samples ≡ pending res.attack_token.tick c ++ res ∷ []
      → AllOn res.attack_token.tick tm.samples
      → length tm.samples ≡ T res.attack_token.tick
      → Returns (λ r. Accounts T c (res ∷ []) r.0 r.1) (report_tick cfg opts setup res tm c0)
  unfolding report_tick
  report_tick-Accounts c res tm c0 h ins samples own full =
      Returns-bind (KeepsTicks c0.received_tick_metrics) _ (scale_attackers cfg opts setup _ _) _
        (scale_attackers-KeepsTicks cfg opts setup ready _ _)
        λ r k.
          let at : (t : ℕ)
              → lookup t (delete res.attack_token.tick r.0.received_tick_metrics)
                ≡ (if res.attack_token.tick == t then none else lookup t c.received_tick_metrics) =
            λ t. lookup_forgotten res.attack_token.tick t tm _ _ (k.0 ∙ ins) in
          let effects : Bool → List (Effect F E) = λ b.
            report_effects b (ratio_failed cfg opts setup m) opts.csv
              (prometheus_enabled cfg.prometheus) res tm.samples (record tm { metrics = m }) m
              r.1 in
          let sent : streamed (effects true) ≡ tm.samples =
            streamed-report_effects res tm.samples _ m r.1 k.1 _ _ _ ∙ append-nil tm.samples in
          subst
            (λ b.
              Accounts T c (res ∷ [])
                (record r.0 {
                  received_tick_metrics = delete res.attack_token.tick r.0.received_tick_metrics;
                })
                (effects b))
            (sym stream)
            (step-Accounts T T_pos c _ res none (effects true) h at (T_pos res.attack_token.tick)
              (append-nil (streamed (effects true)) ∙ sent ∙ samples)
              (subst (AllOn res.attack_token.tick) (sym sent) own)
              λ t.
                whole_tick T res.attack_token.tick t _ (streamed (effects true)) _ refl
                  (ap length sent ∙ full)
                  (reports-report_effects res tm.samples _ m r.1 k.1 t _ _ _))
    where
      m : Metrics F E
      m = update (add_all tm.metrics tm.samples)

  -- One result is taken into account, whether its tick is full or not.
  process-Accounts :
      (c : Collector F E) (res : AttackResult)
      → AllUnfinished T c
      → res.attack_token.target_rps ≡ pos (T res.attack_token.tick)
      → Returns (λ r. Accounts T c (res ∷ []) r.0 r.1) (process_tick_metrics cfg opts setup res c)
  unfolding process_tick_metrics streamed reports
  process-Accounts c res h target = elim (Bool-cases (is_full cfg opts setup res tm)) [
    | inl e ↦ rw e (
        report_tick-Accounts c res tm _ h refl samples own
          (ground (arith, grown_reported k o (h k))))
    | inr e ↦ rw e (
        step-Accounts T T_pos c _ res (some tm) [] h (λ t. lookup-insert k t tm _)
          (own, short e, grown_reported k o (h k)) samples tt (λ t. ground arith))
  ]
    where
      k : ℕ
      k = res.attack_token.tick

      o : Option (TickMetrics F E)
      o = lookup k c.received_tick_metrics

      tm : TickMetrics F E
      tm = grown cfg opts setup res c

      samples : tm.samples ≡ pending k c ++ res ∷ []
      samples = ap (λ xs. xs ++ res ∷ []) (grown_samples res o)

      own : AllOn k tm.samples
      own =
          subst (AllOn k) (sym samples)
            (All-append _ (pending k c) (res ∷ []) (entry_facts T T_pos k o (h k)).0 (refl, tt))

      short : is_full cfg opts setup res tm ≡ false → length tm.samples < T k
      short e = ground (
        arith,
        grown_reported k o (h k),
        ap length samples,
        length-append (pending k c) (res ∷ []),
        (entry_facts T T_pos k o (h k)).1,
      )

  -- A row written for the result changes nothing for the ticks.
  write-Accounts :
      (b : Bool) (c c' : Collector F E) (rs : List AttackResult) (es : List (Effect F E))
      (r : AttackResult) (s : String)
      → Accounts T c rs c' es
      → Accounts T c rs c' (effect_if b (write_result r s) ++ es)
  unfolding streamed reports
  write-Accounts true c c' rs es r s a = record {
    unfinished = a.unfinished;
    conserved = a.conserved;
    whole = a.whole;
  }
  write-Accounts false c c' rs es r s a = a

  pub collect_one-Accounts :
      (c : Collector F E) (res : AttackResult)
      → AllUnfinished T c
      → res.attack_token.target_rps ≡ pos (T res.attack_token.tick)
      → Returns (λ r. Accounts T c (res ∷ []) r.0 r.1) (collect_one cfg opts setup res c)
  unfolding collect_one
  collect_one-Accounts c res h target =
      Returns-bind _ _ (process_tick_metrics cfg opts setup res counted) _
        (process-Accounts counted res h target)
        λ r a.
          write-Accounts opts.csv c r.0 (res ∷ []) r.1 res _
            (record { unfinished = a.unfinished; conserved = a.conserved; whole = a.whole })
    where
      counted : Collector F E
      counted = record c {
        total_requests_stored = c.total_requests_stored + 1;
        uniq_errors = count_error res c.uniq_errors;
      }
