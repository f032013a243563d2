-- ===== src/System/History.antt =====
-- The books of a run and `collectResults` on what it has received (runner.go).
use loaderbot.Schedule.{Limiters}
use mathlib.Core.List.{append-nil, append_assoc}
use loaderbot.Prelude.{
  ℕ, ◌≤◌, ◌<◌, ◌≡◌, refl, sym, ap, ◌∙◌, Bool, true, List, [], ◌∷◌, ◌++◌, map, select, All,
}
use loaderbot.Prelude.Int.{pos, pos_part}
use loaderbot.Float.{Float64}
use loaderbot.Config.{RunnerConfig, ReportOptions}
use loaderbot.Metrics.{Quantile}
use loaderbot.Outcome.{returned}
use loaderbot.Outcome.Laws.{Returns-at, returned_eq, bind_returned}
use loaderbot.Result.{AttackResult}
use loaderbot.Schedule.Plan.{rate_of}
use loaderbot.Schedule.Correct.{IsBound}
use loaderbot.Schedule.LeftBehind.{has_tick}
use loaderbot.Collect.{Collector, Effect, received, collect_one, collect_results}
use loaderbot.Collect.Ticks.{on_tick, pending, streamed, reports, AllUnfinished}
use loaderbot.Pipeline.{asked, IsReportedOnce}
use loaderbot.Flow.Kept.{count, held, results}
use loaderbot.Flow.Reported.{IsPositive, events-results, flow_reports}
use loaderbot.System.{System, opening, Move, alive, Reach, here, later, take_result}
use loaderbot.System.Traffic.{Reach-flow}

module _ {F E : Type 0} ⦃fl : Float64 F⦄ ⦃q : Quantile F E⦄ (cfg : RunnerConfig F)
    (opts : ReportOptions) (setup : ℕ → Bool) where
  -- One result more.
  collect_results-snoc :
      (rs : List AttackResult) (r : AttackResult) (c c1 c2 : Collector F E)
      (es es' : List (Effect F E))
      → collect_results cfg opts setup c (map received rs) ≡ returned (c1, es)
      → collect_one cfg opts setup r c1 ≡ returned (c2, es')
      → collect_results cfg opts setup c (map received (rs ++ r ∷ [])) ≡ returned (c2, es ++ es')
  unfolding collect_results
  collect_results-snoc [] r c c1 c2 es es' e f =
      let same = returned_eq (c, []) (c1, es) e in
      rw (ap (λ x. collect_one cfg opts setup r x.0) same ∙ f)
        (ap (λ x. returned (c2, x)) (append-nil es' ∙ ap (λ x. x.1 ++ es') same))
  collect_results-snoc (x ∷ rs) r c c1 c2 es es' e f =
      let (a, ea, e1) = bind_returned (collect_one cfg opts setup x c) _ _ e in
      let (b, eb, e2) =
        bind_returned (collect_results cfg opts setup a.0 (map received rs)) _ _ e1 in
      let same = returned_eq (b.0, a.1 ++ b.1) (c1, es) e2 in
      let rest =
        collect_results-snoc rs r a.0 b.0 c2 b.1 es' eb
          (ap (λ y. collect_one cfg opts setup r y.0) same ∙ f) in
      rw (ea, rest)
        (ap (λ y. returned (c2, y)) (sym (append_assoc a.1 b.1 es') ∙ ap (λ y. y.1 ++ es') same))

module _ {L F E : Type 0} ⦃fl : Float64 F⦄ ⦃q : Quantile F E⦄ (new_limiter : Limiters L)
    (cfg : RunnerConfig F) (opts : ReportOptions) (setup : ℕ → Bool) (c : Collector F E) where
  -- The loop of the collector, on what has been received.
  abbrev IsRun : System L F E → Type 0
  IsRun s =
      collect_results cfg opts setup c (map received s.received) ≡ returned (s.books, s.effects)

  Move-IsRun : {s u : System L F E} → Move new_limiter cfg opts setup s u → IsRun s → IsRun u
  Move-IsRun {s = s} (take_result r rest books es _ _ ran) h =
      collect_results-snoc cfg opts setup s.received r c s.books books s.effects es h ran
  Move-IsRun _ h = h

  -- In every run, the collector's fields and all that it has done are those of `collect_results` on the
  -- results that it has received, in order.
  pub Reach-IsRun :
      (attackers : ℕ) {s : System L F E}
      → Reach new_limiter cfg opts setup (opening new_limiter cfg c attackers) s
      → IsRun s
  unfolding opening collect_results
  Reach-IsRun attackers here = refl
  Reach-IsRun attackers (later r (alive _ mv)) = Move-IsRun mv (Reach-IsRun attackers r)

module _ {L F E : Type 0} ⦃fl : Float64 F⦄ ⦃q : Quantile F E⦄ (new_limiter : Limiters L)
    (cfg : RunnerConfig F) (opts : ReportOptions) (setup : ℕ → Bool)
    (ready : (i : ℕ) → setup i ≡ true) (stream : opts.stream ≡ true) (d : ℕ) (d_pos : 0 < d)
    (bound : IsBound cfg.system_mode) (step : cfg.step_duration_sec ≡ pos d) where
  -- A runner with a limiter and with steps of `d` seconds, 0 < d, that streams, and whose attackers all
  -- set up; its books start from unfinished ticks with no sample of t. At any moment of its run, with
  -- cancellation and autoscaling, if the scheduler has left tick t behind, whose rate is above 0 as are
  -- those of all results, and no token of t is with an attacker, was dropped, or has its result in the
  -- channel, then the collector has sent out all results of t, in order, reported t once, and keeps none.
  pub system_reports :
      (attackers : ℕ) (c : Collector F E) (t : ℕ) {s : System L F E}
      → Reach new_limiter cfg opts setup (opening new_limiter cfg c attackers) s
      → AllUnfinished (asked cfg d) c
      → pending t c ≡ []
      → 1 ≤ t
      → t < s.schedule.current_tick
      → 0 < pos_part (rate_of true d cfg.start_rps cfg.step_rps t)
      → All IsPositive s.received
      → held (has_tick t) s.crew ≡ 0
      → count (has_tick t) s.dropped ≡ 0
      → results (has_tick t) s.queue ≡ 0
      → (select (on_tick t) (streamed s.effects) ≡ select (on_tick t) s.received)
        × (pending t s.books ≡ [])
        × (reports t s.effects ≡ 1)
  system_reports attackers c t {s = s} r fresh none_waits le lt rate positive no_hand no_drop
        no_queue =
      let (sent, none, once) =
        Returns-at (IsReportedOnce (map received s.received) t) _ (s.books, s.effects)
          (flow_reports new_limiter cfg opts setup ready stream d d_pos bound step attackers c t
            (Reach-flow new_limiter cfg opts setup c attackers r) fresh none_waits le lt rate
            positive no_hand no_drop no_queue)
          (Reach-IsRun new_limiter cfg opts setup c attackers r) in
      (sent ∙ ap (select (on_tick t)) (events-results s.received), none, once)
