-- ===== src/System/Traffic.antt =====
-- The tokens and the results: a run of the system, seen in Flow (runner.go, attack.go).
use loaderbot.Schedule.{Limiters}
use mathlib.Core.Path.{subst}
use loaderbot.Prelude.{ℕ, ◌≡◌, Bool, true, false, ◌||◌, arith, ltb, Bool-cases, inl, inr, ◌⊎◌}
use loaderbot.Float.{Float64}
use loaderbot.Config.{RunnerConfig, ReportOptions}
use loaderbot.Metrics.{Quantile}
use loaderbot.Collect.{Collector}
use loaderbot.Collect.Books.{cancels, starts}
use loaderbot.Flow
use loaderbot.Flow.{Flow}
use loaderbot.System
use loaderbot.System.{System, opening, Move, Step, alive, Reach, here, later}

-- The state without the goroutines other than the attackers, and without the books.
abbrev pub flow : {L F E : Type 0} → System L F E → Flow L
flow s = record {
  is_over = s.is_over;
  schedule = s.schedule;
  fired = s.fired;
  crew = s.crew;
  dropped = s.dropped;
  queue = s.queue;
  collected = s.received;
}

module _ {L F : Type 0} (new_limiter : Limiters L) (cfg : RunnerConfig F) where
  -- The context is cancelled, unless it is done already.
  cancel_if :
      {s0 : Flow L} (s : Flow L) (b : Bool)
      → Flow.Reach new_limiter cfg s0 s
      → Flow.Reach new_limiter cfg s0 (record s { is_over = s.is_over || b })
  cancel_if {s0 = s0} s b r = by_test b (Bool-cases s.is_over)
    where
      by_test :
          (b : Bool)
          → (s.is_over ≡ true) ⊎ (s.is_over ≡ false)
          → Flow.Reach new_limiter cfg s0 (record s { is_over = s.is_over || b })
      by_test b (inl e) =
          subst (λ x. Flow.Reach new_limiter cfg s0 (record s { is_over = x })) (ground (arith, e))
            r
      by_test false (inr e) =
          subst (λ x. Flow.Reach new_limiter cfg s0 (record s { is_over = x })) (ground (arith, e))
            r
      by_test true (inr e) =
          subst (λ x. Flow.Reach new_limiter cfg s0 (record s { is_over = x })) (ground (arith, e))
            (Flow.later r (Flow.expire e))

module _ {L F E : Type 0} ⦃fl : Float64 F⦄ ⦃q : Quantile F E⦄ (new_limiter : Limiters L)
    (cfg : RunnerConfig F) (opts : ReportOptions) (setup : ℕ → Bool) where
  Move-flow :
      {s0 : Flow L} {s u : System L F E}
      → Move new_limiter cfg opts setup s u
      → Flow.Reach new_limiter cfg s0 (flow s)
      → Flow.Reach new_limiter cfg s0 (flow u)
  Move-flow (System.expire g) r = Flow.later r (Flow.expire g)
  Move-flow {s0 = s0} {s = s} (System.signal g) r =
      subst (λ x. Flow.Reach new_limiter cfg s0 (record (flow s) { is_over = x })) (ground arith)
        (cancel_if new_limiter cfg (flow s) true r)
  Move-flow (System.hand xs ys now next _ e a) r = Flow.later r (Flow.fire xs ys now next e a)
  Move-flow (System.finish xs ys e _) r = Flow.later r (Flow.retire xs ys e)
  Move-flow (System.abandon xs ys tok b e d) r = Flow.later r (Flow.abandon xs ys tok b e d)
  Move-flow (System.answer xs ys tok b f d e) r = Flow.later r (Flow.answer xs ys tok b f d e)
  Move-flow (System.time_out xs ys tok b f e) r = Flow.later r (Flow.time_out xs ys tok b f e)
  Move-flow (System.send xs ys x e k) r = Flow.later r (Flow.send xs ys x e k)
  Move-flow {s = s} (System.take_result x rest books es _ e _) r =
      cancel_if new_limiter cfg _ (ltb 0 (cancels es))
        (Flow.later r (Flow.receive x rest (starts es) e))
  Move-flow (System.start_handler _) r = r
  Move-flow (System.start_schedule _) r = r
  Move-flow (System.start_collect _) r = r
  Move-flow (System.await _ _) r = r
  Move-flow (System.join _ _) r = r
  Move-flow (System.report _) r = r
  Move-flow (System.leave _ _) r = r
  Move-flow (System.stop _ _) r = r
  Move-flow (System.pace _ _) r = r
  Move-flow (System.skip _) r = r
  Move-flow (System.crash _ _ _ _ _) r = r
  Move-flow (System.end_collect _ _) r = r

  -- The tokens and results of a run of the system are those of a run of Flow.
  pub Reach-flow :
      (books : Collector F E) (attackers : ℕ) {s : System L F E}
      → Reach new_limiter cfg opts setup (opening new_limiter cfg books attackers) s
      → Flow.Reach new_limiter cfg (Flow.opening new_limiter cfg attackers) (flow s)
  unfolding opening Flow.opening
  Reach-flow books attackers here = Flow.here
  Reach-flow books attackers (later r (alive _ mv)) = Move-flow mv (Reach-flow books attackers r)
