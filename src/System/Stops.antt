-- ===== src/System/Stops.antt =====
-- When the context of a run is done (runner.go).
use loaderbot.Schedule.{Limiters}
use loaderbot.Prelude.{
  ℕ, ◌+◌, ◌<◌, ◌≡◌, refl, ◌⊎◌, ◌↔◌, Bool, true, ◌||◌, List, [], ◌∷◌, ◌++◌, arith, ltb,
}
use loaderbot.Float.{Float64}
use loaderbot.Config.{RunnerConfig, ReportOptions}
use loaderbot.Metrics.{Quantile}
use loaderbot.Outcome.{returned}
use loaderbot.Outcome.Laws.{Returns-at}
use loaderbot.Result.{AttackResult}
use loaderbot.Collect.{Collector, Effect, collect_one}
use loaderbot.Collect.Books.{Books, cancels, count-append}
use loaderbot.Collect.Counters.{collect_one-Books}
use loaderbot.System.{System, opening, Move, alive, Reach, here, later, expire, signal, take_result}
use loaderbot.System.Effects.{amount, IsJust, failing, is_failing, collect_one-IsJust}

module _ {L F E : Type 0} ⦃fl : Float64 F⦄ ⦃q : Quantile F E⦄ (new_limiter : Limiters L)
    (cfg : RunnerConfig F) (opts : ReportOptions) (setup : ℕ → Bool)
    (ready : (i : ℕ) → setup i ≡ true) (c : Collector F E) where
  -- The context is done by the timeout or a signal, or as a tick failed; and `Failed` counts those ticks.
  pub record Stops (s : System L F E) : Type 0 where
    pub over : s.is_over ≡ (s.expired || ltb 0 (failing cfg opts setup s.effects))
    pub counted : s.books.failed ≡ c.failed + failing cfg opts setup s.effects

  taken-Stops :
      (s : System L F E) (r : AttackResult) (books : Collector F E) (es : List (Effect F E))
      → collect_one cfg opts setup r s.books ≡ returned (books, es)
      → Stops s
      → ((s.is_over || ltb 0 (cancels es))
          ≡ (s.expired || ltb 0 (failing cfg opts setup (s.effects ++ es))))
        × (books.failed ≡ c.failed + failing cfg opts setup (s.effects ++ es))
  taken-Stops s r books es ran h =
      let just =
        (Returns-at (λ x. IsJust cfg opts setup (amount cfg) x.1)
          (collect_one cfg opts setup r s.books) _
          (collect_one-IsJust cfg opts setup ready r s.books) ran).1 in
      let kept =
        Returns-at (λ x. Books s.books (r ∷ []) x.0 x.1) (collect_one cfg opts setup r s.books) _
          (collect_one-Books cfg opts setup ready r s.books) ran in
      let more = count-append (is_failing cfg opts setup) s.effects es in
      (ground (arith, h.over, just, more), omega (arith, h.counted, kept.failures, just, more))

  Move-Stops : {s u : System L F E} → Move new_limiter cfg opts setup s u → Stops s → Stops u
  Move-Stops {s = s} (take_result r rest books es _ _ ran) h =
      let (over, counted) = taken-Stops s r books es ran h in
      record { over = over; counted = counted }
  Move-Stops (expire _) h = record { over = refl; counted = h.counted }
  Move-Stops (signal _) h = record { over = refl; counted = h.counted }
  Move-Stops _ h = record { over = h.over; counted = h.counted }

  Reach-Stops :
      (attackers : ℕ) {s : System L F E}
      → Reach new_limiter cfg opts setup (opening new_limiter cfg c attackers) s
      → Stops s
  unfolding opening
  Reach-Stops attackers here = record { over = refl; counted = omega arith }
  Reach-Stops attackers (later r (alive _ mv)) = Move-Stops mv (Reach-Stops attackers r)

  -- If all attackers set up: at every moment of a run, the context is done exactly if the timeout, the end
  -- of the server's context or a signal has come, or the collector has reported a tick whose success
  -- ratio is below `SuccessRatio`; and `Failed` has grown by one for each such tick.
  pub stops_iff :
      (attackers : ℕ) {s : System L F E}
      → Reach new_limiter cfg opts setup (opening new_limiter cfg c attackers) s
      → ((s.is_over ≡ true) ↔ ((s.expired ≡ true) ⊎ (0 < failing cfg opts setup s.effects)))
        × (s.books.failed ≡ c.failed + failing cfg opts setup s.effects)
  stops_iff attackers {s = s} r =
      let h = Reach-Stops attackers r in
      (((λ e. ground (arith, h.over, e)), (λ e. ground (arith, h.over, e))), h.counted)
