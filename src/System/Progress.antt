-- ===== src/System/Progress.antt =====
-- The steps that are possible in a run (runner.go, attack.go, utils.go).
use loaderbot.Schedule.{Limiters}
use loaderbot.Prelude.{
  ℕ, zero, suc, ◌+◌, ◌<◌, ◌≡◌, ◌≢◌, refl, ◌∙◌, ◌⊎◌, inl, inr, Bool, true, false, Bool-cases, arith,
}
use loaderbot.Float.{Float64}
use loaderbot.Config.{RunnerConfig, ReportOptions}
use loaderbot.Metrics.{Quantile}
use loaderbot.Collect.{Collector}
use loaderbot.Lifecycle.{
  Main, before_handler, before_schedule, before_collect, awaiting, joining, reporting, returned,
}
use loaderbot.Lifecycle.Order.{Reach-IsOrderly}
use loaderbot.Lifecycle.Ends.{
  Enabled, can_start_handler, can_start_schedule, can_start_collect, can_expire, can_await,
  can_leave, can_end_collect, can_join, can_report, progress, work,
}
use loaderbot.System.{
  System, opening, Move, expire, start_handler, start_schedule, start_collect, await, join, report,
  leave, end_collect, Step, alive, Reach, here, later, steps,
}
use loaderbot.System.Effects.{amount}
use loaderbot.System.Skeleton.{life, Reach-life, system_ends}

main_cases : (m : Main) → (m ≡ returned) ⊎ (m ≢ returned)
main_cases returned = inl refl
main_cases before_handler = inr (λ e. ground (arith, e))
main_cases before_schedule = inr (λ e. ground (arith, e))
main_cases before_collect = inr (λ e. ground (arith, e))
main_cases awaiting = inr (λ e. ground (arith, e))
main_cases joining = inr (λ e. ground (arith, e))
main_cases reporting = inr (λ e. ground (arith, e))

module _ {L F E : Type 0} ⦃fl : Float64 F⦄ ⦃q : Quantile F E⦄ (new_limiter : Limiters L)
    (cfg : RunnerConfig F) (opts : ReportOptions) (setup : ℕ → Bool)
    (ready : (i : ℕ) → setup i ≡ true) where
  abbrev pub Run : System L F E → System L F E → Type 0
  Run = Reach new_limiter cfg opts setup

  -- The step leaves the process alive.
  live_step :
      (s : System L F E)
      → Enabled (life s)
      → (u : System L F E) × Move new_limiter cfg opts setup s u × (u.killed ≡ s.killed)
  live_step s (can_start_handler e) = (_, start_handler e, refl)
  live_step s (can_start_schedule e) = (_, start_schedule e, refl)
  live_step s (can_start_collect e) = (_, start_collect e, refl)
  live_step s (can_expire d) = (_, expire d, refl)
  live_step s (can_await e d) = (_, await e d, refl)
  live_step s (can_leave e d) = (_, leave e d, refl)
  live_step s (can_end_collect e d) = (_, end_collect e d, refl)
  live_step s (can_join e w) = (_, join e w, refl)
  live_step s (can_report e) = (_, report e, refl)

  -- If all attackers set up and `OutResults` has room: in every state that a run of the system reaches,
  -- from any books and any number of attackers, unless a signal or a panic has ended the process, `Run` has
  -- returned or a step is possible that does not end the process.
  pub system_not_stuck :
      (books : Collector F E) (attackers : ℕ) {s : System L F E}
      → Reach new_limiter cfg opts setup (opening new_limiter cfg books attackers) s
      → s.killed ≡ false
      → s.main ≢ returned
      → (u : System L F E) × Step new_limiter cfg opts setup s u × (u.killed ≡ false)
  system_not_stuck books attackers {s = s} r l e =
      let orderly =
        Reach-IsOrderly attackers
          (Reach-life new_limiter cfg opts setup ready books attackers r).0 in
      let (u, mv, k) = live_step s (progress (life s) orderly e) in (u, alive l mv, k ∙ l)

  trans : {s u v : System L F E} → Run s u → Run u v → Run s v
  trans r here = r
  trans r (later r' st) = later (trans r r') st

  -- `Run` has returned, and nothing has ended the process before.
  abbrev pub HasReturned : System L F E → Type 0
  HasReturned s = (s.main ≡ returned) × (s.killed ≡ false)

  -- As long as there is work left, the run goes on.
  run_on :
      (books : Collector F E) (attackers : ℕ) (fuel : ℕ) {s u : System L F E}
      → Run (opening new_limiter cfg books attackers) s
      → s.is_over ≡ true
      → u.killed ≡ false
      → (r : Run s u) → work (amount cfg) (life s) < steps new_limiter cfg opts setup r + fuel
      → (v : System L F E) × Run s v × HasReturned v
  run_on books attackers zero r0 d k r h =
      absurd (omega (arith, system_ends new_limiter cfg opts setup ready r d, h))
  run_on books attackers (suc n) {u = u} r0 d k r h = elim (main_cases u.main) [
    | inl e ↦ (u, r, (e, k))
    | inr e ↦
        let (v, st, alive') = system_not_stuck books attackers (trans r0 r) k e in
        run_on books attackers n r0 d alive' (later r st) (omega (arith, h))
  ]

  -- If all attackers set up and `OutResults` has room: from every state that a run of the system reaches,
  -- from any books and any number of attackers, unless a signal or a panic of the scheduler has ended the
  -- process there, the run can go on until `Run` has returned, by steps that do not end the process.
  pub system_returns :
      (books : Collector F E) (attackers : ℕ) {s : System L F E}
      → Run (opening new_limiter cfg books attackers) s
      → s.killed ≡ false
      → (v : System L F E) × Run s v × HasReturned v
  system_returns books attackers {s = s} r k = elim (Bool-cases s.is_over) [
    | inl d ↦ run_on books attackers (work (amount cfg) (life s) + 1) r d k here (omega arith)
    | inr d ↦
        let expired : Step new_limiter cfg opts setup s
            (record s { is_over = true; expired = true }) =
          alive k (expire d) in
        let (v, on, ended) =
          run_on books attackers
            (work (amount cfg) (life (record s { is_over = true; expired = true })) + 1)
            (later r expired) refl k here (omega arith) in
        (v, trans (later here expired) on, ended)
  ]
