-- ===== src/Schedule/Crash.antt =====
-- A step duration of 0, which `validate` (config.go) lets through, stops `schedule` (runner.go).
use loaderbot.Prelude.{
  ℕ, suc, ◌+◌, ◌≤◌, ◌<◌, ◌≡◌, refl, ◌∙◌, ◌≢◌, inl, inr, none, some, List, [], ◌∷◌, arith,
  if◌then◌else◌, Bool-cases,
}
use loaderbot.Prelude.Int.{ℤ, pos, eqb_ℤ}
use loaderbot.Float.{Float64}
use loaderbot.Config.{RunnerConfig, bound_rps, default_cfg_values}
use loaderbot.Config.Laws.{rps_of_defaults, duration_of_defaults, mode_of_defaults}
use loaderbot.Outcome.{divide_by_zero}
use loaderbot.Schedule.{
  Limiters, Schedule, Poll, timed_out, accepted, refused, crashed, divides, prepend, next_tick,
  advance, start, schedule,
}
use loaderbot.Schedule.Correct.{IsBound}

-- The tokens that the attackers take.
abbrev pub accepts : List Poll → ℕ
accepts [] = 0
accepts (accepted ∷ ps) = suc (accepts ps)
accepts (_ ∷ ps) = accepts ps

-- The test does not time out.
abbrev pub GoesOn : List Poll → Type 0
GoesOn [] = Unit
GoesOn (timed_out ∷ ps) = ⊥
GoesOn (_ ∷ ps) = GoesOn ps

module _ {L : Type 0} (new_limiter : Limiters L) (growth : ℤ) where
  abbrev fill : Schedule L → Schedule L
  fill s = record s {
    total_requests_fired = s.total_requests_fired + 1;
    requests_fired_in_tick = s.requests_fired_in_tick + 1;
  }

  advance_zero :
      (s : Schedule L)
      → s.ticks_in_step ≡ pos 0
      → advance new_limiter growth s
        ≡ (if eqb_ℤ (pos (s.requests_fired_in_tick + 1)) s.target_rps then none else some (fill s))
  unfolding advance next_tick divides
  advance_zero s e = ground arith

  schedule_zero :
      (s : Schedule L) (ps : List Poll) (n : ℕ)
      → s.ticks_in_step ≡ pos 0
      → s.target_rps ≡ pos n
      → s.requests_fired_in_tick < n
      → n ≤ s.requests_fired_in_tick + accepts ps
      → GoesOn ps
      → (schedule new_limiter growth s ps).status ≡ crashed divide_by_zero
  unfolding schedule prepend
  schedule_zero s [] n e t lt le g = absurd (omega arith)
  schedule_zero s (timed_out ∷ ps) n e t lt le g = absurd g
  schedule_zero s (refused ∷ ps) n e t lt le g = schedule_zero s ps n e t lt le g
  schedule_zero s (accepted ∷ ps) n e t lt le g =
      elim (Bool-cases (eqb_ℤ (pos (s.requests_fired_in_tick + 1)) s.target_rps)) [
        | inl full ↦
            let step : advance new_limiter growth s ≡ none = advance_zero s e ∙ rw full refl in
            rw (step, schedule) refl
        | inr more ↦
            let step : advance new_limiter growth s ≡ some (fill s) =
              advance_zero s e ∙ rw more refl in
            rw (step, schedule) (schedule_zero (fill s) ps n e t (ground arith) (omega arith) g)
      ]

module _ {L F : Type 0} ⦃fl : Float64 F⦄ (new_limiter : Limiters L) (c : RunnerConfig F)
    (attackers : ℕ) where
  -- With a step duration of 0 and the defaults filled in, in a mode with a limiter, at a rate of n + 1,
  -- and in `BoundRPS` mode with a step that is not 0: the loop panics with a division by zero once the
  -- attackers have taken n + 1 tokens, if the test does not time out before.
  pub zero_step_crashes :
      (n : ℕ) (ps : List Poll)
      → c.step_duration_sec ≡ pos 0
      → IsBound c.system_mode
      → (c.system_mode ≡ bound_rps → c.step_rps ≢ pos 0)
      → c.start_rps ≡ pos (suc n)
      → suc n ≤ accepts ps
      → GoesOn ps
      → let cfg = default_cfg_values c in
        (schedule new_limiter cfg.step_rps (start new_limiter cfg attackers) ps).status
        ≡ crashed divide_by_zero
  unfolding start
  zero_step_crashes n ps zero_step bound grows rate enough on =
      schedule_zero new_limiter _ _ ps (suc n)
        (ground (arith, mode_of_defaults c, duration_of_defaults c grows))
        (ground (arith, mode_of_defaults c, rps_of_defaults c (λ e. cc))) (omega arith)
        (omega arith) on
