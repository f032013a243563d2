-- ===== src/Schedule/Correct.antt =====
-- What the attackers and the collector rely on in `schedule` (runner.go).
use loaderbot.Prelude.{
  ℕ, zero, suc, ◌+◌, ◌-◌, ◌*◌, ◌/◌, ◌≤◌, ◌<◌, ◌≡◌, refl, sym, ap, ◌∙◌, ◌⊎◌, Bool, true, false, List,
  [], arith, length, replicate, select,
}
use loaderbot.Prelude.Int.{
  ℤ, pos, pos_part, wrap64, ◌+ℤ◌, ◌*ℤ◌, add64, Fits64, wrap64_fits, wrap64_add, int_laws,
}
use loaderbot.Config.{RunnerConfig, SystemMode, bound_rps, bound_rps_autoscale, unbound_rps}
use loaderbot.Schedule.{Limiters, Poll, start, schedule}
use loaderbot.Schedule.Plan.{rate_of, rate_after, step_of, full_ticks}
use loaderbot.Schedule.OnPlan.{OnPlan}
use loaderbot.Schedule.Rounds.{EndsOnPlan, schedule-EndsOnPlan}
use loaderbot.Schedule.Tokens.{tokens}
use loaderbot.Schedule.LeftBehind.{has_tick, schedule_left_behind}

-- The modes with a limiter.
abbrev pub IsBound : SystemMode → Type 0
IsBound m = (m ≡ bound_rps) ⊎ (m ≡ bound_rps_autoscale)

abbrev pub one_pos : 0 < 1
one_pos = omega arith

module _ {L F : Type 0} (new_limiter : Limiters L) (c : RunnerConfig F) (attackers : ℕ) where
  pub start-OnPlan :
      (d : ℕ) (d_pos : 0 < d)
      → IsBound c.system_mode
      → c.step_duration_sec ≡ pos d
      → OnPlan new_limiter true d c.start_rps c.step_rps d_pos (start new_limiter c attackers) []
  unfolding start full_ticks
  start-OnPlan d d_pos m e = record {
    ticks = ground arith;
    started = ground arith;
    step = ground arith;
    target = bound_rate ∙ ap (rate_after true d c.start_rps c.step_rps) no_step;
    paced = ground arith;
    fired = refl;
    counted = ground arith;
  }
    where
      bound_rate : (start new_limiter c attackers).target_rps ≡ c.start_rps
      bound_rate = ground arith

      no_step : 0 ≡ step_of true d c.start_rps c.step_rps 1 - 1
      no_step = omega arith

  first_tick :
      (ps : List Poll) (t : ℕ)
      → t ≤ (start new_limiter c attackers).current_tick + length ps
      → t ≤ length ps + 1
  unfolding start
  first_tick ps t k = omega (arith, k)

  -- In the modes with a limiter and with a step of `d` seconds, 0 < d, if `ratelimit.New` refuses no rate
  -- that the plan has up to one tick more than there are rounds of the loop, every run of the loop stays on the plan and does not panic: the step and the rate are those of the current tick, the limiter is
  -- that of the rate, and the tokens sent are all those of the earlier ticks, in order, and then those
  -- counted for the current tick.
  pub schedule_bound :
      (d : ℕ) (d_pos : 0 < d) (ps : List Poll)
      → IsBound c.system_mode
      → c.step_duration_sec ≡ pos d
      → ((t : ℕ)
          → t ≤ length ps + 1
          → new_limiter.refuses (rate_of true d c.start_rps c.step_rps t) ≡ false)
      → EndsOnPlan new_limiter true d c.start_rps c.step_rps d_pos []
          (schedule new_limiter c.step_rps (start new_limiter c attackers) ps)
  schedule_bound d d_pos ps m e made =
      schedule-EndsOnPlan new_limiter true d c.start_rps c.step_rps d_pos _ [] ps
        (λ t k _. made t (first_tick ps t k)) (start-OnPlan d d_pos m e)

  -- In the mode with no limiter every run of the loop stays on the plan and does not panic: one step
  -- for the whole test, and ticks of 100 tokens for each attacker, whatever step is configured.
  pub schedule_unbound :
      (ps : List Poll)
      → c.system_mode ≡ unbound_rps
      → EndsOnPlan new_limiter false 1
          (wrap64 (pos (attackers * 100)))
          c.step_rps
          one_pos
          []
          (schedule new_limiter c.step_rps (start new_limiter c attackers) ps)
  unfolding start full_ticks
  schedule_unbound ps m =
      schedule-EndsOnPlan new_limiter false 1 _ c.step_rps one_pos _ [] ps
        (λ t k l. absurd (ground (arith, l)))
        (record {
          ticks = ground arith;
          started = ground arith;
          step = ground arith;
          target = ground arith;
          paced = ground arith;
          fired = refl;
          counted = ground arith;
        })

-- `k` steps add `k` times the growth, in 64-bit arithmetic.
growth_lem : (a g : ℤ) (k : ℕ) → a +ℤ pos k *ℤ g +ℤ g ≡ a +ℤ pos (suc k) *ℤ g
growth_lem a g k = omega int_laws

zero_lem : (a g : ℤ) → a ≡ a +ℤ pos 0 *ℤ g
zero_lem a g = omega int_laws

rate_after_closed :
    (limited : Bool) (d : ℕ) (first growth : ℤ) (k : ℕ)
    → Fits64 first
    → rate_after limited d first growth k ≡ wrap64 (first +ℤ pos k *ℤ growth)
unfolding add64
rate_after_closed limited d first growth zero h =
    sym (wrap64_fits first h) ∙ ap wrap64 (zero_lem first growth)
rate_after_closed limited d first growth (suc k) h =
    rw (rate_after_closed limited d first growth k h)
      (wrap64_add (first +ℤ pos k *ℤ growth) growth ∙ ap wrap64 (growth_lem first growth k))

module _ {L F : Type 0} (new_limiter : Limiters L) (c : RunnerConfig F) (attackers d : ℕ) where
  -- In the modes with a limiter and with a step of `d` seconds, 0 < d, a tick that the loop has left
  -- behind has sent exactly as many tokens as its rate says, and they are equal: their step is
  -- 1 + t / d - 1 / d, and their rate is the 64-bit value of `StartRPS` and that many times less one
  -- `StepRPS`.
  pub schedule_ticks :
      (ps : List Poll) (t : ℕ)
      → 0 < d
      → IsBound c.system_mode
      → c.step_duration_sec ≡ pos d
      → Fits64 c.start_rps
      → 1 ≤ t
      → t < (schedule new_limiter c.step_rps (start new_limiter c attackers) ps).last.current_tick
      → let step = 1 + t / d - 1 / d in
        let rate = wrap64 (c.start_rps +ℤ pos (step - 1) *ℤ c.step_rps) in
        select
          (has_tick t)
          (tokens (schedule new_limiter c.step_rps (start new_limiter c attackers) ps).signals)
        ≡ replicate (pos_part rate) (record { target_rps = rate; step = step; tick = t })
  schedule_ticks ps t d_pos m e fits h k =
      let closed = rate_after_closed true d c.start_rps c.step_rps (1 + t / d - 1 / d - 1) fits in
      schedule_left_behind new_limiter true d c.start_rps c.step_rps d_pos t h _ [] ps
        (start-OnPlan new_limiter c attackers d d_pos m e) k
      ∙ λ i.
          replicate (pos_part (closed i))
            (record { target_rps = closed i; step = 1 + t / d - 1 / d; tick = t })
