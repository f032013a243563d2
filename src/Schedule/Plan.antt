-- ===== src/Schedule/Plan.antt =====
-- The plan that `schedule` follows, written down without its loop.
pub mod Steps
pub mod Rates
use loaderbot.Prelude.{
  ℕ, zero, suc, ◌+◌, ◌-◌, ◌/◌, Bool, true, false, Option, none, some, List, [], ◌++◌, replicate,
  if◌then◌else◌,
}
use loaderbot.Prelude.Int.{ℤ, pos, pos_part, add64}
use loaderbot.Result.{AttackToken}

-- `limited`: is there a limiter, so that steps grow; `d`: the ticks in a step; `first`: the rate of the
-- first step; `growth`: what each step adds to it.
module _ (limited : Bool) (d : ℕ) (first growth : ℤ) where
  -- The step in which a tick stands. Steps begin at the multiples of `d`, and tick 1 is in step 1.
  abbrev pub step_of : ℕ → ℕ
  step_of tick = if limited then 1 + tick / d - 1 / d else 1

  -- The rate after `k` steps.
  abbrev pub rate_after : ℕ → ℤ
  rate_after zero = first
  rate_after (suc k) = add64 (rate_after k) growth

  abbrev pub rate_of : ℕ → ℤ
  rate_of tick = rate_after (step_of tick - 1)

  abbrev pub token_of : ℕ → AttackToken
  token_of tick = record { target_rps = rate_of tick; step = step_of tick; tick = tick }

  -- All tokens of the ticks 1 to n.
  unfoldable pub full_ticks : ℕ → List AttackToken
  full_ticks zero = []
  full_ticks (suc n) = full_ticks n ++ replicate (pos_part (rate_of (suc n))) (token_of (suc n))
