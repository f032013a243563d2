-- ===== src/Schedule/Plan/Rates.antt =====
-- From the rate of a tick to that of the next, on the plan.
use native.Mathlib.Nat.{div-le_self}
use loaderbot.Prelude.{
  ℕ, suc, ◌+◌, ◌-◌, ◌%◌, ◌≤◌, ◌<◌, ◌≡◌, ap, inl, inr, Bool, true, false, arith, ◌==◌, if◌then◌else◌,
  Bool-cases,
}
use loaderbot.Prelude.Int.{ℤ, add64}
use loaderbot.Schedule.Plan.{step_of, rate_after, rate_of}
use loaderbot.Schedule.Plan.Steps.{suc-div, one-div-le}

module _ (d : ℕ) (first growth : ℤ) (d_pos : 0 < d) where
  pub step_of_pos : (limited : Bool) (t : ℕ) → 1 ≤ t → 1 ≤ step_of limited d first growth t
  step_of_pos true t h = omega (arith, one-div-le d t d_pos h)
  step_of_pos false t h = omega arith

  pub step_of_next :
      (t : ℕ)
      → step_of true d first growth (t + 1)
        ≡ step_of true d first growth t + (if (t + 1) % d == 0 then 1 else 0)
  step_of_next t = grind (arith, suc-div d t d_pos, div-le_self 1 d)

  pub rate_of_next :
      (t : ℕ)
      → 1 ≤ t
      → rate_of true d first growth (t + 1) ≡ (
          if (t + 1) % d == 0
          then add64 (rate_of true d first growth t) growth
          else rate_of true d first growth t)
  rate_of_next t h = elim (Bool-cases ((t + 1) % d == 0)) [
    | inl e ↦
        let k : step_of true d first growth (t + 1) - 1 ≡ suc (step_of true d first growth t - 1) =
          ground (arith, step_of_next t, step_of_pos true t h) in
        rw e (ap (rate_after true d first growth) k)
    | inr e ↦
        let k : step_of true d first growth (t + 1) - 1 ≡ step_of true d first growth t - 1 =
          ground (arith, step_of_next t) in
        rw e (ap (rate_after true d first growth) k)
  ]
