-- ===== src/Tests/Flows.antt =====
-- Two attackers, and the two requests of tick 1: one is answered, the other times out.
use loaderbot.Prelude.{refl, [], ◌∷◌}
use loaderbot.Prelude.Int.{ℤ, pos, add64, wrap64, ◌+ℤ◌}
use loaderbot.Schedule.{start, advance, next_tick, next_step, divides, token}
use loaderbot.Schedule.LeftBehind.{has_tick}
use loaderbot.Flow.{Flow, opening, fire, answer, time_out, Reach, here, later}
use loaderbot.Flow.Kept.{IsKept, Reach-IsKept}
use loaderbot.Float.{thousandths}
use loaderbot.Tests
use loaderbot.Tests.{last_value, streaming, ramp}
use loaderbot.Tests.Runs.{same}

abbrev two_fired : (s : Flow ℤ) × Reach same ramp (opening same ramp 2) s
unfolding opening start advance next_tick next_step divides token add64 wrap64 ◌+ℤ◌
two_fired = (_, later (later here (fire [] _ 10 _ refl refl)) (fire (_ ∷ []) [] 12 _ refl refl))

abbrev one_answered : (s : Flow ℤ) × Reach same ramp (opening same ramp 2) s
unfolding opening start advance next_tick next_step divides token add64 wrap64 ◌+ℤ◌
one_answered = (
  _,
  later (later two_fired.1 (answer [] _ _ _ 15 (Tests.answer "" (pos 200)) refl))
      (time_out (_ ∷ []) [] _ _ 900 refl),
)

Reach-IsKept_example : IsKept (has_tick 1) same ramp one_answered.0
Reach-IsKept_example = Reach-IsKept (has_tick 1) same ramp 2 one_answered.1
