-- ===== src/Schedule/Plan/Steps.antt =====
-- When a step begins.
use native.Mathlib.Nat.{div-add-mod, mod-lt}
use loaderbot.Prelude.{ℕ, zero, suc, ◌+◌, ◌/◌, ◌%◌, ◌≤◌, ◌<◌, ◌≡◌, arith, ◌==◌, if◌then◌else◌}

-- One more number passes a multiple of `d` exactly if it is one.
pub suc-div : (d t : ℕ) → 0 < d → (t + 1) / d ≡ t / d + (if (t + 1) % d == 0 then 1 else 0)
suc-div d t h = grind (arith, div-add-mod t d, div-add-mod (t + 1) d, mod-lt)

pub one-div-le : (d t : ℕ) → 0 < d → 1 ≤ t → 1 / d ≤ t / d
one-div-le d zero h k = elim k [ ]
one-div-le d (suc zero) h k = omega arith
one-div-le d (suc (suc t)) h k =
    grind (arith, one-div-le d (suc t) h (omega arith), suc-div d (suc t) h)
