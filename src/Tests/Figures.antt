-- ===== src/Tests/Figures.antt =====
-- The figures of a small tick, and the shared data.
use loaderbot.Prelude.{◌+◌, ◌%◌, ◌≤◌, ◌≡◌, List, [], ◌∷◌, arith, get_elem?, String}
use loaderbot.Prelude.Int.{pos, pos_part}
use loaderbot.Float.{Thousandths, thousandths, of_int, ◌/f◌}
use loaderbot.Result.{AttackResult}
use loaderbot.Metrics.{new_metrics, add_all, is_known}
use loaderbot.Metrics.Counts.{tick, tick_counts}
use loaderbot.Metrics.Errors.{IsDistinct, any_failed_with, tick_errors}
use loaderbot.Metrics.Extremes.{IsSpan, add_all-IsSpan}
use loaderbot.Shared.{get_after, new_shared_data_slice, get_round_robin}
use loaderbot.Tests.{last_value, tok, answer, result}

abbrev Estimator : Type 0
Estimator = List Thousandths

abbrev first : AttackResult
first = result (tok (pos 3) 1) 20 25 (answer "" (pos 200))

abbrev others : List AttackResult
others =
    result (tok (pos 3) 1) 10 40 (answer "timeout" (pos 0))
    ∷ result (tok (pos 3) 1) 30 35 (answer "" (pos 500))
    ∷ []

abbrev samples : List AttackResult
samples = first ∷ others

tick_counts_example :
    let m = tick Thousandths Estimator samples in
    (m.requests ≡ 3)
    × (m.errors_count ≡ pos 1)
    × (m.success_count ≡ pos 1)
    × (pos_part m.success_count + pos_part m.errors_count ≤ m.requests)
    × (m.success_ratio ≡ of_int (pos 1) /f of_int (pos 3))
tick_counts_example = tick_counts Thousandths Estimator samples (omega arith)

tick_errors_example :
    IsDistinct (add_all (new_metrics {F = Thousandths} {E = Estimator}) samples).errors
    × ((e : String)
        → is_known e (add_all (new_metrics {F = Thousandths} {E = Estimator}) samples).errors
          ≡ any_failed_with e samples)
tick_errors_example = tick_errors Thousandths Estimator samples

add_all-IsSpan_example :
    IsSpan (add_all (new_metrics {F = Thousandths} {E = Estimator}) samples) samples
add_all-IsSpan_example =
    add_all-IsSpan Thousandths Estimator first others
      (omega arith, (omega arith, (omega arith, tt))) (omega arith)

abbrev words : List String
words = "a" ∷ "b" ∷ "c" ∷ []

get_round_robin_example : get_after 7 (new_shared_data_slice words) ≡ get_elem? words (7 % 3)
get_round_robin_example = get_round_robin words 7 (omega arith)
