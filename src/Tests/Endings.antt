-- ===== src/Tests/Endings.antt =====
-- The csv files and the rate that a whole run ends with.
use loaderbot.Prelude.{ℕ, refl, true, String, some, List, [], ◌∷◌, map}
use loaderbot.Float.{Thousandths, thousandths, Thousandths-IsOrdered, lit}
use loaderbot.Prelude.Int.{wrap64, add64, ◌+ℤ◌, ◌-ℤ◌, ◌*ℤ◌, quot64}
use loaderbot.Result.{sub_time}
use loaderbot.Prelude.Maps.{lookup, insert, delete}
use loaderbot.Schedule.{start, advance, next_tick, next_step, divides, token}
use loaderbot.Attack.{result_of, timed_out_result}
use loaderbot.Metrics.{new_metrics, add, add_all, update}
use loaderbot.Collect.{
  count_error, collect_one, process_tick_metrics, report_tick, scale_attackers, Effect,
}
use loaderbot.Charts.Slack.Top.{IsTop}
use loaderbot.System.{opening}
use loaderbot.System.Rates.{ticks}
use loaderbot.System.Returned.{whole_rate, returned_rate}
use loaderbot.Tests.Systems.{two_taken}
use loaderbot.Tests.Runs.{fresh, same}
use loaderbot.Outcome.{Returns}
use loaderbot.Report.{percs_log}
use loaderbot.Logs.{Printers, finish}
use loaderbot.Logs.Flushed.{run_report}
use loaderbot.Tests.{last_value, ramp, streaming}
use loaderbot.Tests.Files.{print_digit, parse_digit}

abbrev print : Printers
print = record { itoa = print_digit; duration_text = print_digit; rune_text = print_digit }

-- A row is one byte.
abbrev as_byte : List String → List (List String)
as_byte row = row ∷ []

abbrev as_rows : List (List String) → List (List String)
as_rows rows = rows

-- What the collector of a whole run has done; no write passes bytes on early.
abbrev run_effects : List (ℕ × Effect Thousandths (List Thousandths))
run_effects = map (λ e. (0, e)) two_taken.0.effects

returned_rate_example :
    Returns
      (λ r. IsTop r.0 (lit 0 0 ∷ map whole_rate (ticks two_taken.0.effects)))
      (finish as_rows parse_digit (some (run_report as_byte print true 0 0 run_effects)))
unfolding two_taken opening start advance next_tick next_step divides token add64 wrap64 ◌+ℤ◌
    result_of timed_out_result collect_one process_tick_metrics report_tick scale_attackers
    count_error lookup insert delete add_all add update new_metrics quot64 percs_log sub_time ◌-ℤ◌
    ◌*ℤ◌
returned_rate_example =
    returned_rate same ramp streaming (λ i. true) (λ i. refl) refl Thousandths-IsOrdered as_byte
      print as_rows parse_digit fresh 2 true 0 0 run_effects two_taken.1 refl refl
      ((refl, refl, refl, refl, refl), tt) refl
