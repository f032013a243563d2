-- ===== src/Tests/Files.antt =====
-- The files of a small report, and the batches and the start of a cluster.
use loaderbot.Prelude.{
  ℕ, zero, suc, str_eq, if◌then◌else◌, ◌≡◌, refl, true, false, String, Option, none, some, List, [],
  ◌∷◌, map, All, select, ◌↔◌,
}
use loaderbot.Prelude.Int.{ℤ, pos, quot64, ◌-ℤ◌}
use loaderbot.Prelude.Maps.{string_eq, insert, lookup}
use loaderbot.Float.{
  Thousandths, thousandths, Thousandths-IsOrdered, Thousandths-ComparesNumbers, lit,
}
use loaderbot.Outcome.{returned}
use loaderbot.Result.{AttackResult}
use loaderbot.Metrics.{new_metrics}
use loaderbot.Report.{Entry, percs_log}
use mathlib.Core.List.Perm
use loaderbot.Charts.Slack.{Chart, slack_scaling_chart, all_y_values}
use loaderbot.Charts.Slack.Top.{IsTop}
use loaderbot.Charts.Slack.Drawn.{color_of, drawn, count_from, Ascends, slack_scaling_chart-ok}
use loaderbot.Charts.{
  ChartLine, read_scaling, scaling_record, any_empty, ok, no_points, parse_percs_data,
  parse_scaling_data,
}
use loaderbot.Charts.Percs.{
  ReadsBack, reads, column, tick_of, rate_of, p50_of, p95_of, p99_of, parse_percs_data-percs_log,
}
use loaderbot.Charts.Scaling.{
  Row, named, fields, Succeeds, line_of, with_points, parse_scaling_data-rows,
}
use loaderbot.Cluster.{Receiver, receive}
use loaderbot.Service.Stream.{Chunk, stream_results, delivered, receive-stream_results}
use loaderbot.Tests.{last_value, tok, answer, result}

-- The printer and the parser of the numbers below.
abbrev pub print_digit : ℤ → String
print_digit (pos zero) = "0"
print_digit (pos (suc zero)) = "1"
print_digit (pos (suc (suc zero))) = "2"
print_digit _ = "?"

abbrev pub parse_digit : String → Option Thousandths
parse_digit s =
    if str_eq s "0"
    then some (some 0)
    else if str_eq s "1"
    then some (some 1000)
    else if str_eq s "2"
    then some (some 2000)
    else none

-- The report of tick k, with a rate of 2.
abbrev pub entry : ℕ → Entry Thousandths (List Thousandths)
entry k = record {
  res = result (tok (pos 2) k) 10 15 (answer "" (pos 200));
  tick_metrics = record new_metrics { rate = some 2500 };
}

pub entries_read : All (ReadsBack print_digit parse_digit) (entry 1 ∷ entry 2 ∷ [])
unfolding new_metrics quot64
entries_read = ((refl, refl, refl, refl, refl), ((refl, refl, refl, refl, refl), tt))

parse_percs_data-percs_log_example :
    parse_percs_data parse_digit (reads (percs_log print_digit (entry 1 ∷ entry 2 ∷ [])))
    ≡ ok (record {
      rps = record {
        x_values = column tick_of (entry 1 ∷ entry 2 ∷ []);
        y_values = column rate_of (entry 1 ∷ entry 2 ∷ []);
      };
      p50 = record {
        x_values = column tick_of (entry 1 ∷ entry 2 ∷ []);
        y_values = column p50_of (entry 1 ∷ entry 2 ∷ []);
      };
      p95 = record {
        x_values = column tick_of (entry 1 ∷ entry 2 ∷ []);
        y_values = column p95_of (entry 1 ∷ entry 2 ∷ []);
      };
      p99 = record {
        x_values = column tick_of (entry 1 ∷ entry 2 ∷ []);
        y_values = column p99_of (entry 1 ∷ entry 2 ∷ []);
      };
    })
parse_percs_data-percs_log_example =
    parse_percs_data-percs_log print_digit parse_digit (entry 1) (entry 2 ∷ []) entries_read

abbrev rows : List (Row Thousandths)
rows =
    record {
      method_name = "get";
      ve_text = "1";
      rps_text = "2";
      ve_count = some 1000;
      max_rps = some 2000;
    }
    ∷ record {
      method_name = "put";
      ve_text = "1";
      rps_text = "1";
      ve_count = some 1000;
      max_rps = some 1000;
    }
    ∷ record {
      method_name = "get";
      ve_text = "2";
      rps_text = "2";
      ve_count = some 2000;
      max_rps = some 2000;
    }
    ∷ []

parse_scaling_data-rows_example :
    Succeeds
      (λ m. (k : String) → line_of k m ≡ with_points no_points (select (named k) rows))
      (parse_scaling_data parse_digit (map fields rows))
parse_scaling_data-rows_example =
    parse_scaling_data-rows parse_digit rows ((refl, refl), ((refl, refl), ((refl, refl), tt)))

-- Messages that are the batches themselves.
abbrev as_is : List AttackResult → List AttackResult
as_is b = b

abbrev chunks : List Chunk
chunks =
    record { samples = (entry 1).res ∷ []; failed_once = false }
    ∷ record { samples = (entry 2).res ∷ []; failed_once = true }
    ∷ []

abbrev two_active : Receiver
two_active = record { active_clients = pos 2; batches = [] }

receive-stream_results_example :
    receive some two_active (delivered (stream_results as_is chunks))
    ≡ returned (record {
      active_clients = pos 2 -ℤ pos 1;
      batches = ((entry 1).res ∷ []) ∷ ((entry 2).res ∷ []) ∷ [];
    })
receive-stream_results_example = receive-stream_results as_is some (λ b. refl) two_active chunks

abbrev two_lines : List (String × ChartLine Thousandths)
two_lines =
    ("get", record { x_values = some 1000 ∷ some 2000 ∷ []; y_values = some 2000 ∷ some 2000 ∷ [] })
    ∷ ("put", record { x_values = some 1000 ∷ []; y_values = some 1000 ∷ [] })
    ∷ []

rows_parsed : parse_scaling_data parse_digit (map fields rows) ≡ ok two_lines
unfolding parse_scaling_data read_scaling scaling_record any_empty lookup insert
rows_parsed = refl

-- The map is read with "put" first.
abbrev put_first : List (String × ChartLine Thousandths) → List (String × ChartLine Thousandths)
put_first (a ∷ b ∷ m) = b ∷ a ∷ m
put_first m = m

slack_scaling_chart-ok_example :
    (c : Chart Thousandths) × (slack_scaling_chart parse_digit put_first (map fields rows) ≡ ok c)
    × (map (λ s. s.name) c.series ≡ map (λ e. e.0) (put_first two_lines))
    × (map color_of c.series ≡ count_from 0 2)
    × ((map drawn c.series ≡ put_first two_lines) ↔ All Ascends (put_first two_lines))
    × ((top : Thousandths) × (c.range ≡ some (lit 0 0, top)) × IsTop top (all_y_values two_lines))
slack_scaling_chart-ok_example =
    slack_scaling_chart-ok Thousandths-IsOrdered Thousandths-ComparesNumbers parse_digit put_first
      (map fields rows) two_lines (Perm.swap _ _ []) rows_parsed
