-- ===== src/Logs/Ended.antt =====
-- What `Run` returns and draws at the end of a run (runner.go, report.go, graph_report.go).
use loaderbot.Prelude.{
  ℕ, ◌≡◌, refl, ap, ◌∙◌, Bool, String, Option, none, some, List, [], ◌∷◌, All, if◌then◌else◌,
}
use loaderbot.Prelude.Int.{ℤ}
use loaderbot.Float.{Float64, lit}
use loaderbot.Outcome.{returned}
use loaderbot.Collect.{Effect}
use loaderbot.Report.{Entry, percs_log}
use loaderbot.Utils.{max_rps}
use loaderbot.Charts.{ChartLine, empty_csv, parse_percs_data, read_percs}
use loaderbot.Charts.Percs.{
  ReadsBack, reads, column, tick_of, rate_of, p50_of, p95_of, p99_of, parse_percs_data-percs_log,
  max_rps_of_log-percs_log,
}
use loaderbot.Logs.{Printers, flush_logs, Plot, no_plot, log_error, draw, chart_of, plot, finish}
use loaderbot.Logs.Flushed.{encode_all, entries, run_report, flushed_logs, run_report-png}

module _ {F E : Type 0} ⦃fl : Float64 F⦄ where
  abbrev line : (Entry F E → ℤ) → List (Entry F E) → ChartLine F
  line f es = record { x_values = column tick_of es; y_values = column f es }

  -- The chart of these ticks: four lines over the ticks, or the error that there is nothing to plot.
  abbrev pub chart : List (Entry F E) → Plot F
  chart [] = log_error empty_csv
  chart (e ∷ es) = draw (record {
    rps = line rate_of (e ∷ es);
    p50 = line p50_of (e ∷ es);
    p95 = line p95_of (e ∷ es);
    p99 = line p99_of (e ∷ es);
  })

  chart_of_log :
      (itoa : ℤ → String) (parse_float : String → Option F) (es : List (Entry F E))
      → All (ReadsBack itoa parse_float) es
      → chart_of (parse_percs_data parse_float (reads (percs_log itoa es))) ≡ chart es
  unfolding parse_percs_data percs_log read_percs
  chart_of_log itoa parse_float [] h = refl
  chart_of_log itoa parse_float (e ∷ es) h =
      ap chart_of (parse_percs_data-percs_log itoa parse_float e es h)

module _ {B F E : Type 0} ⦃fl : Float64 F⦄ (encode : List String → List B) (print : Printers)
    (decode : List B → List (List String)) (parse_float : String → Option F) where
  -- If the csv reader reads the rows of percentiles back as they were written, and `ParseFloat` reads
  -- back what `Itoa` wrote for each tick and answers an error for the header's "RPS": at the end of a
  -- run, whatever bytes the writers passed on early, `Run` returns `MaxRPS` of 0, which stands for the
  -- header, and the rates of the ticks that the collector wrote; and it draws their chart if PNG is set.
  pub finish-run_report :
      (png : Bool) (i j : ℕ) (es : List (ℕ × Effect F E))
      → decode (encode_all encode (percs_log print.itoa (entries es)))
        ≡ percs_log print.itoa (entries es)
      → All (ReadsBack print.itoa parse_float) (entries es)
      → parse_float "RPS" ≡ none
      → finish decode parse_float (some (run_report encode print png i j es))
        ≡ returned (
          max_rps (lit 0 0 ∷ column rate_of (entries es)),
          (if png then chart (entries es) else no_plot),
          some (flush_logs (run_report encode print png i j es)),
        )
  unfolding finish plot
  finish-run_report png i j es back h header =
      let r = flush_logs (run_report encode print png i j es) in
      let rows : decode r.perc_log_file.written ≡ percs_log print.itoa (entries es) =
        ap decode (flushed_logs encode print png i j es).1 ∙ back in
      let max = max_rps_of_log-percs_log print.itoa parse_float (entries es) h header in
      let drawn = chart_of_log print.itoa parse_float (entries es) h in
      rw (rows, max, drawn)
        (ap
          (λ b. returned (
            max_rps (lit 0 0 ∷ column rate_of (entries es)),
            (if b then chart (entries es) else no_plot),
            some r,
          ))
          (run_report-png encode print png i j es))
