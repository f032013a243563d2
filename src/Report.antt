-- ===== src/Report.antt =====
-- report.go: the rows of the csv file of percentiles; and the gauges of prometheus_metrics.go.
-- `itoa` is `strconv.Itoa`. The writer of encoding/csv is taken to keep rows as they are.
use loaderbot.Prelude.{String, List, [], ◌∷◌, map}
use loaderbot.Prelude.Int.{ℤ, pos, quot64}
use loaderbot.Float.{Float64, of_int, to_int}
use loaderbot.Result.{AttackResult}
use loaderbot.Metrics.{Metrics}

-- `d.Milliseconds()` of the package time.
abbrev pub milliseconds : ℤ → ℤ
milliseconds d = quot64 d 1_000_000

abbrev pub percs_csv_header : List String
percs_csv_header = "RequestLabel" ∷ "Tick" ∷ "RPS" ∷ "P50" ∷ "P95" ∷ "P99" ∷ []

-- A call of `writePercentilesEntry`.
pub record Entry (F E : Type 0) : Type 0 where
  pub res : AttackResult
  pub tick_metrics : Metrics F E

module _ {F E : Type 0} ⦃fl : Float64 F⦄ (itoa : ℤ → String) where
  unfoldable pub write_percentiles_entry : Entry F E → List String
  write_percentiles_entry e =
      e.res.do_result.request_label
      ∷ itoa (pos e.res.attack_token.tick)
      ∷ itoa (to_int e.tick_metrics.rate)
      ∷ itoa (milliseconds e.tick_metrics.latencies.p50)
      ∷ itoa (milliseconds e.tick_metrics.latencies.p95)
      ∷ itoa (milliseconds e.tick_metrics.latencies.p99)
      ∷ []

  -- The file of percentiles: the header that `NewReport` writes, then one row for each call.
  unfoldable pub percs_log : List (Entry F E) → List (List String)
  percs_log es = percs_csv_header ∷ map write_percentiles_entry es

-- What the gauges show.
pub record Gauges (F : Type 0) : Type 0 where
  pub tick_p50 : F
  pub tick_p95 : F
  pub tick_p99 : F
  pub tick_max : F
  pub tick_success_ratio : F
  pub rps : F

unfoldable pub report_tick : {F E : Type 0} ⦃fl : Float64 F⦄ → Metrics F E → Gauges F
report_tick m = record {
  tick_p50 = of_int (milliseconds m.latencies.p50);
  tick_p95 = of_int (milliseconds m.latencies.p95);
  tick_p99 = of_int (milliseconds m.latencies.p99);
  tick_max = of_int (milliseconds m.latencies.max);
  tick_success_ratio = m.success_ratio;
  rps = m.rate;
}
