-- ===== src/Logs.antt =====
-- The csv logs of a run (report.go), as writers with a buffer, and what `Run` of runner.go does with them
-- at its end. The files are the runner's own, and no write to them fails. `B` is the type of a byte.
pub mod Flushed
pub mod Ended
use loaderbot.Prelude.{
  ℕ, zero, suc, Bool, true, false, String, Option, none, some, List, [], ◌∷◌, ◌++◌, map,
  if◌then◌else◌,
}
use loaderbot.Prelude.Int.{ℤ, pos, wrap64, ◌-ℤ◌}
use loaderbot.Float.{Float64, lit}
use loaderbot.Outcome.{Outcome, returned, ◌>>=◌}
use loaderbot.Result.{AttackResult}
use loaderbot.Collect.{Effect, write_result, write_percentiles}
use loaderbot.Report.{Entry, percs_csv_header, write_percentiles_entry}
use loaderbot.Utils.{max_rps_of_log}
use loaderbot.Charts.{Parsed, ok, failed, ParseError, PercsData, parse_percs_data}

-- What is in the file, and what the writer still keeps.
pub record Writer (B : Type 0) : Type 0 where
  pub written : List B
  pub buffer : List B

module _ {B : Type 0} where
  abbrev pub take : ℕ → List B → List B
  take zero xs = []
  take (suc n) [] = []
  take (suc n) (x ∷ xs) = x ∷ take n xs

  abbrev pub drop : ℕ → List B → List B
  drop zero xs = xs
  drop (suc n) [] = []
  drop (suc n) (x ∷ xs) = drop n xs

  -- `Write` and `Flush` of a csv.Writer. A write passes on some bytes to the file, when the buffer is full.
  unfoldable pub write : (List String → List B) → ℕ → List String → Writer B → Writer B
  write encode spilled row w =
      let all = w.buffer ++ encode row in
      record { written = w.written ++ take spilled all; buffer = drop spilled all }

  unfoldable pub flush : Writer B → Writer B
  flush w = record { written = w.written ++ w.buffer; buffer = [] }

  abbrev pub create_file_or_replace : Writer B
  create_file_or_replace = record { written = []; buffer = [] }

pub record Report (B : Type 0) : Type 0 where
  pub requests_log_file : Writer B
  pub perc_log_file : Writer B
  pub png : Bool

abbrev pub results_csv_header : List String
results_csv_header =
    "RequestLabel" ∷ "BeginTimeNano" ∷ "EndTimeNano" ∷ "Elapsed" ∷ "StatusCode" ∷ "Error" ∷ []

-- `int(t.UnixNano())`: the nanoseconds since 1970, from those since the zero time.
abbrev pub unix_nano : ℕ → ℤ
unix_nano t = wrap64 (pos t -ℤ pos 62_135_596_800_000_000_000)

-- `itoa` is `strconv.Itoa`, `duration_text` is `String` of a `time.Duration`, and `rune_text` is the
-- conversion of an `int` to a string, which is that of a code point.
pub record Printers : Type 0 where
  pub itoa : ℤ → String
  pub duration_text : ℤ → String
  pub rune_text : ℤ → String

unfoldable pub result_entry : Printers → AttackResult → String → List String
result_entry print res error_msg =
    res.do_result.request_label
    ∷ print.itoa (unix_nano res.begin)
    ∷ print.itoa (unix_nano res.end)
    ∷ print.duration_text res.elapsed
    ∷ print.rune_text res.do_result.status_code
    ∷ error_msg
    ∷ []

module _ {B : Type 0} (encode : List String → List B) (print : Printers) where
  -- `NewReport`, with the bytes that its two writes pass on.
  unfoldable pub new_report : Bool → ℕ → ℕ → Report B
  new_report png i j = record {
    requests_log_file = write encode i results_csv_header create_file_or_replace;
    perc_log_file = write encode j percs_csv_header create_file_or_replace;
    png = png;
  }

  abbrev pub write_result_entry : ℕ → AttackResult → String → Report B → Report B
  write_result_entry n res error_msg r = record r {
    requests_log_file = write encode n (result_entry print res error_msg) r.requests_log_file;
  }

module _ {B F E : Type 0} ⦃fl : Float64 F⦄ (encode : List String → List B) (print : Printers) where
  abbrev pub write_percs : ℕ → Entry F E → Report B → Report B
  write_percs n e r = record r {
    perc_log_file = write encode n (write_percentiles_entry print.itoa e) r.perc_log_file;
  }

  -- What the collector does to the logs. Each effect has the bytes that a write of it passes on.
  unfoldable pub log_all : List (ℕ × Effect F E) → Report B → Report B
  log_all [] r = r
  log_all ((n, write_result res error_msg) ∷ es) r =
      log_all es (write_result_entry encode print n res error_msg r)
  log_all ((n, write_percentiles res m) ∷ es) r =
      log_all es (write_percs n (record { res = res; tick_metrics = m }) r)
  log_all (_ ∷ es) r = log_all es r

abbrev pub flush_logs : {B : Type 0} → Report B → Report B
flush_logs r = record r {
  perc_log_file = flush r.perc_log_file;
  requests_log_file = flush r.requests_log_file;
}

-- What `plot` does: nothing, log an error, or draw a chart of these lines.
pub data Plot (F : Type 0) : Type 0 where
  no_plot : Plot F
  log_error : ParseError → Plot F
  draw : PercsData F → Plot F

abbrev pub chart_of : {F : Type 0} → Parsed (PercsData F) → Plot F
chart_of (failed e) = log_error e
chart_of (ok d) = draw d

-- `decode` is `Read` of a csv.Reader, until the end of the file.
module _ {B F : Type 0} ⦃fl : Float64 F⦄ (decode : List B → List (List String))
    (parse_float : String → Option F) where
  unfoldable pub plot : Report B → Plot F
  plot r =
      if r.png
      then chart_of (parse_percs_data parse_float (map some (decode r.perc_log_file.written)))
      else no_plot

  -- The end of `Run`: the maximal rate, which it returns, with the plot and the logs.
  unfoldable pub finish : Option (Report B) → Outcome (F × Plot F × Option (Report B))
  finish none = returned (lit 0 0, no_plot, none)
  finish (some r) = do
    max ← max_rps_of_log parse_float (decode (flush_logs r).perc_log_file.written)
    returned (max, plot (flush_logs r), some (flush_logs r))
