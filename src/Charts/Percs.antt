-- ===== src/Charts/Percs.antt =====
-- The file of percentiles from the report to its readers (report.go, graph_report.go, `maxRPS`).
use mathlib.Core.List.{append-nil, append_assoc}
use loaderbot.Prelude.{
  ◌≡◌, ◌≤◌, refl, sym, ap, ◌∙◌, String, Option, none, some, List, [], ◌∷◌, ◌++◌, map, arith, All,
  length,
}
use loaderbot.Prelude.Int.{ℤ, pos}
use loaderbot.Float.{Float64, of_int, to_int}
use loaderbot.Outcome.{returned}
use loaderbot.Report.{Entry, milliseconds, percs_csv_header, write_percentiles_entry, percs_log}
use loaderbot.Utils.{max_rps, max_rps_of_log, max_rps_of_log-eq, third_field}
use loaderbot.Charts.{
  ChartLine, PercsData, ok, no_points, add_x, add_y, percs_record, read_percs, parse_percs_data,
}

-- The reads of the rows of a file.
abbrev pub reads : List (List String) → List (Option (List String))
reads rows = map some rows

module _ {F E : Type 0} ⦃fl : Float64 F⦄ where
  abbrev pub column : (Entry F E → ℤ) → List (Entry F E) → List F
  column f es = map (λ e. of_int (f e)) es

  abbrev pub tick_of : Entry F E → ℤ
  tick_of e = pos e.res.attack_token.tick

  abbrev pub rate_of : Entry F E → ℤ
  rate_of e = to_int e.tick_metrics.rate

  abbrev pub p50_of : Entry F E → ℤ
  p50_of e = milliseconds e.tick_metrics.latencies.p50

  abbrev pub p95_of : Entry F E → ℤ
  p95_of e = milliseconds e.tick_metrics.latencies.p95

  abbrev pub p99_of : Entry F E → ℤ
  p99_of e = milliseconds e.tick_metrics.latencies.p99

  -- A line with the points of these entries after its own.
  abbrev extended : ChartLine F → (Entry F E → ℤ) → List (Entry F E) → ChartLine F
  extended l f es = record {
    x_values = l.x_values ++ column tick_of es;
    y_values = l.y_values ++ column f es;
  }

  abbrev all_extended : PercsData F → List (Entry F E) → PercsData F
  all_extended d es = record {
    rps = extended d.rps rate_of es;
    p50 = extended d.p50 p50_of es;
    p95 = extended d.p95 p95_of es;
    p99 = extended d.p99 p99_of es;
  }

  abbrev with_entry : Entry F E → PercsData F → PercsData F
  with_entry e d = record {
    rps = add_y (of_int (rate_of e)) (add_x (of_int (tick_of e)) d.rps);
    p50 = add_y (of_int (p50_of e)) (add_x (of_int (tick_of e)) d.p50);
    p95 = add_y (of_int (p95_of e)) (add_x (of_int (tick_of e)) d.p95);
    p99 = add_y (of_int (p99_of e)) (add_x (of_int (tick_of e)) d.p99);
  }

  extended-cons :
      (l : ChartLine F) (f : Entry F E → ℤ) (e : Entry F E) (es : List (Entry F E))
      → extended (add_y (of_int (f e)) (add_x (of_int (tick_of e)) l)) f es ≡ extended l f (e ∷ es)
  extended-cons l f e es = λ i. record {
    x_values = append_assoc l.x_values (of_int (tick_of e) ∷ []) (column tick_of es) i;
    y_values = append_assoc l.y_values (of_int (f e) ∷ []) (column f es) i;
  }

  all_extended-cons :
      (d : PercsData F) (e : Entry F E) (es : List (Entry F E))
      → all_extended (with_entry e d) es ≡ all_extended d (e ∷ es)
  all_extended-cons d e es = λ i. record {
    rps = extended-cons d.rps rate_of e es i;
    p50 = extended-cons d.p50 p50_of e es i;
    p95 = extended-cons d.p95 p95_of e es i;
    p99 = extended-cons d.p99 p99_of e es i;
  }

-- `strconv.ParseFloat` reads the numbers that `strconv.Itoa` writes for this entry, as their floats.
abbrev pub ReadsBack :
    {F E : Type 0} ⦃fl : Float64 F⦄ → (ℤ → String) → (String → Option F) → Entry F E → Type 0
ReadsBack itoa parse_float e =
    (parse_float (itoa (tick_of e)) ≡ some (of_int (tick_of e)))
    × (parse_float (itoa (rate_of e)) ≡ some (of_int (rate_of e)))
    × (parse_float (itoa (p50_of e)) ≡ some (of_int (p50_of e)))
    × (parse_float (itoa (p95_of e)) ≡ some (of_int (p95_of e)))
    × (parse_float (itoa (p99_of e)) ≡ some (of_int (p99_of e)))

module _ {F : Type 0} ⦃fl : Float64 F⦄ where
  all_extended-nil : (E : Type 0) (d : PercsData F) → d ≡ all_extended {E = E} d []
  all_extended-nil E d = λ i. record {
    rps = line d.rps rate_of i;
    p50 = line d.p50 p50_of i;
    p95 = line d.p95 p95_of i;
    p99 = line d.p99 p99_of i;
  }
    where
      line : (l : ChartLine F) (f : Entry F E → ℤ) → l ≡ extended l f []
      line l f = λ i. record {
        x_values = sym (append-nil l.x_values) i;
        y_values = sym (append-nil l.y_values) i;
      }

module _ {F E : Type 0} ⦃fl : Float64 F⦄ (itoa : ℤ → String) (parse_float : String → Option F) where
  percs_record-entry :
      (e : Entry F E) (d : PercsData F)
      → ReadsBack itoa parse_float e
      → percs_record parse_float (write_percentiles_entry itoa e) d ≡ ok (with_entry e d)
  unfolding percs_record write_percentiles_entry
  percs_record-entry e d h = ground (arith, h.0, h.1, h.2, h.3, h.4)

  read_percs-entries :
      (es : List (Entry F E)) (d : PercsData F)
      → All (ReadsBack itoa parse_float) es
      → read_percs parse_float (reads (map (write_percentiles_entry itoa) es)) d
        ≡ ok (all_extended d es)
  unfolding read_percs
  read_percs-entries [] d h = ap ok (all_extended-nil E d)
  read_percs-entries (e ∷ es) d h =
      rw (percs_record-entry e d h.0)
        (read_percs-entries es (with_entry e d) h.1 ∙ ap ok (all_extended-cons d e es))

  -- If `ParseFloat` reads back what `Itoa` wrote for each entry, `parsePercsData` accepts the file of
  -- percentiles of one or more entries, and its four lines have the ticks of the entries as x values and their rates
  -- and percentiles, as whole numbers, as y values, in order.
  pub parse_percs_data-percs_log :
      (e : Entry F E) (es : List (Entry F E))
      → All (ReadsBack itoa parse_float) (e ∷ es)
      → parse_percs_data parse_float (reads (percs_log itoa (e ∷ es)))
        ≡ ok (record {
          rps = record { x_values = column tick_of (e ∷ es); y_values = column rate_of (e ∷ es) };
          p50 = record { x_values = column tick_of (e ∷ es); y_values = column p50_of (e ∷ es) };
          p95 = record { x_values = column tick_of (e ∷ es); y_values = column p95_of (e ∷ es) };
          p99 = record { x_values = column tick_of (e ∷ es); y_values = column p99_of (e ∷ es) };
        })
  unfolding parse_percs_data percs_log
  parse_percs_data-percs_log e es h =
      rw
        (read_percs-entries (e ∷ es)
          (record { rps = no_points; p50 = no_points; p95 = no_points; p99 = no_points }) h)
        refl

  log_width :
      (es : List (Entry F E))
      → All (λ line. 3 ≤ length line) (map (write_percentiles_entry itoa) es)
  unfolding write_percentiles_entry
  log_width [] = tt
  log_width (e ∷ es) = (omega arith, log_width es)

  third_fields :
      (es : List (Entry F E))
      → All (ReadsBack itoa parse_float) es
      → map (third_field parse_float) (map (write_percentiles_entry itoa) es) ≡ column rate_of es
  unfolding write_percentiles_entry
  third_fields [] h = refl
  third_fields (e ∷ es) h = rw (h.0.1, third_fields es h.1) refl

  -- If `ParseFloat` reads back what `Itoa` wrote for each entry, and answers an error for the header's
  -- "RPS", `maxRPS` returns on the file of percentiles of any entries, with `MaxRPS` of 0, which stands
  -- for the header, and their rates as whole numbers.
  pub max_rps_of_log-percs_log :
      (es : List (Entry F E))
      → All (ReadsBack itoa parse_float) es
      → parse_float "RPS" ≡ none
      → max_rps_of_log parse_float (percs_log itoa es)
        ≡ returned (max_rps (fl.lit 0 0 ∷ column rate_of es))
  unfolding percs_log
  max_rps_of_log-percs_log es h header =
      max_rps_of_log-eq parse_float (percs_csv_header ∷ map (write_percentiles_entry itoa) es)
        (omega arith, log_width es)
      ∙ rw (header, third_fields es h) refl
