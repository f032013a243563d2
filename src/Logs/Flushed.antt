-- ===== src/Logs/Flushed.antt =====
-- What is in the csv logs at the end of a run (report.go).
use mathlib.Core.List.{append-nil, append_assoc}
use loaderbot.Prelude.{
  ℕ, zero, suc, ◌≡◌, refl, sym, ap, ◌∙◌, Bool, String, List, [], ◌∷◌, ◌++◌, map,
}
use loaderbot.Float.{Float64}
use loaderbot.Collect.{
  Effect, send_batch, cancel, log_tick, write_result, write_percentiles, set_gauges, start_attacker,
  close_results,
}
use loaderbot.Report.{Entry, percs_csv_header, write_percentiles_entry, percs_log}
use loaderbot.Logs.{
  Writer, take, drop, write, flush, create_file_or_replace, Report, results_csv_header, Printers,
  result_entry, new_report, write_result_entry, write_percs, log_all, flush_logs,
}

take-drop : {B : Type 0} (n : ℕ) (xs : List B) → take n xs ++ drop n xs ≡ xs
take-drop zero xs = refl
take-drop (suc n) [] = refl
take-drop (suc n) (x ∷ xs) = ap (◌∷◌ x) (take-drop n xs)

module _ {B : Type 0} (encode : List String → List B) where
  -- The bytes of a file with these rows.
  abbrev pub encode_all : List (List String) → List B
  encode_all [] = []
  encode_all (row ∷ rows) = encode row ++ encode_all rows

  encode_all-append :
      (xs ys : List (List String)) → encode_all (xs ++ ys) ≡ encode_all xs ++ encode_all ys
  encode_all-append [] ys = refl
  encode_all-append (x ∷ xs) ys =
      ap (◌++◌ (encode x)) (encode_all-append xs ys)
      ∙ sym (append_assoc (encode x) (encode_all xs) (encode_all ys))

  -- In the file or in the buffer.
  abbrev all_of : Writer B → List B
  all_of w = w.written ++ w.buffer

  write_lem :
      (n : ℕ) (row : List String) (w : Writer B)
      → all_of (write encode n row w) ≡ all_of w ++ encode row
  unfolding write
  write_lem n row w =
      append_assoc w.written (take n (w.buffer ++ encode row)) (drop n (w.buffer ++ encode row))
      ∙ ap (◌++◌ w.written) (take-drop n (w.buffer ++ encode row))
      ∙ sym (append_assoc w.written w.buffer (encode row))

  -- The logs of a report, flushed or not, with these rows more.
  abbrev Holds : Report B → Report B → List (List String) → List (List String) → Type 0
  Holds r r' results percs =
      (all_of r'.requests_log_file ≡ all_of r.requests_log_file ++ encode_all results)
      × (all_of r'.perc_log_file ≡ all_of r.perc_log_file ++ encode_all percs)

  more :
      (w w' : Writer B) (n : ℕ) (row : List String) (rows : List (List String))
      → all_of w' ≡ all_of (write encode n row w) ++ encode_all rows
      → all_of w' ≡ all_of w ++ encode_all (row ∷ rows)
  more w w' n row rows e =
      e
      ∙ ap (λ xs. xs ++ encode_all rows) (write_lem n row w)
      ∙ append_assoc (all_of w) (encode row) (encode_all rows)

  new_writer :
      (n : ℕ) (row : List String) → all_of (write encode n row create_file_or_replace) ≡ encode row
  new_writer n row = write_lem n row create_file_or_replace

module _ {F E : Type 0} where
  -- The rows that the collector asks for, in order.
  abbrev pub result_rows : Printers → List (ℕ × Effect F E) → List (List String)
  result_rows print [] = []
  result_rows print ((n, write_result res error_msg) ∷ es) =
      result_entry print res error_msg ∷ result_rows print es
  result_rows print (_ ∷ es) = result_rows print es

  abbrev pub entries : List (ℕ × Effect F E) → List (Entry F E)
  entries [] = []
  entries ((n, write_percentiles res m) ∷ es) = record { res = res; tick_metrics = m } ∷ entries es
  entries (_ ∷ es) = entries es

module _ {B F E : Type 0} ⦃fl : Float64 F⦄ (encode : List String → List B) (print : Printers) where
  abbrev rows_of : List (ℕ × Effect F E) → List (List String)
  rows_of es = map (write_percentiles_entry print.itoa) (entries es)

  log_all-Holds :
      (es : List (ℕ × Effect F E)) (r : Report B)
      → Holds encode r (log_all encode print es r) (result_rows print es) (rows_of es)
  unfolding log_all
  log_all-Holds [] r = (sym (append-nil _), sym (append-nil _))
  log_all-Holds ((n, write_result res msg) ∷ es) r =
      let r' = write_result_entry encode print n res msg r in
      let (h, k) = log_all-Holds es r' in
      (
        more encode r.requests_log_file (log_all encode print es r').requests_log_file n
            (result_entry print res msg) (result_rows print es) h,
        k,
      )
  log_all-Holds ((n, write_percentiles res m) ∷ es) r =
      let e : Entry F E = record { res = res; tick_metrics = m } in
      let r' = write_percs encode print n e r in
      let (h, k) = log_all-Holds es r' in
      (
        h,
        more encode r.perc_log_file (log_all encode print es r').perc_log_file n
            (write_percentiles_entry print.itoa e) (rows_of es) k,
      )
  log_all-Holds ((n, send_batch _) ∷ es) r = log_all-Holds es r
  log_all-Holds ((n, cancel) ∷ es) r = log_all-Holds es r
  log_all-Holds ((n, log_tick _ _) ∷ es) r = log_all-Holds es r
  log_all-Holds ((n, set_gauges _) ∷ es) r = log_all-Holds es r
  log_all-Holds ((n, start_attacker) ∷ es) r = log_all-Holds es r
  log_all-Holds ((n, close_results) ∷ es) r = log_all-Holds es r

  -- The report of a run, before its end.
  abbrev pub run_report : Bool → ℕ → ℕ → List (ℕ × Effect F E) → Report B
  run_report png i j es = log_all encode print es (new_report encode print png i j)

  -- Whatever bytes the writers pass on early: after `flushLogs` the file of requests is the header and a
  -- row for each result that the collector writes, and the file of percentiles the header and a row for
  -- each tick, in order.
  pub flushed_logs :
      (png : Bool) (i j : ℕ) (es : List (ℕ × Effect F E))
      → ((flush_logs (run_report png i j es)).requests_log_file.written
          ≡ encode_all encode (results_csv_header ∷ result_rows print es))
        × ((flush_logs (run_report png i j es)).perc_log_file.written
            ≡ encode_all encode (percs_log print.itoa (entries es)))
  unfolding flush new_report percs_log
  flushed_logs png i j es =
      let (h, k) = log_all-Holds es (new_report encode print png i j) in
      (
        h
            ∙ ap (λ xs. xs ++ encode_all encode (result_rows print es))
                (new_writer encode i results_csv_header),
        k ∙ ap (λ xs. xs ++ encode_all encode (rows_of es)) (new_writer encode j percs_csv_header),
      )

  log_all-png :
      (es : List (ℕ × Effect F E)) (r : Report B) → (log_all encode print es r).png ≡ r.png
  unfolding log_all
  log_all-png [] r = refl
  log_all-png ((n, write_result res msg) ∷ es) r =
      log_all-png es (write_result_entry encode print n res msg r)
  log_all-png ((n, write_percentiles res m) ∷ es) r =
      log_all-png es (write_percs encode print n (record { res = res; tick_metrics = m }) r)
  log_all-png ((n, send_batch _) ∷ es) r = log_all-png es r
  log_all-png ((n, cancel) ∷ es) r = log_all-png es r
  log_all-png ((n, log_tick _ _) ∷ es) r = log_all-png es r
  log_all-png ((n, set_gauges _) ∷ es) r = log_all-png es r
  log_all-png ((n, start_attacker) ∷ es) r = log_all-png es r
  log_all-png ((n, close_results) ∷ es) r = log_all-png es r

  pub run_report-png :
      (png : Bool) (i j : ℕ) (es : List (ℕ × Effect F E)) → (run_report png i j es).png ≡ png
  unfolding new_report
  run_report-png png i j es = log_all-png es (new_report encode print png i j)
