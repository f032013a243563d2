-- ===== src/System/Returned.antt =====
-- The rate that `Run` returns at the end of a run (runner.go, report.go).
use loaderbot.Schedule.{Limiters}
use mathlib.Core.List.Perm
use mathlib.Core.Path.{subst}
use loaderbot.Prelude.{
  ℕ, ◌≡◌, refl, ap, ◌∙◌, Bool, true, String, Option, none, some, List, [], ◌∷◌, map, All,
}
use loaderbot.Float.{Float64, IsOrdered, lit, of_int, to_int}
use loaderbot.Config.{RunnerConfig, ReportOptions}
use loaderbot.Result.{AttackToken}
use loaderbot.Metrics.{Quantile, Metrics}
use loaderbot.Outcome.{Returns}
use loaderbot.Outcome.Laws.{Returns-at}
use loaderbot.Collect.{
  Collector, Effect, send_batch, cancel, log_tick, write_result, write_percentiles, set_gauges,
  start_attacker, close_results, collect_one,
}
use loaderbot.Report.{percs_log}
use loaderbot.Utils.{max_rps}
use loaderbot.Charts.Percs.{ReadsBack, column, rate_of}
use loaderbot.Charts.Slack.Top.{IsTop, max_rps-IsTop}
use loaderbot.Logs.{Printers, finish}
use loaderbot.Logs.Flushed.{encode_all, entries, run_report}
use loaderbot.Logs.Ended.{finish-run_report}
use loaderbot.System.{System, opening, Move, alive, Reach, here, later, take_result}
use loaderbot.System.Rates.{ticks, rows, IsWritten, append-IsWritten, collect_one-IsWritten}

module _ {L F E : Type 0} ⦃fl : Float64 F⦄ ⦃q : Quantile F E⦄ (new_limiter : Limiters L)
    (cfg : RunnerConfig F) (opts : ReportOptions) (setup : ℕ → Bool)
    (ready : (i : ℕ) → setup i ≡ true) (csv : opts.csv ≡ true) where
  Move-IsWritten :
      {s u : System L F E}
      → Move new_limiter cfg opts setup s u
      → IsWritten s.effects
      → IsWritten u.effects
  Move-IsWritten {s = s} (take_result r rest books es _ _ ran) h = append-IsWritten s.effects es h (
      Returns-at (λ x. IsWritten x.1) (collect_one cfg opts setup r s.books) _
        (collect_one-IsWritten cfg opts setup ready csv r s.books) ran)
  Move-IsWritten _ h = h

  Reach-IsWritten :
      (books : Collector F E) (attackers : ℕ) {s : System L F E}
      → Reach new_limiter cfg opts setup (opening new_limiter cfg books attackers) s
      → IsWritten s.effects
  unfolding opening rows ticks
  Reach-IsWritten books attackers here = refl
  Reach-IsWritten books attackers (later r (alive _ mv)) =
      Move-IsWritten mv (Reach-IsWritten books attackers r)

-- The rate of a tick as the csv file has it, a whole number.
abbrev pub whole_rate : {F E : Type 0} ⦃fl : Float64 F⦄ → AttackToken × Metrics F E → F
whole_rate t = of_int (to_int t.1.rate)

module _ {F E : Type 0} ⦃fl : Float64 F⦄ where
  entries-rows :
      (es : List (ℕ × Effect F E))
      → column rate_of (entries es) ≡ map whole_rate (rows (map (λ e. e.1) es))
  unfolding rows
  entries-rows [] = refl
  entries-rows ((n, write_percentiles r m) ∷ es) =
      ap (◌∷◌ (of_int (to_int m.rate))) (entries-rows es)
  entries-rows ((n, log_tick tok m) ∷ es) = entries-rows es
  entries-rows ((n, send_batch xs) ∷ es) = entries-rows es
  entries-rows ((n, cancel) ∷ es) = entries-rows es
  entries-rows ((n, write_result r s) ∷ es) = entries-rows es
  entries-rows ((n, set_gauges tm) ∷ es) = entries-rows es
  entries-rows ((n, start_attacker) ∷ es) = entries-rows es
  entries-rows ((n, close_results) ∷ es) = entries-rows es

module _ {B L F E : Type 0} ⦃fl : Float64 F⦄ ⦃q : Quantile F E⦄ (new_limiter : Limiters L)
    (cfg : RunnerConfig F) (opts : ReportOptions) (setup : ℕ → Bool)
    (ready : (i : ℕ) → setup i ≡ true) (csv : opts.csv ≡ true) (o : IsOrdered F)
    (encode : List String → List B) (print : Printers) (decode : List B → List (List String))
    (parse_float : String → Option F) where
  -- A runner that writes csv files, and whose attackers all set up, at any moment of a run; `es` is what
  -- its collector has done, with the bytes that the writers have passed on early, of the headers too. If
  -- the csv reader reads the rows of percentiles back as they were written, and `ParseFloat` reads back
  -- what `Itoa` wrote for each tick and answers an error for the header's "RPS": the end of `Run` returns a
  -- rate that is the top of 0 and of the whole rates of the ticks that the run has reported, all of them.
  pub returned_rate :
      (books : Collector F E) (attackers : ℕ) {s : System L F E} (png : Bool) (i j : ℕ)
      (es : List (ℕ × Effect F E))
      → Reach new_limiter cfg opts setup (opening new_limiter cfg books attackers) s
      → map (λ e. e.1) es ≡ s.effects
      → decode (encode_all encode (percs_log print.itoa (entries es)))
        ≡ percs_log print.itoa (entries es)
      → All (ReadsBack print.itoa parse_float) (entries es)
      → parse_float "RPS" ≡ none
      → Returns
          (λ r. IsTop r.0 (lit 0 0 ∷ map whole_rate (ticks s.effects)))
          (finish decode parse_float (some (run_report encode print png i j es)))
  returned_rate books attackers {s = s} png i j es r same back reads header =
      let all : column rate_of (entries es) ≡ map whole_rate (ticks s.effects) =
        entries-rows es
        ∙ ap (λ xs. map whole_rate (rows xs)) same
        ∙ ap (map whole_rate)
            (Reach-IsWritten new_limiter cfg opts setup ready csv books attackers r) in
      rw (finish-run_report encode print decode parse_float png i j es back reads header) (
        subst (λ xs. IsTop (max_rps (lit 0 0 ∷ column rate_of (entries es))) (lit 0 0 ∷ xs)) all
          (max_rps-IsTop o (lit 0 0 ∷ column rate_of (entries es))
            (lit 0 0 ∷ column rate_of (entries es)) (Perm.refl _)))
