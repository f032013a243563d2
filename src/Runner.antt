-- ===== src/Runner.antt =====
-- runner.go, `NewRunner`: what a runner starts with. Its channels and clients are made empty; the
-- limiter and the state of the scheduler are `start` of Schedule.
pub mod Outcomes
use loaderbot.Prelude.{
  ap, ◌∙◌, ℕ, zero, suc, ◌+◌, ◌≡◌, ◌≢◌, refl, Bool, true, false, String, Option, none, some, [],
  ◌∷◌, ◌&&◌, ◌||◌, if◌then◌else◌, Bool-cases, inl, inr, List, arith,
}
use loaderbot.Prelude.Int.{ℤ, pos_part}
use loaderbot.Float.{Float64}
use loaderbot.Config.{
  RunnerConfig, ReportOptions, Prometheus, is_mode, bound_rps, bound_rps_autoscale, validate,
  validate_or_exit, default_cfg_values,
}
use loaderbot.Config.Laws.{attackers_of_defaults, mode_of_defaults, options_of_defaults}
use loaderbot.Config.Defaults.{csv_or_true}
use loaderbot.Logging.{raw_json, or_panic, setup_logger, new_logger}
use loaderbot.Schedule.{Limiters}
use loaderbot.Attack.{err_attacker_setup}
use loaderbot.Outcome.{
  Outcome, returned, exited, fatal, panicked, nil_dereference, bad_logger, divide_by_zero, ◌>>=◌,
}

-- `attackers` is the length of the slice.
pub record Runner (F : Type 0) : Type 0 where
  pub name : String
  pub cfg : RunnerConfig F
  pub target_rps : ℤ
  pub attackers : ℕ
  pub report : Bool
  pub prom_reporter : Bool

unfoldable pub csv_of : Option ReportOptions → Outcome Bool
csv_of none = panicked nil_dereference
csv_of (some o) = returned o.csv

abbrev pub prometheus_of : Option Prometheus → Bool
prometheus_of none = false
prometheus_of (some p) = p.enable

-- `NewReport`, if there is one to make, makes a logger of its own.
unfoldable pub report_of : {Z F : Type 0} → (String → Option Z) → RunnerConfig F → Outcome Bool
report_of zap c = do
  csv ← csv_of c.report_options
  elim csv [ false ↦ returned false | true ↦ do _ ← new_logger zap c; returned true ]

-- `ratelimit.New` for the first rate, in the modes with a limiter; the limiter itself is in `start` of
-- Schedule. Its panic is that of a zero divisor.
unfoldable pub limiter_of : {L F : Type 0} → Limiters L → RunnerConfig F → Outcome (Unit {0})
limiter_of new_limiter c =
    if (is_mode bound_rps c || is_mode bound_rps_autoscale c) && new_limiter.refuses c.start_rps
    then panicked divide_by_zero
    else returned tt

-- `prototype` is the attacker given, or nil: it says whether `Setup` succeeds on its clone number i, for a
-- configuration. `zap` is that of Logging. The runner's logger is not kept here.
module _ {L F : Type 0} (new_limiter : Limiters L)
    (prototype : Option (RunnerConfig F → ℕ → Bool)) where
  -- `Clone` and `Setup` of clone number i.
  unfoldable pub set_up_one : RunnerConfig F → ℕ → Outcome (Unit {0})
  set_up_one c i = elim prototype [
    | none ↦ panicked nil_dereference
    | some setup ↦ if setup c i then returned tt else fatal err_attacker_setup
  ]

  -- The loop over the attackers, from attacker i on, with n still to set up.
  unfoldable pub set_up : RunnerConfig F → ℕ → ℕ → Outcome ℕ
  set_up c i zero = returned i
  set_up c i (suc n) = set_up_one c i >>= λ _. set_up c (i + 1) n

  unfoldable pub new_runner :
      {Z : Type 0} → (String → Option Z) → ⦃fl : Float64 F⦄ → RunnerConfig F → Outcome (Runner F)
  new_runner zap given = do
    _ ← validate_or_exit given
    _ ← limiter_of new_limiter (default_cfg_values given)
    _ ← new_logger zap (default_cfg_values given)
    n ← set_up (default_cfg_values given) 0 (pos_part (default_cfg_values given).attackers)
    csv ← report_of zap (default_cfg_values given)
    returned (record {
      name = (default_cfg_values given).name;
      cfg = default_cfg_values given;
      target_rps = (default_cfg_values given).start_rps;
      attackers = n;
      report = csv;
      prom_reporter = prometheus_of (default_cfg_values given).prometheus;
    })

module _ {F Z : Type 0} ⦃fl : Float64 F⦄ (zap : String → Option Z) (c : RunnerConfig F) where
  pub report_of_lem :
      (l : Z)
      → new_logger zap (default_cfg_values c) ≡ returned l
      → report_of zap (default_cfg_values c) ≡ returned (csv_or_true c.report_options)
  unfolding report_of csv_of
  report_of_lem l e =
      let (o, h, csv) = options_of_defaults c in
      rw (h, csv)
        (elim (Bool-cases (csv_or_true c.report_options)) [
          | inl t ↦ rw (t, e) refl
          | inr t ↦ rw t refl
        ])
