-- ===== src/Config/Laws.antt =====
-- What `validate` accepts, and what `DefaultCfgValues` makes of it (config.go).
use loaderbot.Prelude.{◌≡◌, ap, ◌∙◌, ◌≢◌, ◌↔◌, ◌⊎◌, some, [], arith, eq_iff}
use loaderbot.Prelude.Int.{pos, ◌≤ℤ◌}
use loaderbot.Float.{Float64}
use loaderbot.Config.{
  RunnerConfig, ReportOptions, SystemMode, bound_rps, validate, default_cfg_values,
  default_start_rps, default_step, default_log, default_report, default_prometheus, default_scale,
}
use loaderbot.Config.Defaults.{
  rps_or_10, duration_or_10, dirs_or_default, amount_or_100, threshold_or_90, with_defaults,
  or_text_twice, rps_twice, duration_twice, dirs_twice, port_twice, amount_twice, options_lem,
  csv_or_true, csv_lem, port_lem,
}

-- What each check of `validate` asks for.
pub record IsRunnable {F : Type 0} (c : RunnerConfig F) : Type 0 where
  pub named : c.name ≢ ""
  pub attacked : (c.system_mode ≢ bound_rps) ⊎ (pos 1 ≤ℤ c.attackers)
  pub timed : pos 1 ≤ℤ c.attacker_timeout
  pub stepped : pos 0 ≤ℤ c.step_duration_sec
  pub growing : (c.system_mode ≢ bound_rps) ⊎ (pos 0 ≤ℤ c.step_rps)
  pub bounded : pos 1 ≤ℤ c.test_time_sec

validate-IsRunnable : {F : Type 0} (c : RunnerConfig F) → validate c ≡ [] → IsRunnable c
unfolding validate
validate-IsRunnable c h = record {
  named = λ e. ground (arith, eq_iff c.name "");
  attacked = ground arith;
  timed = ground arith;
  stepped = ground arith;
  growing = ground arith;
  bounded = ground arith;
}

validate_of_IsRunnable : {F : Type 0} (c : RunnerConfig F) → IsRunnable c → validate c ≡ []
unfolding validate
validate_of_IsRunnable c h = ground (arith, eq_iff c.name "")

-- `validate` returns no complaint exactly for the configurations that have a name, positive
-- timeouts and a step duration of 0 or more, and in `BoundRPS` mode a positive number of attackers
-- and a step of 0 or more.
pub validate_iff : {F : Type 0} (c : RunnerConfig F) → (validate c ≡ []) ↔ IsRunnable c
validate_iff c = (validate-IsRunnable c, validate_of_IsRunnable c)

-- The defaults field by field: each is a function of the mode and of that field (and of `StepRPS`).
module _ {F : Type 0} ⦃fl : Float64 F⦄ where
  threshold_twice :
      (m : SystemMode) (x : F) → threshold_or_90 m (threshold_or_90 m x) ≡ threshold_or_90 m x
  unfolding threshold_or_90
  threshold_twice m x = ground arith

  with_defaults_twice : (c : RunnerConfig F) → with_defaults (with_defaults c) ≡ with_defaults c
  unfolding with_defaults
  with_defaults_twice c = λ i. record c {
    start_rps = rps_twice c.system_mode c.start_rps i;
    step_duration_sec = duration_twice c.system_mode c.step_rps c.step_duration_sec i;
    log_level = or_text_twice c.log_level "info" i;
    log_encoding = or_text_twice c.log_encoding "console" i;
    report_options = some (dirs_twice c.report_options i);
    prometheus = port_twice c.prometheus i;
    attackers_scale_amount = amount_twice c.system_mode c.attackers_scale_amount i;
    attackers_scale_threshold = threshold_twice c.system_mode c.attackers_scale_threshold i;
  }

  start_lem :
      (c : RunnerConfig F)
      → default_start_rps c ≡ record c { start_rps = rps_or_10 c.system_mode c.start_rps }
  unfolding default_start_rps rps_or_10
  start_lem c = ground arith

  step_lem :
      (c : RunnerConfig F)
      → default_step c ≡ record c {
        step_duration_sec = duration_or_10 c.system_mode c.step_rps c.step_duration_sec;
      }
  unfolding default_step duration_or_10
  step_lem c = ground arith

  scale_lem :
      (c : RunnerConfig F)
      → default_scale c ≡ record c {
        attackers_scale_amount = amount_or_100 c.system_mode c.attackers_scale_amount;
        attackers_scale_threshold = threshold_or_90 c.system_mode c.attackers_scale_threshold;
      }
  unfolding default_scale amount_or_100 threshold_or_90
  scale_lem c = ground arith

  default_cfg_values-eq-with_defaults :
      (c : RunnerConfig F) → default_cfg_values c ≡ with_defaults c
  unfolding default_cfg_values with_defaults default_log default_report default_prometheus
  default_cfg_values-eq-with_defaults c =
      simp (start_lem, step_lem, scale_lem, options_lem, port_lem)

  -- A second run of `DefaultCfgValues` changes nothing.
  pub default_cfg_values_idempotent :
      (c : RunnerConfig F) → default_cfg_values (default_cfg_values c) ≡ default_cfg_values c
  default_cfg_values_idempotent c = simp default_cfg_values-eq-with_defaults (with_defaults_twice c)

  with_defaults-IsRunnable : (c : RunnerConfig F) → IsRunnable c → IsRunnable (with_defaults c)
  unfolding with_defaults
  with_defaults-IsRunnable c h = record {
    named = h.named;
    attacked = h.attacked;
    timed = h.timed;
    stepped = ground arith;
    growing = h.growing;
    bounded = h.bounded;
  }

  -- A configuration that `validate` accepts is accepted with its defaults filled in.
  pub default_cfg_values-IsRunnable :
      (c : RunnerConfig F) → validate c ≡ [] → validate (default_cfg_values c) ≡ []
  unfolding with_defaults
  default_cfg_values-IsRunnable c h = rw default_cfg_values-eq-with_defaults (
      validate_of_IsRunnable (with_defaults c)
        (with_defaults-IsRunnable c (validate-IsRunnable c h)))

  -- What `schedule` reads of the defaults.
  pub mode_of_defaults : (c : RunnerConfig F) → (default_cfg_values c).system_mode ≡ c.system_mode
  unfolding with_defaults
  mode_of_defaults c =
      ap (λ (d : RunnerConfig F). d.system_mode) (default_cfg_values-eq-with_defaults c)

  pub rps_of_defaults :
      (c : RunnerConfig F) → c.start_rps ≢ pos 0 → (default_cfg_values c).start_rps ≡ c.start_rps
  unfolding with_defaults
  rps_of_defaults c h =
      ap (λ (d : RunnerConfig F). d.start_rps) (default_cfg_values-eq-with_defaults c)
      ∙ ground arith

  pub duration_of_defaults :
      (c : RunnerConfig F)
      → (c.system_mode ≡ bound_rps → c.step_rps ≢ pos 0)
      → (default_cfg_values c).step_duration_sec ≡ c.step_duration_sec
  unfolding with_defaults
  duration_of_defaults c h =
      ap (λ (d : RunnerConfig F). d.step_duration_sec) (default_cfg_values-eq-with_defaults c)
      ∙ ground arith

  pub zero_rps_of_defaults :
      (c : RunnerConfig F)
      → c.system_mode ≡ bound_rps
      → c.start_rps ≡ pos 0
      → (default_cfg_values c).start_rps ≡ pos 10
  unfolding with_defaults
  zero_rps_of_defaults c m h =
      ap (λ (d : RunnerConfig F). d.start_rps) (default_cfg_values-eq-with_defaults c)
      ∙ ground arith

  pub step_of_defaults : (c : RunnerConfig F) → (default_cfg_values c).step_rps ≡ c.step_rps
  unfolding with_defaults
  step_of_defaults c =
      ap (λ (d : RunnerConfig F). d.step_rps) (default_cfg_values-eq-with_defaults c)

  pub constant_duration_of_defaults :
      (c : RunnerConfig F)
      → c.system_mode ≡ bound_rps
      → c.step_rps ≡ pos 0
      → (default_cfg_values c).step_duration_sec ≡ pos 10
  unfolding with_defaults
  constant_duration_of_defaults c m h =
      ap (λ (d : RunnerConfig F). d.step_duration_sec) (default_cfg_values-eq-with_defaults c)
      ∙ ground arith

  pub attackers_of_defaults : (c : RunnerConfig F) → (default_cfg_values c).attackers ≡ c.attackers
  unfolding with_defaults
  attackers_of_defaults c =
      ap (λ (d : RunnerConfig F). d.attackers) (default_cfg_values-eq-with_defaults c)

  pub cluster_of_defaults :
      (c : RunnerConfig F) → (default_cfg_values c).cluster_options ≡ c.cluster_options
  unfolding with_defaults
  cluster_of_defaults c =
      ap (λ (d : RunnerConfig F). d.cluster_options) (default_cfg_values-eq-with_defaults c)

  -- The options of the defaults are there, and write csv files if the given ones do, or there are none.
  pub options_of_defaults :
      (c : RunnerConfig F)
      → (o : ReportOptions) × ((default_cfg_values c).report_options ≡ some o)
        × (o.csv ≡ csv_or_true c.report_options)
  unfolding with_defaults dirs_or_default
  options_of_defaults c = (
    dirs_or_default c.report_options,
    ap (λ (d : RunnerConfig F). d.report_options) (default_cfg_values-eq-with_defaults c),
    csv_lem c.report_options,
  )
