-- ===== src/Config/Defaults.antt =====
-- What each part of DefaultCfgValues makes of its fields (config.go).
use loaderbot.Prelude.{
  Bool, true, ◌≡◌, refl, String, Option, none, some, ◌&&◌, arith, str_eq, if◌then◌else◌,
}
use loaderbot.Prelude.Int.{ℤ, pos, eqb_ℤ}
use loaderbot.Float.{Float64, lit, ◌==f◌}
use loaderbot.Config.{
  RunnerConfig, ReportOptions, Prometheus, SystemMode, bound_rps, bound_rps_autoscale,
  default_options, default_dirs, or_options, default_port,
}

unfoldable pub or_text : String → String → String
or_text s fallback = if str_eq s "" then fallback else s

unfoldable pub rps_or_10 : SystemMode → ℤ → ℤ
rps_or_10 mode rps = if eqb_ℤ mode bound_rps && eqb_ℤ rps (pos 0) then pos 10 else rps

unfoldable pub duration_or_10 : SystemMode → ℤ → ℤ → ℤ
duration_or_10 mode step sec = if eqb_ℤ mode bound_rps && eqb_ℤ step (pos 0) then pos 10 else sec

unfoldable pub dirs_or_default : Option ReportOptions → ReportOptions
unfolding or_text
dirs_or_default none = default_options
dirs_or_default (some o) = record o {
  csv_dir = or_text o.csv_dir "results_csv";
  html_dir = or_text o.html_dir "results_html";
}

unfoldable pub port_or_2112 : Option Prometheus → Option Prometheus
port_or_2112 none = none
port_or_2112 (some p) = some (record p { port = if eqb_ℤ p.port (pos 0) then pos 2112 else p.port })

unfoldable pub amount_or_100 : SystemMode → ℤ → ℤ
amount_or_100 mode n = if eqb_ℤ mode bound_rps_autoscale && eqb_ℤ n (pos 0) then pos 100 else n

unfoldable pub threshold_or_90 : {F : Type 0} ⦃fl : Float64 F⦄ → SystemMode → F → F
threshold_or_90 mode x = if eqb_ℤ mode bound_rps_autoscale && x ==f lit 0 0 then lit 9 1 else x

unfoldable pub with_defaults : {F : Type 0} ⦃fl : Float64 F⦄ → RunnerConfig F → RunnerConfig F
unfolding or_text rps_or_10 duration_or_10 dirs_or_default port_or_2112 amount_or_100
    threshold_or_90
with_defaults c = record c {
  start_rps = rps_or_10 c.system_mode c.start_rps;
  step_duration_sec = duration_or_10 c.system_mode c.step_rps c.step_duration_sec;
  log_level = or_text c.log_level "info";
  log_encoding = or_text c.log_encoding "console";
  report_options = some (dirs_or_default c.report_options);
  prometheus = port_or_2112 c.prometheus;
  attackers_scale_amount = amount_or_100 c.system_mode c.attackers_scale_amount;
  attackers_scale_threshold = threshold_or_90 c.system_mode c.attackers_scale_threshold;
}

pub or_text_twice : (s d : String) → or_text (or_text s d) d ≡ or_text s d
unfolding or_text
or_text_twice s d = ground arith

pub rps_twice : (m : SystemMode) (n : ℤ) → rps_or_10 m (rps_or_10 m n) ≡ rps_or_10 m n
unfolding rps_or_10
rps_twice m n = ground arith

pub duration_twice :
    (m : SystemMode) (k n : ℤ) → duration_or_10 m k (duration_or_10 m k n) ≡ duration_or_10 m k n
unfolding duration_or_10
duration_twice m k n = ground arith

pub dirs_twice :
    (o : Option ReportOptions) → dirs_or_default (some (dirs_or_default o)) ≡ dirs_or_default o
unfolding dirs_or_default
dirs_twice none = refl
dirs_twice (some o) = λ i. record o {
  csv_dir = or_text_twice o.csv_dir "results_csv" i;
  html_dir = or_text_twice o.html_dir "results_html" i;
}

pub port_twice : (p : Option Prometheus) → port_or_2112 (port_or_2112 p) ≡ port_or_2112 p
unfolding port_or_2112
port_twice none = refl
port_twice (some p) = ground arith

pub amount_twice :
    (m : SystemMode) (n : ℤ) → amount_or_100 m (amount_or_100 m n) ≡ amount_or_100 m n
unfolding amount_or_100
amount_twice m n = ground arith

pub options_lem : (o : Option ReportOptions) → default_dirs (or_options o) ≡ dirs_or_default o
unfolding dirs_or_default
options_lem none = refl
options_lem (some o) = refl

abbrev pub csv_or_true : Option ReportOptions → Bool
csv_or_true none = true
csv_or_true (some o) = o.csv

pub csv_lem : (o : Option ReportOptions) → (dirs_or_default o).csv ≡ csv_or_true o
unfolding dirs_or_default
csv_lem none = refl
csv_lem (some o) = refl

pub port_lem : (p : Option Prometheus) → default_port p ≡ port_or_2112 p
unfolding port_or_2112
port_lem none = refl
port_lem (some p) = refl
