-- ===== src/Config.antt =====
-- config.go: the runner's configuration, its checks and its defaults.
-- `Metadata` is carried along by the program and read by user code alone; it is left out.
pub mod Defaults
pub mod Laws
use loaderbot.Prelude.{
  ◌≡◌, Bool, true, false, ◌&&◌, String, Option, none, some, List, [], ◌∷◌, ◌++◌, ◌==◌, str_eq,
  if◌then◌else◌, ℕ,
}
use loaderbot.Prelude.Int.{ℤ, pos, negsuc, eqb_ℤ, leb_ℤ, ltb_ℤ}
use loaderbot.Float.{Float64, lit, ◌==f◌}
use loaderbot.Outcome.{Outcome, returned, exited}

-- `type SystemMode int`, with the constants below.
abbrev pub SystemMode : Type 0
SystemMode = ℤ

abbrev pub bound_rps : SystemMode
bound_rps = pos 0

abbrev pub unbound_rps : SystemMode
unbound_rps = pos 1

abbrev pub bound_rps_autoscale : SystemMode
bound_rps_autoscale = pos 2

pub record Prometheus : Type 0 where
  pub enable : Bool
  pub port : ℤ

pub record ClusterOptions : Type 0 where
  pub nodes : List String

pub record ReportOptions : Type 0 where
  pub html_dir : String
  pub csv_dir : String
  pub csv : Bool
  pub png : Bool
  pub stream : Bool

-- A pointer that may be nil is an `Option`.
pub record RunnerConfig (F : Type 0) : Type 0 where
  pub target_url : String
  pub name : String
  pub instance_type : String
  pub system_mode : SystemMode
  pub attackers : ℤ
  pub attackers_scale_amount : ℤ
  pub attackers_scale_threshold : F
  pub attacker_timeout : ℤ
  pub start_rps : ℤ
  pub step_duration_sec : ℤ
  pub step_rps : ℤ
  pub test_time_sec : ℤ
  pub wait_before_sec : ℤ
  pub dump_transport : Bool
  pub goroutines_dump : Bool
  pub success_ratio : F
  pub log_level : String
  pub log_encoding : String
  pub report_options : Option ReportOptions
  pub cluster_options : Option ClusterOptions
  pub prometheus : Option Prometheus

abbrev pub is_mode : {F : Type 0} → SystemMode → RunnerConfig F → Bool
is_mode m c = eqb_ℤ c.system_mode m

-- One `if` of `validate`, with its message.
abbrev pub complain : Bool → String → List String
complain true message = message ∷ []
complain false message = []

unfoldable pub validate : {F : Type 0} → RunnerConfig F → List String
validate c =
    complain (str_eq c.name "") "please set runner name"
    ++ complain (leb_ℤ c.attackers (pos 0) && is_mode bound_rps c) "please set attackers > 0"
    ++ complain (leb_ℤ c.attacker_timeout (pos 0)) "please set attacker timeout > 0, seconds"
    ++ complain (ltb_ℤ c.step_duration_sec (pos 0)) "please set step duration > 0, seconds"
    ++ complain (is_mode bound_rps c && ltb_ℤ c.step_rps (pos 0)) "please set step rps > 0"
    ++ complain (leb_ℤ c.test_time_sec (pos 0)) "please set test time rps > 0, seconds"

-- `Validate`: with any complaint the process ends.
abbrev exit_on : List String → Outcome (Unit {0})
exit_on [] = returned tt
exit_on (_ ∷ _) = exited 1

unfoldable pub validate_or_exit : {F : Type 0} → RunnerConfig F → Outcome (Unit {0})
unfolding validate
validate_or_exit c = exit_on (validate c)

-- The stanzas of `DefaultCfgValues`, in order.
unfoldable pub default_start_rps : {F : Type 0} → RunnerConfig F → RunnerConfig F
default_start_rps c =
    if is_mode bound_rps c && eqb_ℤ c.start_rps (pos 0) then record c { start_rps = pos 10 } else c

unfoldable pub default_step : {F : Type 0} → RunnerConfig F → RunnerConfig F
default_step c =
    if is_mode bound_rps c && eqb_ℤ c.step_rps (pos 0)
    then record c { step_duration_sec = pos 10 }
    else c

abbrev or_text : String → String → String
or_text s fallback = if str_eq s "" then fallback else s

unfoldable pub default_log : {F : Type 0} → RunnerConfig F → RunnerConfig F
default_log c = record c {
  log_level = or_text c.log_level "info";
  log_encoding = or_text c.log_encoding "console";
}

abbrev pub default_options : ReportOptions
default_options = record {
  html_dir = "results_html";
  csv_dir = "results_csv";
  csv = true;
  png = true;
  stream = false;
}

abbrev or_options : Option ReportOptions → ReportOptions
or_options none = default_options
or_options (some o) = o

abbrev default_dirs : ReportOptions → ReportOptions
default_dirs o = record o {
  csv_dir = or_text o.csv_dir "results_csv";
  html_dir = or_text o.html_dir "results_html";
}

unfoldable pub default_report : {F : Type 0} → RunnerConfig F → RunnerConfig F
default_report c = record c { report_options = some (default_dirs (or_options c.report_options)) }

abbrev default_port : Option Prometheus → Option Prometheus
default_port none = none
default_port (some p) = some (record p { port = if eqb_ℤ p.port (pos 0) then pos 2112 else p.port })

unfoldable pub default_prometheus : {F : Type 0} → RunnerConfig F → RunnerConfig F
default_prometheus c = record c { prometheus = default_port c.prometheus }

unfoldable pub default_scale : {F : Type 0} ⦃fl : Float64 F⦄ → RunnerConfig F → RunnerConfig F
default_scale c =
    if is_mode bound_rps_autoscale c
    then record c {
      attackers_scale_amount =
          if eqb_ℤ c.attackers_scale_amount (pos 0) then pos 100 else c.attackers_scale_amount;
      attackers_scale_threshold =
          if c.attackers_scale_threshold ==f lit 0 0 then lit 9 1 else c.attackers_scale_threshold;
    }
    else c

unfoldable pub default_cfg_values : {F : Type 0} ⦃fl : Float64 F⦄ → RunnerConfig F → RunnerConfig F
default_cfg_values c =
    default_scale
      (default_prometheus (default_report (default_log (default_step (default_start_rps c)))))
