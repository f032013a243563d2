-- ===== src/Prometheus.antt =====
-- prometheus_metrics.go: the gauges of a runner, and their registration, whose errors are dropped. The
-- registry of github.com/prometheus/client_golang is a parameter.
pub mod Twice
use loaderbot.Prelude.{
  ℕ, ◌≡◌, Bool, ◌&&◌, String, Option, none, some, List, [], ◌∷◌, map, str_eq, if◌then◌else◌,
}

-- A gauge, with the number of the reporter that it belongs to: two gauges with the same name and label
-- are still two objects.
pub record Gauge : Type 0 where
  pub name : String
  pub help : String
  pub runner_name : String
  pub reporter : ℕ

-- `register` is `prometheus.Register`, with the registry that it leaves, whatever it returns; `exported`
-- is the gauge whose value is served under a name and a label.
pub record Registry (R : Type 0) : Type 0 where
  pub register : Gauge → R → R
  pub exported : String → String → R → Option Gauge

abbrev pub is_free : Option Gauge → Bool
is_free none = Bool.true
is_free (some _) = Bool.false

-- A collector is registered, unless one with the same name and labels is there already.
pub record IsFirstWins {R : Type 0} (reg : Registry R) : Type 0 where
  pub registered :
      (g : Gauge) (n l : String) (r : R)
      → reg.exported n l (reg.register g r) ≡ (
          if is_free (reg.exported n l r) && (str_eq g.name n && str_eq g.runner_name l)
          then some g
          else reg.exported n l r)

-- The names and the help texts, in the order of registration.
abbrev pub gauges : List (String × String)
gauges =
    ("loaderbot_tick_success_ratio", "Success requests ratio")
    ∷ ("loaderbot_tick_p50", "Response time 50 Percentile")
    ∷ ("loaderbot_tick_p95", "Response time 95 Percentile")
    ∷ ("loaderbot_tick_p99", "Response time 99 Percentile")
    ∷ ("loaderbot_tick_max", "Response time MAX")
    ∷ ("loaderbot_tick_rps", "Requests per second rate")
    ∷ []

abbrev pub new_gauge : String → ℕ → String × String → Gauge
new_gauge label reporter (name, help) = record {
  name = name;
  help = help;
  runner_name = label;
  reporter = reporter;
}

module _ {R : Type 0} (reg : Registry R) where
  abbrev pub register_all : List Gauge → R → R
  register_all [] r = r
  register_all (g ∷ gs) r = register_all gs (reg.register g r)

  -- `NewPromReporter(label)`, the reporter of this number: the gauges that it sets, and the registry.
  unfoldable pub new_prom_reporter : String → ℕ → R → List Gauge × R
  new_prom_reporter label reporter r =
      let own = map (new_gauge label reporter) gauges in (own, register_all own r)
