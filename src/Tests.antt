-- ===== src/Tests.antt =====
-- Data of the tests: a configuration, tokens, results, and an estimator of quantiles that answers with
-- the last value it was given.
pub mod Runs
pub mod Figures
pub mod Nodes
pub mod Files
pub mod Threads
pub mod Flows
pub mod Endings
pub mod Whole
pub mod Clients
pub mod Systems
use loaderbot.Prelude.{ℕ, String, Bool, true, false, Option, none, some, List, [], ◌∷◌}
use loaderbot.Prelude.Int.{ℤ, pos}
use loaderbot.Float.{Thousandths}
use loaderbot.Config.{RunnerConfig, ReportOptions, ClusterOptions, SystemMode, bound_rps}
use loaderbot.Result.{AttackToken, AttackResult, DoResult}
use loaderbot.Metrics.{Quantile}

abbrev last_or_zero : List Thousandths → Thousandths
last_or_zero [] = some 0
last_or_zero (x ∷ xs) = x

instance abbrev pub last_value : Quantile Thousandths (List Thousandths)
last_value = record { new = []; add = λ e x. x ∷ e; get = λ e x. last_or_zero e }

abbrev pub streaming : ReportOptions
streaming = record { html_dir = "html"; csv_dir = "csv"; csv = true; png = false; stream = true }

abbrev pub two_nodes : ClusterOptions
two_nodes = record { nodes = "a:50051" ∷ "b:50051" ∷ [] }

abbrev pub config : SystemMode → ℤ → ℤ → ℤ → ℤ → RunnerConfig Thousandths
config mode attackers rps duration step = record {
  target_url = "http://localhost";
  name = "test";
  instance_type = "http";
  system_mode = mode;
  attackers = attackers;
  attackers_scale_amount = pos 0;
  attackers_scale_threshold = some 0;
  attacker_timeout = pos 1;
  start_rps = rps;
  step_duration_sec = duration;
  step_rps = step;
  test_time_sec = pos 10;
  wait_before_sec = pos 0;
  dump_transport = false;
  goroutines_dump = false;
  success_ratio = some 900;
  log_level = "";
  log_encoding = "";
  report_options = some streaming;
  cluster_options = some two_nodes;
  prometheus = none;
}

-- Two requests in tick 1, three in tick 2.
abbrev pub ramp : RunnerConfig Thousandths
ramp = config bound_rps (pos 4) (pos 2) (pos 2) (pos 1)

abbrev pub tok : ℤ → ℕ → AttackToken
tok rps tick = record { target_rps = rps; step = 1; tick = tick }

abbrev pub answer : String → ℤ → DoResult
answer error code = record {
  request_label = "get";
  error = error;
  status_code = code;
  bytes_in = pos 10;
  bytes_out = pos 20;
}

abbrev pub result : AttackToken → ℕ → ℕ → DoResult → AttackResult
result t begin end d = record {
  attack_token = t;
  begin = begin;
  end = end;
  elapsed = pos 5;
  do_result = d;
}
