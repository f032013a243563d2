-- ===== src/Tests/Nodes.antt =====
-- Configurations, a cluster of two nodes, and the server of a node.
use loaderbot.Prelude.{
  ℕ, ◌+◌, ◌*◌, ◌/◌, ◌<◌, ◌≤◌, ◌≡◌, ◌↔◌, refl, Bool, true, false, String, Option, none, some, List,
  [], ◌∷◌, arith, length, select,
}
use loaderbot.Prelude.Int.{pos, wrap64, add64, ◌+ℤ◌}
use loaderbot.Float.{Thousandths, thousandths}
use loaderbot.Config.{
  RunnerConfig, bound_rps, validate, default_cfg_values, default_start_rps, default_step,
  default_log, default_report, default_prometheus, default_scale,
}
use loaderbot.Config.Laws.{IsRunnable, validate_iff}
use loaderbot.Logging.{setup_logger, new_logger}
use loaderbot.Schedule.{
  Poll, accepted, schedule, start, advance, next_tick, next_step, divides, prepend,
}
use loaderbot.Schedule.Tokens.{tokens}
use loaderbot.Schedule.LeftBehind.{has_tick}
use loaderbot.Cluster.Growth.{share_of, small_step_stays}
use loaderbot.Tests.Runs.{same}
use loaderbot.Cluster.Start.{Gob, node_runner, CanStart, node_at, node_starts, small_rate_grows}
use loaderbot.Prelude.Maps.{lookup}
use loaderbot.Registry.{attacker_from_string}
use loaderbot.Runner.{new_runner}
use loaderbot.Runner.Outcomes.{new_runner-eq, with_complaints}
use loaderbot.Cluster.Connect.{new_cluster_client, any_busy, cluster_skips_defaults}
use loaderbot.Outcome.{exited, returned, panicked, nil_dereference}
use loaderbot.Cluster.{ClusterClient, Event, batch, idle, Copier, config_to_nodes, collect_results}
use loaderbot.Cluster.Split.{IsSplittable, node, config_to_nodes-shares, few_attackers_exit}
use loaderbot.Cluster.Aggregate.{EndsCounted, collect_results-Counts}
use loaderbot.Service.{
  Call, arrived, admitted, marked, Server, fresh_server, status, run_step, is_busy, set_busy, Reach,
  here, next, Step, move, arrive,
}
use loaderbot.Service.Busy.{active, busy_means_active, all_pass_together}
use loaderbot.Tests.{last_value, config, ramp, streaming, two_nodes, tok, answer, result}

validate_iff_example : (validate ramp ≡ []) ↔ IsRunnable ramp
validate_iff_example = validate_iff ramp

ramp_valid : validate ramp ≡ []
unfolding validate
ramp_valid = refl

abbrev all_ready : RunnerConfig Thousandths → ℕ → Bool
all_ready c i = true

-- A logger is the text that it is made of.
abbrev any_text : String → Option String
any_text text = some text

abbrev copy : Copier Thousandths
copy c = some c

-- Five attackers, seven requests per second and three more each step, on two nodes.
abbrev wide : RunnerConfig Thousandths
wide = config bound_rps (pos 5) (pos 7) (pos 2) (pos 3)

wide-IsSplittable : IsSplittable copy wide streaming two_nodes 5 7 3
wide-IsSplittable = record {
  copied = refl;
  options = refl;
  cluster = refl;
  attackers = refl;
  start = refl;
  step = refl;
  some_node = omega arith;
}

config_to_nodes-shares_example :
    (config_to_nodes copy wide ≡ returned (node copy wide streaming two_nodes 5 7 3))
    × (2 * (5 / 2) ≤ 5)
    × (5 < 2 * (5 / 2) + 2)
    × (2 * (7 / 2) ≤ 7)
    × (7 < 2 * (7 / 2) + 2)
    × (2 * (3 / 2) ≤ 3)
    × (3 < 2 * (3 / 2) + 2)
config_to_nodes-shares_example =
    config_to_nodes-shares copy wide streaming two_nodes 5 7 3 wide-IsSplittable

-- A codec whose bytes are the configurations themselves.
abbrev as_it_is : Gob Thousandths (RunnerConfig Thousandths)
as_it_is = record { encode = λ c. some c; decode = λ c. some c }

wide_valid : validate wide ≡ []
unfolding validate
wide_valid = refl

abbrev attackers_of_node : List (String × (RunnerConfig Thousandths → ℕ → Bool))
attackers_of_node = ("http", all_ready) ∷ []

wide-CanStart :
    CanStart as_it_is any_text same attackers_of_node all_ready copy wide streaming two_nodes 5 7 3
      (pos 3)
unfolding attacker_from_string lookup
wide-CanStart = record {
  split = wide-IsSplittable;
  valid = wide_valid;
  attacked = omega arith;
  bytes = _;
  encoded = refl;
  decoded = refl;
  registered = refl;
  limited = refl;
  logger = _;
  logged = refl;
  ready = λ i. refl;
}

node_starts_example :
    (node_runner as_it_is same attackers_of_node false any_text copy wide
      ≡ returned (
          some (
            node_at as_it_is any_text same attackers_of_node all_ready copy wide streaming two_nodes
              5 7 3
              (pos 3))))
    × (node_runner as_it_is same attackers_of_node true any_text copy wide ≡ returned none)
node_starts_example =
    node_starts as_it_is any_text same attackers_of_node all_ready copy wide streaming two_nodes 5 7
      3 (omega arith) wide-CanStart

-- A step of one request per second, on two nodes.
abbrev gentle : RunnerConfig Thousandths
gentle = config bound_rps (pos 5) (pos 7) (pos 30) (pos 1)

gentle-IsSplittable : IsSplittable copy gentle streaming two_nodes 5 7 1
gentle-IsSplittable = record {
  copied = refl;
  options = refl;
  cluster = refl;
  attackers = refl;
  start = refl;
  step = refl;
  some_node = omega arith;
}

abbrev three_taken : List Poll
three_taken = accepted ∷ accepted ∷ accepted ∷ []

past_tick_1 :
    let m = share_of same copy gentle streaming two_nodes 5 7 1 in
    1 < (schedule same m.step_rps (start same m 2) three_taken).last.current_tick
unfolding schedule start advance next_tick next_step divides prepend add64 wrap64 ◌+ℤ◌
    default_cfg_values default_start_rps default_step default_log default_report default_prometheus
    default_scale
past_tick_1 = omega arith

small_step_stays_example :
    let m = share_of same copy gentle streaming two_nodes 5 7 1 in
    (config_to_nodes copy gentle ≡ returned (node copy gentle streaming two_nodes 5 7 1))
    × (m.step_duration_sec ≡ pos 10)
    × (length (
          select
            (has_tick 1)
            (tokens (schedule same m.step_rps (start same m 2) three_taken).signals))
        ≡ 7 / 2)
small_step_stays_example =
    small_step_stays same copy gentle streaming two_nodes 5 7 1 2 three_taken 1 gentle-IsSplittable
      refl (omega arith) (omega arith) (omega arith) (omega arith) past_tick_1

-- One attacker and one request per second, on two nodes.
abbrev narrow : RunnerConfig Thousandths
narrow = config bound_rps (pos 1) (pos 1) (pos 2) (pos 2)

narrow-IsSplittable : IsSplittable copy narrow streaming two_nodes 1 1 2
narrow-IsSplittable = record {
  copied = refl;
  options = refl;
  cluster = refl;
  attackers = refl;
  start = refl;
  step = refl;
  some_node = omega arith;
}

-- Five attackers and one request per second, on two nodes.
abbrev slow_start : RunnerConfig Thousandths
slow_start = config bound_rps (pos 5) (pos 1) (pos 2) (pos 2)

slow_start_valid : validate slow_start ≡ []
unfolding validate
slow_start_valid = refl

slow_start-IsSplittable : IsSplittable copy slow_start streaming two_nodes 5 1 2
slow_start-IsSplittable = record {
  copied = refl;
  options = refl;
  cluster = refl;
  attackers = refl;
  start = refl;
  step = refl;
  some_node = omega arith;
}

slow_start-CanStart :
    CanStart as_it_is any_text same attackers_of_node all_ready copy slow_start streaming two_nodes
      5 1 2
      (pos 10)
unfolding attacker_from_string lookup
slow_start-CanStart = record {
  split = slow_start-IsSplittable;
  valid = slow_start_valid;
  attacked = omega arith;
  bytes = _;
  encoded = refl;
  decoded = refl;
  registered = refl;
  limited = refl;
  logger = _;
  logged = refl;
  ready = λ i. refl;
}

small_rate_grows_example :
    (node_runner as_it_is same attackers_of_node false any_text copy slow_start
      ≡ returned (
          some (
            node_at as_it_is any_text same attackers_of_node all_ready copy slow_start streaming
              two_nodes 5 1 2
              (pos 10))))
    × ((start same
          (default_cfg_values (node copy slow_start streaming two_nodes 5 1 2))
          (5 / 2)).target_rps
        ≡ pos 10)
    × ((start same
          (default_cfg_values (node copy slow_start streaming two_nodes 5 1 2))
          (5 / 2)).limiter
        ≡ some (pos 10))
small_rate_grows_example =
    small_rate_grows as_it_is any_text same attackers_of_node all_ready copy slow_start streaming
      two_nodes 5 1 2 refl (omega arith) slow_start-CanStart

few_attackers_exit_example :
    (config_to_nodes copy narrow ≡ returned (node copy narrow streaming two_nodes 1 1 2))
    × (new_runner same (some all_ready) any_text (node copy narrow streaming two_nodes 1 1 2)
        ≡ exited 1)
few_attackers_exit_example =
    few_attackers_exit copy narrow streaming two_nodes 1 1 2 any_text same (some all_ready)
      narrow-IsSplittable refl (omega arith)

new_runner-eq_example :
    new_runner same (some all_ready) any_text ramp
    ≡ with_complaints any_text same (some all_ready) ramp (validate ramp)
new_runner-eq_example = new_runner-eq any_text same (some all_ready) ramp

-- No options, and the texts that `NewClusterClient` logs by.
abbrev bare : RunnerConfig Thousandths
bare = record ramp { report_options = none }

abbrev answers : String → Option Bool
answers addr = some false

cluster_skips_defaults_example :
    (new_cluster_client answers {E = List Thousandths} any_text bare ≡ panicked nil_dereference)
    × (new_cluster_client answers {E = List Thousandths} any_text (default_cfg_values bare)
        ≡ returned
            (record { failed = any_busy answers two_nodes.nodes; cluster_tick_metrics = [] }, true))
unfolding new_logger setup_logger
cluster_skips_defaults_example =
    cluster_skips_defaults (List Thousandths) answers any_text bare two_nodes _ _ refl refl
      ((λ e. ground (arith, e)), ((λ e. ground (arith, e)), tt)) refl refl

abbrev pub new_client : ClusterClient Thousandths (List Thousandths)
new_client = record { failed = false; cluster_tick_metrics = [] }

abbrev from_nodes : List Event
from_nodes =
    batch (result (tok (pos 1) 1) 10 15 (answer "" (pos 200)) ∷ [])
    ∷ idle (pos 2)
    ∷ batch (result (tok (pos 1) 1) 11 16 (answer "" (pos 200)) ∷ [])
    ∷ idle (pos 0)
    ∷ []

collect_results-Counts_example :
    EndsCounted
      (λ i. true)
      (λ i. refl)
      (some 900)
      2
      true
      new_client
      (collect_results (λ i. true) (some 900) 2 true new_client from_nodes)
collect_results-Counts_example =
    collect_results-Counts (λ i. true) (λ i. refl) (some 900) 2 true new_client from_nodes tt

abbrev served : Bool → List Call → Server
served b cs = record { busy = b; runner_cancel_func = none; calls = cs }

first_arrives : Step fresh_server (served false (arrived ∷ []))
unfolding fresh_server
first_arrives = arrive refl

first_passes : Step (served false (arrived ∷ [])) (served false (admitted ∷ []))
unfolding run_step is_busy
first_passes = move [] [] arrived refl refl

first_marks : Step (served false (admitted ∷ [])) (served true (marked ∷ []))
unfolding run_step set_busy
first_marks = move [] [] admitted refl refl

serve_one : Reach fresh_server (served true (marked ∷ []))
serve_one = next (next (next here first_arrives) first_passes) first_marks

now_busy : status (served true (marked ∷ [])) ≡ true
unfolding status is_busy
now_busy = refl

busy_means_active_example : 0 < active (marked ∷ [])
busy_means_active_example = busy_means_active serve_one now_busy

all_pass_together_example : Reach (served false (arrived ∷ arrived ∷ [])) (record {
  busy = true;
  runner_cancel_func = some 1;
  calls = Call.streaming ∷ Call.streaming ∷ [];
})
all_pass_together_example = all_pass_together 1
