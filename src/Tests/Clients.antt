-- ===== src/Tests/Clients.antt =====
-- Two runners in one process, with different timeouts.
use loaderbot.Prelude.{◌++◌, All, ℕ, false}
use loaderbot.Prelude.Int.{pos}
use loaderbot.Float.{Thousandths}
use loaderbot.Config.{RunnerConfig}
use loaderbot.HttpClients.{
  Transport, runner_clients, left_timeout, Waits, all_clients, last_runner_sets_timeout,
}
use loaderbot.Tests.{ramp}

abbrev slow : RunnerConfig Thousandths
slow = record ramp { attacker_timeout = pos 60 }

abbrev at_start : Transport
at_start = record {
  max_conns_per_host = 0;
  max_idle_conns = 100;
  max_idle_conns_per_host = 0;
  disable_compression = false;
  response_header_timeout = pos 0;
}

last_runner_sets_timeout_example :
    let first = runner_clients {J = ℕ} 7 slow 1 at_start in
    let second = runner_clients {J = ℕ} 7 ramp 2 first.1 in
    All
      (Waits second.1 (left_timeout {J = ℕ} 7 ramp 2))
      (all_clients first.0 ++ all_clients second.0)
last_runner_sets_timeout_example = last_runner_sets_timeout 7 slow ramp 1 2 at_start
