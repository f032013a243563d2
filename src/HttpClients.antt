-- ===== src/HttpClients.antt =====
-- The constructors of default_http_client.go and fasthttp_client.go, and the clients of a runner and of the
-- attackers of examples/attackers. `http.DefaultTransport` is one value, which every call changes; a cookie
-- jar is what `cookiejar.New` of net/http/cookiejar gives.
use mathlib.Core.Path.{subst}
use loaderbot.Prelude.{
  ℕ, zero, suc, ◌≡◌, refl, Bool, true, false, List, [], ◌∷◌, ◌++◌, All, All-append, if◌then◌else◌,
}
use loaderbot.Prelude.Int.{ℤ, pos, wrap64, ◌*ℤ◌}
use loaderbot.Config.{RunnerConfig}

-- `time.Duration(n) * time.Second`
unfoldable pub seconds : ℤ → ℤ
seconds n = wrap64 (n *ℤ pos 1_000_000_000)

-- The fields of `http.Transport` that the code sets.
pub record Transport : Type 0 where
  pub max_conns_per_host : ℕ
  pub max_idle_conns : ℕ
  pub max_idle_conns_per_host : ℕ
  pub disable_compression : Bool
  pub response_header_timeout : ℤ

-- `http.DefaultTransport`, a transport of its own, or a `DumpTransport` around one.
pub data RoundTripper : Type 0 where
  default_transport : RoundTripper
  own_transport : Transport → RoundTripper
  dump_transport : RoundTripper → RoundTripper

pub record HttpClient (J : Type 0) : Type 0 where
  pub transport : RoundTripper
  pub timeout : ℤ
  pub jar : J

pub record FastHttpClient : Type 0 where
  pub dump : Bool
  pub max_conns_per_host : ℕ
  pub max_idle_conn_duration : ℤ
  pub max_idemponent_call_attempts : ℕ

-- The transport after the assignments.
unfoldable pub set_transport : ℤ → Transport → Transport
set_transport transport_timeout tr = record tr {
  max_conns_per_host = 65535;
  max_idle_conns = 65535;
  max_idle_conns_per_host = 65535;
  disable_compression = true;
  response_header_timeout = seconds transport_timeout;
}

unfoldable pub new_logging_http_client :
    {J : Type 0} → J → Bool → ℤ → Transport → HttpClient J × Transport
new_logging_http_client jar debug transport_timeout tr = (
  record {
    transport = if debug then dump_transport default_transport else default_transport;
    timeout = seconds transport_timeout;
    jar = jar;
  },
  set_transport transport_timeout tr,
)

unfoldable pub new_logging_fast_http_client : Bool → FastHttpClient
new_logging_fast_http_client debug = record {
  dump = debug;
  max_conns_per_host = 65535;
  max_idle_conn_duration = seconds (pos 90);
  max_idemponent_call_attempts = 0;
}

-- How long requests wait for headers when the default transport is `tr`.
abbrev pub header_timeout : Transport → RoundTripper → ℤ
header_timeout tr default_transport = tr.response_header_timeout
header_timeout tr (own_transport own) = own.response_header_timeout
header_timeout tr (dump_transport t) = header_timeout tr t

-- The client waits for headers as long as this, when the default transport is `tr`.
abbrev pub Waits : {J : Type 0} → Transport → ℤ → HttpClient J → Type 0
Waits tr t client = header_timeout tr client.transport ≡ t

new_client-Waits :
    {J : Type 0} (last : Transport) (jar : J) (debug : Bool) (t : ℤ) (tr : Transport)
    → Waits last last.response_header_timeout (new_logging_http_client jar debug t tr).0
unfolding new_logging_http_client
new_client-Waits last jar true t tr = refl
new_client-Waits last jar false t tr = refl

-- The http clients of a runner.
abbrev pub all_clients :
    {J : Type 0} → HttpClient J × FastHttpClient × List (HttpClient J) → List (HttpClient J)
all_clients (client, fast, clients) = client ∷ clients

module _ {J F : Type 0} (jar : J) where
  -- `Setup` of AttackerExample and of DataAttackerExample.
  unfoldable pub example_setup : RunnerConfig F → Transport → HttpClient J × Transport
  example_setup c tr = new_logging_http_client jar c.dump_transport (pos 10) tr

  -- `Setup` of n clones, one after the other.
  unfoldable pub example_setups : RunnerConfig F → ℕ → Transport → List (HttpClient J) × Transport
  example_setups c zero tr = ([], tr)
  example_setups c (suc n) tr =
      let (client, tr1) = example_setup c tr in
      let (clients, tr2) = example_setups c n tr1 in (client ∷ clients, tr2)

  -- The clients that `NewRunner` makes with n such attackers: the runner's own, the runner's fast one, and
  -- those of the attackers.
  unfoldable pub runner_clients :
      RunnerConfig F
      → ℕ
      → Transport
      → (HttpClient J × FastHttpClient × List (HttpClient J)) × Transport
  runner_clients c n tr =
      let (client, tr1) = new_logging_http_client jar c.dump_transport c.attacker_timeout tr in
      let (clients, tr2) = example_setups c n tr1 in
      ((client, new_logging_fast_http_client c.dump_transport, clients), tr2)

  -- The timeout for response headers that n such attackers leave behind.
  abbrev pub left_timeout : RunnerConfig F → ℕ → ℤ
  left_timeout c zero = seconds c.attacker_timeout
  left_timeout c (suc n) = pos 10_000_000_000

  example_setups-Waits :
      (last : Transport) (c : RunnerConfig F) (n : ℕ) (tr : Transport)
      → All (Waits last last.response_header_timeout) (example_setups c n tr).0
  unfolding example_setups example_setup
  example_setups-Waits last c zero tr = tt
  example_setups-Waits last c (suc n) tr = (
    new_client-Waits last jar c.dump_transport (pos 10) tr,
    example_setups-Waits last c n (new_logging_http_client jar c.dump_transport (pos 10) tr).1,
  )

  setups_timeout :
      (c : RunnerConfig F) (n : ℕ) (tr : Transport)
      → tr.response_header_timeout ≡ pos 10_000_000_000
      → (example_setups c n tr).1.response_header_timeout ≡ pos 10_000_000_000
  unfolding example_setups example_setup new_logging_http_client set_transport seconds wrap64 ◌*ℤ◌
  setups_timeout c zero tr h = h
  setups_timeout c (suc n) tr h = setups_timeout c n (set_transport (pos 10) tr) refl

  runner_clients_timeout :
      (c : RunnerConfig F) (n : ℕ) (tr : Transport)
      → (runner_clients c n tr).1.response_header_timeout ≡ left_timeout c n
  unfolding runner_clients example_setups example_setup new_logging_http_client set_transport
      seconds wrap64 ◌*ℤ◌
  runner_clients_timeout c zero tr = refl
  runner_clients_timeout c (suc n) tr =
      setups_timeout c n (set_transport (pos 10) (set_transport c.attacker_timeout tr)) refl

  runner_clients-Waits :
      (last : Transport) (c : RunnerConfig F) (n : ℕ) (tr : Transport)
      → All (Waits last last.response_header_timeout) (all_clients (runner_clients c n tr).0)
  unfolding runner_clients
  runner_clients-Waits last c n tr = (
    new_client-Waits last jar c.dump_transport c.attacker_timeout tr,
    example_setups-Waits last c n
        (new_logging_http_client jar c.dump_transport c.attacker_timeout tr).1,
  )

  -- Two runners in one process, the first with n and the second with k attackers of the examples, on any
  -- transport at the start. Once the second is made, every http client of both runners, with or without
  -- the transport that dumps, waits for headers as long as the second runner's configuration says, or 10
  -- seconds if the second has attackers, whatever the configuration of the first.
  pub last_runner_sets_timeout :
      (a b : RunnerConfig F) (n k : ℕ) (tr : Transport)
      → let first = runner_clients a n tr in
        let second = runner_clients b k first.1 in
        All (Waits second.1 (left_timeout b k)) (all_clients first.0 ++ all_clients second.0)
  last_runner_sets_timeout a b n k tr =
      let first = runner_clients a n tr in
      let second = runner_clients b k first.1 in
      subst (λ t. All (Waits second.1 t) (all_clients first.0 ++ all_clients second.0))
        (runner_clients_timeout b k first.1)
        (All-append (Waits second.1 second.1.response_header_timeout) (all_clients first.0) _
          (runner_clients-Waits second.1 a n tr) (runner_clients-Waits second.1 b k first.1))
