-- ===== src/Lib.antt =====
-- The core of loaderbot, a load generator: the life of a request from its token to its tick's report,
-- on one machine and over the nodes of a cluster.
--
-- The program. `NewRunner` validates a configuration and fills in its defaults (config.go). `Run` then
-- starts three kinds of goroutines that speak over channels. The scheduler (`schedule` of runner.go)
-- sends tokens on `next`, in the pace of a limiter, grouped in ticks and steps. Each attacker (`attack`
-- of attack.go) takes a token, performs a request, and sends a result on `results`. The collector
-- (`collectResults` of runner.go) groups the results by tick, and reports a tick once it has as many as
-- its rate: it computes figures (metrics.go), writes logs, streams the batch, may cancel the test, and
-- may add attackers. In a cluster a client (client.go) splits the configuration over the nodes, whose
-- servers (service.go) run a runner each and stream its batches back, and aggregates them by tick.
--
-- The files:
--   Prelude       shared names; lists, integers and Go's 64-bit `int`, Go maps, the running best
--   Float         the operations on `float64` that the program uses, as an interface
--   Outcome       how a call ends: it returns, exits the process, or panics; chains of calls (Laws)
--   Config        config.go: RunnerConfig, validate, Validate, DefaultCfgValues (Defaults); its laws
--   Result        result.go and `attackToken` of runner.go
--   Metrics       metrics.go: NewMetrics, add, update; counts, extremes, errors and status codes
--   Schedule      `schedule` of runner.go; Plan has the tokens that it is to send, Tokens those it sends,
--                 OnPlan, Advance and Rounds compare the loop with it, LeftBehind and Correct say what follows
--                 for ticks and for whole runs, and Crash is about a step of 0 seconds
--   Runner        `NewRunner` of runner.go, and what it comes to (Outcomes)
--   Lifecycle     `Run` of runner.go and `handleShutdownSignal` of utils.go, with the goroutines of a run
--                 as threads: their order (Order), and how runs end (Ends)
--   Attack        `attack` of attack.go, and errors.go
--   Collect       `collectResults`, `processTickMetrics` and `scaleAttackers` of runner.go; what
--                 becomes of the samples of each tick (Ticks), and the counters (Books, Counters)
--   Pipeline      the scheduler and the collector together
--   Flow          the same with the attackers between them, as threads that interleave: what becomes of
--                 the tokens (Kept), and the reports of ticks (Reported)
--   System        one run as a whole: the threads of Lifecycle, the tokens and results of Flow, the scheduler
--                 of Schedule and the collector of Collect (its cancellations and new attackers in Effects).
--                 Its views are Skeleton (a run of Lifecycle) and Traffic (one of Flow); Progress and Stops
--                 are about when it goes on, History about what it reports, Rates and Returned about the rate
--                 that `Run` returns, and Nodes about such runs as the nodes of a cluster, whose batches its
--                 client takes
--   Shared        SharedDataSlice of shared.go
--   Utils         MaxRPS of utils.go and `maxRPS` of runner.go
--   Registry      type_registry.go
--   Report        the rows of percentiles of report.go, what prometheus_metrics.go sets
--   Logging       the set-up of a logger of logging.go
--   Logs          the csv logs of report.go with their writers (Flushed), and the end of `Run` (Ended)
--   Prometheus    the registration of the gauges of prometheus_metrics.go; Twice has two reporters
--   Attackers     the attackers of the repository: http_attacker_mock.go, fasthttp_attacker_mock.go,
--                 control_attacker_mock.go, typed_attacker_mocks.go and examples/attackers
--   HttpClients   the constructors of default_http_client.go and fasthttp_client.go, and the clients that a
--                 runner makes with the attackers of examples/attackers
--   HttpDump      the transport of default_http_client.go that prints requests and responses, and the
--                 same of fasthttp_client.go
--   Charts        the parsers of graph_report.go; Percs and Scaling are about what they read; Slack has the
--                 charts of slack_report.go (their sorting in Sorted, the y axis in Top, the whole in Drawn)
--   Cluster       client.go: configToNodes (Split), the start of a node with its share (Start), the growth of
--                 its rate (Growth), NewClusterClient and CheckBusy (Connect), receive, collectResults
--                 (Logged, Aggregate), Run with the goroutines of the nodes (Gather; the batches in Whole and
--                 Arrived, the ticks in Once, and with the nodes' collectors in Nodes)
--   Service       service.go: TestPolicy, Status, Run, ShutdownNode; Stream has streamResults
--   Tests         the theorems at concrete inputs
--
-- The correspondence. A structure of the source is a record, a pointer that may be nil an Option, a Go
-- map an association list. What a `select` finds, and what other goroutines and the clock contribute,
-- is a list of events given from outside, so that a theorem for all lists is one for all interleavings;
-- what a goroutine does to the outside is a list of effects. Loops recur on the list of events, and no
-- fuel is needed; a list that ends before the loop returns stands for a run that still goes on. Calls
-- of a node's server are threads of a step relation, whose steps are the operations under the mutex. So
-- are the goroutines of a run, and those of a cluster's client, whose steps are the operations on channels.
--
-- Numbers. `int`, `int64`, `time.Duration` and `uint64` wrap at 64 bits where the program computes with
-- values of the user (rates, latencies) and in the counters of the figures of a tick (`Requests`, `success`,
-- `errorsCount`). Other counters that go up by one per event (steps, ticks, stored requests, indices) are
-- left unbounded. Instants count nanoseconds from the zero time.
--
-- Parameters of the model, code that is not in the repository: `float64` (Float64, with the order of
-- IEEE 754 as a hypothesis where it is needed), the limiters of go.uber.org/ratelimit, whose
-- `New` may panic at a rate, the estimator of
-- github.com/streadway/quantile, the copier of github.com/jinzhu/copier, the encoder and decoder of a
-- batch and of a configuration, the loggers that go.uber.org/zap makes of a text, the printer of
-- integers and the parser of floats, whether an attacker's `Setup` succeeds, whether a node answers `ShutdownNode`, the encoder and decoder
-- of csv rows, the texts of durations and code points, the registry of
-- github.com/prometheus/client_golang (a name and label that are taken stay with their gauge), and the
-- JSON codec of github.com/json-iterator/go.
--
-- Not modelled: what the http clients of the attackers do, apart from the dumps; a channel
-- `OutResults` that is full; the drawing of charts; the names of files and errors of the file system;
-- the output of logs, profiling, gRPC's generated code, the commands and the examples of use.
pub mod Prelude
pub mod Float
pub mod Outcome
pub mod Config
pub mod Result
pub mod Metrics
pub mod Schedule
pub mod Attack
pub mod Collect
pub mod Shared
pub mod Utils
pub mod Registry
pub mod Cluster
pub mod Service
pub mod Runner
pub mod Pipeline
pub mod Lifecycle
pub mod Flow
pub mod System
pub mod Attackers
pub mod Prometheus
pub mod HttpClients
pub mod HttpDump
pub mod Report
pub mod Logging
pub mod Logs
pub mod Charts
pub mod Tests
