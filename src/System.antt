-- ===== src/System.antt =====
-- One run as a whole (runner.go, attack.go, utils.go): the goroutines of Lifecycle with the tokens and the
-- results of Flow, where the scheduler is that of Schedule and the collector that of Collect, which may
-- cancel the test and start attackers. A panic of the scheduler ends the process. `OutResults` has room,
-- the collector does not panic, all attackers set up, and `Do` and `Teardown` return.
pub mod Effects
pub mod Skeleton
pub mod Progress
pub mod History
pub mod Traffic
pub mod Stops
pub mod Nodes
pub mod Rates
pub mod Returned
use loaderbot.Prelude.{
  ℕ, ◌+◌, ◌-◌, ◌<◌, ◌≡◌, Bool, true, false, ◌||◌, Option, none, some, List, [], ◌∷◌, ◌++◌, length,
  ltb, replicate,
}
use loaderbot.Prelude.Int.{ℤ}
use loaderbot.Float.{Float64}
use loaderbot.Config.{RunnerConfig, ReportOptions}
use loaderbot.Metrics.{Quantile}
use loaderbot.Outcome.{returned}
use loaderbot.Result.{AttackToken, DoResult, AttackResult}
use loaderbot.Schedule.{Limiters, Schedule, token, start, advance}
use loaderbot.Collect.{Collector, Effect, collect_one}
use loaderbot.Collect.Books.{cancels, starts}
use loaderbot.Lifecycle.{
  Main, before_handler, before_schedule, before_collect, awaiting, joining, reporting, Scheduler,
  unscheduled, polling, pacing, closed, Collecting, uncollected, selecting, collected, Handler,
  unwatched, watching, left, results_capacity,
}
use loaderbot.Lifecycle
use loaderbot.Flow.{Hand, waiting, gone, working, sending, answered, unanswered}

pub record System (L F E : Type 0) : Type 0 where
  -- `r.TimeoutCtx` is done; the process has ended, by `os.Exit` or a panic.
  pub is_over : Bool
  pub killed : Bool
  pub main : Main
  -- Where the scheduler stands, and its variables.
  pub scheduler : Scheduler
  pub schedule : Schedule L
  pub crew : List Hand
  -- Where the collector stands, and the runner's fields that it works on.
  pub collector : Collecting
  pub books : Collector F E
  pub handler : Handler
  -- The counter of `r.wg`, the channel `r.results`, and which channels are closed.
  pub wg : ℕ
  pub queue : List AttackResult
  pub next_closed : Bool
  pub out_closed : Bool
  -- What has happened: the timeout, the end of the server's context or a signal; the tokens sent on
  -- `next`, those that attackers gave up, the results received, and what the collector did with them.
  pub expired : Bool
  pub fired : List AttackToken
  pub dropped : List AttackToken
  pub received : List AttackResult
  pub effects : List (Effect F E)

module _ {L F E : Type 0} (new_limiter : Limiters L) (cfg : RunnerConfig F) where
  -- After the loop of `Run` that starts the attackers. `books` is what `NewRunner` has left.
  unfoldable pub opening : Collector F E → ℕ → System L F E
  opening books attackers = record {
    is_over = false;
    killed = false;
    main = before_handler;
    scheduler = unscheduled;
    schedule = start new_limiter cfg attackers;
    crew = replicate attackers waiting;
    collector = uncollected;
    books = books;
    handler = unwatched;
    wg = 0;
    queue = [];
    next_closed = false;
    out_closed = false;
    expired = false;
    fired = [];
    dropped = [];
    received = [];
    effects = [];
  }

module _ {L F E : Type 0} ⦃fl : Float64 F⦄ ⦃q : Quantile F E⦄ (new_limiter : Limiters L)
    (cfg : RunnerConfig F) (opts : ReportOptions) (setup : ℕ → Bool) where
  pub data Move (s : System L F E) : System L F E → Type 0 where
    expire : s.is_over ≡ false → Move s (record s { is_over = true; expired = true })
    -- `Run`
    start_handler :
        s.main ≡ before_handler
        → Move s (record s { main = before_schedule; handler = watching; wg = s.wg + 1 })
    start_schedule :
        s.main ≡ before_schedule → Move s (record s { main = before_collect; scheduler = polling })
    start_collect :
        s.main ≡ before_collect
        → Move s (record s { main = awaiting; collector = selecting; wg = s.wg + 1 })
    await : s.main ≡ awaiting → s.is_over ≡ true → Move s (record s { main = joining })
    join : s.main ≡ joining → s.wg ≡ 0 → Move s (record s { main = reporting })
    report : s.main ≡ reporting → Move s (record s { main = Lifecycle.returned })
    -- `handleShutdownSignal`
    leave :
        s.handler ≡ watching
        → s.is_over ≡ true
        → Move s (record s { handler = left; wg = s.wg - 1 })
    signal :
        s.handler ≡ watching → Move s (record s { is_over = true; expired = true; killed = true })
    -- `schedule`
    stop :
        s.scheduler ≡ polling
        → s.is_over ≡ true
        → Move s (record s { scheduler = closed; next_closed = true })
    pace : s.scheduler ≡ polling → s.is_over ≡ false → Move s (record s { scheduler = pacing })
    hand :
        (xs ys : List Hand) (now : ℕ) (next : Schedule L)
        → s.scheduler ≡ pacing
        → s.crew ≡ xs ++ waiting ∷ ys
        → advance new_limiter cfg.step_rps s.schedule ≡ some next
        → Move s (record s {
          scheduler = polling;
          schedule = next;
          fired = s.fired ++ token s.schedule ∷ [];
          crew = xs ++ working (token s.schedule) now ∷ ys;
        })
    skip : s.scheduler ≡ pacing → Move s (record s { scheduler = polling })
    -- The token is handed over, and the scheduler panics, which ends the process.
    crash :
        (xs ys : List Hand)
        → s.scheduler ≡ pacing
        → s.crew ≡ xs ++ waiting ∷ ys
        → advance new_limiter cfg.step_rps s.schedule ≡ none
        → Move s (record s { killed = true })
    -- `attack`
    finish :
        (xs ys : List Hand)
        → s.crew ≡ xs ++ waiting ∷ ys
        → s.next_closed ≡ true
        → Move s (record s { crew = xs ++ gone ∷ ys })
    abandon :
        (xs ys : List Hand) (tok : AttackToken) (t_start : ℕ)
        → s.crew ≡ xs ++ working tok t_start ∷ ys
        → s.is_over ≡ true
        → Move s (record s { crew = xs ++ gone ∷ ys; dropped = s.dropped ++ tok ∷ [] })
    answer :
        (xs ys : List Hand) (tok : AttackToken) (t_start t_end : ℕ) (d : DoResult)
        → s.crew ≡ xs ++ working tok t_start ∷ ys
        → Move s (record s { crew = xs ++ sending (answered tok t_start t_end d) ∷ ys })
    time_out :
        (xs ys : List Hand) (tok : AttackToken) (t_start t_end : ℕ)
        → s.crew ≡ xs ++ working tok t_start ∷ ys
        → Move s (record s { crew = xs ++ sending (unanswered cfg.name tok t_start t_end) ∷ ys })
    send :
        (xs ys : List Hand) (r : AttackResult)
        → s.crew ≡ xs ++ sending r ∷ ys
        → length s.queue < results_capacity
        → Move s (record s { crew = xs ++ waiting ∷ ys; queue = s.queue ++ r ∷ [] })
    -- `collectResults`: the end, and a result.
    end_collect :
        s.collector ≡ selecting
        → s.is_over ≡ true
        → Move s (record s { collector = collected; out_closed = true; wg = s.wg - 1 })
    take_result :
        (r : AttackResult) (rest : List AttackResult) (books : Collector F E)
        (es : List (Effect F E))
        → s.collector ≡ selecting
        → s.queue ≡ r ∷ rest
        → collect_one cfg opts setup r s.books ≡ returned (books, es)
        → Move s (record s {
          queue = rest;
          books = books;
          received = s.received ++ r ∷ [];
          effects = s.effects ++ es;
          crew = s.crew ++ replicate (starts es) waiting;
          is_over = s.is_over || ltb 0 (cancels es);
        })

  -- A process that has exited does nothing.
  pub data Step (s u : System L F E) : Type 0 where
    alive : s.killed ≡ false → Move s u → Step s u

  pub data Reach (s : System L F E) : System L F E → Type 0 where
    here : Reach s s
    later : {u v : System L F E} → Reach s u → Step u v → Reach s v

  -- The number of steps of a run.
  abbrev pub steps : {s u : System L F E} → Reach s u → ℕ
  steps here = 0
  steps (later r _) = steps r + 1
