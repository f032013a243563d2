-- ===== src/Lifecycle.antt =====
-- The goroutines of one run: `Run` (runner.go), with `schedule`,
-- `attack`, `collectResults` and `handleShutdownSignal` (utils.go) as threads that interleave in any way.
-- Kept are where each stands, the context, the wait group and the channels; what tokens and results hold
-- is the matter of Schedule, Attack and Collect. `OutResults`, which holds 100000 batches, is taken to
-- have room, no goroutine but the scheduler panics, and `Do`, `Setup` and `Teardown` of the attackers return.
pub mod Order
pub mod Ends
use loaderbot.Prelude.{
  ℕ, ◌+◌, ◌-◌, ◌≤◌, ◌<◌, ◌≡◌, Bool, true, false, List, [], ◌∷◌, ◌++◌, replicate,
}

-- `DefaultResultsQueueCapacity`
abbrev pub results_capacity : ℕ
results_capacity = 100_000

-- Where `Run` stands: before `handleShutdownSignal`, `schedule` and `collectResults`, at
-- `<-r.TimeoutCtx.Done()`, at `r.wg.Wait()`, at the reports, at its end.
pub data Main : Type 0 where
  before_handler before_schedule before_collect awaiting joining reporting returned : Main

-- The scheduler: not started, at the outer `select`, past its `default`, returned.
pub data Scheduler : Type 0 where
  unscheduled polling pacing closed : Scheduler

-- An attacker: at `range r.next`, at the `select` with a token, at `r.results <-`, returned.
pub data Attacker : Type 0 where
  waiting working sending gone : Attacker

-- The collector: not started, at its `select`, returned.
pub data Collecting : Type 0 where
  uncollected selecting collected : Collecting

-- The goroutine of `handleShutdownSignal`: not started, at its `select`, returned.
pub data Handler : Type 0 where
  unwatched watching left : Handler

pub record Life : Type 0 where
  -- `r.TimeoutCtx` is done; the process has ended, by `os.Exit` or a panic.
  pub done : Bool
  pub killed : Bool
  pub main : Main
  pub scheduler : Scheduler
  pub attackers : List Attacker
  pub collector : Collecting
  pub handler : Handler
  -- The counter of `r.wg`, the length of `r.results`, and which channels are closed.
  pub wg : ℕ
  pub queue : ℕ
  pub next_closed : Bool
  pub out_closed : Bool

-- After the loop that starts `n` attackers.
unfoldable pub launched : ℕ → Life
launched n = record {
  done = false;
  killed = false;
  main = before_handler;
  scheduler = unscheduled;
  attackers = replicate n waiting;
  collector = uncollected;
  handler = unwatched;
  wg = 0;
  queue = 0;
  next_closed = false;
  out_closed = false;
}

-- `amount` is `AttackersScaleAmount`, the most attackers that one result can start.
pub data Move (amount : ℕ) (s : Life) : Life → Type 0 where
  -- The test times out, or the server's context ends.
  expire : s.done ≡ false → Move amount s (record s { done = true })
  -- `Run`
  start_handler :
      s.main ≡ before_handler
      → Move amount s (record s { main = before_schedule; handler = watching; wg = s.wg + 1 })
  start_schedule :
      s.main ≡ before_schedule
      → Move amount s (record s { main = before_collect; scheduler = polling })
  start_collect :
      s.main ≡ before_collect
      → Move amount s (record s { main = awaiting; collector = selecting; wg = s.wg + 1 })
  await : s.main ≡ awaiting → s.done ≡ true → Move amount s (record s { main = joining })
  join : s.main ≡ joining → s.wg ≡ 0 → Move amount s (record s { main = reporting })
  report : s.main ≡ reporting → Move amount s (record s { main = returned })
  -- `handleShutdownSignal`: the context, or a signal.
  leave :
      s.handler ≡ watching
      → s.done ≡ true
      → Move amount s (record s { handler = left; wg = s.wg - 1 })
  signal : s.handler ≡ watching → Move amount s (record s { done = true; killed = true })
  -- `schedule`: the `default` is taken only if the context is not done. A token goes to an attacker that
  -- waits, or to none, as an attacker on its way to `range` does not wait yet.
  stop :
      s.scheduler ≡ polling
      → s.done ≡ true
      → Move amount s (record s { scheduler = closed; next_closed = true })
  pace : s.scheduler ≡ polling → s.done ≡ false → Move amount s (record s { scheduler = pacing })
  hand :
      (xs ys : List Attacker)
      → s.scheduler ≡ pacing
      → s.attackers ≡ xs ++ waiting ∷ ys
      → Move amount s (record s { scheduler = polling; attackers = xs ++ working ∷ ys })
  skip : s.scheduler ≡ pacing → Move amount s (record s { scheduler = polling })
  -- The scheduler panics, which ends the process.
  crash : s.scheduler ≡ pacing → Move amount s (record s { killed = true })
  -- `attack`: the channel is closed; the context is done; an answer or a timeout; the result is sent.
  finish :
      (xs ys : List Attacker)
      → s.attackers ≡ xs ++ waiting ∷ ys
      → s.next_closed ≡ true
      → Move amount s (record s { attackers = xs ++ gone ∷ ys })
  abandon :
      (xs ys : List Attacker)
      → s.attackers ≡ xs ++ working ∷ ys
      → s.done ≡ true
      → Move amount s (record s { attackers = xs ++ gone ∷ ys })
  answer :
      (xs ys : List Attacker)
      → s.attackers ≡ xs ++ working ∷ ys
      → Move amount s (record s { attackers = xs ++ sending ∷ ys })
  send :
      (xs ys : List Attacker)
      → s.attackers ≡ xs ++ sending ∷ ys
      → s.queue < results_capacity
      → Move amount s (record s { attackers = xs ++ waiting ∷ ys; queue = s.queue + 1 })
  -- `collectResults`: the context is done; a result, which may start attackers and cancel the test.
  end_collect :
      s.collector ≡ selecting
      → s.done ≡ true
      → Move amount s (record s { collector = collected; out_closed = true; wg = s.wg - 1 })
  take_result :
      (started : ℕ)
      → s.collector ≡ selecting
      → 0 < s.queue
      → started ≤ amount
      → Move amount s
          (record s { queue = s.queue - 1; attackers = s.attackers ++ replicate started waiting })
  cancel_test :
      (started : ℕ)
      → s.collector ≡ selecting
      → 0 < s.queue
      → started ≤ amount
      → Move amount s (record s {
        done = true;
        queue = s.queue - 1;
        attackers = s.attackers ++ replicate started waiting;
      })

-- A process that has exited does nothing.
pub data Step (amount : ℕ) (s u : Life) : Type 0 where
  alive : s.killed ≡ false → Move amount s u → Step amount s u

pub data Reach (amount : ℕ) (s : Life) : Life → Type 0 where
  here : Reach amount s s
  later : {u v : Life} → Reach amount s u → Step amount u v → Reach amount s v

-- The number of steps of a run.
abbrev pub steps : {amount : ℕ} {s u : Life} → Reach amount s u → ℕ
steps here = 0
steps (later r st) = steps r + 1
