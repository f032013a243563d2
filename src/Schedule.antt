-- ===== src/Schedule.antt =====
-- runner.go, `schedule`: the goroutine that paces the attackers, and what `NewRunner` hands it.
-- Each round of its loop is one `Poll`, chosen by the environment: the test has timed out, an attacker
-- takes the token, or nobody does.
pub mod Plan
pub mod Tokens
pub mod OnPlan
pub mod Advance
pub mod Rounds
pub mod LeftBehind
pub mod Correct
pub mod Crash
use loaderbot.Prelude.{
  ℕ, suc, ◌+◌, ◌*◌, ◌%◌, Bool, true, false, ◌||◌, Option, none, some, List, [], ◌∷◌, ◌++◌, ◌==◌,
  if◌then◌else◌,
}
use loaderbot.Prelude.Int.{ℤ, pos, negsuc, add64, wrap64, eqb_ℤ}
use loaderbot.Config.{RunnerConfig, bound_rps, unbound_rps, bound_rps_autoscale, is_mode}
use loaderbot.Result.{AttackToken}
use loaderbot.Outcome.{Panic, divide_by_zero}

-- `ratelimit.New` of go.uber.org/ratelimit, whose limiters are in `L`: it panics at the rates that it
-- refuses, as at 0, by which it divides, and else makes a limiter.
pub record Limiters (L : Type 0) : Type 0 where
  pub refuses : ℤ → Bool
  pub make : ℤ → L

-- The variables of the goroutine, with `targetRPS` and `rl` of the runner, which no other code writes
-- while it runs.
pub record Schedule (L : Type 0) : Type 0 where
  pub current_step : ℕ
  pub current_tick : ℕ
  pub ticks_in_step : ℤ
  pub total_requests_fired : ℕ
  pub requests_fired_in_tick : ℕ
  pub target_rps : ℤ
  pub limiter : Option L

pub data Poll : Type 0 where
  timed_out accepted refused : Poll

-- What the goroutine does: `rl.Take()`, a token sent on `next`, `close(next)`.
pub data Signal (L : Type 0) : Type 0 where
  take : L → Signal L
  fire : AttackToken → Signal L
  close_next : Signal L

pub data Status : Type 0 where
  running closed : Status
  crashed : Panic → Status

pub record Trace (L : Type 0) : Type 0 where
  pub signals : List (Signal L)
  pub status : Status
  pub last : Schedule L

-- `currentTick % ticksInStep == 0`; `none` is the panic of a zero divisor.
unfoldable pub divides : ℤ → ℕ → Option Bool
divides (pos d) tick = if d == 0 then none else some (tick % d == 0)
divides (negsuc d) tick = some (tick % suc d == 0)

unfoldable pub token : {L : Type 0} → Schedule L → AttackToken
token s = record { target_rps = s.target_rps; step = s.current_step; tick = s.current_tick }

unfoldable pub takes : {L : Type 0} → Option L → List (Signal L)
takes none = []
takes (some rl) = take rl ∷ []

unfoldable pub prepend : {L : Type 0} → List (Signal L) → Trace L → Trace L
prepend xs t = record t { signals = xs ++ t.signals }

module _ {L : Type 0} (new_limiter : Limiters L) where
  -- The state in which the loop starts, for a configuration and a number of attackers, where `NewRunner`
  -- returned: if `New` refuses the first rate it panics, as in `new_runner` of Runner, and no loop starts.
  unfoldable pub start : {F : Type 0} → RunnerConfig F → ℕ → Schedule L
  start c attackers = record {
    current_step = 1;
    current_tick = 1;
    ticks_in_step = if is_mode unbound_rps c then pos 1 else c.step_duration_sec;
    total_requests_fired = 0;
    requests_fired_in_tick = 0;
    target_rps = if is_mode unbound_rps c then wrap64 (pos (attackers * 100)) else c.start_rps;
    limiter =
        if is_mode bound_rps c || is_mode bound_rps_autoscale c
        then some (new_limiter.make c.start_rps)
        else none;
  }

  -- `if r.rl != nil { … }`: the next step; `none` is the panic of `New`.
  unfoldable pub next_step : ℤ → Schedule L → Option L → Option (Schedule L)
  next_step step_rps s none = some s
  next_step step_rps s (some _) =
      let rate = add64 s.target_rps step_rps in
      if new_limiter.refuses rate
      then none
      else some (record s {
        target_rps = rate;
        limiter = some (new_limiter.make rate);
        current_step = s.current_step + 1;
      })

  -- The tick is full.
  unfoldable pub next_tick : ℤ → Schedule L → Option (Schedule L)
  next_tick step_rps s =
      let s' = record s { current_tick = s.current_tick + 1; requests_fired_in_tick = 0 } in
      elim (divides s.ticks_in_step (s.current_tick + 1)) [
        | none ↦ none
        | some b ↦ if b then next_step step_rps s' s.limiter else some s'
      ]

  -- What follows a token that was sent; `none` is a panic.
  unfoldable pub advance : ℤ → Schedule L → Option (Schedule L)
  advance step_rps s =
      let s' = record s {
        total_requests_fired = s.total_requests_fired + 1;
        requests_fired_in_tick = s.requests_fired_in_tick + 1;
      } in
      if eqb_ℤ (pos (s.requests_fired_in_tick + 1)) s.target_rps
      then next_tick step_rps s'
      else some s'

  -- The `for` loop. Polls that end with no `timed_out` are a run that still goes on.
  unfoldable pub schedule : ℤ → Schedule L → List Poll → Trace L
  schedule step_rps s [] = record { signals = []; status = running; last = s }
  schedule step_rps s (timed_out ∷ ps) = record {
    signals = close_next ∷ [];
    status = closed;
    last = s;
  }
  schedule step_rps s (refused ∷ ps) = prepend (takes s.limiter) (schedule step_rps s ps)
  schedule step_rps s (accepted ∷ ps) = elim (advance step_rps s) [
    | some s' ↦ prepend (takes s.limiter ++ fire (token s) ∷ []) (schedule step_rps s' ps)
    | none ↦ record {
      signals = takes s.limiter ++ fire (token s) ∷ [];
      status = crashed divide_by_zero;
      last = s;
    }
  ]
