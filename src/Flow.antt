-- ===== src/Flow.antt =====
-- The way of the tokens of one run (runner.go, attack.go): the scheduler, any number of attackers and the
-- collector as threads that interleave in any way, over the channels `next` and `results`. What the
-- collector makes of the results is `collect_results` of Collect; here it takes them off the channel, and
-- may start attackers. When the scheduler and the collector return is the matter of Lifecycle.
pub mod Kept
pub mod Reported
use loaderbot.Prelude.{
  ℕ, ◌+◌, ◌≤◌, ◌<◌, ◌≡◌, Bool, true, false, String, Option, some, List, [], ◌∷◌, ◌++◌, length,
  replicate,
}
use loaderbot.Prelude.Int.{ℤ}
use loaderbot.Result.{AttackToken, DoResult, AttackResult}
use loaderbot.Config.{RunnerConfig}
use loaderbot.Schedule.{Limiters, Schedule, token, start, advance}
use loaderbot.Attack.{Round, done, request_over, result_of, timed_out_result}
use loaderbot.Lifecycle.{results_capacity}

-- An attacker: at `range r.next`, at the `select` with a token and the instant it was taken at, at
-- `r.results <-`, returned.
pub data Hand : Type 0 where
  waiting gone : Hand
  working : AttackToken → ℕ → Hand
  sending : AttackResult → Hand

-- `fired` are the tokens sent on `next`, `dropped` those that attackers gave up as the test was over,
-- `queue` is the channel `results`, and `collected` is what the collector has received, in order.
pub record Flow (L : Type 0) : Type 0 where
  pub is_over : Bool
  pub schedule : Schedule L
  pub fired : List AttackToken
  pub crew : List Hand
  pub dropped : List AttackToken
  pub queue : List AttackResult
  pub collected : List AttackResult

-- A round that ends by an answer, and one whose request times out.
abbrev pub answered : AttackToken → ℕ → ℕ → DoResult → AttackResult
answered tok t_start t_end d =
    result_of (record { token = tok; t_start = t_start; t_end = t_end; race = done d }) d

abbrev pub unanswered : String → AttackToken → ℕ → ℕ → AttackResult
unanswered name tok t_start t_end =
    result_of (record { token = tok; t_start = t_start; t_end = t_end; race = request_over })
      (timed_out_result name)

module _ {L F : Type 0} (new_limiter : Limiters L) (cfg : RunnerConfig F) where
  -- `schedule` and this number of attackers have started.
  unfoldable pub opening : ℕ → Flow L
  opening attackers = record {
    is_over = false;
    schedule = start new_limiter cfg attackers;
    fired = [];
    crew = replicate attackers waiting;
    dropped = [];
    queue = [];
    collected = [];
  }

pub data Step {L F : Type 0} (new_limiter : Limiters L) (cfg : RunnerConfig F) (s : Flow L)
    : Flow L → Type 0 where
  -- The context is done.
  expire : s.is_over ≡ false → Step new_limiter cfg s (record s { is_over = true })
  -- An attacker takes the token of the scheduler, which does what follows and does not panic. The context
  -- may be done by now, since the scheduler asked.
  fire :
      (xs ys : List Hand) (now : ℕ) (next : Schedule L)
      → s.crew ≡ xs ++ waiting ∷ ys
      → advance new_limiter cfg.step_rps s.schedule ≡ some next
      → Step new_limiter cfg s (record s {
        schedule = next;
        fired = s.fired ++ token s.schedule ∷ [];
        crew = xs ++ working (token s.schedule) now ∷ ys;
      })
  -- `select` of the attacker: `done`, the timeout of the request, or the end of the test.
  answer :
      (xs ys : List Hand) (tok : AttackToken) (t_start t_end : ℕ) (d : DoResult)
      → s.crew ≡ xs ++ working tok t_start ∷ ys
      → Step new_limiter cfg s
          (record s { crew = xs ++ sending (answered tok t_start t_end d) ∷ ys })
  time_out :
      (xs ys : List Hand) (tok : AttackToken) (t_start t_end : ℕ)
      → s.crew ≡ xs ++ working tok t_start ∷ ys
      → Step new_limiter cfg s
          (record s { crew = xs ++ sending (unanswered cfg.name tok t_start t_end) ∷ ys })
  abandon :
      (xs ys : List Hand) (tok : AttackToken) (t_start : ℕ)
      → s.crew ≡ xs ++ working tok t_start ∷ ys
      → s.is_over ≡ true
      → Step new_limiter cfg s
          (record s { crew = xs ++ gone ∷ ys; dropped = s.dropped ++ tok ∷ [] })
  -- `next` is closed.
  retire :
      (xs ys : List Hand)
      → s.crew ≡ xs ++ waiting ∷ ys
      → Step new_limiter cfg s (record s { crew = xs ++ gone ∷ ys })
  send :
      (xs ys : List Hand) (r : AttackResult)
      → s.crew ≡ xs ++ sending r ∷ ys
      → length s.queue < results_capacity
      → Step new_limiter cfg s (record s { crew = xs ++ waiting ∷ ys; queue = s.queue ++ r ∷ [] })
  -- The collector receives a result, and may start attackers.
  receive :
      (r : AttackResult) (rest : List AttackResult) (started : ℕ)
      → s.queue ≡ r ∷ rest
      → Step new_limiter cfg s (record s {
        queue = rest;
        collected = s.collected ++ r ∷ [];
        crew = s.crew ++ replicate started waiting;
      })

pub data Reach {L F : Type 0} (new_limiter : Limiters L) (cfg : RunnerConfig F) (s : Flow L)
    : Flow L → Type 0 where
  here : Reach new_limiter cfg s s
  later :
      {u v : Flow L}
      → Reach new_limiter cfg s u
      → Step new_limiter cfg u v
      → Reach new_limiter cfg s v
