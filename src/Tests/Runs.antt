-- ===== src/Tests/Runs.antt =====
-- Runs of the scheduler, of an attacker and of the collector on small inputs.
use loaderbot.Prelude.{
  ℕ, zero, suc, ◌+◌, ◌<◌, ◌≤◌, ◌≡◌, refl, inl, true, false, List, [], ◌∷◌, arith, select, replicate,
  All,
}
use loaderbot.Prelude.Int.{ℤ, pos, pos_part, wrap64, add64, ◌+ℤ◌, ◌*ℤ◌, eqb_ℤ}
use loaderbot.Prelude.Maps.{ℕ_eq, lookup}
use loaderbot.Float.{Thousandths, thousandths}
use loaderbot.Config.{RunnerConfig, bound_rps, unbound_rps, default_cfg_values}
use loaderbot.Outcome.{divide_by_zero, Returns}
use loaderbot.Schedule.{
  Limiters, Poll, timed_out, accepted, refused, crashed, start, schedule, advance, next_tick,
  next_step, divides, prepend,
}
use loaderbot.Schedule.Plan.{rate_of}
use loaderbot.Schedule.Rounds.{EndsOnPlan}
use loaderbot.Schedule.Tokens.{tokens}
use loaderbot.Schedule.Correct.{schedule_bound, schedule_unbound, schedule_ticks, one_pos}
use loaderbot.Schedule.LeftBehind.{has_tick}
use loaderbot.Schedule.Crash.{zero_step_crashes}
use loaderbot.Attack.{Round, done, request_over, test_over, attack}
use loaderbot.Attack.Results.{Each, Reports, in_time, sent, attack-Reports}
use loaderbot.Result.{AttackResult}
use loaderbot.Collect
use loaderbot.Collect.{Collector, Event, received, collect_results}
use loaderbot.Collect.Ticks.{Accounts, AllUnfinished, before_timeout, pending}
use loaderbot.Collect.Books.{Books}
use loaderbot.Collect.Counters.{collect_results-Books}
use loaderbot.Pipeline.{asked, asked_pos}
use loaderbot.Collect.Ticks.Total.{collect_results-Accounts}
use loaderbot.Tests.{last_value, streaming, config, ramp, tok, answer, result}

abbrev pub two_pos : 0 < 2
two_pos = omega arith

-- A limiter that is its rate, which is not 0.
abbrev pub same : Limiters ℤ
same = record { refuses = λ r. eqb_ℤ r (pos 0); make = λ r. r }

abbrev five_taken : List Poll
five_taken = accepted ∷ refused ∷ accepted ∷ accepted ∷ accepted ∷ accepted ∷ timed_out ∷ []

abbrev four_taken : List Poll
four_taken = accepted ∷ refused ∷ accepted ∷ accepted ∷ accepted ∷ []

past_tick_2 : 2 < (schedule same ramp.step_rps (start same ramp 4) five_taken).last.current_tick
unfolding schedule start advance next_tick next_step divides prepend add64 wrap64 ◌+ℤ◌
past_tick_2 = omega arith

schedule_ticks_example :
    select
      (has_tick 2)
      (tokens (schedule same ramp.step_rps (start same ramp 4) five_taken).signals)
    ≡ replicate
        (pos_part (wrap64 (pos 2 +ℤ pos 1 *ℤ pos 1)))
        (record { target_rps = wrap64 (pos 2 +ℤ pos 1 *ℤ pos 1); step = 2; tick = 2 })
schedule_ticks_example =
    schedule_ticks same ramp 4 2 five_taken 2 (omega arith) (inl refl) refl (ground arith)
      (omega arith) past_tick_2

made : (t : ℕ) → t ≤ 6 → same.refuses (rate_of true 2 (pos 2) (pos 1) t) ≡ false
unfolding add64 wrap64 ◌+ℤ◌
made zero h = refl
made (suc zero) h = refl
made (suc (suc zero)) h = refl
made (suc (suc (suc zero))) h = refl
made (suc (suc (suc (suc zero)))) h = refl
made (suc (suc (suc (suc (suc zero))))) h = refl
made (suc (suc (suc (suc (suc (suc zero)))))) h = refl
made (suc (suc (suc (suc (suc (suc (suc t))))))) h = absurd (omega (arith, h))

schedule_bound_example :
    EndsOnPlan same true 2
      (pos 2)
      (pos 1)
      two_pos
      []
      (schedule same ramp.step_rps (start same ramp 4) four_taken)
schedule_bound_example = schedule_bound same ramp 4 2 two_pos four_taken (inl refl) refl made

abbrev flood : RunnerConfig Thousandths
flood = config unbound_rps (pos 3) (pos 0) (pos 30) (pos 7)

schedule_unbound_example :
    EndsOnPlan same false 1
      (wrap64 (pos 300))
      (pos 7)
      one_pos
      []
      (schedule same flood.step_rps (start same flood 3) four_taken)
schedule_unbound_example = schedule_unbound same flood 3 four_taken refl

abbrev no_step : RunnerConfig Thousandths
no_step = config bound_rps (pos 4) (pos 2) (pos 0) (pos 1)

zero_step_crashes_example :
    let cfg = default_cfg_values no_step in
    (schedule same cfg.step_rps (start same cfg 4) four_taken).status ≡ crashed divide_by_zero
zero_step_crashes_example =
    zero_step_crashes same no_step 4 1 four_taken refl (inl refl) (λ _. ground arith) refl
      (omega arith) tt

abbrev rounds : List Round
rounds =
    record { token = tok (pos 2) 1; t_start = 10; t_end = 30; race = done (answer "" (pos 200)) }
    ∷ record { token = tok (pos 2) 1; t_start = 30; t_end = 90; race = request_over }
    ∷ record { token = tok (pos 3) 2; t_start = 90; t_end = 95; race = test_over }
    ∷ []

attack-Reports_example : Each (Reports "test") (in_time rounds) (sent (attack "test" rounds))
attack-Reports_example = attack-Reports "test" rounds

abbrev pub fresh : Collector Thousandths (List Thousandths)
fresh = record {
  received_tick_metrics = [];
  uniq_errors = [];
  failed = 0;
  attackers = 4;
  total_requests_stored = 0;
}

abbrev pub of_tick : ℕ → ℕ → AttackResult
of_tick k begin = result (tok (pos 2) k) begin (begin + 5) (answer "" (pos 200))

-- The ticks 1 and 2 overlap; tick 2 stays unfinished.
abbrev events : List Event
events =
    received (of_tick 1 10)
    ∷ received (of_tick 2 12)
    ∷ received (of_tick 1 14)
    ∷ Collect.timed_out
    ∷ received (of_tick 2 16)
    ∷ []

unfoldable pub two_each : ℕ → ℕ
two_each t = 2

pub two_each_pos : (t : ℕ) → 0 < two_each t
unfolding two_each
two_each_pos t = omega arith

pub fresh-AllUnfinished : AllUnfinished two_each fresh
unfolding two_each lookup
fresh-AllUnfinished t = omega arith

targets :
    All
      (λ r. r.attack_token.target_rps ≡ pos (two_each r.attack_token.tick))
      (before_timeout events)
unfolding two_each before_timeout
targets = (refl, (refl, (refl, tt)))

pub nothing_waits : pending 1 fresh ≡ []
unfolding lookup
nothing_waits = refl

collect_results-Accounts_example :
    Returns
      (λ r. Accounts two_each fresh (before_timeout events) r.0 r.1)
      (collect_results ramp streaming (λ i. true) fresh events)
collect_results-Accounts_example =
    collect_results-Accounts ramp streaming (λ i. true) (λ i. refl) refl two_each two_each_pos fresh
      events fresh-AllUnfinished targets

collect_results-Books_example :
    Returns
      (λ r. Books fresh (before_timeout events) r.0 r.1)
      (collect_results ramp streaming (λ i. true) fresh events)
collect_results-Books_example =
    collect_results-Books ramp streaming (λ i. true) (λ i. refl) fresh events

pub fresh-AllUnfinished-asked : AllUnfinished (asked ramp 2) fresh
unfolding lookup
fresh-AllUnfinished-asked t = asked_pos ramp 2 t
