-- ===== src/Tests/Systems.antt =====
-- A whole run: two attackers, the two requests of tick 1, of which one times out, so that the tick fails.
use loaderbot.Prelude.{
  false, ◌≡◌, ◌≤◌, ◌<◌, ◌+◌, ◌⊎◌, ◌↔◌, refl, true, inl, List, [], ◌∷◌, arith, select,
}
use loaderbot.Prelude.Int.{ℤ, pos, add64, wrap64, ◌+ℤ◌}
use loaderbot.Prelude.Maps.{lookup, insert, delete}
use loaderbot.Float.{Thousandths, thousandths}
use loaderbot.Schedule.{start, advance, next_tick, next_step, divides, token}
use loaderbot.Attack.{result_of, timed_out_result}
use loaderbot.Metrics.{new_metrics, add, add_all, update}
use loaderbot.Lifecycle
use loaderbot.Lifecycle.{launched}
use loaderbot.Lifecycle.Ends.{work}
use loaderbot.Collect
use loaderbot.Collect.{count_error, collect_one, process_tick_metrics, report_tick, scale_attackers}
use loaderbot.Collect.Ticks.{on_tick, pending, streamed, reports}
use loaderbot.System.{
  System, opening, start_handler, start_schedule, start_collect, pace, hand, answer, time_out, send,
  take_result, stop, finish, await, leave, end_collect, join, report, alive, Reach, here, later,
  steps,
}
use loaderbot.System.Effects.{amount, failing}
use loaderbot.System.Skeleton.{life, system_ends}
use loaderbot.System.Progress.{system_returns}
use loaderbot.System.Stops.{stops_iff}
use loaderbot.System.History.{system_reports}
use loaderbot.Tests
use loaderbot.Tests.{last_value, streaming, ramp}
use loaderbot.Tests.Runs.{fresh, fresh-AllUnfinished-asked, nothing_waits, two_pos, same}

abbrev pub Run : System ℤ Thousandths (List Thousandths) → Type 0
Run = Reach same ramp streaming (λ i. true) (opening same ramp fresh 2)

-- Both tokens of tick 1 are with attackers.
abbrev two_handed : (s : System ℤ Thousandths (List Thousandths)) × Run s
unfolding opening start advance next_tick next_step divides token add64 wrap64 ◌+ℤ◌
two_handed = (
  _,
  later
      (later
        (later
          (later
            (later
              (later (later here (alive refl (start_handler refl)))
                (alive refl (start_schedule refl)))
              (alive refl (start_collect refl)))
            (alive refl (pace refl refl)))
          (alive refl (hand [] _ 10 _ refl refl refl)))
        (alive refl (pace refl refl)))
      (alive refl (hand (_ ∷ []) [] 12 _ refl refl refl)),
)

abbrev two_sent : (s : System ℤ Thousandths (List Thousandths)) × Run s
unfolding opening start advance next_tick next_step divides token add64 wrap64 ◌+ℤ◌
two_sent = (
  _,
  later
      (later
        (later
          (later two_handed.1 (alive refl (answer [] _ _ _ 15 (Tests.answer "" (pos 200)) refl)))
          (alive refl (time_out (_ ∷ []) [] _ _ 900 refl)))
        (alive refl (send (_ ∷ []) [] _ refl (omega arith))))
      (alive refl (send [] _ _ refl (omega arith))),
)

-- The collector has reported tick 1, and the context is done.
unfoldable pub two_taken : (s : System ℤ Thousandths (List Thousandths)) × Run s
unfolding opening start advance next_tick next_step divides token add64 wrap64 ◌+ℤ◌ result_of
    Collect.collect_results collect_one process_tick_metrics report_tick scale_attackers count_error
    lookup insert delete add_all add update new_metrics timed_out_result
two_taken = (
  _,
  later (later two_sent.1 (alive refl (take_result _ _ _ _ refl refl refl)))
      (alive refl (take_result _ _ _ _ refl refl refl)),
)

system_reports_example :
    (select (on_tick 1) (streamed two_taken.0.effects) ≡ select (on_tick 1) two_taken.0.received)
    × (pending 1 two_taken.0.books ≡ [])
    × (reports 1 two_taken.0.effects ≡ 1)
unfolding opening start advance next_tick next_step divides token add64 wrap64 ◌+ℤ◌ result_of
    Collect.collect_results collect_one process_tick_metrics report_tick scale_attackers count_error
    lookup insert delete add_all add update new_metrics timed_out_result two_taken
system_reports_example =
    system_reports same ramp streaming (λ i. true) (λ i. refl) refl 2 two_pos (inl refl) refl 2
      fresh 1 two_taken.1 fresh-AllUnfinished-asked nothing_waits (omega arith) (omega arith)
      (omega arith) (omega arith, (omega arith, tt)) refl refl refl

stops_iff_example :
    ((two_taken.0.is_over ≡ true) ↔ (
      (two_taken.0.expired ≡ true) ⊎ (0 < failing ramp streaming (λ i. true) two_taken.0.effects)))
    × (two_taken.0.books.failed
        ≡ fresh.failed + failing ramp streaming (λ i. true) two_taken.0.effects)
stops_iff_example = stops_iff same ramp streaming (λ i. true) (λ i. refl) fresh 2 two_taken.1

system_returns_example :
    (v : System ℤ Thousandths (List Thousandths)) × Reach same ramp streaming
      (λ i. true)
      two_taken.0
      v
    × ((v.main ≡ Lifecycle.returned) × (v.killed ≡ false))
unfolding two_taken
system_returns_example =
    system_returns same ramp streaming (λ i. true) (λ i. refl) fresh 2 two_taken.1 refl

-- After the last result, everything returns.
abbrev ending :
    (s : System ℤ Thousandths (List Thousandths)) × Reach same ramp streaming
      (λ i. true)
      two_taken.0
      s
unfolding two_taken timed_out_result
ending = (
  _,
  later
      (later
        (later
          (later
            (later
              (later (later here (alive refl (stop refl refl)))
                (alive refl (finish [] _ refl refl)))
              (alive refl (await refl refl)))
            (alive refl (leave refl refl)))
          (alive refl (end_collect refl refl)))
        (alive refl (join refl refl)))
      (alive refl (report refl)),
)

system_ends_example :
    steps same ramp streaming (λ i. true) ending.1 ≤ work (amount ramp) (life two_taken.0)
unfolding two_taken timed_out_result
system_ends_example = system_ends same ramp streaming (λ i. true) (λ i. refl) ending.1 refl
