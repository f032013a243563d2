-- ===== src/Tests/Threads.antt =====
-- Runs of the goroutines, nodes that stream, and what attackers, gauges and transports do with a request.
use loaderbot.Prelude.{
  ℕ, ◌≡◌, refl, true, false, String, Option, none, some, List, [], ◌∷◌, map, arith, inl, inr,
  str_eq, if◌then◌else◌, ◌&&◌, All,
}
use loaderbot.Outcome.{Returns}
use loaderbot.Lifecycle.{
  Life, left, collected, launched, expire, start_handler, start_schedule, start_collect, await,
  join, leave, stop, pace, hand, finish, answer, send, end_collect, take_result, alive, Reach, here,
  later,
}
use loaderbot.Lifecycle.Order.{reports_come_last}
use loaderbot.Cluster.Gather
use loaderbot.Cluster.Gather.{
  Gathering, gathering, receive_batch, end_stream, hand_over, see_no_one,
}
use loaderbot.Cluster.Gather.Whole.{all_batches_taken}
use loaderbot.Attackers.{Answer, http_do}
use loaderbot.Attackers.Verdict.{http_do-success, with_result}
use loaderbot.Metrics.{is_success}
use loaderbot.Prometheus.{Gauge, Registry, is_free, IsFirstWins, new_prom_reporter}
use loaderbot.Prometheus.Twice.{Serves, second_reporter_unseen}
use loaderbot.HttpDump.{Json, Response, round_trip, split, body_is_json}
use loaderbot.HttpDump.Clear.{round_trip_transparent, IsPrintable}
use loaderbot.Prelude.Int.{pos}
use loaderbot.Tests
use loaderbot.Tests.{tok, result}

-- One attacker, which performs one request; then the test times out.
abbrev one_request : (s : Life) × Reach 1 (launched 1) s
unfolding launched
one_request = (
  _,
  later
      (later
        (later
          (later
            (later
              (later
                (later (later here (alive refl (start_handler refl)))
                  (alive refl (start_schedule refl)))
                (alive refl (start_collect refl)))
              (alive refl (pace refl refl)))
            (alive refl (hand [] [] refl refl)))
          (alive refl (answer [] [] refl)))
        (alive refl (send [] [] refl (omega arith))))
      (alive refl (take_result 1 refl (omega arith) (omega arith))),
)

abbrev timed_out : (s : Life) × Reach 1 (launched 1) s
unfolding launched
timed_out = (_, later one_request.1 (alive refl (expire refl)))

abbrev whole_run : (s : Life) × Reach 1 (launched 1) s
unfolding launched
whole_run = (
  _,
  later
      (later
        (later
          (later
            (later (later timed_out.1 (alive refl (stop refl refl)))
              (alive refl (finish [] _ refl refl)))
            (alive refl (await refl refl)))
          (alive refl (leave refl refl)))
        (alive refl (end_collect refl refl)))
      (alive refl (join refl refl)),
)

reports_come_last_example :
    (whole_run.0.done ≡ true)
    × (whole_run.0.handler ≡ left)
    × (whole_run.0.collector ≡ collected)
    × (whole_run.0.out_closed ≡ true)
unfolding launched
reports_come_last_example = reports_come_last 1 whole_run.1 refl

-- One node sends a batch, the other none.
abbrev two_streams : List (List ℕ)
two_streams = (7 ∷ []) ∷ [] ∷ []

abbrev gathered : (s : Gathering ℕ) × Gather.Reach (gathering two_streams) s
unfolding gathering
gathered = (
  _,
  Gather.next
      (Gather.next
        (Gather.next
          (Gather.next (Gather.next Gather.here (receive_batch [] _ _ 7 [] refl refl refl))
            (end_stream (_ ∷ []) [] _ refl refl refl))
          (hand_over [] _ _ 7 false refl refl refl))
        (end_stream [] _ _ refl refl refl))
      (see_no_one refl refl),
)

all_batches_taken_example : map (λ n. n.taken) gathered.0.nodes ≡ two_streams
unfolding gathering
all_batches_taken_example = all_batches_taken two_streams gathered.1 refl

-- A server error counts as a success.
abbrev server_error : Answer
server_error = record {
  response = some (record { status_code = 503; copy_error = none });
  error = none;
}

http_do-success_example :
    is_success (
      with_result
        (result (tok (pos 2) 1) 1 2 (Tests.answer "" (pos 0)))
        (http_do "test" server_error))
    ≡ true
http_do-success_example =
    http_do-success "test" server_error (result (tok (pos 2) 1) 1 2 (Tests.answer "" (pos 0)))

-- The registry as the function that finds the gauge.
abbrev first_wins : Registry (String → String → Option Gauge)
first_wins = record {
  register = λ g r n l.
      if is_free (r n l) && (str_eq g.name n && str_eq g.runner_name l) then some g else r n l;
  exported = λ n l r. r n l;
}

first_wins-IsFirstWins : IsFirstWins first_wins
first_wins-IsFirstWins = record { registered = λ g n l r. refl }

second_reporter_unseen_example :
    let first = new_prom_reporter first_wins "test" 1 (λ n l. none) in
    let second = new_prom_reporter first_wins "test" 2 first.1 in
    All (Serves first_wins first_wins-IsFirstWins second.1) first.0
    × All (λ g. ¬ (Serves first_wins first_wins-IsFirstWins second.1 g)) second.0
second_reporter_unseen_example =
    second_reporter_unseen first_wins first_wins-IsFirstWins "test" 1 2 (λ n l. none)
      (λ e. absurd (omega (arith, e))) (refl, (refl, (refl, (refl, (refl, (refl, tt))))))

abbrev any_json : Json
any_json = record { indent_list = some; indent_map = some }

abbrev found : Response
found = record {
  has_body = true;
  content_type = "application/json; charset=utf-8";
  dump = "HTTP/1.1 200 OK\r\n\r\n[1]";
}

found-IsPrintable : IsPrintable any_json (some found)
unfolding split
found-IsPrintable = inr (λ e. ground (arith, e))

abbrev found_alone : Option Response × Option String
found_alone = (some found, none)

round_trip_transparent_example :
    Returns
      (λ x. (x.1, x.2) ≡ found_alone)
      (round_trip any_json "" "GET / HTTP/1.1\r\n\r\n" (some found) none)
unfolding body_is_json
round_trip_transparent_example =
    round_trip_transparent any_json "" "GET / HTTP/1.1\r\n\r\n" (some found) none (inl refl)
      found-IsPrintable (inl λ e. ground (arith, e))
