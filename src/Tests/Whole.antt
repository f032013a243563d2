-- ===== src/Tests/Whole.antt =====
-- A cluster of two nodes, each of which runs the two requests of tick 1.
use loaderbot.Prelude.{refl, true, false, List, [], ◌∷◌, map}
use loaderbot.Prelude.Int.{ℤ}
use loaderbot.Float.{Thousandths, thousandths}
use loaderbot.Attack.{timed_out_result}
use loaderbot.Result.{AttackResult}
use loaderbot.Cluster
use loaderbot.Cluster.Gather
use loaderbot.Cluster.Gather.{
  Gathering, gathering, receive_batch, end_stream, hand_over, see_no_one, here, next,
}
use loaderbot.Cluster.Gather.Sent.{batches}
use loaderbot.System.{System, end_collect, alive, later}
use loaderbot.System.Nodes.{NodeSystem}
use loaderbot.Tests.{last_value, ramp, streaming}
use loaderbot.Tests.Runs.{fresh, same}
use loaderbot.Tests.Systems.{Run, two_taken}

-- The collector stops, as the test has been cancelled.
abbrev closed : (s : System ℤ Thousandths (List Thousandths)) × Run s
unfolding two_taken timed_out_result
closed = (_, later two_taken.1 (alive refl (end_collect refl refl)))

abbrev node : NodeSystem same ramp streaming (λ i. true) fresh
unfolding two_taken timed_out_result closed
node = record { attackers = 2; last = closed.0; reached = closed.1; is_closed = refl }

abbrev nodes : List (NodeSystem same ramp streaming (λ i. true) fresh)
nodes = node ∷ node ∷ []

abbrev streams : List (List (List AttackResult))
streams = map (λ n. batches n.last.effects) nodes

abbrev at_end : (s : Gathering (List AttackResult)) × Gather.Reach (gathering streams) s
unfolding two_taken timed_out_result closed node gathering
at_end = (
  _,
  next
      (next
        (next
          (next
            (next
              (next (next here (receive_batch (_ ∷ []) [] _ _ _ refl refl refl))
                (receive_batch [] _ _ _ _ refl refl refl))
              (hand_over [] _ _ _ false refl refl refl))
            (hand_over (_ ∷ []) [] _ _ false refl refl refl))
          (end_stream [] _ _ refl refl refl))
        (end_stream (_ ∷ []) [] _ refl refl refl))
      (see_no_one refl refl),
)
