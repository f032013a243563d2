-- ===== src/Lifecycle/Order.antt =====
-- What holds at every moment of a run: who has been started, counted and closed.
use loaderbot.Prelude.{ℕ, ◌+◌, ◌≤◌, ◌≡◌, refl, Bool, true, false, arith, inl, inr, ◌⊎◌}
use loaderbot.Lifecycle.{
  Main, before_handler, before_schedule, before_collect, awaiting, joining, reporting, returned,
  Scheduler, unscheduled, polling, pacing, closed, Collecting, uncollected, selecting, collected,
  Handler, unwatched, watching, left, Life, launched, Move, expire, start_handler, start_schedule,
  start_collect, await, join, report, leave, stop, pace, hand, skip, end_collect, alive, Reach,
  here, later,
}

-- One for a goroutine that the wait group counts.
abbrev pub counts_handler : Handler → ℕ
counts_handler watching = 1
counts_handler _ = 0

abbrev pub counts_collector : Collecting → ℕ
counts_collector selecting = 1
counts_collector _ = 0

-- How far `Run` has come.
abbrev pub rank : Main → ℕ
rank before_handler = 0
rank before_schedule = 1
rank before_collect = 2
rank awaiting = 3
rank joining = 4
rank reporting = 5
rank returned = 6

abbrev pub handler_started : Handler → ℕ
handler_started unwatched = 0
handler_started _ = 1

abbrev pub scheduler_started : Scheduler → ℕ
scheduler_started unscheduled = 0
scheduler_started _ = 1

abbrev pub collector_started : Collecting → ℕ
collector_started uncollected = 0
collector_started _ = 1

abbrev pub is_closed : Scheduler → Bool
is_closed closed = true
is_closed _ = false

abbrev pub is_collected : Collecting → Bool
is_collected collected = true
is_collected _ = false

pub record IsOrderly (s : Life) : Type 0 where
  -- The wait group counts the handler and the collector while they run.
  pub counted : s.wg ≡ counts_handler s.handler + counts_collector s.collector
  -- `next` is closed once, by the scheduler as it returns, and `OutResults` by the collector.
  pub next : s.next_closed ≡ is_closed s.scheduler
  pub out : s.out_closed ≡ is_collected s.collector
  -- `Run` starts each goroutine once.
  pub handled :
      (rank s.main ≡ 0) × (handler_started s.handler ≡ 0)
      ⊎ (1 ≤ rank s.main) × (handler_started s.handler ≡ 1)
  pub scheduled :
      (rank s.main ≤ 1) × (scheduler_started s.scheduler ≡ 0)
      ⊎ (2 ≤ rank s.main) × (scheduler_started s.scheduler ≡ 1)
  pub collecting :
      (rank s.main ≤ 2) × (collector_started s.collector ≡ 0)
      ⊎ (3 ≤ rank s.main) × (collector_started s.collector ≡ 1)
  -- `Run` goes on to its reports when the context is done and the wait group is empty.
  pub timed_out : (rank s.main ≤ 3) ⊎ (s.done ≡ true)
  pub joined : (rank s.main ≤ 4) ⊎ (s.wg ≡ 0)

launched-IsOrderly : (n : ℕ) → IsOrderly (launched n)
unfolding launched
launched-IsOrderly n = record {
  counted = refl;
  next = refl;
  out = refl;
  handled = inl (refl, refl);
  scheduled = inl (omega arith, refl);
  collecting = inl (omega arith, refl);
  timed_out = inl (omega arith);
  joined = inl (omega arith);
}

-- What a move asks of the state that it starts from.
abbrev Guard : {amount : ℕ} {s u : Life} → Move amount s u → Type 0
Guard {s = s} (start_handler _) = s.main ≡ before_handler
Guard {s = s} (start_schedule _) = s.main ≡ before_schedule
Guard {s = s} (start_collect _) = s.main ≡ before_collect
Guard {s = s} (await _ _) = (s.main ≡ awaiting) × (s.done ≡ true)
Guard {s = s} (join _ _) = (s.main ≡ joining) × (s.wg ≡ 0)
Guard {s = s} (report _) = s.main ≡ reporting
Guard {s = s} (leave _ _) = s.handler ≡ watching
Guard {s = s} (stop _ _) = s.scheduler ≡ polling
Guard {s = s} (pace _ _) = s.scheduler ≡ polling
Guard {s = s} (hand _ _ _ _) = s.scheduler ≡ pacing
Guard {s = s} (skip _) = s.scheduler ≡ pacing
Guard {s = s} (end_collect _ _) = s.collector ≡ selecting
Guard _ = Unit

guard : {amount : ℕ} {s u : Life} (mv : Move amount s u) → Guard mv
guard (start_handler g) = g
guard (start_schedule g) = g
guard (start_collect g) = g
guard (await g d) = (g, d)
guard (join g w) = (g, w)
guard (report g) = g
guard (leave g _) = g
guard (stop g _) = g
guard (pace g _) = g
guard (hand _ _ g _) = g
guard (skip g) = g
guard (end_collect g _) = g
guard _ = tt

Move-IsOrderly : {amount : ℕ} {s u : Life} → Move amount s u → IsOrderly s → IsOrderly u
Move-IsOrderly (expire _) h = record {
  counted = h.counted;
  next = h.next;
  out = h.out;
  handled = h.handled;
  scheduled = h.scheduled;
  collecting = h.collecting;
  timed_out = inr refl;
  joined = h.joined;
}
Move-IsOrderly mv h = record {
  counted = ground (arith, guard mv, h.counted, h.handled, h.collecting);
  next = ground (arith, guard mv, h.next, h.scheduled);
  out = ground (arith, guard mv, h.out, h.collecting);
  handled = ground (arith, guard mv, h.handled);
  scheduled = ground (arith, guard mv, h.scheduled);
  collecting = ground (arith, guard mv, h.collecting);
  timed_out = ground (arith, guard mv, h.timed_out);
  joined = ground (arith, guard mv, h.joined, h.counted, h.handled, h.collecting);
}

pub Reach-IsOrderly : {amount : ℕ} (n : ℕ) {s : Life} → Reach amount (launched n) s → IsOrderly s
Reach-IsOrderly n here = launched-IsOrderly n
Reach-IsOrderly n (later r (alive _ mv)) = Move-IsOrderly mv (Reach-IsOrderly n r)

-- In every run, with any number of attackers and any interleaving: when `Run` is at its reports, the
-- context is done, and the handler of signals and the collector have returned, so that `OutResults` is
-- closed and nothing is written to the logs any more.
pub reports_come_last :
    {amount : ℕ} (n : ℕ) {s : Life}
    → Reach amount (launched n) s
    → s.main ≡ reporting
    → (s.done ≡ true) × (s.handler ≡ left) × (s.collector ≡ collected) × (s.out_closed ≡ true)
reports_come_last n {s = s} r e =
    let h = Reach-IsOrderly n r in
    ground (arith, h.timed_out, h.joined, h.counted, h.handled, h.collecting, h.out)
