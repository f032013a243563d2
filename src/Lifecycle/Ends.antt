-- ===== src/Lifecycle/Ends.antt =====
-- How a run ends (runner.go, attack.go, utils.go).
use loaderbot.Prelude.{
  ℕ, zero, suc, ◌+◌, ◌-◌, ◌*◌, ◌≤◌, ◌<◌, ◌≡◌, ◌≢◌, refl, ap, inl, inr, Bool, true, false, List, [],
  ◌∷◌, ◌++◌, arith, replicate, Bool-cases,
}
use loaderbot.Lifecycle.{
  Main, before_handler, before_schedule, before_collect, awaiting, joining, reporting, returned,
  Scheduler, polling, pacing, Attacker, waiting, working, sending, gone, Collecting, selecting,
  Handler, unwatched, watching, left, Life, launched, Move, expire, start_handler, start_schedule,
  start_collect, await, join, report, leave, signal, stop, pace, hand, skip, crash, finish, abandon,
  answer, send, end_collect, take_result, cancel_test, Step, alive, Reach, here, later, steps,
}
use loaderbot.Lifecycle.Order.{IsOrderly, Reach-IsOrderly}

module _ (amount : ℕ) where
  -- What is left to do, once the context is done. A result may start `amount` attackers.
  abbrev attacker_work : Attacker → ℕ
  attacker_work waiting = 1
  attacker_work working = amount + 4
  attacker_work sending = amount + 3
  attacker_work gone = 0

  abbrev scheduler_work : Scheduler → ℕ
  scheduler_work polling = 1
  scheduler_work pacing = amount + 5
  scheduler_work _ = 0

  abbrev collector_work : Collecting → ℕ
  collector_work selecting = 1
  collector_work _ = 0

  abbrev handler_work : Handler → ℕ
  handler_work watching = 1
  handler_work _ = 0

  -- `Run` has yet to start the goroutines, which then have work of their own.
  abbrev main_work : Main → ℕ
  main_work before_handler = 9
  main_work before_schedule = 7
  main_work before_collect = 5
  main_work awaiting = 3
  main_work joining = 2
  main_work reporting = 1
  main_work returned = 0

  abbrev killed_work : Bool → ℕ
  killed_work true = 0
  killed_work false = 1

  abbrev attackers_work : List Attacker → ℕ
  attackers_work [] = 0
  attackers_work (a ∷ rest) = attacker_work a + attackers_work rest

  abbrev pub work : Life → ℕ
  work s =
      main_work s.main
      + scheduler_work s.scheduler
      + attackers_work s.attackers
      + s.queue * (amount + 1)
      + collector_work s.collector
      + handler_work s.handler
      + killed_work s.killed

  attackers_work-append :
      (xs ys : List Attacker) → attackers_work (xs ++ ys) ≡ attackers_work xs + attackers_work ys
  attackers_work-append [] ys = omega arith
  attackers_work-append (x ∷ xs) ys = omega (arith, attackers_work-append xs ys)

  attackers_work-replicate : (n : ℕ) → attackers_work (replicate n waiting) ≡ n
  attackers_work-replicate zero = refl
  attackers_work-replicate (suc n) = omega (arith, attackers_work-replicate n)

  -- One attacker among the others goes on.
  attackers_move :
      (crew xs ys : List Attacker) (a b : Attacker)
      → crew ≡ xs ++ a ∷ ys
      → attackers_work crew + attacker_work b ≡ attackers_work (xs ++ b ∷ ys) + attacker_work a
  attackers_move crew xs ys a b e = omega (
    arith,
    ap attackers_work e,
    attackers_work-append xs (a ∷ ys),
    attackers_work-append xs (b ∷ ys),
  )

  -- A result is taken, and starts attackers.
  results_move :
      (crew : List Attacker) (q n : ℕ)
      → 0 < q
      → n ≤ amount
      → attackers_work (crew ++ replicate n waiting) + (q - 1) * (amount + 1)
        < attackers_work crew + q * (amount + 1)
  results_move crew (suc q) n h k =
      grind (arith, attackers_work-append crew (replicate n waiting), attackers_work-replicate n)
  results_move crew zero n h k = absurd (omega arith)

  Move-work :
      {s u : Life}
      → Move amount s u
      → s.done ≡ true
      → s.killed ≡ false
      → (u.done ≡ true) × (work u < work s)
  Move-work {s = s} (expire g) d l = absurd (ground (arith, g, d))
  Move-work {s = s} (start_handler g) d l = ground (arith, g, d)
  Move-work {s = s} (start_schedule g) d l = ground (arith, g, d)
  Move-work {s = s} (start_collect g) d l = ground (arith, g, d)
  Move-work {s = s} (await g _) d l = ground (arith, g, d)
  Move-work {s = s} (join g _) d l = ground (arith, g, d)
  Move-work {s = s} (report g) d l = ground (arith, g, d)
  Move-work {s = s} (leave g _) d l = ground (arith, g, d)
  Move-work {s = s} (signal g) d l = ground (arith, g, d, l)
  Move-work {s = s} (stop g _) d l = ground (arith, g, d)
  Move-work {s = s} (pace g n) d l = absurd (ground (arith, n, d))
  Move-work {s = s} (hand xs ys g e) d l =
      ground (arith, g, d, attackers_move s.attackers xs ys waiting working e)
  Move-work {s = s} (skip g) d l = ground (arith, g, d)
  Move-work {s = s} (crash g) d l = ground (arith, g, d, l)
  Move-work {s = s} (finish xs ys e _) d l =
      ground (arith, d, attackers_move s.attackers xs ys waiting gone e)
  Move-work {s = s} (abandon xs ys e _) d l =
      ground (arith, d, attackers_move s.attackers xs ys working gone e)
  Move-work {s = s} (answer xs ys e) d l =
      ground (arith, d, attackers_move s.attackers xs ys working sending e)
  Move-work {s = s} (send xs ys e _) d l =
      ground (arith, d, attackers_move s.attackers xs ys sending waiting e)
  Move-work {s = s} (end_collect g _) d l = ground (arith, g, d)
  Move-work {s = s} (take_result n g q k) d l =
      ground (arith, d, results_move s.attackers s.queue n q k)
  Move-work {s = s} (cancel_test n g q k) d l =
      ground (arith, d, results_move s.attackers s.queue n q k)

  run_work :
      {s u : Life} (r : Reach amount s u)
      → s.done ≡ true
      → (u.done ≡ true) × (steps r + work u ≤ work s)
  run_work here d = (d, omega arith)
  run_work (later r (alive l mv)) d =
      let (d', bound) = run_work r d in let (d'', less) = Move-work mv d' l in (d'', omega arith)

  -- Once the context is done, a run has at most as many steps as there is work left: a few for each
  -- attacker, and for each result in the queue as many as it can start attackers, and one. So every
  -- run of the goroutines ends, whatever the interleaving, autoscaling included.
  pub run_ends : {s u : Life} (r : Reach amount s u) → s.done ≡ true → steps r ≤ work s
  run_ends r d = let (_, bound) = run_work r d in omega arith

-- A move that can be made before `Run` has returned.
pub data Enabled (s : Life) : Type 0 where
  can_start_handler : s.main ≡ before_handler → Enabled s
  can_start_schedule : s.main ≡ before_schedule → Enabled s
  can_start_collect : s.main ≡ before_collect → Enabled s
  can_expire : s.done ≡ false → Enabled s
  can_await : s.main ≡ awaiting → s.done ≡ true → Enabled s
  can_leave : s.handler ≡ watching → s.done ≡ true → Enabled s
  can_end_collect : s.collector ≡ selecting → s.done ≡ true → Enabled s
  can_join : s.main ≡ joining → s.wg ≡ 0 → Enabled s
  can_report : s.main ≡ reporting → Enabled s

-- `Run` waits for the handler or the collector, and one of them can return.
join_progress : (s : Life) → IsOrderly s → s.main ≡ joining → Enabled s
join_progress s h e = split s.handler refl s.collector refl
  where
    done : s.done ≡ true
    done = ground (arith, e, h.timed_out)

    split : (x : Handler) → s.handler ≡ x → (y : Collecting) → s.collector ≡ y → Enabled s
    split watching eh y ec = can_leave eh done
    split unwatched eh selecting ec = can_end_collect ec done
    split left eh selecting ec = can_end_collect ec done
    split x eh y ec = can_join e (ground (arith, h.counted, eh, ec))

main_progress : (s : Life) → IsOrderly s → (m : Main) → s.main ≡ m → m ≢ returned → Enabled s
main_progress s h before_handler e n = can_start_handler e
main_progress s h before_schedule e n = can_start_schedule e
main_progress s h before_collect e n = can_start_collect e
main_progress s h awaiting e n = elim (Bool-cases s.done) [
  | inl d ↦ can_await e d
  | inr d ↦ can_expire d
]
main_progress s h joining e n = join_progress s h e
main_progress s h reporting e n = can_report e
main_progress s h returned e n = absurd (n refl)

pub progress : (s : Life) → IsOrderly s → s.main ≢ returned → Enabled s
progress s h n = main_progress s h s.main refl n

module _ (amount : ℕ) where
  enabled_move : (s : Life) → Enabled s → (u : Life) × Move amount s u
  enabled_move s (can_start_handler e) = (_, start_handler e)
  enabled_move s (can_start_schedule e) = (_, start_schedule e)
  enabled_move s (can_start_collect e) = (_, start_collect e)
  enabled_move s (can_expire d) = (_, expire d)
  enabled_move s (can_await e d) = (_, await e d)
  enabled_move s (can_leave e d) = (_, leave e d)
  enabled_move s (can_end_collect e d) = (_, end_collect e d)
  enabled_move s (can_join e w) = (_, join e w)
  enabled_move s (can_report e) = (_, report e)

  -- No run is stuck before its end, as long as `OutResults` has room: in every state that a run with any
  -- number of attackers reaches, unless a signal or a panic has ended the process, `Run` has returned or some step
  -- is possible.
  pub run_not_stuck :
      (n : ℕ) {s : Life}
      → Reach amount (launched n) s
      → s.killed ≡ false
      → s.main ≢ returned
      → (u : Life) × Step amount s u
  run_not_stuck n {s = s} r l e =
      let (u, mv) = enabled_move s (progress s (Reach-IsOrderly n r) e) in (u, alive l mv)
