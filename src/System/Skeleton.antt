-- ===== src/System/Skeleton.antt =====
-- The goroutines alone: a run of the system, seen in Lifecycle (runner.go, attack.go, utils.go).
use loaderbot.Schedule.{Limiters}
use mathlib.Core.Path.{subst}
use loaderbot.Prelude.{
  ℕ, zero, suc, ◌+◌, ◌-◌, ◌≤◌, ◌≡◌, refl, sym, ap, ◌∙◌, Bool, true, false, ◌||◌, List, [], ◌∷◌,
  ◌++◌, map, arith, length, length-append, replicate, ltb,
}
use loaderbot.Float.{Float64}
use loaderbot.Config.{RunnerConfig, ReportOptions}
use loaderbot.Metrics.{Quantile}
use loaderbot.Outcome.Laws.{Returns-at}
use loaderbot.Result.{AttackResult}
use loaderbot.Collect.{Collector, collect_one}
use loaderbot.Collect.Books.{cancels, starts}
use loaderbot.Lifecycle
use loaderbot.Lifecycle.{Attacker, Life, launched, results_capacity}
use loaderbot.Lifecycle.Ends.{work, run_ends}
use loaderbot.Flow.{Hand, waiting, gone, working, sending}
use loaderbot.System
use loaderbot.System.{System, opening, Move, Step, alive, Reach, here, later, steps}
use loaderbot.System.Effects.{amount, IsJust, collect_one-IsJust}

-- Where an attacker stands.
abbrev pub place : Hand → Attacker
place waiting = Lifecycle.waiting
place gone = Lifecycle.gone
place (working _ _) = Lifecycle.working
place (sending _) = Lifecycle.sending

map-append : {A B : Type 0} (f : A → B) (xs ys : List A) → map f (xs ++ ys) ≡ map f xs ++ map f ys
map-append f [] ys = refl
map-append f (x ∷ xs) ys = ap (◌∷◌ (f x)) (map-append f xs ys)

place-replicate : (n : ℕ) → map place (replicate n waiting) ≡ replicate n Lifecycle.waiting
place-replicate zero = refl
place-replicate (suc n) = ap (◌∷◌ Lifecycle.waiting) (place-replicate n)

-- Of one attacker among the others.
at :
    (crew xs ys : List Hand) (a : Hand)
    → crew ≡ xs ++ a ∷ ys
    → map place crew ≡ map place xs ++ place a ∷ map place ys
at crew xs ys a e = ap (map place) e ∙ map-append place xs (a ∷ ys)

-- The state without the tokens, the results and the history.
abbrev pub life : {L F E : Type 0} → System L F E → Life
life s = record {
  done = s.is_over;
  killed = s.killed;
  main = s.main;
  scheduler = s.scheduler;
  attackers = map place s.crew;
  collector = s.collector;
  handler = s.handler;
  wg = s.wg;
  queue = length s.queue;
  next_closed = s.next_closed;
  out_closed = s.out_closed;
}

module _ {L F E : Type 0} ⦃fl : Float64 F⦄ ⦃q : Quantile F E⦄ (new_limiter : Limiters L)
    (cfg : RunnerConfig F) (opts : ReportOptions) (setup : ℕ → Bool)
    (ready : (i : ℕ) → setup i ≡ true) where
  abbrev Moved : System L F E → Life → Type 0
  Moved s v = Lifecycle.Move (amount cfg) (life s) v

  -- The attackers after a move of one of them.
  with_crew :
      (s : System L F E) (v : Life) (crew : List Hand) (ats : List Attacker)
      → ats ≡ map place crew
      → Moved s (record v { attackers = ats })
      → Moved s (record v { attackers = map place crew })
  with_crew s v crew ats e = subst (λ x. Moved s (record v { attackers = x })) e

  -- A result is taken: `b` says whether the test is cancelled.
  take_move :
      (s : System L F E) (r : AttackResult) (rest : List AttackResult) (n : ℕ) (b : Bool)
      → s.collector ≡ Lifecycle.selecting
      → s.queue ≡ r ∷ rest
      → n ≤ amount cfg
      → Moved s (record (life s) {
        done = s.is_over || b;
        queue = length rest;
        attackers = map place (s.crew ++ replicate n waiting);
      })
  take_move s r rest n b g e k = subst (λ v. Moved s v) (same b) (moved b)
    where
      one_less : length s.queue - 1 ≡ length rest
      one_less = omega (arith, ap length e)

      grown :
          map place s.crew ++ replicate n Lifecycle.waiting
          ≡ map place (s.crew ++ replicate n waiting)
      grown =
          ap (◌++◌ (map place s.crew)) (sym (place-replicate n))
          ∙ sym (map-append place s.crew (replicate n waiting))

      over : Bool → Bool
      over true = true
      over false = s.is_over

      or_over : (b : Bool) → over b ≡ (s.is_over || b)
      or_over true = ground arith
      or_over false = ground arith

      same :
          (b : Bool)
          → record (life s) {
            done = over b;
            queue = length s.queue - 1;
            attackers = map place s.crew ++ replicate n Lifecycle.waiting;
          }
            ≡ record (life s) {
              done = s.is_over || b;
              queue = length rest;
              attackers = map place (s.crew ++ replicate n waiting);
            }
      same b i = record (life s) { done = or_over b i; queue = one_less i; attackers = grown i }

      moved :
          (b : Bool)
          → Moved s (record (life s) {
            done = over b;
            queue = length s.queue - 1;
            attackers = map place s.crew ++ replicate n Lifecycle.waiting;
          })
      moved true = Lifecycle.cancel_test n g (omega (arith, ap length e)) k
      moved false = Lifecycle.take_result n g (omega (arith, ap length e)) k

  Move-Moved : {s u : System L F E} → Move new_limiter cfg opts setup s u → Moved s (life u)
  Move-Moved (System.expire g) = Lifecycle.expire g
  Move-Moved (System.start_handler g) = Lifecycle.start_handler g
  Move-Moved (System.start_schedule g) = Lifecycle.start_schedule g
  Move-Moved (System.start_collect g) = Lifecycle.start_collect g
  Move-Moved (System.await g d) = Lifecycle.await g d
  Move-Moved (System.join g w) = Lifecycle.join g w
  Move-Moved (System.report g) = Lifecycle.report g
  Move-Moved (System.leave g d) = Lifecycle.leave g d
  Move-Moved (System.signal g) = Lifecycle.signal g
  Move-Moved (System.stop g d) = Lifecycle.stop g d
  Move-Moved (System.pace g n) = Lifecycle.pace g n
  Move-Moved (System.skip g) = Lifecycle.skip g
  Move-Moved (System.crash xs ys g e a) = Lifecycle.crash g
  Move-Moved (System.end_collect g d) = Lifecycle.end_collect g d
  Move-Moved {s = s} (System.hand xs ys now next g e _) =
      with_crew s (record (life s) { scheduler = Lifecycle.polling }) (xs ++ _ ∷ ys) _
        (sym (map-append place xs (_ ∷ ys)))
        (Lifecycle.hand (map place xs) (map place ys) g (at s.crew xs ys _ e))
  Move-Moved {s = s} (System.finish xs ys e c) =
      with_crew s (life s) (xs ++ _ ∷ ys) _ (sym (map-append place xs (_ ∷ ys)))
        (Lifecycle.finish (map place xs) (map place ys) (at s.crew xs ys _ e) c)
  Move-Moved {s = s} (System.abandon xs ys tok b e d) =
      with_crew s (life s) (xs ++ _ ∷ ys) _ (sym (map-append place xs (_ ∷ ys)))
        (Lifecycle.abandon (map place xs) (map place ys) (at s.crew xs ys _ e) d)
  Move-Moved {s = s} (System.answer xs ys tok b f d e) =
      with_crew s (life s) (xs ++ _ ∷ ys) _ (sym (map-append place xs (_ ∷ ys)))
        (Lifecycle.answer (map place xs) (map place ys) (at s.crew xs ys _ e))
  Move-Moved {s = s} (System.time_out xs ys tok b f e) =
      with_crew s (life s) (xs ++ _ ∷ ys) _ (sym (map-append place xs (_ ∷ ys)))
        (Lifecycle.answer (map place xs) (map place ys) (at s.crew xs ys _ e))
  Move-Moved {s = s} (System.send xs ys r e k) =
      subst
        (λ n. Moved s (record (life s) { attackers = map place (xs ++ waiting ∷ ys); queue = n }))
        (sym (length-append s.queue (r ∷ [])))
        (with_crew s (record (life s) { queue = length s.queue + 1 }) (xs ++ _ ∷ ys) _
          (sym (map-append place xs (_ ∷ ys)))
          (Lifecycle.send (map place xs) (map place ys) (at s.crew xs ys _ e) k))
  Move-Moved {s = s} (System.take_result r rest books es g e ran) =
      let just =
        Returns-at (λ x. IsJust cfg opts setup (amount cfg) x.1)
          (collect_one cfg opts setup r s.books) _
          (collect_one-IsJust cfg opts setup ready r s.books) ran in
      take_move s r rest (starts es) (ltb 0 (cancels es)) g e just.0

  later_life :
      {s u : System L F E} (r : Reach new_limiter cfg opts setup s u)
      → (r' : Lifecycle.Reach (amount cfg) (life s) (life u)) × (Lifecycle.steps r'
          ≡ steps new_limiter cfg opts setup r)
  later_life here = (Lifecycle.here, refl)
  later_life (later r (alive l mv)) =
      let (r', e) = later_life r in
      (Lifecycle.later r' (Lifecycle.alive l (Move-Moved mv)), ap (λ n. n + 1) e)

  -- If all attackers set up: every run of the system, from any books and any number of attackers, is step
  -- for step a run of Lifecycle, which forgets tokens, results and books.
  pub Reach-life :
      (books : Collector F E) (attackers : ℕ) {s : System L F E}
      (r : Reach new_limiter cfg opts setup (opening new_limiter cfg books attackers) s)
      → (r' : Lifecycle.Reach (amount cfg) (launched attackers) (life s)) × (Lifecycle.steps r'
          ≡ steps new_limiter cfg opts setup r)
  unfolding opening launched
  Reach-life books attackers {s = s} r =
      subst
        (λ xs.
          (r' : Lifecycle.Reach (amount cfg) (record (launched attackers) { attackers = xs })
            (life s))
          × (Lifecycle.steps r' ≡ steps new_limiter cfg opts setup r))
        (place-replicate attackers) (later_life r)

  -- If all attackers set up: once the context is done, a run of the system has at most as many steps as
  -- there is work left for its goroutines: a few for each attacker, and for each result in the channel as
  -- many as it can start attackers, and one; whatever the interleaving, the tokens and the results.
  pub system_ends :
      {s u : System L F E} (r : Reach new_limiter cfg opts setup s u)
      → s.is_over ≡ true
      → steps new_limiter cfg opts setup r ≤ work (amount cfg) (life s)
  system_ends r d = let (r', e) = later_life r in omega (arith, e, run_ends (amount cfg) r' d)
