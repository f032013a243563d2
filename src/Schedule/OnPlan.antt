-- ===== src/Schedule/OnPlan.antt =====
-- The loop of `schedule` (runner.go) follows the plan.
use mathlib.Core.List.{append-nil, append_assoc}
use mathlib.Core.Path.{ap₂}
use native.Mathlib.Numerals.{add-one}
use loaderbot.Prelude.{
  ℕ, zero, suc, ◌+◌, ◌-◌, ◌%◌, ◌≤◌, ◌<◌, ◌≡◌, refl, sym, ap, ◌∙◌, Bool, true, false, ◌&&◌, Option,
  none, some, List, [], ◌∷◌, ◌++◌, arith, length, length-append, replicate, ◌==◌, if◌then◌else◌,
}
use loaderbot.Prelude.Int.{ℤ, pos, pos_part, add64, eqb_ℤ}
use loaderbot.Result.{AttackToken}
use loaderbot.Schedule.{Limiters, Schedule, divides, token, next_step, next_tick, advance}
use loaderbot.Schedule.Plan.{step_of, rate_of, token_of, full_ticks}
use loaderbot.Schedule.Tokens.{replicate-snoc}
use loaderbot.Schedule.Plan.Rates.{step_of_next, rate_of_next}

abbrev pub limiter_for : {L : Type 0} → Limiters L → Bool → ℤ → Option L
limiter_for new_limiter true rate = some (new_limiter.make rate)
limiter_for new_limiter false rate = none

abbrev pub has_limiter : {L : Type 0} → Option L → Bool
has_limiter none = false
has_limiter (some _) = true

module _ {L : Type 0} (new_limiter : Limiters L) (limited : Bool) (d : ℕ) (first growth : ℤ)
    (d_pos : 0 < d) where
  -- The state of the loop, and the tokens that it has sent, are those of the plan.
  pub record OnPlan (s : Schedule L) (sent : List AttackToken) : Type 0 where
    pub ticks : s.ticks_in_step ≡ pos d
    pub started : 1 ≤ s.current_tick
    pub step : s.current_step ≡ step_of limited d first growth s.current_tick
    pub target : s.target_rps ≡ rate_of limited d first growth s.current_tick
    pub paced : s.limiter ≡ limiter_for new_limiter limited s.target_rps
    pub fired :
        sent
        ≡ full_ticks limited d first growth (s.current_tick - 1)
          ++ replicate s.requests_fired_in_tick (token s)
    pub counted : s.total_requests_fired ≡ length sent

  fired_more :
      (s : Schedule L) (sent : List AttackToken)
      → OnPlan s sent
      → sent ++ token s ∷ []
        ≡ full_ticks limited d first growth (s.current_tick - 1)
          ++ replicate (suc s.requests_fired_in_tick) (token s)
  fired_more s sent h =
      rw (h.fired, append_assoc)
        (ap (◌++◌ (full_ticks limited d first growth (s.current_tick - 1)))
          (replicate-snoc s.requests_fired_in_tick (token s)))

  -- A tick's tokens are complete when as many were sent as its rate says.
  pub fired_full :
      (s : Schedule L) (sent : List AttackToken)
      → OnPlan s sent
      → s.target_rps ≡ pos (suc s.requests_fired_in_tick)
      → sent ++ token s ∷ [] ≡ full_ticks limited d first growth s.current_tick
  unfolding token full_ticks
  fired_full s sent h e = block s.current_tick h.started refl
    where
      block :
          (t : ℕ)
          → 1 ≤ t
          → s.current_tick ≡ t
          → sent ++ token s ∷ [] ≡ full_ticks limited d first growth t
      block zero le at = elim le [ ]
      block (suc k) le at =
          let rate : s.target_rps ≡ rate_of limited d first growth (suc k) =
            h.target ∙ ap (rate_of limited d first growth) at in
          let same : token s ≡ token_of limited d first growth (suc k) = λ i. record {
            target_rps = rate i;
            step = (h.step ∙ ap (step_of limited d first growth) at) i;
            tick = at i;
          } in
          let past : s.current_tick - 1 ≡ k = omega arith in
          fired_more s sent h
          ∙ ap₂ ◌++◌ (ap (full_ticks limited d first growth) past)
              (ap₂ replicate (ap pos_part (sym e ∙ rate)) same)

  -- The next step, where `New` does not panic.
  unfoldable pub stepped : Schedule L → Option L → Schedule L
  stepped s none = s
  stepped s (some _) = record s {
    target_rps = add64 s.target_rps growth;
    limiter = some (new_limiter.make (add64 s.target_rps growth));
    current_step = s.current_step + 1;
  }

  -- `New` panics on the way to the next tick.
  unfoldable pub panics : Schedule L → Bool → Bool
  panics s b = b && (has_limiter s.limiter && new_limiter.refuses (add64 s.target_rps growth))

  next_step_lem :
      (s : Schedule L) (o : Option L)
      → next_step new_limiter growth s o ≡ (
          if has_limiter o && new_limiter.refuses (add64 s.target_rps growth)
          then none
          else some (stepped s o))
  unfolding next_step stepped
  next_step_lem s none = refl
  next_step_lem s (some l) = refl

  -- The state after a full tick.
  unfoldable pub turned : Schedule L → Bool → Schedule L
  turned s b =
      let s' = record s {
        total_requests_fired = s.total_requests_fired + 1;
        current_tick = s.current_tick + 1;
        requests_fired_in_tick = 0;
      } in
      if b then stepped s' s.limiter else s'

  unfoldable pub more : Schedule L → Schedule L
  more s = record s {
    total_requests_fired = s.total_requests_fired + 1;
    requests_fired_in_tick = s.requests_fired_in_tick + 1;
  }

  -- The state with the tick counted, before the step.
  counted_tick : Schedule L → Schedule L
  counted_tick s = record s {
    total_requests_fired = s.total_requests_fired + 1;
    current_tick = s.current_tick + 1;
    requests_fired_in_tick = 0;
  }

  turn_lem :
      (s : Schedule L) (b : Bool)
      → (if b
          then next_step new_limiter growth (counted_tick s) s.limiter
          else some (counted_tick s))
        ≡ (if panics s b then none else some (turned s b))
  unfolding turned panics counted_tick
  turn_lem s true = next_step_lem (counted_tick s) s.limiter
  turn_lem s false = refl

  pub advance_lem :
      (s : Schedule L)
      → s.ticks_in_step ≡ pos d
      → advance new_limiter growth s ≡ (
          if eqb_ℤ (pos (s.requests_fired_in_tick + 1)) s.target_rps
          then (if panics s ((s.current_tick + 1) % d == 0)
              then none
              else some (turned s ((s.current_tick + 1) % d == 0)))
          else some (more s))
  unfolding advance next_tick divides more counted_tick
  advance_lem s t = ground (arith, t, turn_lem s ((s.current_tick + 1) % d == 0))

  turned-ticks : (s : Schedule L) (b : Bool) → (turned s b).ticks_in_step ≡ s.ticks_in_step
  unfolding turned stepped
  turned-ticks s b = ground arith

  turned-step :
      (s : Schedule L) (sent : List AttackToken)
      → OnPlan s sent
      → (turned s ((s.current_tick + 1) % d == 0)).current_step
        ≡ step_of limited d first growth (s.current_tick + 1)
  unfolding turned stepped
  turned-step s sent h = ground (arith, step_of_next d first growth d_pos s.current_tick)

  pub turned-target :
      (s : Schedule L) (sent : List AttackToken)
      → OnPlan s sent
      → (turned s ((s.current_tick + 1) % d == 0)).target_rps
        ≡ rate_of limited d first growth (s.current_tick + 1)
  unfolding turned stepped
  turned-target s sent h =
      ground (arith, rate_of_next d first growth d_pos s.current_tick h.started)

  pub turned-tick : (s : Schedule L) (b : Bool) → (turned s b).current_tick ≡ s.current_tick + 1
  unfolding turned stepped
  turned-tick s b = ground arith

  turned-fired : (s : Schedule L) (b : Bool) → (turned s b).requests_fired_in_tick ≡ 0
  unfolding turned stepped
  turned-fired s b = ground arith

  turned-total :
      (s : Schedule L) (b : Bool) → (turned s b).total_requests_fired ≡ s.total_requests_fired + 1
  unfolding turned stepped
  turned-total s b = ground arith

  turned-paced :
      (s : Schedule L) (b : Bool)
      → s.limiter ≡ limiter_for new_limiter limited s.target_rps
      → (turned s b).limiter ≡ limiter_for new_limiter limited (turned s b).target_rps
  unfolding turned stepped
  turned-paced s b h = ground arith

  pub turned-OnPlan :
      (s : Schedule L) (sent : List AttackToken)
      → OnPlan s sent
      → sent ++ token s ∷ [] ≡ full_ticks limited d first growth s.current_tick
      → OnPlan (turned s ((s.current_tick + 1) % d == 0)) (sent ++ token s ∷ [])
  turned-OnPlan s sent h full =
      let b = (s.current_tick + 1) % d == 0 in
      let next = turned-tick s b in
      let plan = full_ticks limited d first growth in
      record {
        ticks = turned-ticks s b ∙ h.ticks;
        started = omega (arith, next);
        step = turned-step s sent h ∙ ap (step_of limited d first growth) (sym next);
        target = turned-target s sent h ∙ ap (rate_of limited d first growth) (sym next);
        paced = turned-paced s b h.paced;
        fired =
            full
            ∙ sym (append-nil (plan s.current_tick))
            ∙ ap₂ ◌++◌ (ap plan (omega (arith, next)))
                (ap (λ n. replicate n (token (turned s b))) (sym (turned-fired s b)));
        counted = omega (arith, h.counted, turned-total s b, length-append sent (token s ∷ []));
      }

  pub more-OnPlan :
      (s : Schedule L) (sent : List AttackToken)
      → OnPlan s sent
      → OnPlan (more s) (sent ++ token s ∷ [])
  unfolding more token
  more-OnPlan s sent h = record {
    ticks = h.ticks;
    started = h.started;
    step = h.step;
    target = h.target;
    paced = h.paced;
    fired =
        fired_more s sent h
        ∙ ap (λ n. full_ticks limited d first growth (s.current_tick - 1) ++ replicate n (token s))
            (sym (add-one s.requests_fired_in_tick));
    counted = omega (arith, h.counted, length-append sent (token s ∷ []));
  }
