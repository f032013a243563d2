-- ===== src/Flow/Reported.antt =====
-- The reports of a run's ticks (runner.go, attack.go).
use mathlib.Core.Path.{subst}
use loaderbot.Prelude.{
  ℕ, ◌≤◌, ◌<◌, ◌≡◌, refl, sym, ap, ◌∙◌, Bool, true, not, some, List, [], ◌∷◌, arith, length, select,
  map, All,
}
use loaderbot.Prelude.Int.{ℤ, pos, pos_part, eqb_ℤ}
use loaderbot.Float.{Float64}
use loaderbot.Config.{RunnerConfig, ReportOptions}
use loaderbot.Result.{AttackToken, AttackResult}
use loaderbot.Metrics.{Quantile}
use loaderbot.Outcome.{Returns}
use loaderbot.Schedule.{Limiters, Schedule}
use loaderbot.Schedule.Plan.{rate_of}
use loaderbot.Schedule.OnPlan.{OnPlan}
use loaderbot.Schedule.Advance.{advance-OnPlan}
use loaderbot.Schedule.Correct.{IsBound, start-OnPlan}
use loaderbot.Schedule.LeftBehind.{has_tick}
use loaderbot.Collect.{Collector, received, collect_results}
use loaderbot.Collect.Ticks.{before_timeout, on_tick, pending, AllUnfinished}
use loaderbot.Pipeline.{
  asked, IsRated, OnPlan-IsRated, IsRatedResult, IsReportedOnce, tick_reported, left_behind_asked,
}
use loaderbot.Flow.{
  Flow, opening, Step, expire, fire, answer, time_out, abandon, retire, send, receive, Reach, here,
  later,
}
use loaderbot.Flow.Kept.{count, results, held, one_if, Reach-IsKept}

module _ (d : ℕ) (first growth : ℤ) where
  off_rate : AttackToken → Bool
  off_rate tok = not (eqb_ℤ tok.target_rps (rate_of true d first growth tok.tick))

  rated-count :
      (toks : List AttackToken) → All (IsRated d first growth) toks → count off_rate toks ≡ 0
  unfolding off_rate
  rated-count [] h = refl
  rated-count (t ∷ toks) h = ground (arith, rated-count toks h.1, h.0)

  on_rate : (tok : AttackToken) → one_if (off_rate tok) ≡ 0 → IsRated d first growth tok
  unfolding off_rate
  on_rate tok h = ground (arith, h)

pub events-results : (rs : List AttackResult) → before_timeout (map received rs) ≡ rs
unfolding before_timeout
events-results [] = refl
events-results (r ∷ rs) = ap (◌∷◌ r) (events-results rs)

results-on_tick :
    (t : ℕ) (rs : List AttackResult) → results (has_tick t) rs ≡ length (select (on_tick t) rs)
results-on_tick t [] = refl
results-on_tick t (r ∷ rs) = ground (arith, results-on_tick t rs)

-- The result is for a token with a rate above 0.
abbrev pub IsPositive : AttackResult → Type 0
IsPositive r = 0 < pos_part r.attack_token.target_rps

rated_results :
    {F : Type 0} (cfg : RunnerConfig F) (d : ℕ) (rs : List AttackResult)
    → results (off_rate d cfg.start_rps cfg.step_rps) rs ≡ 0
    → All IsPositive rs
    → All (IsRatedResult cfg d) rs
rated_results cfg d [] z h = tt
rated_results cfg d (r ∷ rs) z h = (
  (on_rate d cfg.start_rps cfg.step_rps r.attack_token (omega (arith, z)), h.0),
  rated_results cfg d rs (omega (arith, z)) h.1,
)

module _ {L F : Type 0} (new_limiter : Limiters L) (cfg : RunnerConfig F) (d : ℕ) (d_pos : 0 < d)
    (bound : IsBound cfg.system_mode) (step : cfg.step_duration_sec ≡ pos d) where
  abbrev FollowsPlan : Flow L → Type 0
  FollowsPlan s = OnPlan new_limiter true d cfg.start_rps cfg.step_rps d_pos s.schedule s.fired

  some_eq : (a b : Schedule L) → some a ≡ some b → a ≡ b
  some_eq a b e = cc

  Step-FollowsPlan : {s u : Flow L} → Step new_limiter cfg s u → FollowsPlan s → FollowsPlan u
  Step-FollowsPlan {s = s} (fire xs ys now next e a) h =
      advance-OnPlan new_limiter true d cfg.start_rps cfg.step_rps d_pos s.schedule next s.fired h a
  Step-FollowsPlan (expire _) h = h
  Step-FollowsPlan (answer _ _ _ _ _ _ _) h = h
  Step-FollowsPlan (time_out _ _ _ _ _ _) h = h
  Step-FollowsPlan (abandon _ _ _ _ _ _) h = h
  Step-FollowsPlan (retire _ _ _) h = h
  Step-FollowsPlan (send _ _ _ _ _) h = h
  Step-FollowsPlan (receive _ _ _ _) h = h

  Reach-FollowsPlan :
      (attackers : ℕ) {s : Flow L}
      → Reach new_limiter cfg (opening new_limiter cfg attackers) s
      → FollowsPlan s
  unfolding opening
  Reach-FollowsPlan attackers here = start-OnPlan new_limiter cfg attackers d d_pos bound step
  Reach-FollowsPlan attackers (later r st) = Step-FollowsPlan st (Reach-FollowsPlan attackers r)

  -- All results that the collector has had are at the rate of their tick.
  pub collected_rated :
      (attackers : ℕ) {s : Flow L}
      → Reach new_limiter cfg (opening new_limiter cfg attackers) s
      → All IsPositive s.collected
      → All (IsRatedResult cfg d) s.collected
  collected_rated attackers {s = s} r h =
      let none_off = rated-count d cfg.start_rps cfg.step_rps s.fired (
        OnPlan-IsRated d cfg.start_rps cfg.step_rps new_limiter d_pos s.schedule s.fired
          (Reach-FollowsPlan attackers r)) in
      rated_results cfg d s.collected
        (omega (
          arith,
          none_off,
          Reach-IsKept (off_rate d cfg.start_rps cfg.step_rps) new_limiter cfg attackers r,
        ))
        h

  -- The results of a tick that nobody holds any more are as many as its tokens.
  arrived :
      (attackers : ℕ) (t : ℕ) {s : Flow L}
      → Reach new_limiter cfg (opening new_limiter cfg attackers) s
      → held (has_tick t) s.crew ≡ 0
      → count (has_tick t) s.dropped ≡ 0
      → results (has_tick t) s.queue ≡ 0
      → length (select (on_tick t) s.collected) ≡ length (select (has_tick t) s.fired)
  arrived attackers t {s = s} r no_hand no_drop no_queue = omega (
    arith,
    Reach-IsKept (has_tick t) new_limiter cfg attackers r,
    results-on_tick t s.collected,
    no_hand,
    no_drop,
    no_queue,
  )

  -- A tick that the scheduler has left behind, and that nobody holds any more, has all its results.
  pub all_arrived :
      (attackers : ℕ) (t : ℕ) {s : Flow L}
      → Reach new_limiter cfg (opening new_limiter cfg attackers) s
      → 1 ≤ t
      → t < s.schedule.current_tick
      → 0 < pos_part (rate_of true d cfg.start_rps cfg.step_rps t)
      → held (has_tick t) s.crew ≡ 0
      → count (has_tick t) s.dropped ≡ 0
      → results (has_tick t) s.queue ≡ 0
      → length (select (on_tick t) s.collected) ≡ asked cfg d t
  all_arrived attackers t {s = s} r le lt rate no_hand no_drop no_queue =
      arrived attackers t r no_hand no_drop no_queue
      ∙ left_behind_asked new_limiter cfg d d_pos s.schedule s.fired (Reach-FollowsPlan attackers r)
          t le lt rate

module _ {L F E : Type 0} ⦃fl : Float64 F⦄ ⦃q : Quantile F E⦄ (new_limiter : Limiters L)
    (cfg : RunnerConfig F) (opts : ReportOptions) (setup : ℕ → Bool)
    (ready : (i : ℕ) → setup i ≡ true) (stream : opts.stream ≡ true) (d : ℕ) (d_pos : 0 < d)
    (bound : IsBound cfg.system_mode) (step : cfg.step_duration_sec ≡ pos d) where
  -- A runner with a limiter and with steps of `d` seconds, 0 < d, that streams, and whose attackers all
  -- set up, at any moment of a run with any number of attackers and any interleaving. If the scheduler
  -- has left tick t behind, whose rate is above 0 as are those of all results, and no token of t is with
  -- an attacker, was dropped, or has its result in the channel, then the collector, from unfinished
  -- ticks with no sample of t, gets through all the results that it has received and has reported t
  -- once, with all its results, in order, and none is left.
  pub flow_reports :
      (attackers : ℕ) (c : Collector F E) (t : ℕ) {s : Flow L}
      → Reach new_limiter cfg (opening new_limiter cfg attackers) s
      → AllUnfinished (asked cfg d) c
      → pending t c ≡ []
      → 1 ≤ t
      → t < s.schedule.current_tick
      → 0 < pos_part (rate_of true d cfg.start_rps cfg.step_rps t)
      → All IsPositive s.collected
      → held (has_tick t) s.crew ≡ 0
      → count (has_tick t) s.dropped ≡ 0
      → results (has_tick t) s.queue ≡ 0
      → Returns
          (IsReportedOnce (map received s.collected) t)
          (collect_results cfg opts setup c (map received s.collected))
  flow_reports attackers c t {s = s} r fresh none_waits le lt rate positive no_hand no_drop
        no_queue =
      let evs = events-results s.collected in
      tick_reported new_limiter cfg opts setup ready stream d d_pos c (map received s.collected) t
        s.schedule s.fired (Reach-FollowsPlan new_limiter cfg d d_pos bound step attackers r) fresh
        (subst (All (IsRatedResult cfg d)) (sym evs)
          (collected_rated new_limiter cfg d d_pos bound step attackers r positive))
        le lt rate none_waits
        (ap (λ rs. length (select (on_tick t) rs)) evs
          ∙ arrived new_limiter cfg d d_pos bound step attackers t r no_hand no_drop no_queue)
