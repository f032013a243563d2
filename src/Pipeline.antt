-- ===== src/Pipeline.antt =====
-- The scheduler and the collector of one runner together (runner.go, `schedule` and `collectResults`).
use loaderbot.Prelude.{
  length-replicate, ℕ, zero, suc, ◌-◌, ◌≤◌, ◌<◌, ◌≡◌, refl, sym, ap, ◌∙◌, ◌⊎◌, inl, inr, Bool, true,
  List, [], ◌∷◌, arith, length, select, replicate, All, All-append, ◌==◌, if◌then◌else◌,
}
use mathlib.Core.Path.{subst}
use loaderbot.Prelude.Int.{ℤ, pos, pos_part}
use loaderbot.Float.{Float64}
use loaderbot.Config.{RunnerConfig, ReportOptions}
use loaderbot.Result.{AttackToken, AttackResult}
use loaderbot.Metrics.{Quantile}
use loaderbot.Schedule.{Limiters, Schedule, Poll, Trace, token, start, schedule}
use loaderbot.Schedule.Plan.{rate_of, token_of, full_ticks}
use loaderbot.Schedule.OnPlan.{OnPlan}
use loaderbot.Schedule.LeftBehind.{has_tick, left_behind}
use loaderbot.Collect.{Collector, Effect, Event, collect_results}
use loaderbot.Collect.Ticks.{before_timeout, on_tick, pending, streamed, reports, AllUnfinished}
use loaderbot.Outcome.{Returns}
use loaderbot.Collect.Ticks.Total.{complete_tick}

-- The token is one of those that were sent.
abbrev pub IsSent : AttackToken → List AttackToken → Type 0
IsSent tok [] = ⊥
IsSent tok (x ∷ xs) = (tok ≡ x) ⊎ IsSent tok xs

All-IsSent :
    (P : AttackToken → Type 0) (tok : AttackToken) (xs : List AttackToken)
    → All P xs
    → IsSent tok xs
    → P tok
All-IsSent P tok [] h m = absurd m
All-IsSent P tok (x ∷ xs) h (inl e) = subst P (sym e) h.0
All-IsSent P tok (x ∷ xs) h (inr m) = All-IsSent P tok xs h.1 m

All-replicate : {A : Type 0} (P : A → Type 0) (n : ℕ) (a : A) → P a → All P (replicate n a)
All-replicate P zero a h = tt
All-replicate P (suc n) a h = (h, All-replicate P n a h)

module _ (d : ℕ) (first growth : ℤ) where
  -- The token has the rate of its tick.
  abbrev pub IsRated : AttackToken → Type 0
  IsRated tok = tok.target_rps ≡ rate_of true d first growth tok.tick

  full_ticks-IsRated : (n : ℕ) → All IsRated (full_ticks true d first growth n)
  unfolding full_ticks
  full_ticks-IsRated zero = tt
  full_ticks-IsRated (suc n) =
      All-append IsRated (full_ticks true d first growth n) _ (full_ticks-IsRated n)
        (All-replicate IsRated _ (token_of true d first growth (suc n)) refl)

  pub OnPlan-IsRated :
      {L : Type 0} (new_limiter : Limiters L) (d_pos : 0 < d) (s : Schedule L)
      (sent : List AttackToken)
      → OnPlan new_limiter true d first growth d_pos s sent
      → All IsRated sent
  unfolding token
  OnPlan-IsRated new_limiter d_pos s sent h = subst (All IsRated) (sym h.fired) (
      All-append IsRated (full_ticks true d first growth (s.current_tick - 1)) _
        (full_ticks-IsRated (s.current_tick - 1))
        (All-replicate IsRated s.requests_fired_in_tick (token s) h.target))

-- The requests that the plan asks for in a tick, at least one.
abbrev pub asked : {F : Type 0} → RunnerConfig F → ℕ → ℕ → ℕ
asked cfg d t =
    let n = pos_part (rate_of true d cfg.start_rps cfg.step_rps t) in if n == 0 then 1 else n

-- A run of the scheduler.
abbrev pub run : {L F : Type 0} → Limiters L → RunnerConfig F → ℕ → List Poll → Trace L
run new_limiter cfg attackers ps =
    schedule new_limiter cfg.step_rps (start new_limiter cfg attackers) ps

-- The result is one for a token that was sent, with a rate above 0.
abbrev pub Answers : List AttackToken → AttackResult → Type 0
Answers sent r = IsSent r.attack_token sent × (0 < pos_part r.attack_token.target_rps)

at_least_one : (n : ℕ) → 0 < n → (if n == 0 then 1 else n) ≡ n
at_least_one n h = ground arith

rate_lem : (a b : ℤ) → a ≡ b → 0 < pos_part a → a ≡ pos (if pos_part b == 0 then 1 else pos_part b)
rate_lem a b e h = ground arith

pub asked_pos : {F : Type 0} (cfg : RunnerConfig F) (d t : ℕ) → 0 < asked cfg d t
asked_pos cfg d t = ground arith

-- The result is one at the rate of its tick, and that above 0.
abbrev pub IsRatedResult : {F : Type 0} → RunnerConfig F → ℕ → AttackResult → Type 0
IsRatedResult cfg d r =
    IsRated d cfg.start_rps cfg.step_rps r.attack_token × (0 < pos_part r.attack_token.target_rps)

pub rated_targets :
    {F : Type 0} (cfg : RunnerConfig F) (d : ℕ) (rs : List AttackResult)
    → All (IsRatedResult cfg d) rs
    → All (λ r. r.attack_token.target_rps ≡ pos (asked cfg d r.attack_token.tick)) rs
rated_targets cfg d [] h = tt
rated_targets cfg d (r ∷ rs) h = (rate_lem _ _ h.0.0 h.0.1, rated_targets cfg d rs h.1)

module _ {L F : Type 0} (new_limiter : Limiters L) (cfg : RunnerConfig F) (d : ℕ) (d_pos : 0 < d)
    (s : Schedule L) (sent : List AttackToken)
    (plan : OnPlan new_limiter true d cfg.start_rps cfg.step_rps d_pos s sent) where
  Answers-IsRatedResult :
      (rs : List AttackResult) → All (Answers sent) rs → All (IsRatedResult cfg d) rs
  Answers-IsRatedResult [] h = tt
  Answers-IsRatedResult (r ∷ rs) h =
      let rated =
        All-IsSent (IsRated d cfg.start_rps cfg.step_rps) r.attack_token _
          (OnPlan-IsRated d cfg.start_rps cfg.step_rps new_limiter d_pos s sent plan) h.0.0 in
      ((rated, h.0.1), Answers-IsRatedResult rs h.1)

  -- A tick that is left behind on the plan asks for as many results as it sent tokens.
  pub left_behind_asked :
      (t : ℕ)
      → 1 ≤ t
      → t < s.current_tick
      → 0 < pos_part (rate_of true d cfg.start_rps cfg.step_rps t)
      → length (select (has_tick t) sent) ≡ asked cfg d t
  left_behind_asked t le lt rate =
      ap length
        (left_behind new_limiter true d cfg.start_rps cfg.step_rps d_pos s sent t plan le lt)
      ∙ length-replicate _ (token_of true d cfg.start_rps cfg.step_rps t)
      ∙ sym (at_least_one _ rate)

-- The collector has reported tick t once, with all its results, in order, and none is left.
abbrev pub IsReportedOnce :
    {F E : Type 0} → List Event → ℕ → Collector F E × List (Effect F E) → Type 0
IsReportedOnce evs t r =
    (select (on_tick t) (streamed r.1) ≡ select (on_tick t) (before_timeout evs))
    × (pending t r.0 ≡ [])
    × (reports t r.1 ≡ 1)

module _ {L F E : Type 0} ⦃fl : Float64 F⦄ ⦃q : Quantile F E⦄ (new_limiter : Limiters L)
    (cfg : RunnerConfig F) (opts : ReportOptions) (setup : ℕ → Bool)
    (ready : (i : ℕ) → setup i ≡ true) (stream : opts.stream ≡ true) (d : ℕ) (d_pos : 0 < d)
    (c : Collector F E) (evs : List Event) (t : ℕ) where
  pub tick_reported :
      (s : Schedule L) (sent : List AttackToken)
      → OnPlan new_limiter true d cfg.start_rps cfg.step_rps d_pos s sent
      → AllUnfinished (asked cfg d) c
      → All (IsRatedResult cfg d) (before_timeout evs)
      → 1 ≤ t
      → t < s.current_tick
      → 0 < pos_part (rate_of true d cfg.start_rps cfg.step_rps t)
      → pending t c ≡ []
      → length (select (on_tick t) (before_timeout evs)) ≡ length (select (has_tick t) sent)
      → Returns (IsReportedOnce evs t) (collect_results cfg opts setup c evs)
  tick_reported s sent plan fresh rated le lt rate none_waits answered =
      complete_tick cfg opts setup ready stream (asked cfg d) (asked_pos cfg d) c evs t fresh
        (rated_targets cfg d (before_timeout evs) rated) none_waits
        (answered ∙ left_behind_asked new_limiter cfg d d_pos s sent plan t le lt rate)
