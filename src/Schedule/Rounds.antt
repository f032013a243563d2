-- ===== src/Schedule/Rounds.antt =====
-- Whole runs of the loop of `schedule` (runner.go) on the plan.
use mathlib.Core.List.{append-nil, append_assoc}
use mathlib.Core.Path.{subst}
use loaderbot.Prelude.{
  ℕ, ◌+◌, ◌<◌, ◌≡◌, sym, ap, ◌∙◌, ◌≢◌, Bool, none, some, List, [], ◌∷◌, ◌++◌, arith, length,
}
use loaderbot.Prelude.Int.{ℤ}
use loaderbot.Result.{AttackToken}
use loaderbot.Outcome.{divide_by_zero}
use loaderbot.Schedule.{
  Limiters, Schedule, Poll, timed_out, accepted, refused, fire, crashed, Trace, token, takes,
  prepend, advance, schedule,
}
use loaderbot.Schedule.Tokens.{tokens, tokens-fire, tokens-takes}
use loaderbot.Schedule.OnPlan.{OnPlan}
use loaderbot.Schedule.Advance.{IsMade, advance-OnPlan, advance_goes_on}

module _ {L : Type 0} (new_limiter : Limiters L) (limited : Bool) (d : ℕ) (first growth : ℤ)
    (d_pos : 0 < d) where
  pub schedule_accepted :
      (s s' : Schedule L) (ps : List Poll)
      → advance new_limiter growth s ≡ some s'
      → schedule new_limiter growth s (accepted ∷ ps)
        ≡ prepend (takes s.limiter ++ fire (token s) ∷ []) (schedule new_limiter growth s' ps)
  unfolding schedule
  schedule_accepted s s' ps e = rw (e, schedule)

  pub schedule_panics :
      (s : Schedule L) (ps : List Poll)
      → advance new_limiter growth s ≡ none
      → schedule new_limiter growth s (accepted ∷ ps) ≡ record {
        signals = takes s.limiter ++ fire (token s) ∷ [];
        status = crashed divide_by_zero;
        last = s;
      }
  unfolding schedule
  schedule_panics s ps e = rw (e, schedule)

  abbrev pub EndsOnPlan : List AttackToken → Trace L → Type 0
  EndsOnPlan sent t =
      OnPlan new_limiter limited d first growth d_pos t.last (sent ++ tokens t.signals)
      × (t.status ≢ crashed divide_by_zero)

  -- If `New` makes the limiters of as many ticks as there are polls, from a state on the plan any run of the loop ends on the plan, with the
  -- tokens that it sends.
  pub schedule-EndsOnPlan :
      (s : Schedule L) (sent : List AttackToken) (ps : List Poll)
      → IsMade new_limiter limited d first growth d_pos (s.current_tick + length ps)
      → OnPlan new_limiter limited d first growth d_pos s sent
      → EndsOnPlan sent (schedule new_limiter growth s ps)
  unfolding schedule prepend tokens
  schedule-EndsOnPlan s sent [] made h =
      (subst (OnPlan new_limiter limited d first growth d_pos s) (sym (append-nil sent)) h, λ e. cc)
  schedule-EndsOnPlan s sent (timed_out ∷ ps) made h =
      (subst (OnPlan new_limiter limited d first growth d_pos s) (sym (append-nil sent)) h, λ e. cc)
  schedule-EndsOnPlan s sent (refused ∷ ps) made h =
      let (plan, safe) = schedule-EndsOnPlan s sent ps (λ t k. made t (omega (arith, k))) h in
      (
        subst
            (λ ts.
              OnPlan new_limiter limited d first growth d_pos
                (schedule new_limiter growth s ps).last (sent ++ ts))
            (sym (tokens-takes s.limiter _)) plan,
        safe,
      )
  schedule-EndsOnPlan s sent (accepted ∷ ps) made h =
      let (s', e, le) =
        advance_goes_on new_limiter limited d first growth d_pos s sent h
          (λ t k. made t (omega (arith, k))) in
      let h' = advance-OnPlan new_limiter limited d first growth d_pos s s' sent h e in
      let (plan, safe) =
        schedule-EndsOnPlan s' (sent ++ token s ∷ []) ps (λ t k. made t (omega (arith, k, le)))
          h' in
      subst (EndsOnPlan sent) (sym (schedule_accepted s s' ps e)) (
        subst
            (OnPlan new_limiter limited d first growth d_pos
              (schedule new_limiter growth s' ps).last)
            (append_assoc sent (token s ∷ []) _
              ∙ ap (◌++◌ sent) (sym (tokens-fire s.limiter (token s) _)))
            plan,
        safe,
      )
