-- ===== src/Schedule/Advance.antt =====
-- A token that `schedule` (runner.go) has sent: the next state of the loop, on the plan.
use mathlib.Core.Path.{subst}
use loaderbot.Prelude.{
  ℕ, ◌+◌, ◌%◌, ◌≤◌, ◌<◌, ◌≡◌, refl, sym, ap, ◌∙◌, inl, inr, Bool, true, false, some, List, [], ◌∷◌,
  ◌++◌, arith, ◌==◌, Bool-cases,
}
use loaderbot.Prelude.Int.{ℤ, pos, add64, eqb_ℤ}
use loaderbot.Result.{AttackToken}
use loaderbot.Schedule.{Limiters, Schedule, token, advance}
use loaderbot.Schedule.Plan.{rate_of}
use loaderbot.Schedule.OnPlan.{
  limiter_for, has_limiter, OnPlan, panics, turned, stepped, advance_lem, turned-OnPlan,
  more-OnPlan, fired_full, turned-target, turned-tick, more,
}

module _ {L : Type 0} (new_limiter : Limiters L) (limited : Bool) (d : ℕ) (first growth : ℤ)
    (d_pos : 0 < d) where
  -- A token that is sent keeps the loop on the plan, if it does not panic.
  pub advance-OnPlan :
      (s s' : Schedule L) (sent : List AttackToken)
      → OnPlan new_limiter limited d first growth d_pos s sent
      → advance new_limiter growth s ≡ some s'
      → OnPlan new_limiter limited d first growth d_pos s' (sent ++ token s ∷ [])
  advance-OnPlan s s' sent h e =
      elim (Bool-cases (eqb_ℤ (pos (s.requests_fired_in_tick + 1)) s.target_rps)) [
        | inl f ↦ elim (Bool-cases (panics new_limiter limited d first growth d_pos s b)) [
          | inl p ↦ absurd (
              ground
                (arith, advance_lem new_limiter limited d first growth d_pos s h.ticks, e, f, p))
          | inr p ↦
              subst (λ x. OnPlan new_limiter limited d first growth d_pos x (sent ++ token s ∷ []))
                (some_eq _ _ (
                  sym (
                    advance_lem new_limiter limited d first growth d_pos s h.ticks ∙ rw (f, p) refl)
                  ∙ e))
                (turned-OnPlan new_limiter limited d first growth d_pos s sent h (
                  fired_full new_limiter limited d first growth d_pos s sent h (ground (arith, f))))
        ]
        | inr f ↦
            subst (λ x. OnPlan new_limiter limited d first growth d_pos x (sent ++ token s ∷ []))
              (some_eq _ _ (
                sym (advance_lem new_limiter limited d first growth d_pos s h.ticks ∙ rw f refl)
                ∙ e))
              (more-OnPlan new_limiter limited d first growth d_pos s sent h)
      ]
    where
      b : Bool
      b = (s.current_tick + 1) % d == 0

      some_eq : (x y : Schedule L) → some x ≡ some y → x ≡ y
      some_eq x y e = cc

  -- `New` makes a limiter for each rate of the plan up to tick n, where there is a limiter.
  abbrev pub IsMade : ℕ → Type 0
  IsMade n =
      (t : ℕ)
      → t ≤ n
      → limited ≡ true
      → new_limiter.refuses (rate_of limited d first growth t) ≡ false

  -- The rate of the next step is that of the plan.
  next_rate :
      (s : Schedule L) (sent : List AttackToken)
      → OnPlan new_limiter limited d first growth d_pos s sent
      → limited ≡ true
      → ((s.current_tick + 1) % d == 0) ≡ true
      → add64 s.target_rps growth ≡ rate_of limited d first growth (s.current_tick + 1)
  unfolding turned stepped
  next_rate s sent h l e =
      ground (arith, turned-target new_limiter limited d first growth d_pos s sent h, h.paced, l, e)

  no_limiter :
      (s : Schedule L) (sent : List AttackToken)
      → OnPlan new_limiter limited d first growth d_pos s sent
      → limited ≡ false
      → has_limiter s.limiter ≡ false
  no_limiter s sent h l =
      ap has_limiter h.paced ∙ ap (λ b. has_limiter (limiter_for new_limiter b s.target_rps)) l

  safe_turn :
      (s : Schedule L) (sent : List AttackToken)
      → OnPlan new_limiter limited d first growth d_pos s sent
      → IsMade (s.current_tick + 1)
      → panics new_limiter limited d first growth d_pos s ((s.current_tick + 1) % d == 0) ≡ false
  unfolding panics
  safe_turn s sent h made = elim (Bool-cases limited) [
    | inr l ↦ ground (arith, no_limiter s sent h l)
    | inl l ↦ elim (Bool-cases ((s.current_tick + 1) % d == 0)) [
      | inr e ↦ ground (arith, e)
      | inl e ↦
          let safe =
            ap new_limiter.refuses (next_rate s sent h l e)
            ∙ made (s.current_tick + 1) (omega arith) l in
          ground (arith, safe)
    ]
  ]

  one_tick :
      (s : Schedule L)
      → (more new_limiter limited d first growth d_pos s).current_tick ≤ s.current_tick + 1
  unfolding more
  one_tick s = omega arith

  -- If `New` makes the limiter, the loop does not panic.
  pub advance_goes_on :
      (s : Schedule L) (sent : List AttackToken)
      → OnPlan new_limiter limited d first growth d_pos s sent
      → IsMade (s.current_tick + 1)
      → (s' : Schedule L) × (advance new_limiter growth s ≡ some s')
        × (s'.current_tick ≤ s.current_tick + 1)
  advance_goes_on s sent h made =
      elim (Bool-cases (eqb_ℤ (pos (s.requests_fired_in_tick + 1)) s.target_rps)) [
        | inl e ↦ (
          turned new_limiter limited d first growth d_pos s ((s.current_tick + 1) % d == 0),
          advance_lem new_limiter limited d first growth d_pos s h.ticks
              ∙ rw (e, safe_turn s sent h made) refl,
          omega (
            arith,
            turned-tick new_limiter limited d first growth d_pos s ((s.current_tick + 1) % d == 0),
          ),
        )
        | inr e ↦ (
          more new_limiter limited d first growth d_pos s,
          advance_lem new_limiter limited d first growth d_pos s h.ticks ∙ rw e refl,
          one_tick s,
        )
      ]
