-- ===== src/Schedule/LeftBehind.antt =====
-- The tokens of the ticks that `schedule` (runner.go) has left behind.
use mathlib.Core.List.{append-nil, append_assoc}
use mathlib.Core.Path.{subst}
use loaderbot.Prelude.{
  ℕ, zero, suc, ◌-◌, ◌≤◌, ◌<◌, ◌≡◌, refl, sym, ap, ◌∙◌, Bool, List, [], ◌∷◌, ◌++◌, Option, none,
  some, arith, replicate, select, select-append, ◌==◌, if◌then◌else◌,
}
use loaderbot.Prelude.Int.{ℤ, pos_part}
use loaderbot.Result.{AttackToken}
use loaderbot.Schedule.{
  Limiters, Schedule, Poll, timed_out, accepted, refused, fire, Trace, token, prepend, advance,
  schedule,
}
use loaderbot.Schedule.Plan.{rate_of, token_of, full_ticks}
use loaderbot.Schedule.OnPlan.{OnPlan}
use loaderbot.Schedule.Advance.{advance-OnPlan}
use loaderbot.Schedule.Rounds.{schedule_accepted, schedule_panics}
use loaderbot.Schedule.Tokens.{tokens, tokens-fire, tokens-takes}

abbrev pub has_tick : ℕ → AttackToken → Bool
has_tick t tok = tok.tick == t

select-replicate :
    {A : Type 0} (p : A → Bool) (n : ℕ) (a : A)
    → select p (replicate n a) ≡ (if p a then replicate n a else [])
select-replicate p zero a = ground arith
select-replicate p (suc n) a = ground (arith, select-replicate p n a)

module _ (limited : Bool) (d : ℕ) (first growth : ℤ) where
  abbrev pub tick_tokens : ℕ → List AttackToken
  tick_tokens t =
      replicate (pos_part (rate_of limited d first growth t)) (token_of limited d first growth t)

  select_none : (n t : ℕ) → n < t → select (has_tick t) (full_ticks limited d first growth n) ≡ []
  unfolding full_ticks
  select_none zero t h = refl
  select_none (suc n) t h = ground (
    arith,
    select-append (has_tick t) (full_ticks limited d first growth n) (tick_tokens (suc n)),
    select_none n t,
    select-replicate (has_tick t) (pos_part (rate_of limited d first growth (suc n)))
        (token_of limited d first growth (suc n)),
  )

  select-full_ticks :
      (n t : ℕ)
      → 1 ≤ t
      → t ≤ n
      → select (has_tick t) (full_ticks limited d first growth n) ≡ tick_tokens t
  unfolding full_ticks
  select-full_ticks zero t h k = absurd (omega arith)
  select-full_ticks (suc n) t h k = ground (
    arith,
    select-append (has_tick t) (full_ticks limited d first growth n) (tick_tokens (suc n)),
    select_none n t,
    select-full_ticks n t h,
    select-replicate (has_tick t) (pos_part (rate_of limited d first growth (suc n)))
        (token_of limited d first growth (suc n)),
    append-nil (tick_tokens t),
  )

pub left_behind :
    {L : Type 0} (new_limiter : Limiters L) (limited : Bool) (d : ℕ) (first growth : ℤ)
    (d_pos : 0 < d) (s : Schedule L) (sent : List AttackToken) (t : ℕ)
    → OnPlan new_limiter limited d first growth d_pos s sent
    → 1 ≤ t
    → t < s.current_tick
    → select (has_tick t) sent ≡ tick_tokens limited d first growth t
unfolding token
left_behind new_limiter limited d first growth d_pos s sent t h le lt =
    ap (select (has_tick t)) h.fired
    ∙ select-append (has_tick t) (full_ticks limited d first growth (s.current_tick - 1)) _
    ∙ ground (
      arith,
      select-full_ticks limited d first growth (s.current_tick - 1) t le,
      select-replicate (has_tick t) s.requests_fired_in_tick (token s),
      append-nil (tick_tokens limited d first growth t),
    )

module _ {L : Type 0} (new_limiter : Limiters L) (limited : Bool) (d : ℕ) (first growth : ℤ)
    (d_pos : 0 < d) (t : ℕ) (le : 1 ≤ t) where
  abbrev pub ticks_sent : List AttackToken → List AttackToken
  ticks_sent = select (has_tick t)

  one_more :
      (s : Schedule L) (sent : List AttackToken)
      → t < s.current_tick
      → ticks_sent (sent ++ token s ∷ []) ≡ ticks_sent sent
  unfolding token
  one_more s sent lt =
      select-append (has_tick t) sent (token s ∷ []) ∙ ground (arith, append-nil (ticks_sent sent))

  -- After tokens were sent, the run sends the rest of tick t, if it leaves t behind.
  abbrev pub HasSent : List AttackToken → Trace L → Type 0
  HasSent sent run =
      t < run.last.current_tick
      → ticks_sent (sent ++ tokens run.signals) ≡ tick_tokens limited d first growth t

  after_accept :
      (s : Schedule L) (sent : List AttackToken) (ps : List Poll)
      → OnPlan new_limiter limited d first growth d_pos s sent
      → ((s' : Schedule L)
          → OnPlan new_limiter limited d first growth d_pos s' (sent ++ token s ∷ [])
          → HasSent (sent ++ token s ∷ []) (schedule new_limiter growth s' ps))
      → (o : Option (Schedule L)) → advance new_limiter growth s ≡ o
      → HasSent sent (schedule new_limiter growth s (accepted ∷ ps))
  unfolding prepend tokens
  after_accept s sent ps h ih none e =
      subst (HasSent sent) (sym (schedule_panics new_limiter limited d first growth d_pos s ps e))
        λ lt.
          ap (λ ts. ticks_sent (sent ++ ts)) (tokens-takes s.limiter (fire (token s) ∷ []))
          ∙ one_more s sent lt
          ∙ left_behind new_limiter limited d first growth d_pos s sent t h le lt
  after_accept s sent ps h ih (some s') e =
      subst (HasSent sent)
        (sym (schedule_accepted new_limiter limited d first growth d_pos s s' ps e))
        λ lt.
          ap ticks_sent (
            ap (λ ts. sent ++ ts) (tokens-fire s.limiter (token s) _)
            ∙ sym (append_assoc sent (token s ∷ []) _))
          ∙ ih s' (advance-OnPlan new_limiter limited d first growth d_pos s s' sent h e) lt

  -- A tick that the loop has left behind has had its tokens, also if the loop panics later.
  pub schedule_left_behind :
      (s : Schedule L) (sent : List AttackToken) (ps : List Poll)
      → OnPlan new_limiter limited d first growth d_pos s sent
      → HasSent sent (schedule new_limiter growth s ps)
  unfolding schedule prepend tokens
  schedule_left_behind s sent [] h lt =
      ap ticks_sent (append-nil sent)
      ∙ left_behind new_limiter limited d first growth d_pos s sent t h le lt
  schedule_left_behind s sent (timed_out ∷ ps) h lt =
      ap ticks_sent (append-nil sent)
      ∙ left_behind new_limiter limited d first growth d_pos s sent t h le lt
  schedule_left_behind s sent (refused ∷ ps) h lt =
      ap (λ ts. ticks_sent (sent ++ ts)) (tokens-takes s.limiter _)
      ∙ schedule_left_behind s sent ps h lt
  schedule_left_behind s sent (accepted ∷ ps) h lt =
      after_accept s sent ps h (λ s' h'. schedule_left_behind s' (sent ++ token s ∷ []) ps h') _
        refl lt
