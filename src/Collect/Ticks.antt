-- ===== src/Collect/Ticks.antt =====
-- Ticks in `processTickMetrics` (runner.go): what the map of ticks holds, and what is sent on.
pub mod Entry
pub mod Silent
pub mod Stream
pub mod Total
use mathlib.Core.List.{append-nil, append_assoc}
use loaderbot.Prelude.{
  ℕ, zero, suc, ◌+◌, ◌*◌, ◌≤◌, ◌<◌, ◌≡◌, refl, sym, ap, ◌∙◌, Bool, true, false, Option, none, some,
  List, [], ◌∷◌, ◌++◌, arith, length, length-append, select, select-append, All, All-append, ◌==◌,
  if◌then◌else◌,
}
use loaderbot.Prelude.Maps.{ℕ_eq, lookup}
use loaderbot.Result.{AttackResult}
use loaderbot.Outcome.{Outcome, returned, exited, fatal, panicked}
use loaderbot.Collect.{
  TickMetrics, Collector, Effect, send_batch, cancel, log_tick, write_result, write_percentiles,
  set_gauges, start_attacker, close_results, Event, timed_out, received,
}

abbrev pub on_tick : ℕ → AttackResult → Bool
on_tick t r = r.attack_token.tick == t

abbrev pub AllOn : ℕ → List AttackResult → Type 0
AllOn t = All (λ r. r.attack_token.tick ≡ t)

pub select-AllOn :
    (t k : ℕ) (xs : List AttackResult)
    → AllOn k xs
    → select (on_tick t) xs ≡ (if k == t then xs else [])
select-AllOn t k [] h = ground arith
select-AllOn t k (x ∷ xs) h = ground (arith, select-AllOn t k xs h.1)

module _ {F E : Type 0} where
  -- The samples that wait for the rest of their tick.
  abbrev pub samples_of : Option (TickMetrics F E) → List AttackResult
  samples_of none = []
  samples_of (some tm) = tm.samples

  abbrev pub pending : ℕ → Collector F E → List AttackResult
  pending t c = samples_of (lookup t c.received_tick_metrics)

  -- All samples sent on `OutResults`, in order.
  unfoldable pub streamed : List (Effect F E) → List AttackResult
  streamed [] = []
  streamed (send_batch xs ∷ es) = xs ++ streamed es
  streamed (_ ∷ es) = streamed es

  -- How often a tick is reported.
  unfoldable pub reports : ℕ → List (Effect F E) → ℕ
  reports t [] = 0
  reports t (log_tick tok m ∷ es) = if tok.tick == t then suc (reports t es) else reports t es
  reports t (_ ∷ es) = reports t es

  pub streamed-append :
      (es es' : List (Effect F E)) → streamed (es ++ es') ≡ streamed es ++ streamed es'
  unfolding streamed
  streamed-append [] es' = refl
  streamed-append (send_batch xs ∷ es) es' =
      rw (streamed-append es es') (sym (append_assoc xs (streamed es) (streamed es')))
  streamed-append (cancel ∷ es) es' = streamed-append es es'
  streamed-append (log_tick tok m ∷ es) es' = streamed-append es es'
  streamed-append (write_result r s ∷ es) es' = streamed-append es es'
  streamed-append (write_percentiles r m ∷ es) es' = streamed-append es es'
  streamed-append (set_gauges tm ∷ es) es' = streamed-append es es'
  streamed-append (start_attacker ∷ es) es' = streamed-append es es'
  streamed-append (close_results ∷ es) es' = streamed-append es es'

  pub reports-append :
      (t : ℕ) (es es' : List (Effect F E)) → reports t (es ++ es') ≡ reports t es + reports t es'
  unfolding reports
  reports-append t [] es' = omega arith
  reports-append t (log_tick tok m ∷ es) es' = ground (arith, reports-append t es es')
  reports-append t (send_batch xs ∷ es) es' = reports-append t es es'
  reports-append t (cancel ∷ es) es' = reports-append t es es'
  reports-append t (write_result r s ∷ es) es' = reports-append t es es'
  reports-append t (write_percentiles r m ∷ es) es' = reports-append t es es'
  reports-append t (set_gauges tm ∷ es) es' = reports-append t es es'
  reports-append t (start_attacker ∷ es) es' = reports-append t es es'
  reports-append t (close_results ∷ es) es' = reports-append t es es'

-- The results that the loop receives before the test times out.
unfoldable pub before_timeout : List Event → List AttackResult
before_timeout [] = []
before_timeout (timed_out ∷ _) = []
before_timeout (received r ∷ evs) = r ∷ before_timeout evs

-- `T` is the number of samples that each tick asks for.
module _ {F E : Type 0} (T : ℕ → ℕ) where
  -- What is stored under a tick is unfinished: its samples are of that tick and too few.
  abbrev pub IsUnfinished : ℕ → Option (TickMetrics F E) → Type 0
  IsUnfinished t none = 0 < T t
  IsUnfinished t (some tm) = AllOn t tm.samples × (length tm.samples < T t) × (tm.reported ≡ false)

  abbrev pub AllUnfinished : Collector F E → Type 0
  AllUnfinished c = (t : ℕ) → IsUnfinished t (lookup t c.received_tick_metrics)

  -- From `c` with the results `rs` to `c'` with the effects `es`: for each tick the samples sent and
  -- those that wait are those that waited before and the results, and each report sent `T t` samples.
  pub record Accounts (c : Collector F E) (rs : List AttackResult) (c' : Collector F E)
      (es : List (Effect F E)) : Type 0 where
    pub unfinished : AllUnfinished c'
    pub conserved :
        (t : ℕ)
        → select (on_tick t) (streamed es) ++ pending t c' ≡ pending t c ++ select (on_tick t) rs
    pub whole : (t : ℕ) → length (select (on_tick t) (streamed es)) ≡ T t * reports t es
