-- ===== src/Cluster/Logged.antt =====
-- How often a tick is aggregated, and the batches stored under it (client.go).
use loaderbot.Prelude.{
  ℕ, zero, suc, ◌+◌, ◌≤◌, ◌≡◌, refl, Bool, true, false, ◌&&◌, ◌||◌, Option, none, some, List, [],
  ◌∷◌, ◌++◌, arith, length, ltb, leb, ◌==◌, if◌then◌else◌,
}
use loaderbot.Prelude.Maps.{ℕ_eq, lookup}
use loaderbot.Float.{Float64, ◌<f◌}
use loaderbot.Result.{AttackResult}
use loaderbot.Metrics.{Metrics}
use loaderbot.Outcome.Laws.{Returns-bind}
use loaderbot.Outcome.{returned, Returns}
use loaderbot.Cluster.{
  ClusterTickMetrics, ClusterClient, Effect, log_tick, write_percentiles, shutdown, Event, batch,
  idle, effect_if, shutdowns,
}

module _ {F E : Type 0} where
  -- How often a tick is aggregated.
  unfoldable pub logs : ℕ → List (Effect F E) → ℕ
  logs t [] = 0
  logs t (log_tick k m ∷ es) = if k == t then suc (logs t es) else logs t es
  logs t (write_percentiles r m ∷ es) = logs t es
  logs t (shutdown i ∷ es) = logs t es

  pub logs-append :
      (t : ℕ) (es es' : List (Effect F E)) → logs t (es ++ es') ≡ logs t es + logs t es'
  unfolding logs
  logs-append t [] es' = omega arith
  logs-append t (log_tick k m ∷ es) es' = ground (arith, logs-append t es es')
  logs-append t (write_percentiles r m ∷ es) es' = logs-append t es es'
  logs-append t (shutdown i ∷ es) es' = logs-append t es es'

  abbrev pub batches_of : Option (ClusterTickMetrics F E) → ℕ
  batches_of none = 0
  batches_of (some tm) = length tm.samples

  -- The batches stored under a tick.
  abbrev pub stored : ℕ → ClusterClient F E → ℕ
  stored t c = batches_of (lookup t c.cluster_tick_metrics)

module _ {F E : Type 0} ⦃fl : Float64 F⦄ where
  -- A tick was aggregated with a success ratio below this one.
  unfoldable pub has_bad_tick : F → List (Effect F E) → Bool
  has_bad_tick ratio [] = false
  has_bad_tick ratio (log_tick k m ∷ es) = m.success_ratio <f ratio || has_bad_tick ratio es
  has_bad_tick ratio (write_percentiles r m ∷ es) = has_bad_tick ratio es
  has_bad_tick ratio (shutdown i ∷ es) = has_bad_tick ratio es

  pub has_bad_tick-append :
      (ratio : F) (es es' : List (Effect F E))
      → has_bad_tick ratio es' ≡ true
      → has_bad_tick ratio (es ++ es') ≡ true
  unfolding has_bad_tick
  has_bad_tick-append ratio [] es' h = h
  has_bad_tick-append ratio (log_tick k m ∷ es) es' h =
      ground (arith, has_bad_tick-append ratio es es' h)
  has_bad_tick-append ratio (write_percentiles r m ∷ es) es' h = has_bad_tick-append ratio es es' h
  has_bad_tick-append ratio (shutdown i ∷ es) es' h = has_bad_tick-append ratio es es' h

module _ (F E : Type 0) where
  -- The calls log no tick.
  abbrev pub LogsNone : List (Effect F E) → Type 0
  LogsNone es = (t : ℕ) → logs t es ≡ 0

  shutdowns-LogsNone :
      (answers : ℕ → Bool)
      → ((i : ℕ) → answers i ≡ true)
      → (i n : ℕ) → Returns LogsNone (shutdowns answers i n)
  unfolding logs shutdowns
  shutdowns-LogsNone answers all i zero = λ t. refl
  shutdowns-LogsNone answers all i (suc n) =
      rw (all i, Returns)
        (Returns-bind _ _ (shutdowns answers (i + 1) n) _ (shutdowns-LogsNone answers all (i + 1) n)
          λ es h. h)

  pub stops-LogsNone :
      (answers : ℕ → Bool)
      → ((i : ℕ) → answers i ≡ true)
      → (bad : Bool) (n : ℕ) → Returns LogsNone (if bad then shutdowns answers 0 n else returned [])
  unfolding logs
  stops-LogsNone answers all true n = shutdowns-LogsNone answers all 0 n
  stops-LogsNone answers all false n = λ t. refl

  pub logs_of_batch :
      (t k : ℕ) (m : Metrics F E) (r : AttackResult) (full csv : Bool) (stops : List (Effect F E))
      → logs t stops ≡ 0
      → logs t
          (if full then log_tick k m ∷ (effect_if csv (write_percentiles r m) ++ stops) else [])
        ≡ (if full && k == t then 1 else 0)
  unfolding logs
  logs_of_batch t k m r full csv stops h = ground (arith, h)

-- No batch is empty.
abbrev pub AllFilled : List Event → Type 0
AllFilled [] = Unit
AllFilled (batch [] ∷ evs) = ⊥
AllFilled (batch (_ ∷ _) ∷ evs) = AllFilled evs
AllFilled (idle _ ∷ evs) = AllFilled evs

-- From the sizes before and after to the claim about one tick.
pub count_other :
    (nodes n n' l : ℕ)
    → n' ≡ n
    → l ≡ 0
    → (n ≤ n') × (l ≡ (if ltb n nodes && leb nodes n' then 1 else 0))
count_other nodes n n' l e z = ground arith

pub count_same :
    (nodes n n' l : ℕ)
    → n' ≡ suc n
    → l ≡ (if n' == nodes then 1 else 0)
    → (n ≤ n') × (l ≡ (if ltb n nodes && leb nodes n' then 1 else 0))
count_same nodes n n' l e z = ground arith

-- Two runs, one after the other.
pub count_trans :
    (nodes n n' n'' l l' : ℕ)
    → (n ≤ n') × (l ≡ (if ltb n nodes && leb nodes n' then 1 else 0))
    → (n' ≤ n'') × (l' ≡ (if ltb n' nodes && leb nodes n'' then 1 else 0))
    → (n ≤ n'') × (l + l' ≡ (if ltb n nodes && leb nodes n'' then 1 else 0))
count_trans nodes n n' n'' l l' a b = ground arith
