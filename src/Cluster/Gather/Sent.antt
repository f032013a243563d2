-- ===== src/Cluster/Gather/Sent.antt =====
-- The batches among the effects of a collector (runner.go).
use loaderbot.Prelude.{
  ℕ, ◌<◌, ◌≡◌, refl, sym, ap, ◌∙◌, Bool, true, false, List, [], ◌∷◌, ◌++◌, arith, length, ◌==◌,
  if◌then◌else◌,
}
use loaderbot.Prelude.Maps.{ℕ_eq}
use loaderbot.Result.{AttackResult}
use loaderbot.Metrics.{Metrics}
use loaderbot.Collect.{
  TickMetrics, Effect, send_batch, cancel, log_tick, write_result, write_percentiles, set_gauges,
  start_attacker, close_results,
}
use loaderbot.Collect.Ticks.{AllOn, reports, reports-append}
use loaderbot.Collect.Ticks.Silent.{IsSilent, report_effects, reports-report_effects}
use loaderbot.Cluster.Gather.Arrived.{count, count-append}
use loaderbot.Cluster.Gather.Once.{is_of, is_empty}

is_of-AllOn :
    (t k : ℕ) (xs : List AttackResult) → AllOn k xs → 0 < length xs → is_of t xs ≡ (k == t)
is_of-AllOn t k [] h p = absurd (omega arith)
is_of-AllOn t k (x ∷ xs) h p = ap (λ n. n == t) h.0

is_empty-length : (xs : List AttackResult) → 0 < length xs → is_empty xs ≡ false
is_empty-length [] p = absurd (omega arith)
is_empty-length (x ∷ xs) p = refl

module _ {F E : Type 0} where
  abbrev pub batches : List (Effect F E) → List (List AttackResult)
  batches [] = []
  batches (send_batch xs ∷ es) = xs ∷ batches es
  batches (_ ∷ es) = batches es

  batches-append : (es es' : List (Effect F E)) → batches (es ++ es') ≡ batches es ++ batches es'
  batches-append [] es' = refl
  batches-append (send_batch xs ∷ es) es' = ap (◌∷◌ xs) (batches-append es es')
  batches-append (cancel ∷ es) es' = batches-append es es'
  batches-append (log_tick _ _ ∷ es) es' = batches-append es es'
  batches-append (write_result _ _ ∷ es) es' = batches-append es es'
  batches-append (write_percentiles _ _ ∷ es) es' = batches-append es es'
  batches-append (set_gauges _ ∷ es) es' = batches-append es es'
  batches-append (start_attacker ∷ es) es' = batches-append es es'
  batches-append (close_results ∷ es) es' = batches-append es es'

  -- A batch for each report, and none is empty.
  abbrev pub IsBatched : List (Effect F E) → Type 0
  IsBatched es =
      ((t : ℕ) → count (is_of t) (batches es) ≡ reports t es) × (count is_empty (batches es) ≡ 0)

  pub IsBatched-append :
      (es es' : List (Effect F E)) → IsBatched es → IsBatched es' → IsBatched (es ++ es')
  IsBatched-append es es' h k =
      let both = batches-append es es' in
      (
        (λ t.
            ap (count (is_of t)) both
            ∙ count-append (is_of t) (batches es) (batches es')
            ∙ omega (arith, h.0 t, k.0 t, reports-append t es es')),
        ap (count is_empty) both
            ∙ count-append is_empty (batches es) (batches es')
            ∙ omega (arith, h.1, k.1),
      )

  batches-report_effects :
      (a b c : Bool) (res : AttackResult) (xs : List AttackResult) (tm : TickMetrics F E)
      (m : Metrics F E) (es : List (Effect F E))
      → batches (report_effects true a b c res xs tm m es) ≡ xs ∷ batches es
  batches-report_effects a b c res xs tm m es = ground arith

  -- The effects of a reported tick, with a batch of its samples.
  pub report_effects-IsBatched :
      (a b c : Bool) (res : AttackResult) (xs : List AttackResult) (tm : TickMetrics F E)
      (m : Metrics F E) (es : List (Effect F E))
      → IsSilent es
      → batches es ≡ []
      → AllOn res.attack_token.tick xs
      → 0 < length xs
      → IsBatched (report_effects true a b c res xs tm m es)
  report_effects-IsBatched a b c res xs tm m es silent quiet own some_sample =
      let one : batches (report_effects true a b c res xs tm m es) ≡ xs ∷ [] =
        batches-report_effects a b c res xs tm m es ∙ ap (◌∷◌ xs) quiet in
      (
        (λ t.
            ap (count (is_of t)) one
            ∙ ap (λ y. length (if y then xs ∷ [] else []))
                (is_of-AllOn t res.attack_token.tick xs own some_sample)
            ∙ by_test (res.attack_token.tick == t) xs
            ∙ sym (reports-report_effects res xs tm m es silent t a b c)),
        ap (count is_empty) one
            ∙ ap (λ y. length (if y then xs ∷ [] else [])) (is_empty-length xs some_sample),
      )
    where
      by_test :
          (y : Bool) (xs : List AttackResult)
          → length (if y then xs ∷ [] else []) ≡ (if y then 1 else 0)
      by_test true xs = refl
      by_test false xs = refl
