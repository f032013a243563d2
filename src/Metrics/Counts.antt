-- ===== src/Metrics/Counts.antt =====
-- The counters of a tick (metrics.go, `add`).
use loaderbot.Prelude.{
  ◌+◌, ◌%◌, ◌^◌, ◌≤◌, ◌<◌, ◌≡◌, refl, ap, ◌∙◌, ℕ, Bool, true, false, if◌then◌else◌, List, [], ◌∷◌,
  arith, length, select,
}
use loaderbot.Prelude.Int.{ℤ, pos, pos_part, ◌+ℤ◌, add64, wrap64}
use loaderbot.Float.{Float64, of_int, ◌/f◌}
use loaderbot.Result.{AttackResult, has_error}
use loaderbot.Metrics.{Quantile, Metrics, new_metrics, add, add_all, update, is_success}

abbrev bit : Bool → ℕ
bit true = 1
bit false = 0

-- A counter that has room goes up by one where the test holds.
counted :
    (k : ℕ) (b : Bool) (z : ℤ)
    → z ≡ pos k
    → k + 1 < 2 ^ 63
    → (if b then add64 z (pos 1) else z) ≡ pos (k + bit b)
unfolding add64 ◌+ℤ◌ wrap64
counted k true z e h = ground (arith, e, h)
counted k false z e h = e ∙ ap pos (omega arith)

module _ {F E : Type 0} ⦃fl : Float64 F⦄ ⦃q : Quantile F E⦄ where
  requests-add_all :
      (m : Metrics F E) (rs : List AttackResult)
      → m.requests < 2 ^ 64
      → (add_all m rs).requests ≡ (m.requests + length rs) % 2 ^ 64
  unfolding add_all add
  requests-add_all m [] h = omega arith
  requests-add_all m (r ∷ rs) h = omega (arith, requests-add_all (add m r) rs (omega arith))

  errors_count-add_all :
      (m : Metrics F E) (rs : List AttackResult) (k : ℕ)
      → m.errors_count ≡ pos k
      → k + length rs < 2 ^ 63
      → (add_all m rs).errors_count ≡ pos (k + length (select has_error rs))
  unfolding add_all add
  errors_count-add_all m [] k e h = e ∙ ap pos (omega arith)
  errors_count-add_all m (r ∷ rs) k e h =
      let one = counted k (has_error r) m.errors_count e (omega (arith, h)) in
      let rest =
        errors_count-add_all (add m r) rs (k + bit (has_error r)) one (ground (arith, h)) in
      rest ∙ ap pos (ground arith)

  success_count-add_all :
      (m : Metrics F E) (rs : List AttackResult) (k : ℕ)
      → m.success_count ≡ pos k
      → k + length rs < 2 ^ 63
      → (add_all m rs).success_count ≡ pos (k + length (select is_success rs))
  unfolding add_all add
  success_count-add_all m [] k e h = e ∙ ap pos (omega arith)
  success_count-add_all m (r ∷ rs) k e h =
      let one = counted k (is_success r) m.success_count e (omega (arith, h)) in
      let rest =
        success_count-add_all (add m r) rs (k + bit (is_success r)) one (ground (arith, h)) in
      rest ∙ ap pos (ground arith)

-- A sample with an error is no success.
success_error_disjoint :
    (rs : List AttackResult)
    → length (select is_success rs) + length (select has_error rs) ≤ length rs
success_error_disjoint [] = omega arith
success_error_disjoint (r ∷ rs) = ground (arith, success_error_disjoint rs)

module _ (F E : Type 0) ⦃fl : Float64 F⦄ ⦃q : Quantile F E⦄ (rs : List AttackResult) where
  abbrev pub tick : Metrics F E
  tick = update (add_all new_metrics rs)

  -- For fewer than 2 ^ 63 samples, `add` on each and then `update` leave `Requests` at their number,
  -- `errorsCount` at the number with an error, `success` at the number with neither an error nor a bad
  -- status code, no sample in both counts, and `Success` at the quotient of `success` and `Requests`.
  pub tick_counts :
      length rs < 2 ^ 63
      → (tick.requests ≡ length rs)
        × (tick.errors_count ≡ pos (length (select has_error rs)))
        × (tick.success_count ≡ pos (length (select is_success rs)))
        × (pos_part tick.success_count + pos_part tick.errors_count ≤ tick.requests)
        × (tick.success_ratio
            ≡ of_int (pos (length (select is_success rs))) /f of_int (pos (length rs)))
  unfolding update new_metrics
  tick_counts h =
      let n : (add_all fresh rs).requests ≡ length rs =
        omega (arith, requests-add_all fresh rs (omega arith)) in
      let bad : (add_all fresh rs).errors_count ≡ pos (length (select has_error rs)) =
        errors_count-add_all fresh rs 0 refl (omega (arith, h)) ∙ ap pos (omega arith) in
      let good : (add_all fresh rs).success_count ≡ pos (length (select is_success rs)) =
        success_count-add_all fresh rs 0 refl (omega (arith, h)) ∙ ap pos (omega arith) in
      (n, bad, good, rw (good, bad, n) (success_error_disjoint rs), rw (n, good) refl)
    where
      fresh : Metrics F E
      fresh = new_metrics
