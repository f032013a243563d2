-- ===== src/Metrics/Errors.antt =====
-- The distinct error texts of a tick (metrics.go, `Errors` and `errors`), its status codes, and the
-- success ratio that `update` computes.
use loaderbot.Prelude.{
  ℕ, ◌+◌, ◌≡◌, refl, Bool, false, String, List, [], ◌∷◌, ◌++◌, arith, str_eq, eq_iff, length,
  select, if◌then◌else◌, ◌||◌, ◌&&◌,
}
use loaderbot.Prelude.Int.{ℤ, pos, ltb_ℤ, eqb_ℤ}
use loaderbot.Float.{Float64}
use loaderbot.Result.{AttackResult, has_error}
use loaderbot.Metrics.{
  Quantile, Metrics, new_metrics, add, add_all, is_known, increment, code_count,
}

-- No text stands twice in the list.
abbrev pub IsDistinct : List String → Type 0
IsDistinct [] = Unit
IsDistinct (e ∷ es) = (is_known e es ≡ false) × IsDistinct es

is_known-append :
    (e : String) (xs ys : List String) → is_known e (xs ++ ys) ≡ (is_known e xs || is_known e ys)
unfolding is_known
is_known-append e [] ys = refl
is_known-append e (x ∷ xs) ys = ground (arith, is_known-append e xs ys)

IsDistinct-snoc :
    (e : String) (xs : List String)
    → is_known e xs ≡ false
    → IsDistinct xs
    → IsDistinct (xs ++ e ∷ [])
unfolding is_known
IsDistinct-snoc e [] k d = (refl, tt)
IsDistinct-snoc e (x ∷ xs) k d = (
  ground (arith, is_known-append x xs (e ∷ []), eq_iff e x, eq_iff x e),
  IsDistinct-snoc e xs (ground arith) d.1,
)

-- Some sample failed with this text.
abbrev pub failed_with : String → AttackResult → Bool
failed_with e r = has_error r && str_eq r.do_result.error e

abbrev pub any_failed_with : String → List AttackResult → Bool
any_failed_with e [] = false
any_failed_with e (r ∷ rs) = failed_with e r || any_failed_with e rs

-- `errors` and `known_errors` hold the same texts.
abbrev IsInStep : {F E : Type 0} → Metrics F E → Type 0
IsInStep m = (e : String) → is_known e m.errors ≡ is_known e m.known_errors

-- The status code of the sample is counted under `code`.
abbrev pub has_code : ℤ → AttackResult → Bool
has_code code r = ltb_ℤ (pos 0) r.do_result.status_code && eqb_ℤ r.do_result.status_code code

code_count-increment :
    (code c : ℤ) (m : List (ℤ × ℕ))
    → code_count code (increment c m) ≡ code_count code m + (if eqb_ℤ c code then 1 else 0)
unfolding code_count increment
code_count-increment code c [] = ground arith
code_count-increment code c ((d, n) ∷ m) = ground (arith, code_count-increment code c m)

module _ {F E : Type 0} ⦃fl : Float64 F⦄ ⦃q : Quantile F E⦄ where
  add-IsInStep : (m : Metrics F E) (r : AttackResult) → IsInStep m → IsInStep (add m r)
  unfolding add is_known
  add-IsInStep m r h e = ground (arith, h e, is_known-append e m.errors (r.do_result.error ∷ []))

  add-IsDistinct :
      (m : Metrics F E) (r : AttackResult)
      → IsInStep m
      → IsDistinct m.errors
      → IsDistinct (add m r).errors
  unfolding add
  add-IsDistinct m r h d =
      ground (arith, h r.do_result.error, IsDistinct-snoc r.do_result.error m.errors)

  is_known-add :
      (e : String) (m : Metrics F E) (r : AttackResult)
      → IsInStep m
      → is_known e (add m r).errors ≡ (is_known e m.errors || failed_with e r)
  unfolding add is_known
  is_known-add e m r h = ground (
    arith,
    h r.do_result.error,
    h e,
    eq_iff r.do_result.error e,
    is_known-append e m.errors (r.do_result.error ∷ []),
  )

  add_all-IsDistinct :
      (m : Metrics F E) (rs : List AttackResult)
      → IsInStep m
      → IsDistinct m.errors
      → IsDistinct (add_all m rs).errors
  unfolding add_all
  add_all-IsDistinct m [] h d = d
  add_all-IsDistinct m (r ∷ rs) h d =
      add_all-IsDistinct (add m r) rs (add-IsInStep m r h) (add-IsDistinct m r h d)

  is_known-add_all :
      (e : String) (m : Metrics F E) (rs : List AttackResult)
      → IsInStep m
      → is_known e (add_all m rs).errors ≡ (is_known e m.errors || any_failed_with e rs)
  unfolding add_all
  is_known-add_all e m [] h = ground arith
  is_known-add_all e m (r ∷ rs) h =
      ground (arith, is_known-add_all e (add m r) rs (add-IsInStep m r h), is_known-add e m r h)

  code_count-add_all :
      (code : ℤ) (m : Metrics F E) (rs : List AttackResult)
      → code_count code (add_all m rs).status_codes
        ≡ code_count code m.status_codes + length (select (has_code code) rs)
  unfolding add_all add
  code_count-add_all code m [] = omega arith
  code_count-add_all code m (r ∷ rs) = ground (
    arith,
    code_count-add_all code (add m r) rs,
    code_count-increment code r.do_result.status_code m.status_codes,
  )

module _ (F E : Type 0) ⦃fl : Float64 F⦄ ⦃q : Quantile F E⦄ (rs : List AttackResult) where
  -- After `add` on each sample, `Errors` holds each text once, and holds exactly the non-empty error
  -- texts of the samples.
  pub tick_errors :
      IsDistinct (add_all (new_metrics {F = F} {E = E}) rs).errors
      × ((e : String)
          → is_known e (add_all (new_metrics {F = F} {E = E}) rs).errors ≡ any_failed_with e rs)
  unfolding new_metrics is_known
  tick_errors = (
    add_all-IsDistinct new_metrics rs (λ e. refl) tt,
    λ e. is_known-add_all e new_metrics rs (λ e. refl),
  )

  -- After `add` on each sample, the count under a code is the number of samples with that code, where
  -- codes of 0 or less are not counted.
  pub tick_codes :
      (code : ℤ)
      → code_count code (add_all (new_metrics {F = F} {E = E}) rs).status_codes
        ≡ length (select (has_code code) rs)
  unfolding new_metrics code_count
  tick_codes code = omega (arith, code_count-add_all code (new_metrics {F = F} {E = E}) rs)
