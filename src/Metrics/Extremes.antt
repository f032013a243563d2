-- ===== src/Metrics/Extremes.antt =====
-- The earliest and latest instants of a tick, and its longest latency (metrics.go, `add`).
use loaderbot.Prelude.{ℕ, ◌≤◌, ◌<◌, ◌≡◌, refl, ap, sym, ◌∙◌, Bool, List, [], ◌∷◌, arith, All, ltb}
use mathlib.Core.Path.{subst}
use loaderbot.Prelude.Int.{ℤ, pos, ltb_ℤ, ◌≤ℤ◌}
use loaderbot.Prelude.Best.{Attains, Unbeaten, best, best-Attains, best-Unbeaten, best_start}
use loaderbot.Float.{Float64}
use loaderbot.Result.{AttackResult}
use loaderbot.Metrics.{Quantile, Metrics, new_metrics, add, add_all}

abbrev gtb : ℕ → ℕ → Bool
gtb a b = ltb b a

abbrev began : AttackResult → ℕ
began r = r.begin

abbrev ended : AttackResult → ℕ
ended r = r.end

abbrev took : AttackResult → ℤ
took r = r.elapsed

module _ {F E : Type 0} ⦃fl : Float64 F⦄ ⦃q : Quantile F E⦄ where
  latest-add_all :
      (m : Metrics F E) (rs : List AttackResult)
      → (add_all m rs).latest ≡ best ltb began m.latest rs
  unfolding add_all add best
  latest-add_all m [] = refl
  latest-add_all m (r ∷ rs) = latest-add_all (add m r) rs

  end-add_all :
      (m : Metrics F E) (rs : List AttackResult) → (add_all m rs).end ≡ best ltb ended m.end rs
  unfolding add_all add best
  end-add_all m [] = refl
  end-add_all m (r ∷ rs) = end-add_all (add m r) rs

  max-add_all :
      (m : Metrics F E) (rs : List AttackResult)
      → (add_all m rs).latencies.max ≡ best ltb_ℤ took m.latencies.max rs
  unfolding add_all add best
  max-add_all m [] = refl
  max-add_all m (r ∷ rs) = max-add_all (add m r) rs

  earliest-add :
      (m : Metrics F E) (r : AttackResult)
      → 0 < m.earliest
      → (add m r).earliest ≡ best gtb began m.earliest (r ∷ [])
  unfolding add best
  earliest-add m r h = ground arith

  earliest-add_all :
      (m : Metrics F E) (rs : List AttackResult)
      → 0 < m.earliest
      → All (λ r. 0 < r.begin) rs
      → (add_all m rs).earliest ≡ best gtb began m.earliest rs
  unfolding add_all best
  earliest-add_all m [] h hs = refl
  earliest-add_all m (r ∷ rs) h hs =
      earliest-add_all (add m r) rs (rw (earliest-add m r h) (ground arith)) hs.1
      ∙ ap (λ t. best gtb began t rs) (earliest-add m r h)

-- From the Boolean tests to the orders.
All-le {ℓ} :
    {A : Type ℓ} (f : A → ℕ) (v : ℕ) (xs : List A) → Unbeaten ltb f v xs → All (λ x. f x ≤ v) xs
All-le f v [] h = tt
All-le f v (x ∷ xs) h = (ground arith, All-le f v xs h.1)

All-ge {ℓ} :
    {A : Type ℓ} (f : A → ℕ) (v : ℕ) (xs : List A) → Unbeaten gtb f v xs → All (λ x. v ≤ f x) xs
All-ge f v [] h = tt
All-ge f v (x ∷ xs) h = (ground arith, All-ge f v xs h.1)

All-le_ℤ {ℓ} :
    {A : Type ℓ} (f : A → ℤ) (v : ℤ) (xs : List A) → Unbeaten ltb_ℤ f v xs → All (λ x. f x ≤ℤ v) xs
All-le_ℤ f v [] h = tt
All-le_ℤ f v (x ∷ xs) h = (ground arith, All-le_ℤ f v xs h.1)

-- What the figures of a non-empty tick say of its samples.
pub record IsSpan {F E : Type 0} (m : Metrics F E) (rs : List AttackResult) : Type 0 where
  pub earliest_bound : All (λ r. m.earliest ≤ r.begin) rs
  pub earliest_attained : Attains began m.earliest rs
  pub latest_bound : All (λ r. r.begin ≤ m.latest) rs
  pub latest_attained : Attains began m.latest rs
  pub end_bound : All (λ r. r.end ≤ m.end) rs
  pub end_attained : Attains ended m.end rs
  pub max_bound : All (λ r. r.elapsed ≤ℤ m.latencies.max) rs

best_le : {A : Type 0} (f : A → ℕ) (v : ℕ) (xs : List A) → All (λ x. f x ≤ best ltb f v xs) xs
best_le f v xs =
    All-le f _ xs (best-Unbeaten ltb f (λ n. ground arith) (λ a b c h k. ground arith) v xs)

-- A best that starts at 0 is attained, if the first value is not 0.
best_pos-Attains :
    {A : Type 0} (f : A → ℕ) (x : A) (xs : List A)
    → 0 < f x
    → Attains f (best ltb f 0 (x ∷ xs)) (x ∷ xs)
best_pos-Attains f x xs h = ground (arith, best-Attains ltb f 0 (x ∷ xs), best_le f 0 (x ∷ xs))

best_ge :
    {A : Type 0} (f : A → ℕ) (x : A) (xs : List A) → All (λ y. best gtb f (f x) xs ≤ f y) (x ∷ xs)
best_ge f x xs = (
  ground (arith, best_start gtb f (λ n. ground arith) (λ a b c h k. ground arith) (f x) xs),
  All-ge f _ xs (best-Unbeaten gtb f (λ n. ground arith) (λ a b c h k. ground arith) (f x) xs),
)

best_le_ℤ : {A : Type 0} (f : A → ℤ) (v : ℤ) (xs : List A) → All (λ x. f x ≤ℤ best ltb_ℤ f v xs) xs
best_le_ℤ f v xs =
    All-le_ℤ f _ xs (best-Unbeaten ltb_ℤ f (λ n. ground arith) (λ a b c h k. ground arith) v xs)

best_head-Attains :
    {A V : Type 0} (lt : V → V → Bool) (f : A → V) (x : A) (xs : List A)
    → Attains f (best lt f (f x) xs) (x ∷ xs)
best_head-Attains lt f x xs = ground (arith, best-Attains lt f (f x) xs)

module _ (F E : Type 0) ⦃fl : Float64 F⦄ ⦃q : Quantile F E⦄ where
  earliest-new_metrics :
      (r : AttackResult) (rs : List AttackResult)
      → 0 < r.begin
      → All (λ r. 0 < r.begin) rs
      → (add_all (new_metrics {F = F} {E = E}) (r ∷ rs)).earliest ≡ best gtb began r.begin rs
  unfolding add_all add new_metrics
  earliest-new_metrics r rs h hs = earliest-add_all (add new_metrics r) rs h hs

  -- After the samples of a non-empty tick were added to fresh metrics, `Earliest` and `Latest` are the
  -- least and the greatest start of a sample, `End` is the greatest end, and no latency is above
  -- `Latencies.Max`, if no sample starts at the zero time and the first one ends after it.
  pub add_all-IsSpan :
      (r : AttackResult) (rs : List AttackResult)
      → All (λ x. 0 < x.begin) (r ∷ rs)
      → 0 < r.end
      → IsSpan (add_all (new_metrics {F = F} {E = E}) (r ∷ rs)) (r ∷ rs)
  unfolding new_metrics
  add_all-IsSpan r rs h e =
      let all = r ∷ rs in
      let first = earliest-new_metrics r rs h.0 h.1 in
      let last = latest-add_all fresh all in
      let stop = end-add_all fresh all in
      let longest = max-add_all fresh all in
      record {
        earliest_bound = subst (λ t. All (λ x. t ≤ x.begin) all) (sym first) (best_ge began r rs);
        earliest_attained =
            subst (λ t. Attains began t all) (sym first) (best_head-Attains gtb began r rs);
        latest_bound = subst (λ t. All (λ x. x.begin ≤ t) all) (sym last) (best_le began 0 all);
        latest_attained =
            subst (λ t. Attains began t all) (sym last) (best_pos-Attains began r rs h.0);
        end_bound = subst (λ t. All (λ x. x.end ≤ t) all) (sym stop) (best_le ended 0 all);
        end_attained = subst (λ t. Attains ended t all) (sym stop) (best_pos-Attains ended r rs e);
        max_bound =
            subst (λ t. All (λ x. x.elapsed ≤ℤ t) all) (sym longest) (best_le_ℤ took (pos 0) all);
      }
    where
      fresh : Metrics F E
      fresh = new_metrics
