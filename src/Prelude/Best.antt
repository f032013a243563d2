-- ===== src/Prelude/Best.antt =====
-- The running best of a list: `for … { if best < x { best = x } }`, for any test `lt`.
use mathlib.Core.Path.{◌≡◌, refl}
use mathlib.Core.Logic.{◌⊎◌, inl}
use mathlib.Core.Bool.{Bool, true, false}
use mathlib.Core.List.{List, [], ◌∷◌}
use native.Mathlib.Omega.{arith}
use loaderbot.Prelude.Tests.{if◌then◌else◌}
use loaderbot.Prelude.Lists.{All}

-- `v` is the value of some element.
abbrev pub Attains {ℓ} : {A : Type ℓ} {V : Type 0} → (A → V) → V → List A → Type 0
Attains f v [] = ⊥
Attains f v (x ∷ xs) = (f x ≡ v) ⊎ Attains f v xs

module _ {ℓ} {A : Type ℓ} {V : Type 0} (lt : V → V → Bool) (f : A → V) where
  abbrev pub keep : V → A → V
  keep m x = if lt m (f x) then f x else m

  unfoldable pub best : V → List A → V
  best m [] = m
  best m (x ∷ xs) = best (keep m x) xs

  -- Nothing in the list beats `v`.
  abbrev pub Unbeaten : V → List A → Type 0
  Unbeaten v xs = All (λ x. lt v (f x) ≡ false) xs

  pub best-Attains : (m : V) (xs : List A) → (best m xs ≡ m) ⊎ Attains f (best m xs) xs
  unfolding best
  best-Attains m [] = inl refl
  best-Attains m (x ∷ xs) = ground (arith, best-Attains (keep m x) xs)

  module _ (irrefl : (v : V) → lt v v ≡ false)
      (trans : (u v w : V) → lt u v ≡ true → lt v w ≡ true → lt u w ≡ true) where
    -- The result is the start, or beats it.
    pub best_grows : (m : V) (xs : List A) → (best m xs ≡ m) ⊎ (lt m (best m xs) ≡ true)
    unfolding best
    best_grows m [] = inl refl
    best_grows m (x ∷ xs) =
        ground (arith, best_grows (keep m x) xs, trans m (keep m x) (best (keep m x) xs))

    pub best_start : (m : V) (xs : List A) → lt (best m xs) m ≡ false
    best_start m xs = ground (arith, best_grows m xs, irrefl m, trans m (best m xs) m)

    best_head : (m : V) (x : A) (xs : List A) → lt (best (keep m x) xs) (f x) ≡ false
    best_head m x xs = ground (
      arith,
      best_grows (keep m x) xs,
      best_start (keep m x) xs,
      trans m (best (keep m x) xs) (f x),
    )

    pub best-Unbeaten : (m : V) (xs : List A) → Unbeaten (best m xs) xs
    unfolding best
    best-Unbeaten m [] = tt
    best-Unbeaten m (x ∷ xs) = (best_head m x xs, best-Unbeaten (keep m x) xs)
