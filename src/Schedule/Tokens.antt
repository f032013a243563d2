-- ===== src/Schedule/Tokens.antt =====
-- The tokens that a run of `schedule` (runner.go) sends.
use loaderbot.Prelude.{
  ℕ, zero, suc, ◌≡◌, refl, ap, Option, none, some, List, [], ◌∷◌, ◌++◌, replicate,
}
use loaderbot.Result.{AttackToken}
use loaderbot.Schedule.{Signal, take, fire, close_next, takes}

-- The tokens among the signals, in order.
unfoldable pub tokens : {L : Type 0} → List (Signal L) → List AttackToken
tokens [] = []
tokens (take _ ∷ xs) = tokens xs
tokens (fire t ∷ xs) = t ∷ tokens xs
tokens (close_next ∷ xs) = tokens xs

module _ {L : Type 0} where
  pub tokens-fire :
      (rl : Option L) (t : AttackToken) (xs : List (Signal L))
      → tokens ((takes rl ++ fire t ∷ []) ++ xs) ≡ t ∷ tokens xs
  unfolding tokens takes
  tokens-fire none t xs = refl
  tokens-fire (some rl) t xs = refl

  pub tokens-takes : (rl : Option L) (ys : List (Signal L)) → tokens (takes rl ++ ys) ≡ tokens ys
  unfolding tokens takes
  tokens-takes none ys = refl
  tokens-takes (some rl) ys = refl

pub replicate-snoc {ℓ} :
    {A : Type ℓ} (n : ℕ) (a : A) → replicate n a ++ a ∷ [] ≡ replicate (suc n) a
replicate-snoc zero a = refl
replicate-snoc (suc n) a = ap (◌∷◌ a) (replicate-snoc n a)
