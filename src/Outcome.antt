-- ===== src/Outcome.antt =====
-- How a Go call ends: it returns, the process exits (`os.Exit`, `log.Fatal`), or it panics.
pub mod Laws
use loaderbot.Prelude.{ℕ, String}

pub data Panic : Type 0 where
  divide_by_zero index_out_of_range nil_dereference closed_channel bad_logger : Panic

pub data Outcome {ℓ} (A : Type ℓ) : Type ℓ where
  returned : A → Outcome A
  exited : ℕ → Outcome A
  fatal : String → Outcome A
  panicked : Panic → Outcome A

infixl 5 ◌>>=◌
abbrev pub ◌>>=◌ {ℓ κ} : {A : Type ℓ} {B : Type κ} → Outcome A → (A → Outcome B) → Outcome B
returned a >>= f = f a
exited n >>= f = exited n
fatal m >>= f = fatal m
panicked p >>= f = panicked p

-- The call returns, with a result that meets `P`.
abbrev pub Returns {ℓ} : {A : Type ℓ} → (A → Type 0) → Outcome A → Type 0
Returns P (returned a) = P a
Returns P (exited n) = ⊥
Returns P (fatal m) = ⊥
Returns P (panicked p) = ⊥
