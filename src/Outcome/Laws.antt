-- ===== src/Outcome/Laws.antt =====
-- A chain of calls that return.
use native.Mathlib.Omega.{arith}
use mathlib.Core.Path.{subst, ◌≡◌, refl}
use loaderbot.Outcome.{Outcome, returned, exited, fatal, panicked, Returns, ◌>>=◌}

pub Returns-bind :
    {A B : Type 0} (P : A → Type 0) (Q : B → Type 0) (m : Outcome A) (f : A → Outcome B)
    → Returns P m
    → ((a : A) → P a → Returns Q (f a))
    → Returns Q (m >>= f)
Returns-bind P Q (returned a) f h k = k a h
Returns-bind P Q (exited n) f h k = absurd h
Returns-bind P Q (fatal m) f h k = absurd h
Returns-bind P Q (panicked p) f h k = absurd h

pub Returns-mono :
    {A : Type 0} (P Q : A → Type 0) (m : Outcome A)
    → Returns P m
    → ((a : A) → P a → Q a)
    → Returns Q m
Returns-mono P Q (returned a) h k = k a h
Returns-mono P Q (exited n) h k = h
Returns-mono P Q (fatal m) h k = h
Returns-mono P Q (panicked p) h k = h

pub Returns-both :
    {A : Type 0} (P Q : A → Type 0) (m : Outcome A)
    → Returns P m
    → Returns Q m
    → Returns (λ a. P a × Q a) m
Returns-both P Q (returned a) h k = (h, k)
Returns-both P Q _ h k = absurd h

pub Returns-at :
    {A : Type 0} (P : A → Type 0) (m : Outcome A) (a : A) → Returns P m → m ≡ returned a → P a
Returns-at P m a h e = subst (Returns P) e h

pub returned_eq : {A : Type 0} (a b : A) → returned a ≡ returned b → a ≡ b
returned_eq a b e = cc

-- A chain that returns, from its parts.
pub bind_returned :
    {A B : Type 0} (m : Outcome A) (f : A → Outcome B) (b : B)
    → (m >>= f) ≡ returned b
    → (a : A) × (m ≡ returned a) × (f a ≡ returned b)
bind_returned (returned a) f b e = (a, refl, e)
bind_returned (exited n) f b e = absurd (ground (arith, e))
bind_returned (fatal m) f b e = absurd (ground (arith, e))
bind_returned (panicked p) f b e = absurd (ground (arith, e))
