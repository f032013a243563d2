-- ===== src/Flow/Kept.antt =====
-- Where the tokens of a run are (runner.go, attack.go).
use loaderbot.Prelude.{
  ℕ, zero, suc, ◌+◌, ◌≡◌, refl, ap, Bool, true, false, List, [], ◌∷◌, ◌++◌, arith, length, select,
  replicate,
}
use loaderbot.Result.{AttackToken, AttackResult}
use loaderbot.Config.{RunnerConfig}
use loaderbot.Schedule.{Limiters, token}
use loaderbot.Attack.{result_of}
use loaderbot.Flow.{
  Hand, waiting, gone, working, sending, Flow, answered, unanswered, opening, Step, expire, fire,
  answer, time_out, abandon, retire, send, receive, Reach, here, later,
}

abbrev pub one_if : Bool → ℕ
one_if true = 1
one_if false = 0

module _ (p : AttackToken → Bool) where
  -- How many tokens pass the test.
  abbrev pub count : List AttackToken → ℕ
  count toks = length (select p toks)

  -- How many results are for such a token.
  abbrev pub results : List AttackResult → ℕ
  results [] = 0
  results (r ∷ rs) = one_if (p r.attack_token) + results rs

  abbrev holds : Hand → ℕ
  holds (working tok _) = one_if (p tok)
  holds (sending r) = one_if (p r.attack_token)
  holds _ = 0

  -- How many attackers are at work on such a token.
  abbrev pub held : List Hand → ℕ
  held [] = 0
  held (h ∷ hs) = holds h + held hs

  count-snoc :
      (toks : List AttackToken) (tok : AttackToken)
      → count (toks ++ tok ∷ []) ≡ count toks + one_if (p tok)
  count-snoc [] tok = ground arith
  count-snoc (t ∷ toks) tok = ground (arith, count-snoc toks tok)

  results-snoc :
      (rs : List AttackResult) (r : AttackResult)
      → results (rs ++ r ∷ []) ≡ results rs + one_if (p r.attack_token)
  results-snoc [] r = omega arith
  results-snoc (x ∷ rs) r = omega (arith, results-snoc rs r)

  held-append : (xs ys : List Hand) → held (xs ++ ys) ≡ held xs + held ys
  held-append [] ys = omega arith
  held-append (x ∷ xs) ys = omega (arith, held-append xs ys)

  held-replicate : (n : ℕ) → held (replicate n waiting) ≡ 0
  held-replicate zero = refl
  held-replicate (suc n) = omega (arith, held-replicate n)

  -- One attacker goes on.
  held_move :
      (crew xs ys : List Hand) (a b : Hand)
      → crew ≡ xs ++ a ∷ ys
      → held crew + holds b ≡ held (xs ++ b ∷ ys) + holds a
  held_move crew xs ys a b e =
      omega (arith, ap held e, held-append xs (a ∷ ys), held-append xs (b ∷ ys))

  module _ {L F : Type 0} (new_limiter : Limiters L) (cfg : RunnerConfig F) where
    -- Every token that was sent is with an attacker, dropped, or that of a result.
    abbrev pub IsKept : Flow L → Type 0
    IsKept s = count s.fired ≡ held s.crew + count s.dropped + results s.queue + results s.collected

    Step-IsKept : {s u : Flow L} → Step new_limiter cfg s u → IsKept s → IsKept u
    unfolding result_of
    Step-IsKept (expire _) h = h
    Step-IsKept {s = s} (fire xs ys now next e _) h = omega (
      arith,
      h,
      count-snoc s.fired (token s.schedule),
      held_move s.crew xs ys waiting (working (token s.schedule) now) e,
    )
    Step-IsKept {s = s} (answer xs ys tok b f d e) h =
        omega (arith, h, held_move s.crew xs ys (working tok b) (sending (answered tok b f d)) e)
    Step-IsKept {s = s} (time_out xs ys tok b f e) h =
        omega (
          arith,
          h,
          held_move s.crew xs ys (working tok b) (sending (unanswered cfg.name tok b f)) e,
        )
    Step-IsKept {s = s} (abandon xs ys tok b e _) h =
        omega (arith, h, count-snoc s.dropped tok, held_move s.crew xs ys (working tok b) gone e)
    Step-IsKept {s = s} (retire xs ys e) h = omega (arith, h, held_move s.crew xs ys waiting gone e)
    Step-IsKept {s = s} (send xs ys r e _) h =
        omega (arith, h, results-snoc s.queue r, held_move s.crew xs ys (sending r) waiting e)
    Step-IsKept {s = s} (receive r rest n e) h = omega (
      arith,
      h,
      ap results e,
      results-snoc s.collected r,
      held-append s.crew (replicate n waiting),
      held-replicate n,
    )

    -- In every run, for every test on tokens: of the tokens that the scheduler has sent, as many pass
    -- the test as of those that attackers are at work on, that were dropped at the end of the test, and
    -- that have a result in the channel or with the collector, taken together. So no request is lost and
    -- none is reported twice, in any interleaving.
    pub Reach-IsKept :
        (attackers : ℕ) {s : Flow L}
        → Reach new_limiter cfg (opening new_limiter cfg attackers) s
        → IsKept s
    unfolding opening
    Reach-IsKept attackers here = omega (arith, held-replicate attackers)
    Reach-IsKept attackers (later r st) = Step-IsKept st (Reach-IsKept attackers r)
