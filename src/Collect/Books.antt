-- ===== src/Collect/Books.antt =====
-- The books that the collector keeps: its counters against what it has done (runner.go).
use loaderbot.Prelude.{
  ℕ, ◌+◌, ◌≡◌, ap, ◌∙◌, Bool, true, false, String, List, [], ◌∷◌, ◌++◌, arith, length,
  length-append, select, select-append, if◌then◌else◌, eq_iff,
}
use loaderbot.Prelude.Maps.{string_eq, ℕ_eq, lookup, lookup-insert}
use loaderbot.Result.{AttackResult}
use loaderbot.Metrics.{Metrics}
use loaderbot.Metrics.Errors.{failed_with}
use loaderbot.Collect.{
  TickMetrics, Collector, Effect, cancel, write_result, start_attacker, effect_if, count_error,
  or_zero,
}
use loaderbot.Collect.Ticks.Silent.{report_effects}

module _ {F E : Type 0} where
  abbrev pub is_cancel : Effect F E → Bool
  is_cancel cancel = true
  is_cancel _ = false

  abbrev pub is_start : Effect F E → Bool
  is_start start_attacker = true
  is_start _ = false

  abbrev pub cancels : List (Effect F E) → ℕ
  cancels es = length (select is_cancel es)

  abbrev pub starts : List (Effect F E) → ℕ
  starts es = length (select is_start es)

  -- From `c` with the results `rs` to `c'` with the effects `es`.
  pub record Books (c : Collector F E) (rs : List AttackResult) (c' : Collector F E)
      (es : List (Effect F E)) : Type 0 where
    pub stored : c'.total_requests_stored ≡ c.total_requests_stored + length rs
    pub errors :
        (e : String)
        → or_zero (lookup e c'.uniq_errors)
          ≡ or_zero (lookup e c.uniq_errors) + length (select (failed_with e) rs)
    pub failures : c'.failed ≡ c.failed + cancels es
    pub attackers : c'.attackers ≡ c.attackers + starts es

  pub count-append :
      (p : Effect F E → Bool) (es es' : List (Effect F E))
      → length (select p (es ++ es')) ≡ length (select p es) + length (select p es')
  count-append p es es' =
      ap length (select-append p es es') ∙ length-append (select p es) (select p es')

  pub Books-trans :
      (c c1 c2 : Collector F E) (rs rs' : List AttackResult) (es es' : List (Effect F E))
      → Books c rs c1 es
      → Books c1 rs' c2 es'
      → Books c (rs ++ rs') c2 (es ++ es')
  Books-trans c c1 c2 rs rs' es es' a b = record {
    stored = omega (arith, a.stored, b.stored, length-append rs rs');
    errors = λ e. omega (
      arith,
      a.errors e,
      b.errors e,
      ap length (select-append (failed_with e) rs rs'),
      length-append (select (failed_with e) rs) (select (failed_with e) rs'),
    );
    failures = omega (arith, a.failures, b.failures, count-append is_cancel es es');
    attackers = omega (arith, a.attackers, b.attackers, count-append is_start es es');
  }

  pub Books-still :
      (c : Collector F E) (es : List (Effect F E))
      → cancels es ≡ 0
      → starts es ≡ 0
      → Books c [] c es
  Books-still c es h k = record {
    stored = omega arith;
    errors = λ e. omega arith;
    failures = omega (arith, h);
    attackers = omega (arith, k);
  }

  module _ (res : AttackResult) (xs : List AttackResult) (tm : TickMetrics F E) (m : Metrics F E)
      (es : List (Effect F E)) (s f w p : Bool) where
    pub cancels-report_effects :
        cancels (report_effects s f w p res xs tm m es) ≡ (if f then 1 else 0) + cancels es
    cancels-report_effects = ground arith

    pub starts-report_effects : starts (report_effects s f w p res xs tm m es) ≡ starts es
    starts-report_effects = ground arith

  -- A row for the result changes no counter.
  pub count-write :
      (p : Effect F E → Bool) (b : Bool) (r : AttackResult) (s : String) (es : List (Effect F E))
      → p (write_result r s) ≡ false
      → length (select p (effect_if b (write_result r s) ++ es)) ≡ length (select p es)
  count-write p b r s es h = ground (arith, h)

pub count_error_lem :
    (r : AttackResult) (m : List (String × ℕ)) (e : String)
    → or_zero (lookup e (count_error r m))
      ≡ or_zero (lookup e m) + length (select (failed_with e) (r ∷ []))
unfolding count_error
count_error_lem r m e = ground (
  arith,
  lookup-insert r.do_result.error e (or_zero (lookup r.do_result.error m) + 1) m,
  eq_iff r.do_result.error e,
)
