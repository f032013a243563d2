-- ===== src/Collect/Ticks/Total.antt =====
-- A whole run of `collectResults` (runner.go).
use mathlib.Core.List.{append-nil, append_assoc}
use loaderbot.Prelude.{
  ℕ, zero, suc, ◌+◌, ◌*◌, ◌<◌, ◌≡◌, refl, sym, ap, ◌∙◌, Bool, true, Option, none, some, List, [],
  ◌∷◌, ◌++◌, arith, length, length-append, select, select-append, All,
}
use loaderbot.Prelude.Int.{pos}
use loaderbot.Prelude.Maps.{ℕ_eq}
use loaderbot.Float.{Float64}
use loaderbot.Config.{RunnerConfig, ReportOptions}
use loaderbot.Result.{AttackResult}
use loaderbot.Metrics.{Quantile}
use loaderbot.Collect.{
  TickMetrics, Collector, Effect, close_results, Event, timed_out, received, collect_one,
  collect_results,
}
use loaderbot.Collect.Ticks.{
  on_tick, samples_of, pending, streamed, reports, streamed-append, reports-append, before_timeout,
  IsUnfinished, AllUnfinished, Accounts,
}
use loaderbot.Outcome.Laws.{Returns-bind, Returns-mono}
use loaderbot.Outcome.{Returns}
use loaderbot.Collect.Ticks.Stream.{collect_one-Accounts}

module _ {F E : Type 0} (T : ℕ → ℕ) where
  Accounts-trans :
      (c c1 c2 : Collector F E) (rs rs' : List AttackResult) (es es' : List (Effect F E))
      → Accounts T c rs c1 es
      → Accounts T c1 rs' c2 es'
      → Accounts T c (rs ++ rs') c2 (es ++ es')
  Accounts-trans c c1 c2 rs rs' es es' a b = record {
    unfinished = b.unfinished;
    conserved = λ t.
        let on = select (on_tick t) in
        ap (λ xs. on xs ++ pending t c2) (streamed-append es es')
        ∙ ap (λ xs. xs ++ pending t c2) (select-append (on_tick t) (streamed es) (streamed es'))
        ∙ append_assoc (on (streamed es)) (on (streamed es')) (pending t c2)
        ∙ ap (◌++◌ (on (streamed es))) (b.conserved t)
        ∙ sym (append_assoc (on (streamed es)) (pending t c1) (on rs'))
        ∙ ap (λ xs. xs ++ on rs') (a.conserved t)
        ∙ append_assoc (pending t c) (on rs) (on rs')
        ∙ ap (◌++◌ (pending t c)) (sym (select-append (on_tick t) rs rs'));
    whole = λ t.
        let on = select (on_tick t) in
        ap (λ xs. length (on xs)) (streamed-append es es')
        ∙ ap length (select-append (on_tick t) (streamed es) (streamed es'))
        ∙ length-append (on (streamed es)) (on (streamed es'))
        ∙ omega (arith, a.whole t, b.whole t, ap (λ (n : ℕ). T t * n) (reports-append t es es'));
  }

  -- Nothing received, nothing sent.
  Accounts-silent :
      (c : Collector F E) (es : List (Effect F E))
      → AllUnfinished T c
      → streamed es ≡ []
      → ((t : ℕ) → reports t es ≡ 0)
      → Accounts T c [] c es
  Accounts-silent c es h s n = record {
    unfinished = h;
    conserved =
        λ t. ap (λ xs. select (on_tick t) xs ++ pending t c) s ∙ sym (append-nil (pending t c));
    whole = λ t.
        ap (λ xs. length (select (on_tick t) xs)) s
        ∙ let zero' = ap (λ (k : ℕ). T t * k) (n t) in omega (arith, zero');
  }

one_report : (t n p : ℕ) → t * n + p ≡ t → p < t → n ≡ 1
one_report t zero p e h = absurd (omega arith)
one_report t (suc zero) p e h = refl
one_report t (suc (suc n)) p e h = absurd (grind arith)

eq_nil {ℓ} : {A : Type ℓ} (xs : List A) → length xs ≡ 0 → xs ≡ []
eq_nil [] h = refl
eq_nil (x ∷ xs) h = absurd (omega arith)

module _ {F E : Type 0} (T : ℕ → ℕ) where
  waits_short :
      (t : ℕ) (o : Option (TickMetrics F E)) → IsUnfinished T t o → length (samples_of o) < T t
  waits_short t none h = h
  waits_short t (some tm) h = h.1

  complete_of_Accounts :
      (c c' : Collector F E) (rs : List AttackResult) (es : List (Effect F E)) (t : ℕ)
      → pending t c ≡ []
      → length (select (on_tick t) rs) ≡ T t
      → Accounts T c rs c' es
      → (select (on_tick t) (streamed es) ≡ select (on_tick t) rs)
        × (pending t c' ≡ [])
        × (reports t es ≡ 1)
  complete_of_Accounts c c' rs es t none_waits enough a =
      let all : select (on_tick t) (streamed es) ++ pending t c' ≡ select (on_tick t) rs =
        a.conserved t ∙ ap (λ xs. xs ++ select (on_tick t) rs) none_waits in
      let total : T t * reports t es + length (pending t c') ≡ T t = omega (
        arith,
        a.whole t,
        ap length all,
        length-append (select (on_tick t) (streamed es)) (pending t c'),
      ) in
      let one = one_report (T t) _ _ total (waits_short t _ (a.unfinished t)) in
      let none' : pending t c' ≡ [] =
        eq_nil _ (let whole = ap (λ (n : ℕ). T t * n) one in omega (arith, whole)) in
      (
        sym (append-nil _) ∙ ap (◌++◌ (select (on_tick t) (streamed es))) (sym none') ∙ all,
        none',
        one,
      )

module _ {F E : Type 0} ⦃fl : Float64 F⦄ ⦃q : Quantile F E⦄ (cfg : RunnerConfig F)
    (opts : ReportOptions) (setup : ℕ → Bool) (ready : (i : ℕ) → setup i ≡ true)
    (stream : opts.stream ≡ true) (T : ℕ → ℕ) (T_pos : (t : ℕ) → 0 < T t) where
  -- A node that streams, whose attackers all set up, and whose results ask for `T t` samples in tick t,
  -- 0 < T t: the loop returns from any collector of unfinished ticks. For each tick, the samples that
  -- it has sent, followed by those that wait, are those that waited before and the results received
  -- before the timeout, in order; it has sent `T t` samples for each time that it reports the tick;
  -- and only unfinished ticks are left.
  pub collect_results-Accounts :
      (c : Collector F E) (evs : List Event)
      → AllUnfinished T c
      → All (λ r. r.attack_token.target_rps ≡ pos (T r.attack_token.tick)) (before_timeout evs)
      → Returns
          (λ r. Accounts T c (before_timeout evs) r.0 r.1)
          (collect_results cfg opts setup c evs)
  unfolding collect_results before_timeout streamed reports
  collect_results-Accounts c [] h targets = Accounts-silent T c [] h refl (λ t. refl)
  collect_results-Accounts c (timed_out ∷ evs) h targets =
      Accounts-silent T c (close_results ∷ []) h refl (λ t. refl)
  collect_results-Accounts c (received res ∷ evs) h targets =
      let step = collect_one-Accounts cfg opts setup ready stream T T_pos c res h targets.0 in
      let rest = λ (c' : Collector F E) (h' : AllUnfinished T c').
        collect_results-Accounts c' evs h' targets.1 in
      Returns-bind _ _ (collect_one cfg opts setup res c) _ step λ r a.
        Returns-bind _ _ (collect_results cfg opts setup r.0 evs) _ (rest r.0 a.unfinished)
          λ r' b. Accounts-trans T c r.0 r'.0 (res ∷ []) (before_timeout evs) r.1 r'.1 a b

  -- A node that streams, whose attackers all set up, and whose results ask for `T t` samples in tick t,
  -- 0 < T t, from any collector of unfinished ticks: a tick of which exactly `T t` results arrive before
  -- the timeout, and none waited before, is reported once, with all of them, in order, and none is left.
  pub complete_tick :
      (c : Collector F E) (evs : List Event) (t : ℕ)
      → AllUnfinished T c
      → All (λ r. r.attack_token.target_rps ≡ pos (T r.attack_token.tick)) (before_timeout evs)
      → pending t c ≡ []
      → length (select (on_tick t) (before_timeout evs)) ≡ T t
      → Returns
          (λ r.
            (select (on_tick t) (streamed r.1) ≡ select (on_tick t) (before_timeout evs))
            × (pending t r.0 ≡ [])
            × (reports t r.1 ≡ 1))
          (collect_results cfg opts setup c evs)
  complete_tick c evs t h targets none_waits enough =
      Returns-mono _ _ (collect_results cfg opts setup c evs)
        (collect_results-Accounts c evs h targets)
        λ r a. complete_of_Accounts T c r.0 (before_timeout evs) r.1 t none_waits enough a
