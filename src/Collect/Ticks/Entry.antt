-- ===== src/Collect/Ticks/Entry.antt =====
-- A single entry of the map of ticks (runner.go, processTickMetrics).
use mathlib.Core.List.{append-nil}
use mathlib.Core.Path.{subst, ap₂}
use loaderbot.Prelude.{
  ℕ, ◌*◌, ◌<◌, ◌≡◌, refl, sym, ap, ◌∙◌, Bool, true, false, Option, none, some, List, [], ◌∷◌, ◌++◌,
  arith, length, select, ◌==◌, if◌then◌else◌, ==_iff,
}
use loaderbot.Prelude.Maps.{ℕ_eq, lookup}
use loaderbot.Result.{AttackResult}
use loaderbot.Collect.{TickMetrics, Collector, Effect}
use loaderbot.Collect.Ticks.{
  on_tick, AllOn, select-AllOn, samples_of, pending, streamed, reports, IsUnfinished, AllUnfinished,
  Accounts,
}

pub whole_tick :
    {A : Type 0} (T : ℕ → ℕ) (k t n : ℕ) (xs : List A) (b : Bool)
    → (k == t) ≡ b
    → length xs ≡ T k
    → n ≡ (if k == t then 1 else 0)
    → length (if k == t then xs else []) ≡ T t * n
whole_tick T k t n xs true e len one =
    let same : T k ≡ T t = ap T ((==_iff k t).0 e) in
    let one' : n ≡ 1 = one ∙ ap (λ b. if b then 1 else 0) e in
    ap (λ b. length (if b then xs else [])) e ∙ len ∙ same ∙ rw one' (omega arith)
whole_tick T k t n xs false e len none' =
    let none'' : n ≡ 0 = none' ∙ ap (λ b. if b then 1 else 0) e in
    ap (λ b. length (if b then xs else [])) e ∙ rw none'' (omega arith)

-- `T`: how many samples a tick asks for.
module _ {F E : Type 0} (T : ℕ → ℕ) (T_pos : (t : ℕ) → 0 < T t) where
  -- Tick `k` takes the sample `res`: its entry becomes `o`, and `xs` are sent, with `n` reports.
  module _ (c c' : Collector F E) (res : AttackResult) (o : Option (TickMetrics F E))
      (es : List (Effect F E)) (h : AllUnfinished T c)
      (new : (t : ℕ)
        → lookup t c'.received_tick_metrics
          ≡ (if res.attack_token.tick == t then o else lookup t c.received_tick_metrics))
      (good : IsUnfinished T res.attack_token.tick o)
      (moved : streamed es ++ samples_of o ≡ pending res.attack_token.tick c ++ res ∷ [])
      (own : AllOn res.attack_token.tick (streamed es))
      (count : (t : ℕ)
        → length (if res.attack_token.tick == t then streamed es else [])
          ≡ T t * reports t es) where
    one_tick :
        (t : ℕ) (b : Bool)
        → (res.attack_token.tick == t) ≡ b
        → IsUnfinished T t (lookup t c'.received_tick_metrics)
          × (select (on_tick t) (streamed es) ++ pending t c'
              ≡ pending t c ++ select (on_tick t) (res ∷ []))
    one_tick t true e =
        let same : res.attack_token.tick ≡ t = (==_iff _ t).0 e in
        let at : lookup t c'.received_tick_metrics ≡ o = new t ∙ rw e refl in
        (
          subst (IsUnfinished T t) (sym at) (subst (λ k. IsUnfinished T k o) same good),
          ap₂ ◌++◌ (select-AllOn t _ (streamed es) own ∙ ap (λ b. if b then streamed es else []) e)
                (ap samples_of at)
              ∙ moved
              ∙ ap₂ ◌++◌ (ap (λ k. pending k c) same)
                  (sym (ap (λ b. if b then res ∷ [] else []) e)),
        )
    one_tick t false e =
        let at : lookup t c'.received_tick_metrics ≡ lookup t c.received_tick_metrics =
          new t ∙ rw e refl in
        (
          subst (IsUnfinished T t) (sym at) (h t),
          ap₂ ◌++◌ (select-AllOn t _ (streamed es) own ∙ ap (λ b. if b then streamed es else []) e)
                (ap samples_of at)
              ∙ sym (append-nil (pending t c))
              ∙ ap (◌++◌ (pending t c)) (sym (ap (λ b. if b then res ∷ [] else []) e)),
        )

    pub step-Accounts : Accounts T c (res ∷ []) c' es
    step-Accounts = record {
      unfinished = λ t. (one_tick t _ refl).0;
      conserved = λ t. (one_tick t _ refl).1;
      whole = λ t. ap length (select-AllOn t _ (streamed es) own) ∙ count t;
    }

  pub entry_facts :
      (k : ℕ) (o : Option (TickMetrics F E))
      → IsUnfinished T k o
      → AllOn k (samples_of o) × (length (samples_of o) < T k)
  entry_facts k none h = (tt, h)
  entry_facts k (some tm) h = (h.0, h.1)
