-- ===== src/Cluster/Aggregate.antt =====
-- When a tick of the cluster is aggregated (client.go, `collectResults`).
use loaderbot.Prelude.{
  ℕ, suc, ◌≤◌, ◌≡◌, refl, ap, ◌∙◌, Bool, true, false, ◌&&◌, Option, none, some, List, [], ◌∷◌, ◌++◌,
  arith, length, length-append, ltb, leb, ◌==◌, if◌then◌else◌, Bool-cases, ==_iff, inl, inr,
}
use loaderbot.Prelude.Int.{pos, eqb_ℤ}
use loaderbot.Prelude.Maps.{ℕ_eq, lookup, insert, lookup-insert}
use loaderbot.Float.{Float64}
use loaderbot.Result.{AttackResult}
use loaderbot.Metrics.{Quantile, Metrics}
use loaderbot.Outcome.Laws.{Returns-bind}
use loaderbot.Outcome.{Outcome, returned, ◌>>=◌, Returns}
use loaderbot.Cluster.{
  ClusterTickMetrics, ClusterClient, Effect, log_tick, write_percentiles, Event, batch, idle,
  effect_if, shutdowns, report_tick, collect_batch, collect_results, or_new,
}
use loaderbot.Cluster.Logged.{
  logs, logs-append, stops-LogsNone, batches_of, stored, logs_of_batch, AllFilled, count_other,
  count_same, count_trans,
}

module _ {F E : Type 0} ⦃fl : Float64 F⦄ ⦃q : Quantile F E⦄ (answers : ℕ → Bool)
    (all : (i : ℕ) → answers i ≡ true) (ratio : F) (nodes : ℕ) (csv : Bool) where
  -- A tick is aggregated once, when its number of batches passes the number of nodes.
  abbrev pub Counts : ClusterClient F E → ClusterClient F E → List (Effect F E) → Type 0
  Counts c c' es =
      (t : ℕ)
      → (stored t c ≤ stored t c')
        × (logs t es ≡ (if ltb (stored t c) nodes && leb nodes (stored t c') then 1 else 0))

  or_new_batches :
      (o : Option (ClusterTickMetrics F E))
      → length (or_new answers ratio nodes csv o).samples ≡ batches_of o
  or_new_batches none = refl
  or_new_batches (some tm) = refl

  module _ (first : AttackResult) (rest : List AttackResult) (c : ClusterClient F E) where
    abbrev pub tick : ℕ
    tick = first.attack_token.tick

    abbrev pub samples : List (List AttackResult)
    samples =
        (or_new answers ratio nodes csv (lookup tick c.cluster_tick_metrics)).samples
        ++ (first ∷ rest) ∷ []

    pub samples_lem : length samples ≡ suc (stored tick c)
    samples_lem = omega (
      arith,
      length-append (or_new answers ratio nodes csv (lookup tick c.cluster_tick_metrics)).samples
          ((first ∷ rest) ∷ []),
      or_new_batches (lookup tick c.cluster_tick_metrics),
    )

    abbrev pub entry : Metrics F E → ClusterTickMetrics F E
    entry m = record { samples = samples; metrics = m }

    module _ (t : ℕ) (m : Metrics F E) (stops : List (Effect F E)) (no_log : logs t stops ≡ 0) where
      abbrev size_after : ℕ
      size_after = batches_of (lookup t (insert tick (entry m) c.cluster_tick_metrics))

      abbrev logged : ℕ
      logged = logs t (
          if length samples == nodes
          then log_tick tick m ∷ (effect_if csv (write_percentiles first m) ++ stops)
          else [])

      count_step :
          (b : Bool)
          → (tick == t) ≡ b
          → (stored t c ≤ size_after)
            × (logged ≡ (if ltb (stored t c) nodes && leb nodes size_after then 1 else 0))
      count_step true e =
          let same : tick ≡ t = (==_iff tick t).0 e in
          let size : size_after ≡ length samples = ap batches_of (
            lookup-insert tick t (entry m) c.cluster_tick_metrics
            ∙ ap (λ b. if b then some (entry m) else lookup t c.cluster_tick_metrics) e) in
          count_same nodes (stored t c) size_after logged
            (size ∙ samples_lem ∙ ap (λ k. suc (stored k c)) same)
            (logs_of_batch F E t tick m first (length samples == nodes) csv stops no_log
              ∙ ground (arith, e, size))
      count_step false e =
          count_other nodes (stored t c) size_after logged
            (ap batches_of (
              lookup-insert tick t (entry m) c.cluster_tick_metrics
              ∙ ap (λ b. if b then some (entry m) else lookup t c.cluster_tick_metrics) e))
            (logs_of_batch F E t tick m first (length samples == nodes) csv stops no_log
              ∙ ground (arith, e))

  report_tick-Counts :
      (first : AttackResult) (rest : List AttackResult) (c : ClusterClient F E) (m : Metrics F E)
      (bad : Bool)
      → Returns
          (λ r. Counts c r.0 r.1)
          (report_tick answers ratio nodes csv first
            (entry first rest c m)
            (length (samples first rest c) == nodes)
            bad
            c)
  report_tick-Counts first rest c m bad =
      Returns-bind _ _ (if bad then shutdowns answers 0 nodes else returned []) _
        (stops-LogsNone F E answers all bad nodes)
        λ stops h t. count_step first rest c t m stops (h t) _ refl

  collect_batch-Counts :
      (first : AttackResult) (rest : List AttackResult) (c : ClusterClient F E)
      → Returns (λ r. Counts c r.0 r.1) (collect_batch answers ratio nodes csv (first ∷ rest) c)
  unfolding collect_batch
  collect_batch-Counts first rest c = report_tick-Counts first rest c _ _

  Counts-refl : (c : ClusterClient F E) → Counts c c []
  unfolding logs
  Counts-refl c t = ground arith

  Counts-trans :
      (c c' c'' : ClusterClient F E) (es es' : List (Effect F E))
      → Counts c c' es
      → Counts c' c'' es'
      → Counts c c'' (es ++ es')
  Counts-trans c c' c'' es es' a b t =
      let both =
        count_trans nodes (stored t c) (stored t c') (stored t c'') (logs t es) (logs t es') (a t)
          (b t) in
      (both.0, logs-append t es es' ∙ both.1)

  -- The loop ends, or still runs, with the counts of the state that it began in.
  abbrev pub EndsCounted :
      ClusterClient F E → Outcome (ClusterClient F E × List (Effect F E) × Bool) → Type 0
  EndsCounted c = Returns (λ r. Counts c r.0 r.1)

  -- The loop goes on with the next event, unless it is told to stop.
  go_on :
      (c : ClusterClient F E) (evs : List Event) (r : ClusterClient F E × List (Effect F E) × Bool)
      → Counts c r.0 r.1
      → ((c' : ClusterClient F E) → EndsCounted c' (collect_results answers ratio nodes csv c' evs))
      → (stop : Bool)
      → EndsCounted c (elim stop [
        | true ↦ returned (r.0, r.1, true)
        | false ↦ do
          (c'', es', over) ← collect_results answers ratio nodes csv r.0 evs
          returned (c'', r.1 ++ es', over)
      ])
  go_on c evs r a next true = a
  go_on c evs r a next false =
      Returns-bind _ _ (collect_results answers ratio nodes csv r.0 evs) _ (next r.0)
        λ r' b. Counts-trans c r.0 r'.0 r.1 r'.1 a b

  -- If all nodes answer `ShutdownNode`, then with no empty batch the loop returns, or still runs, without a panic, and each tick was aggregated
  -- exactly once if its stored batches went from fewer than the nodes to at least as many, and not at
  -- all otherwise; no stored batch is lost.
  pub collect_results-Counts :
      (c : ClusterClient F E) (evs : List Event)
      → AllFilled evs
      → EndsCounted c (collect_results answers ratio nodes csv c evs)
  unfolding collect_results
  collect_results-Counts c [] h = Counts-refl c
  collect_results-Counts c (idle a ∷ evs) h = elim (Bool-cases (eqb_ℤ a (pos 0))) [
    | inl e ↦ rw e (Counts-refl c)
    | inr e ↦ rw e (collect_results-Counts c evs h)
  ]
  collect_results-Counts c (batch [] ∷ evs) h = absurd h
  collect_results-Counts c (batch (first ∷ rest) ∷ evs) h =
      let next = λ (c' : ClusterClient F E). collect_results-Counts c' evs h in
      Returns-bind _ _ (collect_batch answers ratio nodes csv (first ∷ rest) c) _
        (collect_batch-Counts first rest c) λ r a. go_on c evs r a next r.2
