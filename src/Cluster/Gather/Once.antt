-- ===== src/Cluster/Gather/Once.antt =====
-- The ticks that a cluster's client aggregates (client.go, `ClusterClient.Run` and `collectResults`).
use loaderbot.Prelude.{
  ℕ, suc, ◌+◌, ◌<◌, ◌≡◌, refl, ap, ◌∙◌, ◌⊎◌, inl, inr, Bool, true, false, List, [], ◌∷◌, ◌++◌, map,
  length, arith, ◌==◌, leb, ltb, ◌&&◌, if◌then◌else◌, Bool-cases, ==_iff,
}
use loaderbot.Prelude.Maps.{lookup, insert, lookup-insert, ℕ_eq}
use loaderbot.Float.{Float64, ◌<f◌}
use loaderbot.Metrics.{Metrics, Quantile}
use loaderbot.Result.{AttackResult}
use loaderbot.Outcome.Laws.{Returns-bind, Returns-mono, Returns-both}
use loaderbot.Outcome.{returned, Returns, ◌>>=◌}
use loaderbot.Cluster.{
  ClusterClient, Effect, batch, shutdowns, report_tick, collect_batch, collect_results,
}
use loaderbot.Cluster.Aggregate.{collect_results-Counts, samples_lem, entry}
use loaderbot.Cluster.Logged.{
  batches_of, stored, logs, has_bad_tick, has_bad_tick-append, stops-LogsNone, AllFilled,
}
use loaderbot.Cluster.Gather.{finished, Gathering, gathering, Reach}
use loaderbot.Cluster.Gather.Arrived.{count, total, all_arrived}

-- The batch is for this tick.
abbrev pub is_of : ℕ → List AttackResult → Bool
is_of t [] = false
is_of t (r ∷ rs) = r.attack_token.tick == t

abbrev pub is_empty : List AttackResult → Bool
is_empty [] = true
is_empty (r ∷ rs) = false

AllFilled-batches :
    (bs : List (List AttackResult)) → count is_empty bs ≡ 0 → AllFilled (map batch bs)
AllFilled-batches [] h = tt
AllFilled-batches ([] ∷ bs) h = absurd (omega (arith, h))
AllFilled-batches ((r ∷ rs) ∷ bs) h = AllFilled-batches bs h

-- The client has failed, and has aggregated a tick whose success ratio is too low.
abbrev pub HasFailed :
    {F E : Type 0} ⦃fl : Float64 F⦄ → F → ClusterClient F E × List (Effect F E) × Bool → Type 0
HasFailed ratio r = (r.0.failed ≡ true) × (has_bad_tick ratio r.1 ≡ true)

module _ {F E : Type 0} ⦃fl : Float64 F⦄ ⦃q : Quantile F E⦄ (answers : ℕ → Bool)
    (all : (i : ℕ) → answers i ≡ true) (ratio : F) (nodes : ℕ) (csv : Bool) where
  -- The batches are stored under their ticks.
  abbrev IsStored : ClusterClient F E → List (List AttackResult) → ClusterClient F E → Type 0
  IsStored c bs c' = (t : ℕ) → stored t c' ≡ stored t c + count (is_of t) bs

  module _ (first : AttackResult) (rest : List AttackResult) (c : ClusterClient F E) where
    store_at :
        (m : Metrics F E) (t : ℕ)
        → batches_of (
            lookup t (
              insert first.attack_token.tick
                (entry answers all ratio nodes csv first rest c m)
                c.cluster_tick_metrics))
          ≡ stored t c + count (is_of t) ((first ∷ rest) ∷ [])
    store_at m t =
        ap batches_of (
          lookup-insert first.attack_token.tick t (entry answers all ratio nodes csv first rest c m)
            c.cluster_tick_metrics)
        ∙ elim (Bool-cases (first.attack_token.tick == t)) [
          | inl e ↦
              let same = (==_iff first.attack_token.tick t).0 e in
              rw e (
                samples_lem answers all ratio nodes csv first rest c
                ∙ ap (λ k. suc (stored k c)) same
                ∙ omega arith)
          | inr e ↦ rw e (omega arith)
        ]

    -- The batch is stored, and the loop goes on, unless the tick was a bad one.
    abbrev GoesOn : ClusterClient F E × List (Effect F E) × Bool → Type 0
    GoesOn r = IsStored c ((first ∷ rest) ∷ []) r.0 × ((r.2 ≡ false) ⊎ HasFailed ratio r)

    report_tick-GoesOn :
        (m : Metrics F E) (full bad : Bool)
        → (bad ≡ true → (full ≡ true) × ((m.success_ratio <f ratio) ≡ true))
        → Returns GoesOn (
            report_tick answers ratio nodes csv first
              (entry answers all ratio nodes csv first rest c m)
              full
              bad
              c)
    unfolding has_bad_tick
    report_tick-GoesOn m full true h =
        let (is_full, is_bad) = h refl in
        Returns-bind _ _ (shutdowns answers 0 nodes) _ (stops-LogsNone F E answers all true nodes)
          λ stops _. ((λ t. store_at m t), inr (refl, rw (is_full, is_bad) refl))
    report_tick-GoesOn m full false h = ((λ t. store_at m t), inl refl)

    collect_batch-GoesOn : Returns GoesOn (collect_batch answers ratio nodes csv (first ∷ rest) c)
    unfolding collect_batch
    collect_batch-GoesOn = report_tick-GoesOn _ _ _ λ e. ground (arith, e)

  -- The client has failed, or has stored all batches.
  abbrev pub IsCollected :
      ClusterClient F E
      → List (List AttackResult)
      → ClusterClient F E × List (Effect F E) × Bool
      → Type 0
  IsCollected c bs r = HasFailed ratio r ⊎ IsStored c bs r.0

  IsStored-cons :
      (c c1 c2 : ClusterClient F E) (b : List AttackResult) (bs : List (List AttackResult))
      → IsStored c (b ∷ []) c1
      → IsStored c1 bs c2
      → IsStored c (b ∷ bs) c2
  IsStored-cons c c1 c2 b bs x y t = ground (arith, x t, y t)

  -- The rest of the loop after a batch.
  after_batch :
      (c : ClusterClient F E) (b : List AttackResult) (bs : List (List AttackResult))
      (r : ClusterClient F E × List (Effect F E) × Bool)
      → IsStored c (b ∷ []) r.0
      → (r.2 ≡ false) ⊎ HasFailed ratio r
      → Returns (IsCollected r.0 bs) (collect_results answers ratio nodes csv r.0 (map batch bs))
      → (stop : Bool) → r.2 ≡ stop
      → Returns (IsCollected c (b ∷ bs)) (elim stop [
        | true ↦ returned (r.0, r.1, true)
        | false ↦ do
          (c'', es', over) ← collect_results answers ratio nodes csv r.0 (map batch bs)
          returned (c'', r.1 ++ es', over)
      ])
  after_batch c b bs r st (inr f) go_on true e = inl f
  after_batch c b bs r st (inl f) go_on true e = absurd (ground (arith, e, f))
  after_batch c b bs r st g go_on false e =
      Returns-bind _ _ (collect_results answers ratio nodes csv r.0 (map batch bs)) _ go_on λ r' x.
        elim x [
          | inl f ↦ inl (f.0, has_bad_tick-append ratio r.1 r'.1 f.1)
          | inr s ↦ inr (IsStored-cons c r.0 r'.0 b bs st s)
        ]

  collect_results-IsCollected :
      (c : ClusterClient F E) (bs : List (List AttackResult))
      → AllFilled (map batch bs)
      → Returns (IsCollected c bs) (collect_results answers ratio nodes csv c (map batch bs))
  unfolding collect_results
  collect_results-IsCollected c [] h = inr λ t. omega arith
  collect_results-IsCollected c ([] ∷ bs) h = absurd h
  collect_results-IsCollected c ((first ∷ rest) ∷ bs) h =
      let next = λ (c' : ClusterClient F E). collect_results-IsCollected c' bs h in
      Returns-bind _ _ (collect_batch answers ratio nodes csv (first ∷ rest) c) _
        (collect_batch-GoesOn first rest c)
        λ r a. after_batch c (first ∷ rest) bs r a.0 a.1 (next r.0) r.2 refl

-- No stream has an empty batch.
abbrev pub AllBatchesFilled : List (List (List AttackResult)) → Type 0
AllBatchesFilled streams = total is_empty streams ≡ 0

-- The client has failed, with a bad tick aggregated, or has aggregated each tick once that has as many batches in the streams as
-- there are nodes, or more, and no other tick.
abbrev pub AreAggregatedOnce :
    {F E : Type 0} ⦃fl : Float64 F⦄
    → F
    → List (List (List AttackResult))
    → ClusterClient F E × List (Effect F E) × Bool
    → Type 0
AreAggregatedOnce ratio streams r =
    HasFailed ratio r
    ⊎ ((t : ℕ) → logs t r.1 ≡ (if leb (length streams) (total (is_of t) streams) then 1 else 0))

once :
    (n sum l before now : ℕ)
    → 0 < n
    → before ≡ 0
    → now ≡ before + sum
    → l ≡ (if ltb before n && leb n now then 1 else 0)
    → l ≡ (if leb n sum then 1 else 0)
once n sum l before now pos z e c = ground (arith, pos, z, e, c)

module _ {F E : Type 0} ⦃fl : Float64 F⦄ ⦃q : Quantile F E⦄ (answers : ℕ → Bool)
    (all : (i : ℕ) → answers i ≡ true) (ratio : F) (csv : Bool) where
  -- At least one node, all of which answer `ShutdownNode`, streams without an empty batch, and a client with
  -- no batches yet. For any interleaving: when `collectResults` returns as no node is active, the batches that it has received,
  -- in the order of their arrival, make it either fail on a tick with too many errors, or aggregate
  -- exactly once each tick that has at least as many batches as there are nodes, and no other tick.
  pub each_tick_once :
      (c : ClusterClient F E) (streams : List (List (List AttackResult)))
      {s : Gathering (List AttackResult)}
      → Reach (gathering streams) s
      → s.client ≡ finished
      → 0 < length streams
      → AllBatchesFilled streams
      → c.cluster_tick_metrics ≡ []
      → Returns
          (AreAggregatedOnce ratio streams)
          (collect_results answers ratio (length streams) csv c (map batch s.arrived))
  unfolding lookup
  each_tick_once c streams {s = s} r e some_node filled fresh =
      let n = length streams in
      let full = AllFilled-batches s.arrived (all_arrived is_empty streams r e ∙ filled) in
      let run = collect_results answers ratio n csv c (map batch s.arrived) in
      Returns-mono _ _ run
        (Returns-both _ _ run (collect_results-IsCollected answers all ratio n csv c s.arrived full)
          (collect_results-Counts answers all ratio n csv c (map batch s.arrived) full))
        λ x h. elim h.0 [
          | inl f ↦ inl f
          | inr st ↦ inr λ t.
              once n (total (is_of t) streams) (logs t x.1) (stored t c) (stored t x.0) some_node
                (ap (λ m. batches_of (lookup t m)) fresh)
                (st t ∙ ap (λ k. stored t c + k) (all_arrived (is_of t) streams r e)) (h.1 t).1
        ]
