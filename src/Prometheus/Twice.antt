-- ===== src/Prometheus/Twice.antt =====
-- Two reporters with one label (prometheus_metrics.go).
use loaderbot.Prelude.{
  ℕ, ◌≡◌, refl, sym, ◌∙◌, false, String, none, some, List, [], ◌∷◌, map, arith, str_eq, eq_iff, All,
}
use loaderbot.Prometheus.{
  Gauge, Registry, IsFirstWins, gauges, new_gauge, register_all, new_prom_reporter,
}

-- The pairwise test of names.
abbrev OtherNames : String → List (String × String) → Type 0
OtherNames n ns = All (λ m. str_eq n m.0 ≡ false) ns

abbrev AreDistinct : List (String × String) → Type 0
AreDistinct [] = Unit
AreDistinct (n ∷ ns) = OtherNames n.0 ns × AreDistinct ns

module _ {R : Type 0} (reg : Registry R) (laws : IsFirstWins reg) where
  abbrev pub Serves : R → Gauge → Type 0
  Serves r g = reg.exported g.name g.runner_name r ≡ some g

  register_new :
      (g : Gauge) (r : R) → reg.exported g.name g.runner_name r ≡ none → Serves (reg.register g r) g
  register_new g r h =
      laws.registered g g.name g.runner_name r
      ∙ rw (h, (eq_iff g.name g.name).1 refl, (eq_iff g.runner_name g.runner_name).1 refl) refl

  -- What is served under a name stays.
  register_keeps :
      (g x : Gauge) (n l : String) (r : R)
      → reg.exported n l r ≡ some x
      → reg.exported n l (reg.register g r) ≡ some x
  register_keeps g x n l r h = laws.registered g n l r ∙ rw h refl

  register_all_keeps :
      (gs : List Gauge) (x : Gauge) (n l : String) (r : R)
      → reg.exported n l r ≡ some x
      → reg.exported n l (register_all reg gs r) ≡ some x
  register_all_keeps [] x n l r h = h
  register_all_keeps (g ∷ gs) x n l r h =
      register_all_keeps gs x n l (reg.register g r) (register_keeps g x n l r h)

  register_other :
      (g : Gauge) (n l : String) (r : R)
      → str_eq g.name n ≡ false
      → reg.exported n l r ≡ none
      → reg.exported n l (reg.register g r) ≡ none
  register_other g n l r e h = laws.registered g n l r ∙ rw (h, e) refl

  module _ (label : String) where
    -- No gauge is served under the label and one of the names.
    abbrev pub AreFree : R → List (String × String) → Type 0
    AreFree r ns = All (λ n. reg.exported n.0 label r ≡ none) ns

    register-AreFree :
        (i : ℕ) (n : String × String) (ns : List (String × String)) (r : R)
        → OtherNames n.0 ns
        → AreFree r ns
        → AreFree (reg.register (new_gauge label i n) r) ns
    register-AreFree i n [] r h k = tt
    register-AreFree i n (m ∷ ns) r h k = (
      register_other (new_gauge label i n) m.0 label r h.0 k.0,
      register-AreFree i n ns r h.1 k.1,
    )

    -- Gauges with distinct free names are all served.
    all_served :
        (i : ℕ) (ns : List (String × String)) (r : R)
        → AreDistinct ns
        → AreFree r ns
        → All
            (λ n. Serves (register_all reg (map (new_gauge label i) ns) r) (new_gauge label i n))
            ns
    all_served i [] r d f = tt
    all_served i (n ∷ ns) r d f =
        let r' = reg.register (new_gauge label i n) r in
        (
          register_all_keeps (map (new_gauge label i) ns) (new_gauge label i n) n.0 label r'
              (register_new (new_gauge label i n) r f.0),
          all_served i ns r' d.1 (register-AreFree i n ns r d.0 f.1),
        )

    -- The gauges of reporter i are served, and those of reporter j under the same names are not.
    first_only :
        (i j : ℕ) (gs : List Gauge) (ns : List (String × String)) (r : R)
        → (i ≡ j → ⊥)
        → All (λ n. Serves r (new_gauge label i n)) ns
        → All (Serves (register_all reg gs r)) (map (new_gauge label i) ns)
          × All (λ g. ¬ (Serves (register_all reg gs r) g)) (map (new_gauge label j) ns)
    first_only i j gs [] r ne h = (tt, tt)
    first_only i j gs (n ∷ ns) r ne h =
        let (served, unseen) = first_only i j gs ns r ne h.1 in
        let stays = register_all_keeps gs (new_gauge label i n) n.0 label r h.0 in
        (
          (stays, served),
          (
            λ e. ne (same_reporter (new_gauge label i n) (new_gauge label j n) (sym stays ∙ e)),
            unseen,
          ),
        )
      where
        same_reporter : (x y : Gauge) → some x ≡ some y → x.reporter ≡ y.reporter
        same_reporter x y e = ground (arith, e)

    -- If a registry keeps the first gauge of a name and a label, and serves nothing yet under the label
    -- and the six names of gauges, then after two different reporters with that label all gauges that the
    -- first sets are served under their names, and none of those that the second sets.
    pub second_reporter_unseen :
        (i j : ℕ) (r : R)
        → (i ≡ j → ⊥)
        → AreFree r gauges
        → let first = new_prom_reporter reg label i r in
          let second = new_prom_reporter reg label j first.1 in
          All (Serves second.1) first.0 × All (λ g. ¬ (Serves second.1 g)) second.0
    unfolding new_prom_reporter
    second_reporter_unseen i j r ne free =
        first_only i j (map (new_gauge label j) gauges) gauges
          (register_all reg (map (new_gauge label i) gauges) r) ne
          (all_served i gauges r
            (
              (refl, (refl, (refl, (refl, (refl, tt))))),
              (
                (refl, (refl, (refl, (refl, tt)))),
                ((refl, (refl, (refl, tt))), ((refl, (refl, tt)), ((refl, tt), (tt, tt)))),
              ),
            )
            free)
