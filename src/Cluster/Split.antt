-- ===== src/Cluster/Split.antt =====
-- How a test is split over the nodes (client.go, `configToNodes`).
use native.Mathlib.Nat.{div-add-mod, mod-lt, div-eq_of_lt}
use loaderbot.Prelude.{
  String, Option, Bool, inl, inr, ℕ, zero, suc, ◌+◌, ◌*◌, ◌/◌, ◌≤◌, ◌<◌, ◌≡◌, refl, false, some,
  arith, length,
}
use loaderbot.Prelude.Int.{pos, quot64}
use loaderbot.Float.{Float64}
use loaderbot.Config.{RunnerConfig, ReportOptions, ClusterOptions, bound_rps}
use loaderbot.Config.Laws.{IsRunnable, validate_iff}
use loaderbot.Schedule.{Limiters}
use loaderbot.Runner.{new_runner}
use loaderbot.Runner.Outcomes.{new_runner_exits}
use loaderbot.Outcome.{exited, returned}
use loaderbot.Cluster.{Copier, share, config_to_nodes}

module _ {F : Type 0} (copy : Copier F) (c : RunnerConfig F) (o : ReportOptions)
    (cl : ClusterOptions) (a s p : ℕ) where
  -- A configuration that is copied without error, with options, and with whole numbers to split.
  pub record IsSplittable : Type 0 where
    pub copied : copy c ≡ some c
    pub options : c.report_options ≡ some o
    pub cluster : c.cluster_options ≡ some cl
    pub attackers : c.attackers ≡ pos a
    pub start : c.start_rps ≡ pos s
    pub step : c.step_rps ≡ pos p
    pub some_node : 0 < length cl.nodes

  abbrev pub node : RunnerConfig F
  node = record c {
    report_options = some (record o { csv = false; png = false });
    attackers = pos (a / length cl.nodes);
    start_rps = pos (s / length cl.nodes);
    step_rps = pos (p / length cl.nodes);
  }

  share_lem : (x : ℕ) (n : ℕ) → 0 < n → share (pos x) n ≡ returned (pos (x / n))
  unfolding quot64
  share_lem x zero h = absurd (omega arith)
  share_lem x (suc n) h = refl

  pub config_to_nodes_lem : IsSplittable → config_to_nodes copy c ≡ returned node
  unfolding config_to_nodes
  config_to_nodes_lem h =
      rw (h.copied, h.options, h.cluster, h.attackers, h.start, h.step)
        (simp (share_lem, h.some_node))

-- The parts of a share: the nodes together have no more than the whole, and less than one more each
-- would need.
share_bounds : (x n : ℕ) → 0 < n → (n * (x / n) ≤ x) × (x < n * (x / n) + n)
share_bounds x n h = grind (arith, div-add-mod x n, mod-lt x)

module _ {F : Type 0} ⦃fl : Float64 F⦄ (copy : Copier F) (c : RunnerConfig F) (o : ReportOptions)
    (cl : ClusterOptions) (a s p : ℕ) where
  -- Where the configuration can be split, each node gets the same part of the attackers, of the first
  -- rate and of the step, no csv and no graph, and all else as it was; together the nodes have at most
  -- the attackers and the rate of the test, and fall short of them by less than the number of nodes.
  pub config_to_nodes-shares :
      IsSplittable copy c o cl a s p
      → let n = length cl.nodes in
        (config_to_nodes copy c ≡ returned (node copy c o cl a s p))
        × (n * (a / n) ≤ a)
        × (a < n * (a / n) + n)
        × (n * (s / n) ≤ s)
        × (s < n * (s / n) + n)
        × (n * (p / n) ≤ p)
        × (p < n * (p / n) + n)
  config_to_nodes-shares h =
      let bound = λ (x : ℕ). share_bounds x (length cl.nodes) h.some_node in
      (
        config_to_nodes_lem copy c o cl a s p h,
        (bound a).0,
        (bound a).1,
        (bound s).0,
        (bound s).1,
        (bound p).0,
        (bound p).1,
      )

  -- In `BoundRPS` mode, with fewer attackers than nodes, the configuration that each node gets has no
  -- attackers, and `NewRunner` ends the process of the node with status 1, whichever attacker it is given.
  pub few_attackers_exit :
      {L Z : Type 0} (zap : String → Option Z) (new_limiter : Limiters L)
      (prototype : Option (RunnerConfig F → ℕ → Bool))
      → IsSplittable copy c o cl a s p
      → c.system_mode ≡ bound_rps
      → a < length cl.nodes
      → (config_to_nodes copy c ≡ returned (node copy c o cl a s p))
        × (new_runner new_limiter prototype zap (node copy c o cl a s p) ≡ exited 1)
  few_attackers_exit zap new_limiter prototype h bound few = (
    config_to_nodes_lem copy c o cl a s p h,
    new_runner_exits zap new_limiter prototype (node copy c o cl a s p)
        λ e. refused ((validate_iff _).0 e),
  )
    where
      none' : a / length cl.nodes ≡ 0
      none' = div-eq_of_lt few

      refused : ¬ IsRunnable (node copy c o cl a s p)
      refused r = elim r.attacked [
        | inl other ↦ other bound
        | inr some' ↦ omega (arith, none', some')
      ]
