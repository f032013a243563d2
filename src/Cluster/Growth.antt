-- ===== src/Cluster/Growth.antt =====
-- The growth of the rate over the nodes of a cluster (client.go, config.go, `schedule` of runner.go).
use native.Mathlib.Nat.{div-add-mod, div-eq_of_lt}
use mathlib.Core.Path.{subst}
use loaderbot.Prelude.{
  sym, ℕ, ◌+◌, ◌-◌, ◌/◌, ◌^◌, ◌≤◌, ◌<◌, ◌≡◌, ap, ◌∙◌, inl, arith, length, length-replicate, select,
  List,
}
use loaderbot.Prelude.Int.{
  ℤ, pos, pos_part, wrap64, wrap64_fits, Fits64, ◌+ℤ◌, ◌*ℤ◌, +ℤ_parts, *ℤ_parts, eq_of_parts,
}
use loaderbot.Float.{Float64}
use loaderbot.Config.{RunnerConfig, ReportOptions, ClusterOptions, bound_rps, default_cfg_values}
use loaderbot.Config.Laws.{
  mode_of_defaults, rps_of_defaults, step_of_defaults, constant_duration_of_defaults,
}
use loaderbot.Outcome.{returned}
use loaderbot.Schedule.{Limiters, Poll, start, schedule}
use loaderbot.Schedule.Tokens.{tokens}
use loaderbot.Schedule.Correct.{schedule_ticks}
use loaderbot.Schedule.LeftBehind.{has_tick}
use loaderbot.Cluster.{Copier, config_to_nodes}
use loaderbot.Cluster.Split.{IsSplittable, node, config_to_nodes_lem}
use loaderbot.Cluster.Start.{div_pos}

no_growth :
    (first growth : ℤ) (k : ℕ)
    → growth ≡ pos 0
    → Fits64 first
    → wrap64 (first +ℤ pos k *ℤ growth) ≡ first
no_growth first growth k e h =
    ap wrap64 (eq_of_parts _ _ (grind (arith, +ℤ_parts, *ℤ_parts, e))) ∙ wrap64_fits first h

share_fits : (s n : ℕ) → 0 < n → s < 2 ^ 63 → Fits64 (pos (s / n))
share_fits s n h k = (grind (arith, div-add-mod s n), omega arith)

module _ {L F : Type 0} ⦃fl : Float64 F⦄ (new_limiter : Limiters L) (copy : Copier F)
    (c : RunnerConfig F) (o : ReportOptions) (cl : ClusterOptions) (a s p : ℕ) where
  abbrev pub share_of : RunnerConfig F
  share_of = default_cfg_values (node copy c o cl a s p)

  -- In `BoundRPS` mode, with a rate of at least one request per second for each node, and a step that is
  -- below the number of nodes: each node gets a step of 0 and so the default duration of 10 seconds. On
  -- every run of its scheduler, each tick that is left behind has had as many tokens as the share of the
  -- first rate: the load of the cluster never grows.
  pub small_step_stays :
      (attackers : ℕ) (ps : List Poll) (t : ℕ)
      → IsSplittable copy c o cl a s p
      → c.system_mode ≡ bound_rps
      → length cl.nodes ≤ s
      → s < 2 ^ 63
      → p < length cl.nodes
      → 1 ≤ t
      → t
        < (schedule new_limiter share_of.step_rps
            (start new_limiter share_of attackers)
            ps).last.current_tick
      → (config_to_nodes copy c ≡ returned (node copy c o cl a s p))
        × (share_of.step_duration_sec ≡ pos 10)
        × (length (
              select (has_tick t) (
                tokens
                  (schedule new_limiter share_of.step_rps
                    (start new_limiter share_of attackers)
                    ps).signals))
            ≡ s / length cl.nodes)
  small_step_stays attackers ps t h mode enough fits few le lt =
      let m = node copy c o cl a s p in
      let growth = step_of_defaults m ∙ ap pos (div-eq_of_lt few) in
      let rate =
        rps_of_defaults m
          (λ e. ground (arith, div_pos s (length cl.nodes) h.some_node enough, e)) in
      let small : Fits64 share_of.start_rps =
        subst Fits64 (sym rate) (share_fits s (length cl.nodes) h.some_node fits) in
      let duration = constant_duration_of_defaults m mode (ap pos (div-eq_of_lt few)) in
      (
        config_to_nodes_lem copy c o cl a s p h,
        duration,
        ap length (
              schedule_ticks new_limiter share_of attackers 10 ps t (omega arith)
                (inl (mode_of_defaults m ∙ mode)) duration small le lt)
            ∙ length-replicate _ _
            ∙ ap pos_part (
                no_growth share_of.start_rps share_of.step_rps (1 + t / 10 - 1 / 10 - 1) growth
                  small
                ∙ rate),
      )
