-- ===== src/Cluster/Start.antt =====
-- How a node starts: `StartRunner` of client.go, `MarshalConfigGob` and `UnmarshalConfigGob` of utils.go,
-- and `Run` of service.go up to its runner, with its test of `isBusy`. The codec of encoding/gob is a parameter; none is an error.
use native.Mathlib.Nat.{div-add-mod, div-eq_of_lt}
use loaderbot.Prelude.{
  ℕ, ◌/◌, ◌≤◌, ◌<◌, ◌≡◌, ◌≢◌, ap, ◌∙◌, inr, Bool, true, false, String, Option, none, some, List, [],
  refl, arith, length,
}
use loaderbot.Prelude.Int.{ℤ, pos}
use loaderbot.Float.{Float64}
use loaderbot.Config.{
  RunnerConfig, ReportOptions, ClusterOptions, bound_rps, validate, default_cfg_values,
}
use loaderbot.Config.Laws.{
  IsRunnable, validate_iff, rps_of_defaults, zero_rps_of_defaults, mode_of_defaults,
}
use loaderbot.Outcome.{Outcome, returned, fatal, ◌>>=◌}
use loaderbot.Logging.{raw_json}
use loaderbot.Registry.{attacker_from_string}
use loaderbot.Schedule.{Limiters, start}
use loaderbot.Runner.{Runner, new_runner, prometheus_of}
use loaderbot.Runner.Outcomes.{new_runner-returned, started}
use loaderbot.Cluster.{Copier, config_to_nodes}
use loaderbot.Cluster.Split.{IsSplittable, node, config_to_nodes_lem}

-- The encoder and the decoder.
pub record Gob (F B : Type 0) : Type 0 where
  pub encode : RunnerConfig F → Option B
  pub decode : B → Option (RunnerConfig F)

abbrev pub or_fatal : {A : Type 0} → Option A → Outcome A
or_fatal none = fatal "gob"
or_fatal (some a) = returned a

module _ {F B : Type 0} (gob : Gob F B) where
  unfoldable pub marshal_config_gob : RunnerConfig F → Outcome B
  marshal_config_gob cfg = or_fatal (gob.encode cfg)

  unfoldable pub unmarshal_config_gob : B → Outcome (RunnerConfig F)
  unmarshal_config_gob d = or_fatal (gob.decode d)

  -- The runner that `Run` of the node's server makes for what `StartRunner` of the client sends; none if the
  -- node is busy. `registry` has the attackers of the node's process, each as the prototype of Runner.
  unfoldable pub node_runner :
      {L Z : Type 0}
      → Limiters L
      → List (String × (RunnerConfig F → ℕ → Bool))
      → Bool
      → (String → Option Z)
      → ⦃fl : Float64 F⦄ → Copier F
      → RunnerConfig F
      → Outcome (Option (Runner F))
  node_runner new_limiter registry busy zap copy test_cfg = do
    node_config ← config_to_nodes copy test_cfg
    config ← marshal_config_gob node_config
    elim busy [
      | true ↦ returned none
      | false ↦ do
        cfg ← unmarshal_config_gob config
        r ← new_runner new_limiter (attacker_from_string cfg.instance_type registry) zap cfg
        returned (some r)
    ]

pub div_pos : (a n : ℕ) → 0 < n → n ≤ a → 0 < a / n
div_pos a n h k = grind (arith, div-add-mod a n)

module _ {L F B Z : Type 0} ⦃fl : Float64 F⦄ (gob : Gob F B) (zap : String → Option Z)
    (new_limiter : Limiters L) (registry : List (String × (RunnerConfig F → ℕ → Bool)))
    (setup : RunnerConfig F → ℕ → Bool) (copy : Copier F) (c : RunnerConfig F) (o : ReportOptions)
    (cl : ClusterOptions) (a s p : ℕ) where
  node-IsRunnable :
      IsSplittable copy c o cl a s p
      → IsRunnable c
      → length cl.nodes ≤ a
      → IsRunnable (node copy c o cl a s p)
  node-IsRunnable h r le = record {
    named = r.named;
    attacked = inr (ground (arith, div_pos a (length cl.nodes) h.some_node le));
    timed = r.timed;
    stepped = r.stepped;
    growing = inr (ground arith);
    bounded = r.bounded;
  }

  some_rate :
      IsSplittable copy c o cl a s p → length cl.nodes ≤ s → pos (s / length cl.nodes) ≢ pos 0
  some_rate h le e = ground (arith, div_pos s (length cl.nodes) h.some_node le, e)

  -- The share of a node, with its defaults.
  abbrev pub node_cfg : RunnerConfig F
  node_cfg = default_cfg_values (node copy c o cl a s p)

  -- The runner of a node whose first rate is `rate`.
  abbrev pub node_at : ℤ → Runner F
  node_at rate = record {
    name = node_cfg.name;
    cfg = node_cfg;
    target_rps = rate;
    attackers = a / length cl.nodes;
    report = false;
    prom_reporter = prometheus_of node_cfg.prometheus;
  }

  -- The node can make a runner of its share, for a rate, and all attackers set up. gob decodes the share as
  -- it was encoded, the attacker of the configuration is registered, `ratelimit.New` makes a limiter for the
  -- rate, and zap a logger for the level and encoding with their defaults.
  pub record CanStart (rate : ℤ) : Type 0 where
    pub split : IsSplittable copy c o cl a s p
    pub valid : validate c ≡ []
    pub attacked : length cl.nodes ≤ a
    pub bytes : B
    pub encoded : gob.encode (node copy c o cl a s p) ≡ some bytes
    pub decoded : gob.decode bytes ≡ some (node copy c o cl a s p)
    pub registered : attacker_from_string c.instance_type registry ≡ some setup
    pub limited : new_limiter.refuses rate ≡ false
    pub logger : Z
    pub logged : zap (raw_json node_cfg.log_level node_cfg.log_encoding) ≡ some logger
    pub ready : (k : ℕ) → setup node_cfg k ≡ true

  node_starts_at :
      (rate : ℤ)
      → CanStart rate
      → node_cfg.start_rps ≡ rate
      → node_runner gob new_limiter registry false zap copy c ≡ returned (some (node_at rate))
  unfolding node_runner marshal_config_gob unmarshal_config_gob
  node_starts_at rate h e =
      let m = node copy c o cl a s p in
      let runnable = node-IsRunnable h.split ((validate_iff c).0 h.valid) h.attacked in
      let made = ap new_limiter.refuses e ∙ h.limited in
      rw
        (
          config_to_nodes_lem copy c o cl a s p h.split,
          h.encoded,
          h.decoded,
          h.registered,
          new_runner-returned zap new_limiter setup m h.logger ((validate_iff m).1 runnable) made
              h.logged h.ready,
        )
        (ap
          (λ r.
            returned (some (record (started zap new_limiter (some setup) m) { target_rps = r })))
          e)

  -- A configuration that `validate` accepts and that can be split, with at least one request per second
  -- and, in all modes, one attacker for each node. On a node that is not busy, gob decodes the share as it
  -- was encoded, the attacker of the configuration is registered, `ratelimit.New` does not refuse the share
  -- of the first rate, zap makes a logger of its level and encoding with their defaults, and all attackers
  -- set up. Then the node makes a runner, with its share of the attackers and of the first rate, and with
  -- no report; a node that is busy makes none.
  pub node_starts :
      length cl.nodes ≤ s
      → CanStart (pos (s / length cl.nodes))
      → (node_runner gob new_limiter registry false zap copy c
          ≡ returned (some (node_at (pos (s / length cl.nodes)))))
        × (node_runner gob new_limiter registry true zap copy c ≡ returned none)
  unfolding node_runner marshal_config_gob
  node_starts more_rate h = (
    node_starts_at _ h (rps_of_defaults (node copy c o cl a s p) (some_rate h.split more_rate)),
    rw (config_to_nodes_lem copy c o cl a s p h.split, h.encoded) refl,
  )

  -- In `BoundRPS` mode, with a rate that is below the number of nodes, and under the conditions of
  -- `node_starts` on a node, for the rate 10: each node that is not busy makes a runner with the rate 10,
  -- the default for its share of 0, and its scheduler starts at this rate and with a limiter for it, so that
  -- each node alone is paced at 10 requests per second, whatever smaller rate was asked for.
  pub small_rate_grows :
      c.system_mode ≡ bound_rps
      → s < length cl.nodes
      → CanStart (pos 10)
      → (node_runner gob new_limiter registry false zap copy c ≡ returned (some (node_at (pos 10))))
        × ((start new_limiter node_cfg (a / length cl.nodes)).target_rps ≡ pos 10)
        × ((start new_limiter node_cfg (a / length cl.nodes)).limiter
            ≡ some (new_limiter.make (pos 10)))
  unfolding start
  small_rate_grows bound few h =
      let m = node copy c o cl a s p in
      let rate = zero_rps_of_defaults m bound (ap pos (div-eq_of_lt few)) in
      (
        node_starts_at (pos 10) h rate,
        ground (arith, rate, mode_of_defaults m, bound),
        ground (arith, rate, mode_of_defaults m, bound),
      )
