-- ===== src/Cluster/Connect.antt =====
-- The start of a cluster test (client.go, `NewClusterClient` and `CheckBusy`).
use loaderbot.Prelude.{
  ◌≡◌, ◌≢◌, refl, ap, ◌∙◌, Bool, true, false, ◌||◌, String, Option, none, some, List, [], ◌∷◌,
  arith, All, if◌then◌else◌,
}
use loaderbot.Outcome.{
  Outcome, returned, fatal, panicked, nil_dereference, index_out_of_range, ◌>>=◌,
}
use loaderbot.Float.{Float64}
use loaderbot.Config.{RunnerConfig, ClusterOptions, default_cfg_values}
use loaderbot.Config.Defaults.{csv_or_true}
use loaderbot.Config.Laws.{cluster_of_defaults}
use loaderbot.Logging.{new_logger}
use loaderbot.Runner.{csv_of, report_of, report_of_lem}
use loaderbot.Cluster.{ClusterClient}

-- `cfg.ClusterOptions.Nodes`
unfoldable pub nodes_of : Option ClusterOptions → Outcome (List String)
nodes_of none = panicked nil_dereference
nodes_of (some o) = returned o.nodes

-- `ask` is the call of `Status` on the node at an address: `none` is an error, with no response, and
-- `some b` the answer.
module _ (ask : String → Option Bool) where
  -- The loop over the nodes, from a value of `failed` on.
  unfoldable pub ask_nodes : Bool → List String → Outcome Bool
  ask_nodes failed [] = returned failed
  ask_nodes failed (addr ∷ nodes) = elim (ask addr) [
    | none ↦ fatal "status"
    | some busy ↦ ask_nodes (if busy then true else failed) nodes
  ]

  -- The client, and whether it has a report. `zap` is that of Logging.
  unfoldable pub new_cluster_client :
      {Z F E : Type 0} → (String → Option Z) → RunnerConfig F → Outcome (ClusterClient F E × Bool)
  new_cluster_client zap cfg = do
    nodes ← nodes_of cfg.cluster_options
    failed ← ask_nodes false nodes
    _ ← new_logger zap cfg
    report ← report_of zap cfg
    returned (record { failed = failed; cluster_tick_metrics = [] }, report)

  abbrev pub dereference : Option Bool → Outcome Bool
  dereference none = panicked nil_dereference
  dereference (some b) = returned b

  unfoldable pub check_busy : List String → Outcome Bool
  check_busy [] = panicked index_out_of_range
  check_busy (addr ∷ nodes) = dereference (ask addr)

  abbrev pub is_busy_at : String → Bool
  is_busy_at addr = elim (ask addr) [ none ↦ false | some b ↦ b ]

  abbrev pub any_busy : List String → Bool
  any_busy [] = false
  any_busy (addr ∷ nodes) = is_busy_at addr || any_busy nodes

  ask_nodes_lem :
      (failed : Bool) (nodes : List String)
      → All (λ addr. ask addr ≢ none) nodes
      → ask_nodes failed nodes ≡ returned (failed || any_busy nodes)
  unfolding ask_nodes
  ask_nodes_lem failed [] h = ground arith
  ask_nodes_lem failed (addr ∷ nodes) h =
      ground (arith, h.0, ask_nodes_lem true nodes h.1, ask_nodes_lem failed nodes h.1)

nodes_lem :
    {F : Type 0} (cfg : RunnerConfig F) (cl : ClusterOptions)
    → cfg.cluster_options ≡ some cl
    → nodes_of cfg.cluster_options ≡ returned cl.nodes
unfolding nodes_of
nodes_lem cfg cl e = ap nodes_of e

no_options_lem :
    {Z F : Type 0} (zap : String → Option Z) (cfg : RunnerConfig F)
    → cfg.report_options ≡ none
    → report_of zap cfg ≡ panicked nil_dereference
unfolding report_of csv_of
no_options_lem zap cfg e = ground (arith, e)

module _ {Z F E : Type 0} (ask : String → Option Bool) (zap : String → Option Z)
    (cfg : RunnerConfig F) (cl : ClusterOptions) where
  abbrev pub connected : Bool → Outcome (ClusterClient F E × Bool)
  connected report =
      returned (record { failed = any_busy ask cl.nodes; cluster_tick_metrics = [] }, report)

  new_cluster_client_lem :
      (l : Z) (report : Outcome Bool)
      → cfg.cluster_options ≡ some cl
      → All (λ addr. ask addr ≢ none) cl.nodes
      → new_logger zap cfg ≡ returned l
      → report_of zap cfg ≡ report
      → new_cluster_client ask {E = E} zap cfg ≡ (do csv ← report; connected csv)
  unfolding new_cluster_client
  new_cluster_client_lem l report c h e r =
      rw (nodes_lem cfg cl c, ask_nodes_lem ask false cl.nodes h, e, r) refl

module _ {Z F : Type 0} ⦃fl : Float64 F⦄ (E : Type 0) (ask : String → Option Bool)
    (zap : String → Option Z) (cfg : RunnerConfig F) (cl : ClusterOptions) where
  -- A configuration with cluster options and no report options, whose nodes all answer, and of whose level
  -- and encoding zap makes a logger, as they are and with their defaults. `NewClusterClient` panics on it;
  -- on the same configuration with its defaults, it returns a client with a report and no batches, which
  -- counts as failed exactly if some node is busy.
  pub cluster_skips_defaults :
      (l k : Z)
      → cfg.cluster_options ≡ some cl
      → cfg.report_options ≡ none
      → All (λ addr. ask addr ≢ none) cl.nodes
      → new_logger zap cfg ≡ returned l
      → new_logger zap (default_cfg_values cfg) ≡ returned k
      → (new_cluster_client ask {E = E} zap cfg ≡ panicked nil_dereference)
        × (new_cluster_client ask {E = E} zap (default_cfg_values cfg)
            ≡ returned (record { failed = any_busy ask cl.nodes; cluster_tick_metrics = [] }, true))
  cluster_skips_defaults l k c o h e e' = (
    new_cluster_client_lem ask zap cfg cl l (panicked nil_dereference) c h e
        (no_options_lem zap cfg o),
    new_cluster_client_lem ask zap (default_cfg_values cfg) cl k (returned true)
        (cluster_of_defaults cfg ∙ c) h e'
        (report_of_lem zap cfg k e' ∙ ap (λ x. returned (csv_or_true x)) o),
  )
