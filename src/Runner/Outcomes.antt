-- ===== src/Runner/Outcomes.antt =====
-- What `NewRunner` (runner.go) comes to.
use loaderbot.Prelude.{
  ap, ◌∙◌, ℕ, zero, suc, ◌+◌, ◌≡◌, ◌≢◌, refl, Bool, true, false, String, Option, none, some, [],
  ◌∷◌, ◌&&◌, ◌||◌, if◌then◌else◌, Bool-cases, inl, inr, List, arith,
}
use loaderbot.Prelude.Int.{pos_part}
use loaderbot.Float.{Float64}
use loaderbot.Config.{
  RunnerConfig, is_mode, bound_rps, bound_rps_autoscale, validate, validate_or_exit,
  default_cfg_values,
}
use loaderbot.Config.Laws.{attackers_of_defaults, mode_of_defaults}
use loaderbot.Config.Defaults.{csv_or_true}
use loaderbot.Logging.{raw_json, or_panic, setup_logger, new_logger}
use loaderbot.Schedule.{Limiters}
use loaderbot.Attack.{err_attacker_setup}
use loaderbot.Outcome.{
  Outcome, returned, exited, fatal, panicked, nil_dereference, bad_logger, divide_by_zero, ◌>>=◌,
}
use loaderbot.Runner.{
  Runner, prometheus_of, limiter_of, set_up_one, set_up, new_runner, report_of_lem,
}

module _ {L F Z : Type 0} ⦃fl : Float64 F⦄ (zap : String → Option Z) (new_limiter : Limiters L)
    (prototype : Option (RunnerConfig F → ℕ → Bool)) (c : RunnerConfig F) where
  -- A configuration that `validate` complains of ends the process with status 1.
  pub new_runner_exits : validate c ≢ [] → new_runner new_limiter prototype zap c ≡ exited 1
  unfolding new_runner validate_or_exit
  new_runner_exits h = ground arith

  -- All of n clones from number i on set up.
  abbrev pub all_ready : (RunnerConfig F → ℕ → Bool) → ℕ → ℕ → Bool
  all_ready setup i zero = true
  all_ready setup i (suc n) = setup (default_cfg_values c) i && all_ready setup (i + 1) n

  -- What setting up n attackers from number i on comes to.
  abbrev pub set_ups : Option (RunnerConfig F → ℕ → Bool) → ℕ → ℕ → Outcome ℕ
  set_ups _ i zero = returned i
  set_ups none i (suc n) = panicked nil_dereference
  set_ups (some setup) i (suc n) =
      if all_ready setup i (suc n) then returned (i + suc n) else fatal err_attacker_setup

  all_set_up :
      (setup : RunnerConfig F → ℕ → Bool) (i n : ℕ)
      → set_up new_limiter (some setup) (default_cfg_values c) i n
        ≡ (if all_ready setup i n then returned (i + n) else fatal err_attacker_setup)
  unfolding set_up set_up_one
  all_set_up setup i zero = ground arith
  all_set_up setup i (suc n) = ground (arith, all_set_up setup (i + 1) n)

  set_up_lem :
      (o : Option (RunnerConfig F → ℕ → Bool)) (i n : ℕ)
      → set_up new_limiter o (default_cfg_values c) i n ≡ set_ups o i n
  unfolding set_up set_up_one
  set_up_lem o i zero = refl
  set_up_lem none i (suc n) = refl
  set_up_lem (some setup) i (suc n) = all_set_up setup i (suc n)

  -- What a runner starts with.
  abbrev pub started : Runner F
  started = record {
    name = (default_cfg_values c).name;
    cfg = default_cfg_values c;
    target_rps = (default_cfg_values c).start_rps;
    attackers = pos_part c.attackers;
    report = csv_or_true c.report_options;
    prom_reporter = prometheus_of (default_cfg_values c).prometheus;
  }

  -- The text that the logger is made of.
  abbrev pub log_text : String
  log_text = raw_json (default_cfg_values c).log_level (default_cfg_values c).log_encoding

  -- `New` panics at the first rate, in a mode with a limiter.
  abbrev pub limiter_panics : Bool
  limiter_panics =
      (is_mode bound_rps c || is_mode bound_rps_autoscale c)
      && new_limiter.refuses (default_cfg_values c).start_rps

  -- What `NewRunner` comes to, by the attackers, the logger, the limiter and the complaints of `validate`.
  abbrev pub with_attackers : Outcome ℕ → Outcome (Runner F)
  with_attackers o = o >>= λ _. returned started

  abbrev pub with_logger : Option Z → Outcome (Runner F)
  with_logger none = panicked bad_logger
  with_logger (some _) = with_attackers (set_ups prototype 0 (pos_part c.attackers))

  abbrev pub with_limiter : Bool → Outcome (Runner F)
  with_limiter true = panicked divide_by_zero
  with_limiter false = with_logger (zap log_text)

  abbrev pub with_complaints : List String → Outcome (Runner F)
  with_complaints [] = with_limiter limiter_panics
  with_complaints (_ ∷ _) = exited 1

  limiter_lem :
      (b : Bool)
      → limiter_panics ≡ b
      → limiter_of new_limiter (default_cfg_values c)
        ≡ (if b then panicked divide_by_zero else returned tt)
  unfolding limiter_of
  limiter_lem b e = ground (arith, e, mode_of_defaults c)

  logger_lem :
      (z : Option Z) → zap log_text ≡ z → new_logger zap (default_cfg_values c) ≡ or_panic z
  unfolding new_logger setup_logger
  logger_lem z e = ap or_panic e

  attackers_lem :
      set_up new_limiter prototype
        (default_cfg_values c)
        0
        (pos_part (default_cfg_values c).attackers)
      ≡ set_ups prototype 0 (pos_part c.attackers)
  attackers_lem =
      ap (set_up new_limiter prototype (default_cfg_values c) 0)
        (ap pos_part (attackers_of_defaults c))
      ∙ set_up_lem prototype 0 (pos_part c.attackers)

  -- Setting up n attackers returns n, if it returns.
  counted :
      (o : Option (RunnerConfig F → ℕ → Bool)) (n : ℕ) (f : ℕ → Outcome (Runner F))
      → f n ≡ returned started
      → (set_ups o 0 n >>= f) ≡ with_attackers (set_ups o 0 n)
  counted o zero f e = e
  counted none (suc n) f e = refl
  counted (some setup) (suc n) f e = elim (Bool-cases (all_ready setup 0 (suc n))) [
    | inl t ↦ rw t (ap f (omega arith) ∙ e)
    | inr t ↦ rw t refl
  ]

  logger_rest :
      (z : Option Z)
      → zap log_text ≡ z
      → limiter_panics ≡ false
      → validate c ≡ []
      → new_runner new_limiter prototype zap c ≡ with_logger z
  unfolding new_runner validate_or_exit
  logger_rest none e k v = rw (v, limiter_lem false k, logger_lem none e) refl
  logger_rest (some l) e k v =
      rw (v, limiter_lem false k, logger_lem (some l) e, attackers_lem)
        (counted prototype (pos_part c.attackers) _
          (rw (report_of_lem zap c l (logger_lem (some l) e)) refl))

  rest_lem :
      (b : Bool)
      → limiter_panics ≡ b
      → validate c ≡ []
      → new_runner new_limiter prototype zap c ≡ with_limiter b
  unfolding new_runner validate_or_exit
  rest_lem true k v = rw (v, limiter_lem true k) refl
  rest_lem false k v = logger_rest (zap log_text) refl k v

  by_complaints :
      (vs : List String)
      → validate c ≡ vs
      → new_runner new_limiter prototype zap c ≡ with_complaints vs
  by_complaints [] e = rest_lem limiter_panics refl e
  by_complaints (v ∷ vs) e = new_runner_exits (λ h. ground (arith, e, h))

  -- `NewRunner` exits the process with status 1 if `validate` complains; else it panics if, in a mode with
  -- a limiter, `ratelimit.New` refuses the first rate with its default; else it panics if zap makes no
  -- logger of the level and encoding with their defaults; else, if the configuration asks for attackers, it
  -- panics if the attacker given is nil, and ends the process if one of the clones does not set up; else it
  -- returns: with the configuration and its defaults, as many attackers as the configuration asks for,
  -- none if that is negative, the rate of the first step, and a report if the options ask for csv files or
  -- there are no options.
  pub new_runner-eq : new_runner new_limiter prototype zap c ≡ with_complaints (validate c)
  new_runner-eq = by_complaints (validate c) refl

module _ {L F Z : Type 0} ⦃fl : Float64 F⦄ (zap : String → Option Z) (new_limiter : Limiters L)
    (setup : RunnerConfig F → ℕ → Bool) (c : RunnerConfig F) where
  all_ready_lem :
      (i n : ℕ)
      → ((k : ℕ) → setup (default_cfg_values c) k ≡ true)
      → all_ready zap new_limiter (some setup) c setup i n ≡ true
  all_ready_lem i zero h = refl
  all_ready_lem i (suc n) h = ground (arith, h i, all_ready_lem (i + 1) n h)

  all_attackers :
      (n : ℕ)
      → ((k : ℕ) → setup (default_cfg_values c) k ≡ true)
      → with_attackers zap new_limiter
          (some setup)
          c
          (set_ups zap new_limiter (some setup) c (some setup) 0 n)
        ≡ returned (started zap new_limiter (some setup) c)
  all_attackers zero h = refl
  all_attackers (suc n) h = rw (all_ready_lem 0 (suc n) h) refl

  -- If `validate` has no complaint, `New` makes the limiter, zap makes a logger, the attacker is not nil and
  -- every clone sets up, `NewRunner` returns.
  pub new_runner-returned :
      (l : Z)
      → validate c ≡ []
      → new_limiter.refuses (default_cfg_values c).start_rps ≡ false
      → zap (log_text zap new_limiter (some setup) c) ≡ some l
      → ((k : ℕ) → setup (default_cfg_values c) k ≡ true)
      → new_runner new_limiter (some setup) zap c
        ≡ returned (started zap new_limiter (some setup) c)
  new_runner-returned l v k z ready =
      logger_rest zap new_limiter (some setup) c (some l) z (ground (arith, k)) v
      ∙ all_attackers (pos_part c.attackers) ready
