-- ===== src/Utils.antt =====
-- utils.go, `MaxRPS`, and its use in `maxRPS` of runner.go.
use loaderbot.Prelude.{
  ◌≡◌, refl, sym, Option, none, some, List, [], ◌∷◌, map, String, arith, get_elem?, length, ◌≤◌,
  if◌then◌else◌, All,
}
use mathlib.Core.Path.{subst}
use loaderbot.Prelude.Best.{Attains, Unbeaten, best, best-Attains, best-Unbeaten}
use loaderbot.Float.{Float64, IsOrdered, lit, ◌<f◌}
use loaderbot.Outcome.{Outcome, returned, panicked, index_out_of_range, ◌>>=◌}

module _ {F : Type 0} ⦃fl : Float64 F⦄ where
  -- The loop of `MaxRPS`.
  unfoldable pub max_loop : F → List F → F
  max_loop max [] = max
  max_loop max (value ∷ rest) = max_loop (if max <f value then value else max) rest

  unfoldable pub max_rps : List F → F
  max_rps [] = lit 1 0
  max_rps (x ∷ xs) = max_loop x (x ∷ xs)

  abbrev pub same : F → F
  same x = x

  max_loop-best : (m : F) (xs : List F) → max_loop m xs ≡ best fl.lt same m xs
  unfolding max_loop best
  max_loop-best m [] = refl
  max_loop-best m (x ∷ xs) = max_loop-best (if m <f x then x else m) xs

  -- `strconv.ParseFloat` answers 0 with the error that `maxRPS` drops.
  abbrev pub or_0 : Option F → F
  or_0 none = lit 0 0
  or_0 (some x) = x

  module _ (parse_float : String → Option F) where
    -- The loop of `maxRPS` over what `csvFile.Read` returns until the end of the file. A missing third
    -- field, also of a line that could not be read, is a panic.
    unfoldable pub read_rates : List (List String) → Outcome (List F)
    read_rates [] = returned []
    read_rates (line ∷ rest) = elim (get_elem? line 2) [
      | none ↦ panicked index_out_of_range
      | some text ↦ do rates ← read_rates rest; returned (or_0 (parse_float text) ∷ rates)
    ]

    unfoldable pub max_rps_of_log : List (List String) → Outcome F
    max_rps_of_log lines = do rates ← read_rates lines; returned (max_rps rates)

  -- `MaxRPS` of a slice that is not empty is one of its elements, and no element is above it, for
  -- floats whose `<` is irreflexive and transitive.
  pub max_rps-IsMax :
      IsOrdered F
      → (x : F) (xs : List F)
      → Attains same (max_rps (x ∷ xs)) (x ∷ xs) × Unbeaten fl.lt same (max_rps (x ∷ xs)) (x ∷ xs)
  unfolding max_rps
  max_rps-IsMax o x xs =
      let e = max_loop-best x (x ∷ xs) in
      (
        subst (λ v. Attains same v (x ∷ xs)) (sym e)
            (ground (arith, best-Attains fl.lt same x (x ∷ xs))),
        subst (λ v. Unbeaten fl.lt same v (x ∷ xs)) (sym e)
            (best-Unbeaten fl.lt same o.lt_irrefl o.lt_trans x (x ∷ xs)),
      )

  abbrev pub third_field : (String → Option F) → List String → F
  third_field parse_float line =
      or_0 (elim (get_elem? line 2) [ none ↦ none | some text ↦ parse_float text ])

  read_rates-map :
      (parse_float : String → Option F) (lines : List (List String))
      → All (λ line. 3 ≤ length line) lines
      → read_rates parse_float lines ≡ returned (map (third_field parse_float) lines)
  unfolding read_rates
  read_rates-map parse_float [] h = refl
  read_rates-map parse_float ((a ∷ b ∷ c ∷ line) ∷ rest) h =
      rw (read_rates-map parse_float rest h.1) refl
  read_rates-map parse_float ([] ∷ rest) h = absurd (omega arith)
  read_rates-map parse_float ((a ∷ []) ∷ rest) h = absurd (omega arith)
  read_rates-map parse_float ((a ∷ b ∷ []) ∷ rest) h = absurd (omega arith)

  -- Every line of the log has a third field: the rates read are those fields, in order, 0 for a text
  -- that does not parse, such as the header's, and `maxRPS` is their `MaxRPS`.
  pub max_rps_of_log-eq :
      (parse_float : String → Option F) (lines : List (List String))
      → All (λ line. 3 ≤ length line) lines
      → max_rps_of_log parse_float lines ≡ returned (max_rps (map (third_field parse_float) lines))
  unfolding max_rps_of_log
  max_rps_of_log-eq parse_float lines h = rw (read_rates-map parse_float lines h) refl
