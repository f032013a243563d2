-- ===== src/Charts/Slack/Drawn.antt =====
-- The lines and the axis of the scaling chart (slack_report.go), for any order in which a map is read.
use mathlib.Core.List.{Perm, head-eq_of_cons-eq, tail-eq_of_cons-eq}
use loaderbot.Prelude.{
  ℕ, zero, suc, ◌+◌, ◌≡◌, refl, sym, ap, ◌∙◌, ◌↔◌, Bool, false, String, Option, some, List, [], ◌∷◌,
  map, All, length,
}
use loaderbot.Float.{Float64, IsOrdered, ComparesNumbers, lit}
use loaderbot.Utils.{max_rps}
use loaderbot.Charts.{ChartLine, ok, parse_scaling_data}
use loaderbot.Charts.Slack.{
  Series, Chart, sorted_line, all_y_values, series_of, scaling_chart_of, slack_scaling_chart,
  IsAscending,
}
use loaderbot.Charts.Slack.Sorted.{sort_floats-IsAscending, sorted_line_iff}
use loaderbot.Charts.Slack.Top.{IsTop, max_rps-IsTop, perm_values}

-- k, k + 1, ..., n numbers.
abbrev pub count_from : ℕ → ℕ → List ℕ
count_from k zero = []
count_from k (suc n) = k ∷ count_from (k + 1) n

module _ {F : Type 0} ⦃fl : Float64 F⦄ where
  -- A line of the chart with its name.
  abbrev pub drawn : Series F → String × ChartLine F
  drawn s = (s.name, s.line)

  abbrev pub color_of : Series F → ℕ
  color_of s = s.color

  abbrev pub sorted : String × ChartLine F → String × ChartLine F
  sorted e = (e.0, sorted_line e.1)

  series_of-colors :
      (f : String → Bool) (k : ℕ) (m : List (String × ChartLine F))
      → map color_of (series_of f k m) ≡ count_from k (length m)
  unfolding series_of
  series_of-colors f k [] = refl
  series_of-colors f k ((key, l) ∷ m) = ap (◌∷◌ k) (series_of-colors f (k + 1) m)

  series_of-drawn :
      (f : String → Bool) (k : ℕ) (m : List (String × ChartLine F))
      → map drawn (series_of f k m) ≡ map sorted m
  unfolding series_of
  series_of-drawn f k [] = refl
  series_of-drawn f k ((key, l) ∷ m) = ap (◌∷◌ (key, sorted_line l)) (series_of-drawn f (k + 1) m)

  series_of-names :
      (f : String → Bool) (k : ℕ) (m : List (String × ChartLine F))
      → map (λ s. s.name) (series_of f k m) ≡ map (λ e. e.0) m
  unfolding series_of
  series_of-names f k [] = refl
  series_of-names f k ((key, l) ∷ m) = ap (◌∷◌ key) (series_of-names f (k + 1) m)

  abbrev pub Ascends : String × ChartLine F → Type 0
  Ascends e = IsAscending e.1.x_values

  sorted_all : (m : List (String × ChartLine F)) → All Ascends m → map sorted m ≡ m
  sorted_all [] h = refl
  sorted_all ((k, l) ∷ m) h = λ i.
      (k, record l { x_values = sort_floats-IsAscending l.x_values h.0 i }) ∷ sorted_all m h.1 i

module _ {F : Type 0} ⦃fl : Float64 F⦄ (o : IsOrdered F) (num : ComparesNumbers F) where
  all_sorted : (m : List (String × ChartLine F)) → map sorted m ≡ m → All Ascends m
  all_sorted [] e = tt
  all_sorted ((k, l) ∷ m) e = (
    (sorted_line_iff o num l).0 (ap (λ x. x.1) (head-eq_of_cons-eq e)),
    all_sorted m (tail-eq_of_cons-eq e),
  )

  -- On a file of scaling data that `parseScalingData` accepts with lines m, in whatever order the map is
  -- read: `SlackScalingChart` succeeds with a line for each of m in that order, colored 0, 1 and so on; its
  -- lines are those of the file exactly if the x values of each ascend; and its y axis ends at a y value of
  -- m that no other is above, or at 1 if there is none.
  pub slack_scaling_chart-ok :
      (parse_float : String → Option F)
      (ranged : List (String × ChartLine F) → List (String × ChartLine F))
      (reads : List (Option (List String))) (m : List (String × ChartLine F))
      → Perm (ranged m) m
      → parse_scaling_data parse_float reads ≡ ok m
      → (c : Chart F) × (slack_scaling_chart parse_float ranged reads ≡ ok c)
        × (map (λ s. s.name) c.series ≡ map (λ e. e.0) (ranged m))
        × (map color_of c.series ≡ count_from 0 (length (ranged m)))
        × ((map drawn c.series ≡ ranged m) ↔ All Ascends (ranged m))
        × ((top : F) × (c.range ≡ some (lit 0 0, top)) × IsTop top (all_y_values m))
  unfolding slack_scaling_chart
  slack_scaling_chart-ok parse_float ranged reads m p e =
      let same_lines = series_of-drawn (λ key. false) 0 (ranged m) in
      (
        scaling_chart_of (ranged m),
        rw e refl,
        series_of-names (λ key. false) 0 (ranged m),
        series_of-colors (λ key. false) 0 (ranged m),
        (
          (λ h. all_sorted (ranged m) (sym same_lines ∙ h)),
          (λ h. same_lines ∙ sorted_all (ranged m) h),
        ),
        (
          max_rps (all_y_values (ranged m)),
          refl,
          max_rps-IsTop o (all_y_values (ranged m)) (all_y_values m) (perm_values (ranged m) m p),
        ),
      )
