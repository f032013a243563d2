-- ===== src/Charts/Slack.antt =====
-- slack_report.go: its two charts, which it reads as graph_report.go does and whose lines it then sorts. The
-- charting library and its legend are left out. A Go map is read in any order: `ranged`.
pub mod Sorted
pub mod Top
pub mod Drawn
use loaderbot.Prelude.{
  ℕ, ◌+◌, ◌≡◌, str_eq, Bool, false, ◌&&◌, ◌||◌, not, String, Option, none, some, List, [], ◌∷◌,
  ◌++◌, if◌then◌else◌,
}
use loaderbot.Float.{Float64, lit, ◌<f◌, ◌==f◌}
use loaderbot.Utils.{max_rps}
use loaderbot.Charts.{ChartLine, PercsData, Parsed, ok, parse_percs_data, parse_scaling_data, ◌>>=◌}

-- `color` is the index of `GetDefaultColor`; `secondary` says which y axis the line is drawn on.
pub record Series (F : Type 0) : Type 0 where
  pub name : String
  pub color : ℕ
  pub secondary : Bool
  pub line : ChartLine F

-- `range` is the minimum and maximum of the y axis, where they are set; sizes that are not set are 0.
pub record Chart (F : Type 0) : Type 0 where
  pub title : String
  pub x_axis : String
  pub y_axis : String
  pub y_axis_secondary : String
  pub range : Option (F × F)
  pub series : List (Series F)
  pub padding_top : ℕ
  pub padding_left : ℕ
  pub width : ℕ
  pub height : ℕ

module _ {F : Type 0} ⦃fl : Float64 F⦄ where
  abbrev is_nan : F → Bool
  is_nan x = not (x ==f x)

  -- The order of `sort.Float64s`, with NaN first.
  abbrev pub before : F → F → Bool
  before x y = x <f y || is_nan x && not (is_nan y)

  abbrev insert_sorted : F → List F → List F
  insert_sorted x [] = x ∷ []
  insert_sorted x (y ∷ ys) = if before y x then y ∷ insert_sorted x ys else x ∷ y ∷ ys

  -- `sort.Float64s` of the package sort. Equal floats are not told apart.
  unfoldable pub sort_floats : List F → List F
  sort_floats [] = []
  sort_floats (x ∷ xs) = insert_sorted x (sort_floats xs)

  abbrev pub sorted_line : ChartLine F → ChartLine F
  sorted_line l = record l { x_values = sort_floats l.x_values }

  abbrev pub all_y_values : List (String × ChartLine F) → List F
  all_y_values [] = []
  all_y_values ((k, l) ∷ m) = l.y_values ++ all_y_values m

  -- The loop over the lines, from a color on.
  unfoldable pub series_of : (String → Bool) → ℕ → List (String × ChartLine F) → List (Series F)
  series_of secondary color [] = []
  series_of secondary color ((key, value) ∷ m) =
      record { name = key; color = color; secondary = secondary key; line = sorted_line value }
      ∷ series_of secondary (color + 1) m

  abbrev pub percs_map : PercsData F → List (String × ChartLine F)
  percs_map d = ("rps", d.rps) ∷ ("p50", d.p50) ∷ ("p95", d.p95) ∷ ("p99", d.p99) ∷ []

  abbrev pub scaling_chart_of : List (String × ChartLine F) → Chart F
  scaling_chart_of requests = record {
    title = "";
    x_axis = "VE count";
    y_axis = "Max TargetRPS";
    y_axis_secondary = "";
    range = some (lit 0 0, max_rps (all_y_values requests));
    series = series_of (λ key. false) 0 requests;
    padding_top = 0;
    padding_left = 0;
    width = 0;
    height = 0;
  }

  abbrev pub responses_chart_of : String → List (String × ChartLine F) → Chart F
  responses_chart_of chart_title percs = record {
    title = chart_title;
    x_axis = "Test time (Seconds)";
    y_axis = "Response time (Ms)";
    y_axis_secondary = "RPS";
    range = none;
    series = series_of (λ key. str_eq key "rps") 0 percs;
    padding_top = 20;
    padding_left = 150;
    width = 800;
    height = 600;
  }

  module _ (parse_float : String → Option F)
      (ranged : List (String × ChartLine F) → List (String × ChartLine F)) where
    unfoldable pub slack_scaling_chart : List (Option (List String)) → Parsed (Chart F)
    slack_scaling_chart reads = do
      requests ← parse_scaling_data parse_float reads
      ok (scaling_chart_of (ranged requests))

    unfoldable pub responses_chart : String → List (Option (List String)) → Parsed (Chart F)
    responses_chart chart_title reads = do
      percs ← parse_percs_data parse_float reads
      ok (responses_chart_of chart_title (ranged (percs_map percs)))

  -- No value comes before the one that it follows.
  abbrev pub IsAscending : List F → Type 0
  IsAscending [] = Unit
  IsAscending (x ∷ []) = Unit
  IsAscending (x ∷ y ∷ ys) = (before y x ≡ false) × IsAscending (y ∷ ys)
