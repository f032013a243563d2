-- ===== src/Charts.antt =====
-- graph_report.go: what the charts read from the csv files. The reads up to the end of a file are a list,
-- where `none` is a read that fails.
pub mod Percs
pub mod Scaling
pub mod Slack
use loaderbot.Prelude.{
  ℕ, Bool, true, false, ◌||◌, String, Option, none, some, List, [], ◌∷◌, ◌++◌, if◌then◌else◌,
}
use loaderbot.Prelude.Maps.{string_eq, lookup, insert}

pub record ChartLine (F : Type 0) : Type 0 where
  pub x_values : List F
  pub y_values : List F

-- The errors that a parser returns: of `Read`, "malformed csv", of `ParseFloat`, "empty csv, nothing to
-- plot".
pub data ParseError : Type 0 where
  read_failed malformed_csv not_a_number empty_csv : ParseError

pub data Parsed {ℓ} (A : Type ℓ) : Type ℓ where
  ok : A → Parsed A
  failed : ParseError → Parsed A

infixl 5 ◌>>=◌
abbrev pub ◌>>=◌ {ℓ κ} : {A : Type ℓ} {B : Type κ} → Parsed A → (A → Parsed B) → Parsed B
ok a >>= f = f a
failed e >>= f = failed e

abbrev pub is_empty : {A : Type 0} → List A → Bool
is_empty [] = true
is_empty (_ ∷ _) = false

-- The map of `parsePercsData`, whose keys are always the four below.
pub record PercsData (F : Type 0) : Type 0 where
  pub rps : ChartLine F
  pub p50 : ChartLine F
  pub p95 : ChartLine F
  pub p99 : ChartLine F

module _ {F : Type 0} where
  abbrev pub no_points : ChartLine F
  no_points = record { x_values = []; y_values = [] }

  abbrev pub add_x : F → ChartLine F → ChartLine F
  add_x x l = record l { x_values = l.x_values ++ x ∷ [] }

  abbrev pub add_y : F → ChartLine F → ChartLine F
  add_y y l = record l { y_values = l.y_values ++ y ∷ [] }

  abbrev pub has_no_points : ChartLine F → Bool
  has_no_points l = is_empty l.x_values || is_empty l.y_values

  abbrev pub or_no_points : Option (ChartLine F) → ChartLine F
  or_no_points none = no_points
  or_no_points (some l) = l

  unfoldable pub any_empty : List (String × ChartLine F) → Bool
  any_empty [] = false
  any_empty ((k, l) ∷ m) = has_no_points l || any_empty m

  module _ (parse_float : String → Option F) where
    abbrev pub number : String → Parsed F
    number text = elim (parse_float text) [ none ↦ failed not_a_number | some x ↦ ok x ]

    -- One record of the file of percentiles.
    unfoldable pub percs_record : List String → PercsData F → Parsed (PercsData F)
    percs_record (label ∷ second ∷ rps ∷ p50 ∷ p95 ∷ p99 ∷ []) d = do
      x ← number second
      y ← number rps
      y50 ← number p50
      y95 ← number p95
      y99 ← number p99
      ok (record {
        rps = add_y y (add_x x d.rps);
        p50 = add_y y50 (add_x x d.p50);
        p95 = add_y y95 (add_x x d.p95);
        p99 = add_y y99 (add_x x d.p99);
      })
    percs_record _ d = failed malformed_csv

    unfoldable pub read_percs : List (Option (List String)) → PercsData F → Parsed (PercsData F)
    read_percs [] d = ok d
    read_percs (none ∷ _) d = failed read_failed
    read_percs (some fields ∷ rest) d = do d' ← percs_record fields d; read_percs rest d'

    abbrev pub check_percs : PercsData F → Parsed (PercsData F)
    check_percs d =
        if has_no_points d.rps || has_no_points d.p50 || has_no_points d.p95 || has_no_points d.p99
        then failed empty_csv
        else ok d

    abbrev pub skip_header : List (Option (List String)) → List (Option (List String))
    skip_header [] = []
    skip_header (_ ∷ rest) = rest

    unfoldable pub parse_percs_data : List (Option (List String)) → Parsed (PercsData F)
    parse_percs_data reads = do
      d ←
          read_percs (skip_header reads)
            (record { rps = no_points; p50 = no_points; p95 = no_points; p99 = no_points })
      check_percs d

    -- One record of the file of scaling data.
    unfoldable pub scaling_record :
        List String → List (String × ChartLine F) → Parsed (List (String × ChartLine F))
    scaling_record (method_name ∷ ve_count ∷ max_rps ∷ []) m = do
      x ← number ve_count
      y ← number max_rps
      ok (insert method_name (add_y y (add_x x (or_no_points (lookup method_name m)))) m)
    scaling_record _ m = failed malformed_csv

    unfoldable pub read_scaling :
        List (Option (List String))
        → List (String × ChartLine F)
        → Parsed (List (String × ChartLine F))
    read_scaling [] m = ok m
    read_scaling (none ∷ _) m = failed read_failed
    read_scaling (some fields ∷ rest) m = do m' ← scaling_record fields m; read_scaling rest m'

    unfoldable pub parse_scaling_data :
        List (Option (List String)) → Parsed (List (String × ChartLine F))
    parse_scaling_data reads = do
      m ← read_scaling reads []
      if any_empty m then failed empty_csv else ok m
