-- ===== src/Charts/Scaling.antt =====
-- The lines of the scaling chart (graph_report.go, `parseScalingData`).
use mathlib.Core.List.{append-nil, append_assoc}
use loaderbot.Prelude.{
  ◌≡◌, refl, sym, ap, ◌∙◌, Bool, true, false, String, Option, some, List, [], ◌∷◌, ◌++◌, map, arith,
  All, if◌then◌else◌, str_eq, eq_iff, select, Bool-cases, inl, inr,
}
use loaderbot.Prelude.Maps.{string_eq, lookup, insert, lookup-insert}
use loaderbot.Charts.{
  ChartLine, Parsed, ok, failed, no_points, add_x, add_y, has_no_points, is_empty, or_no_points,
  scaling_record, read_scaling, any_empty, parse_scaling_data,
}

-- A row with the numbers that its texts stand for.
pub record Row (F : Type 0) : Type 0 where
  pub method_name : String
  pub ve_text : String
  pub rps_text : String
  pub ve_count : F
  pub max_rps : F

abbrev pub named : {F : Type 0} → String → Row F → Bool
named k r = str_eq r.method_name k

abbrev pub fields : {F : Type 0} → Row F → Option (List String)
fields r = some (r.method_name ∷ r.ve_text ∷ r.rps_text ∷ [])

-- The parser succeeds, with a result that meets `P`.
abbrev pub Succeeds {ℓ} : {A : Type ℓ} → (A → Type 0) → Parsed A → Type 0
Succeeds P (ok a) = P a
Succeeds P (failed e) = ⊥

snoc_filled : {A : Type 0} (xs : List A) (a : A) → is_empty (xs ++ a ∷ []) ≡ false
snoc_filled [] a = refl
snoc_filled (x ∷ xs) a = refl

module _ {F : Type 0} where
  abbrev pub line_of : String → List (String × ChartLine F) → ChartLine F
  line_of k m = or_no_points (lookup k m)

  -- A line with the points of these rows after its own.
  abbrev pub with_points : ChartLine F → List (Row F) → ChartLine F
  with_points l rs = record {
    x_values = l.x_values ++ map (λ r. r.ve_count) rs;
    y_values = l.y_values ++ map (λ r. r.max_rps) rs;
  }

  abbrev add_point : Row F → ChartLine F → ChartLine F
  add_point r l = add_y r.max_rps (add_x r.ve_count l)

  with_points-cons :
      (r : Row F) (l : ChartLine F) (rs : List (Row F))
      → with_points (add_point r l) rs ≡ with_points l (r ∷ rs)
  with_points-cons r l rs = λ i. record {
    x_values = append_assoc l.x_values (r.ve_count ∷ []) (map (λ r. r.ve_count) rs) i;
    y_values = append_assoc l.y_values (r.max_rps ∷ []) (map (λ r. r.max_rps) rs) i;
  }

  with_points-nil : (l : ChartLine F) → l ≡ with_points l []
  with_points-nil l = λ i. record {
    x_values = sym (append-nil l.x_values) i;
    y_values = sym (append-nil l.y_values) i;
  }

  abbrev after_row : Row F → List (String × ChartLine F) → List (String × ChartLine F)
  after_row r m = insert r.method_name (add_point r (line_of r.method_name m)) m

  any_empty-insert :
      (k : String) (l : ChartLine F) (m : List (String × ChartLine F))
      → has_no_points l ≡ false
      → any_empty m ≡ false
      → any_empty (insert k l m) ≡ false
  unfolding any_empty insert
  any_empty-insert k l [] h g = ground arith
  any_empty-insert k l ((j, w) ∷ m) h g = ground (arith, any_empty-insert k l m h)

  any_empty-after_row :
      (r : Row F) (m : List (String × ChartLine F))
      → any_empty m ≡ false
      → any_empty (after_row r m) ≡ false
  any_empty-after_row r m h =
      any_empty-insert r.method_name (add_point r (line_of r.method_name m)) m
        (ground (
          arith,
          snoc_filled (line_of r.method_name m).x_values r.ve_count,
          snoc_filled (line_of r.method_name m).y_values r.max_rps,
        ))
        h

  line_of-after_row :
      (r : Row F) (m : List (String × ChartLine F)) (k : String) (b : Bool)
      → str_eq r.method_name k ≡ b
      → line_of k (after_row r m) ≡ (if b then add_point r (line_of k m) else line_of k m)
  line_of-after_row r m k true e =
      ap or_no_points (
        lookup-insert r.method_name k (add_point r (line_of r.method_name m)) m
        ∙ ap (λ b. if b then some (add_point r (line_of r.method_name m)) else lookup k m) e)
      ∙ ap (λ j. add_point r (line_of j m)) ((eq_iff r.method_name k).0 e)
  line_of-after_row r m k false e = ap or_no_points (
      lookup-insert r.method_name k (add_point r (line_of r.method_name m)) m
      ∙ ap (λ b. if b then some (add_point r (line_of r.method_name m)) else lookup k m) e)

  -- From `m` with these rows to `m'`.
  abbrev Extends : List (String × ChartLine F) → List (Row F) → List (String × ChartLine F) → Type 0
  Extends m rs m' =
      ((k : String) → line_of k m' ≡ with_points (line_of k m) (select (named k) rs))
      × (any_empty m' ≡ false)

  Extends-cons :
      (m : List (String × ChartLine F)) (r : Row F) (rs : List (Row F))
      (m' : List (String × ChartLine F))
      → Extends (after_row r m) rs m'
      → Extends m (r ∷ rs) m'
  Extends-cons m r rs m' h = (
    λ k. elim (Bool-cases (str_eq r.method_name k)) [
      | inl e ↦
          h.0 k
          ∙ ap (λ l. with_points l (select (named k) rs)) (line_of-after_row r m k true e)
          ∙ with_points-cons r (line_of k m) (select (named k) rs)
          ∙ ap
              (λ b.
                with_points (line_of k m)
                  (if b then r ∷ select (named k) rs else select (named k) rs))
              (sym e)
      | inr e ↦
          h.0 k
          ∙ ap (λ l. with_points l (select (named k) rs)) (line_of-after_row r m k false e)
          ∙ ap
              (λ b.
                with_points (line_of k m)
                  (if b then r ∷ select (named k) rs else select (named k) rs))
              (sym e)
    ],
    h.1,
  )

  module _ (parse_float : String → Option F) where
    abbrev pub IsRead : Row F → Type 0
    IsRead r = (parse_float r.ve_text ≡ some r.ve_count) × (parse_float r.rps_text ≡ some r.max_rps)

    scaling_record-row :
        (r : Row F) (m : List (String × ChartLine F))
        → IsRead r
        → scaling_record parse_float (r.method_name ∷ r.ve_text ∷ r.rps_text ∷ []) m
          ≡ ok (after_row r m)
    unfolding scaling_record
    scaling_record-row r m h = ground (arith, h.0, h.1)

    read_scaling-rows :
        (rs : List (Row F)) (m : List (String × ChartLine F))
        → All IsRead rs
        → any_empty m ≡ false
        → (m' : List (String × ChartLine F)) × (read_scaling parse_float (map fields rs) m ≡ ok m')
          × Extends m rs m'
    unfolding read_scaling
    read_scaling-rows [] m h g = (m, refl, (λ k. with_points-nil (line_of k m), g))
    read_scaling-rows (r ∷ rs) m h g =
        let (m', e, x) = read_scaling-rows rs (after_row r m) h.1 (any_empty-after_row r m g) in
        (m', rw (scaling_record-row r m h.0) e, Extends-cons m r rs m' x)

    -- On a file whose records all have three fields, the last two of them numbers, `parseScalingData`
    -- succeeds, and the line of each name has the points of the records with that name, in order, and
    -- no others.
    pub parse_scaling_data-rows :
        (rs : List (Row F))
        → All IsRead rs
        → Succeeds
            (λ m. (k : String) → line_of k m ≡ with_points no_points (select (named k) rs))
            (parse_scaling_data parse_float (map fields rs))
    unfolding parse_scaling_data any_empty lookup
    parse_scaling_data-rows rs h = let (m, e, x) = read_scaling-rows rs [] h refl in rw (e, x.1) x.0
