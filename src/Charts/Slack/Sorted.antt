-- ===== src/Charts/Slack/Sorted.antt =====
-- `sort.Float64s` and the lines of the charts of slack_report.go.
use mathlib.Core.Path.{subst}
use loaderbot.Prelude.{
  ◌≡◌, refl, ap, ◌∙◌, ◌↔◌, true, false, List, [], ◌∷◌, arith, if◌then◌else◌, Bool-cases, inl, inr,
}
use loaderbot.Float.{Float64, IsOrdered, ComparesNumbers}
use loaderbot.Charts.{ChartLine}
use loaderbot.Charts.Slack.{before, sort_floats, sorted_line, insert_sorted, IsAscending}

module _ {F : Type 0} ⦃fl : Float64 F⦄ where
  pub sort_floats-IsAscending : (xs : List F) → IsAscending xs → sort_floats xs ≡ xs
  unfolding sort_floats
  sort_floats-IsAscending [] h = refl
  sort_floats-IsAscending (x ∷ []) h = refl
  sort_floats-IsAscending (x ∷ y ∷ ys) h =
      ap (insert_sorted x) (sort_floats-IsAscending (y ∷ ys) h.1)
      ∙ ap (λ b. if b then y ∷ insert_sorted x ys else x ∷ y ∷ ys) h.0

module _ {F : Type 0} ⦃fl : Float64 F⦄ (o : IsOrdered F) (num : ComparesNumbers F) where
  before_asym : (x y : F) → before y x ≡ true → before x y ≡ false
  before_asym x y h = ground (
    arith,
    h,
    o.lt_irrefl x,
    o.lt_trans x y x,
    num.lt_left x y,
    num.lt_right y x,
    num.lt_left y x,
    num.lt_right x y,
  )

  tail_ascends : (y : F) (ys : List F) → IsAscending (y ∷ ys) → IsAscending ys
  tail_ascends y [] h = tt
  tail_ascends y (z ∷ zs) h = h.1

  insert_sorted_after :
      (y x : F) (ys : List F)
      → IsAscending (y ∷ ys)
      → before x y ≡ false
      → IsAscending (insert_sorted x ys)
      → IsAscending (y ∷ insert_sorted x ys)
  insert_sorted_after y x [] h e k = (e, tt)
  insert_sorted_after y x (z ∷ zs) h e k = elim (Bool-cases (before z x)) [
    | inl b ↦
        rw (b)
          (h.0, subst (λ c. IsAscending (if c then z ∷ insert_sorted x zs else x ∷ z ∷ zs)) b k)
    | inr b ↦
        rw (b) (e, subst (λ c. IsAscending (if c then z ∷ insert_sorted x zs else x ∷ z ∷ zs)) b k)
  ]

  insert_sorted-IsAscending :
      (x : F) (ys : List F) → IsAscending ys → IsAscending (insert_sorted x ys)
  insert_sorted-IsAscending x [] h = tt
  insert_sorted-IsAscending x (y ∷ ys) h = elim (Bool-cases (before y x)) [
    | inl b ↦ rw (b) (
        insert_sorted_after y x ys h (before_asym x y b)
          (insert_sorted-IsAscending x ys (tail_ascends y ys h)))
    | inr b ↦ rw (b) (b, h)
  ]

  sorted-IsAscending : (xs : List F) → IsAscending (sort_floats xs)
  unfolding sort_floats
  sorted-IsAscending [] = tt
  sorted-IsAscending (x ∷ xs) = insert_sorted-IsAscending x (sort_floats xs) (sorted-IsAscending xs)

  -- A line is left as it is exactly if its x values ascend.
  pub sorted_line_iff : (l : ChartLine F) → (sorted_line l ≡ l) ↔ IsAscending l.x_values
  sorted_line_iff l = (
    λ e. subst IsAscending (ap (λ (x : ChartLine F). x.x_values) e) (sorted-IsAscending l.x_values),
    λ h i. record l { x_values = sort_floats-IsAscending l.x_values h i },
  )
