-- ===== src/Charts/Slack/Top.antt =====
-- The top of the y axis (slack_report.go), for any order in which a map is read.
use mathlib.Core.List.Perm
use mathlib.Core.List.{
  Mem, Memᴰ, Perm, Permᴰ, Perm-prop, append_assoc, mem-cons_self, mem-cons_of_mem, cons≢nil,
}
use mathlib.Core.List.Permᴰ
use mathlib.Core.Logic.{∥∥₁_elim}
use mathlib.Core.Path.{subst}
use loaderbot.Prelude.{◌≡◌, refl, sym, ap, ◌∙◌, false, String, List, [], ◌∷◌, ◌++◌, inl, inr}
use loaderbot.Float.{Float64, IsOrdered, lit, ◌<f◌}
use loaderbot.Prelude.Best.{Attains, Unbeaten}
use loaderbot.Utils.{max_rps, max_rps-IsMax, same}
use loaderbot.Charts.{ChartLine}
use loaderbot.Charts.Slack.{all_y_values}

-- The lists of all elements, one after the other.
gather {ℓ κ} : {A : Type ℓ} {B : Type κ} → (A → List B) → List A → List B
gather f [] = []
gather f (x ∷ xs) = f x ++ gather f xs

gather-swap {ℓ κ} :
    {A : Type ℓ} {B : Type κ} (f : A → List B) (a b : A) (xs : List A)
    → Perm (gather f (a ∷ b ∷ xs)) (gather f (b ∷ a ∷ xs))
unfolding gather
gather-swap f a b xs =
    subst (λ ys. Perm ys (f b ++ (f a ++ gather f xs))) (append_assoc (f a) (f b) (gather f xs))
      (subst (λ ys. Perm ((f a ++ f b) ++ gather f xs) ys) (append_assoc (f b) (f a) (gather f xs))
        (Perm.append_right (gather f xs) ∣ Permᴰ.append_comm (f a) (f b) ∣₁))

gather-permᴰ {ℓ κ} :
    {A : Type ℓ} {B : Type κ} (f : A → List B) {xs ys : List A}
    → Permᴰ xs ys
    → Perm (gather f xs) (gather f ys)
unfolding gather
gather-permᴰ f Permᴰ.nil = Perm.refl []
gather-permᴰ f (Permᴰ.cons {a = a} {l₁ = l} {l₂ = l'} e d) =
    subst (λ x. Perm (f a ++ gather f l) (f x ++ gather f l')) e
      (Perm.append_left (f a) (gather-permᴰ f d))
gather-permᴰ f (Permᴰ.swap {a = a} {b = b} {a' = a'} {b' = b'} {l = l} e e') =
    subst (λ y. Perm (gather f (a ∷ b ∷ l)) (gather f (a' ∷ y ∷ l))) e
      (subst (λ y. Perm (gather f (a ∷ b ∷ l)) (gather f (y ∷ a ∷ l))) e' (gather-swap f a b l))
gather-permᴰ f (Permᴰ.trans c d) = Perm.trans (gather-permᴰ f c) (gather-permᴰ f d)

gather-perm {ℓ κ} :
    {A : Type ℓ} {B : Type κ} (f : A → List B) {xs ys : List A}
    → Perm xs ys
    → Perm (gather f xs) (gather f ys)
gather-perm f p = ∥∥₁_elim p Perm-prop (λ d. gather-permᴰ f d)

-- `v` is an element of the list that no other is above; 1 for an empty list.
abbrev pub IsTop : {F : Type 0} ⦃fl : Float64 F⦄ → F → List F → Type 0
IsTop v [] = v ≡ lit 1 0
IsTop v (x ∷ xs) = Mem v (x ∷ xs) × ((y : _) → Mem y (x ∷ xs) → v <f y ≡ false)

module _ {F : Type 0} ⦃fl : Float64 F⦄ where
  all_y_values-gather :
      (m : List (String × ChartLine F)) → all_y_values m ≡ gather (λ e. e.1.y_values) m
  unfolding gather
  all_y_values-gather [] = refl
  all_y_values-gather ((k, l) ∷ m) = ap (◌++◌ l.y_values) (all_y_values-gather m)

  Attains-Mem : (v : F) (xs : List F) → Attains same v xs → Mem v xs
  Attains-Mem v [] h = elim h [ ]
  Attains-Mem v (x ∷ xs) (inl e) = subst (λ y. Mem y (x ∷ xs)) e mem-cons_self
  Attains-Mem v (x ∷ xs) (inr h) = mem-cons_of_mem x (Attains-Mem v xs h)

  Unbeaten-Memᴰ : (v y : F) (xs : List F) → Unbeaten fl.lt same v xs → Memᴰ y xs → v <f y ≡ false
  Unbeaten-Memᴰ v y [] h d = elim d [ ]
  Unbeaten-Memᴰ v y (x ∷ xs) h (Memᴰ.head e) = ap (λ z. v <f z) e ∙ h.0
  Unbeaten-Memᴰ v y (x ∷ xs) h (Memᴰ.tail d) = Unbeaten-Memᴰ v y xs h.1 d

  Unbeaten-Mem : (v y : F) (xs : List F) → Unbeaten fl.lt same v xs → Mem y xs → v <f y ≡ false
  Unbeaten-Mem v y xs h m = ∥∥₁_elim m (hlevel) (λ d. Unbeaten-Memᴰ v y xs h d)

  -- `MaxRPS` of the same numbers in another order is still the top.
  pub max_rps-IsTop : IsOrdered F → (xs ys : List F) → Perm xs ys → IsTop (max_rps xs) ys
  unfolding max_rps
  max_rps-IsTop o [] [] p = refl
  max_rps-IsTop o [] (y ∷ ys) p = absurd (cons≢nil (sym (Perm.nil-eq p)))
  max_rps-IsTop o (x ∷ xs) [] p = absurd (cons≢nil (Perm.eq-nil p))
  max_rps-IsTop o (x ∷ xs) (y ∷ ys) p =
      let (attains, unbeaten) = max_rps-IsMax o x xs in
      (
        (Perm.mem_iff p).0 (Attains-Mem (max_rps (x ∷ xs)) (x ∷ xs) attains),
        λ z h. Unbeaten-Mem (max_rps (x ∷ xs)) z (x ∷ xs) unbeaten ((Perm.mem_iff p).1 h),
      )

  pub perm_values :
      (m m' : List (String × ChartLine F)) → Perm m m' → Perm (all_y_values m) (all_y_values m')
  perm_values m m' p =
      subst (λ ys. Perm ys (all_y_values m')) (sym (all_y_values-gather m))
        (subst (λ ys. Perm (gather (λ e. e.1.y_values) m) ys) (sym (all_y_values-gather m'))
          (gather-perm (λ e. e.1.y_values) p))
