-- ===== src/Float.antt =====
-- What the program does with a `float64`: conversions, literals, sums, products, quotients, comparisons.
-- The type and its operations are a parameter; `Thousandths` is one value of it, for tests.
use loaderbot.Prelude.{
  ℕ, ◌+◌, ◌*◌, ◌/◌, ◌^◌, ◌≡◌, Bool, true, false, Option, none, some, ltb, ◌==◌, if◌then◌else◌,
  arith,
}
use loaderbot.Prelude.Int.{ℤ, pos, negsuc}

pub record Float64 (F : Type 0) : Type 0 where
  -- `float64(n)`
  pub of_int : ℤ → F
  -- `int(f)` and `time.Duration(f)`
  pub to_int : F → ℤ
  -- The literal n / 10 ^ k.
  pub lit : ℕ → ℕ → F
  pub plus : F → F → F
  pub mul : F → F → F
  pub div : F → F → F
  pub lt : F → F → Bool
  pub eq : F → F → Bool

abbrev pub of_int : {F : Type 0} ⦃fl : Float64 F⦄ → ℤ → F
of_int ⦃fl⦄ = fl.of_int

abbrev pub to_int : {F : Type 0} ⦃fl : Float64 F⦄ → F → ℤ
to_int ⦃fl⦄ = fl.to_int

abbrev pub lit : {F : Type 0} ⦃fl : Float64 F⦄ → ℕ → ℕ → F
lit ⦃fl⦄ = fl.lit

infixl 65 ◌+f◌
infixl 70 ◌*f◌ ◌/f◌
infix 50 ◌<f◌ ◌==f◌
abbrev pub ◌+f◌ : {F : Type 0} ⦃fl : Float64 F⦄ → F → F → F
◌+f◌ ⦃fl⦄ = fl.plus

abbrev pub ◌*f◌ : {F : Type 0} ⦃fl : Float64 F⦄ → F → F → F
◌*f◌ ⦃fl⦄ = fl.mul

abbrev pub ◌/f◌ : {F : Type 0} ⦃fl : Float64 F⦄ → F → F → F
◌/f◌ ⦃fl⦄ = fl.div

abbrev pub ◌<f◌ : {F : Type 0} ⦃fl : Float64 F⦄ → F → F → Bool
◌<f◌ ⦃fl⦄ = fl.lt

abbrev pub ◌==f◌ : {F : Type 0} ⦃fl : Float64 F⦄ → F → F → Bool
◌==f◌ ⦃fl⦄ = fl.eq

-- IEEE 754's `<`: irreflexive and transitive, NaN included.
pub record IsOrdered (F : Type 0) ⦃fl : Float64 F⦄ : Type 0 where
  pub lt_irrefl : (x : F) → x <f x ≡ false
  pub lt_trans : (x y z : F) → x <f y ≡ true → y <f z ≡ true → x <f z ≡ true

-- IEEE 754's `<` holds between numbers only.
pub record ComparesNumbers (F : Type 0) ⦃fl : Float64 F⦄ : Type 0 where
  pub lt_left : (x y : F) → x <f y ≡ true → x ==f x ≡ true
  pub lt_right : (x y : F) → x <f y ≡ true → y ==f y ≡ true

-- Fixed point with three places, no sign, and `none` for NaN.
abbrev pub Thousandths : Type 0
Thousandths = Option ℕ

abbrev of_ℤ : ℤ → Thousandths
of_ℤ (pos n) = some (n * 1000)
of_ℤ (negsuc n) = none

abbrev to_ℤ : Thousandths → ℤ
to_ℤ (some n) = pos (n / 1000)
to_ℤ none = pos 0

abbrev on_numbers {ℓ} : {A : Type ℓ} → A → (ℕ → ℕ → A) → Thousandths → Thousandths → A
on_numbers z f (some a) (some b) = f a b
on_numbers z f _ _ = z

instance abbrev pub thousandths : Float64 Thousandths
thousandths = record {
  of_int = of_ℤ;
  to_int = to_ℤ;
  lit = λ n k. some (n * 1000 / 10 ^ k);
  plus = on_numbers none λ a b. some (a + b);
  mul = on_numbers none λ a b. some (a * b / 1000);
  div = on_numbers none λ a b. if b == 0 then none else some (a * 1000 / b);
  lt = on_numbers false ltb;
  eq = on_numbers false ◌==◌;
}

pub Thousandths-IsOrdered : IsOrdered Thousandths
Thousandths-IsOrdered = ground arith

pub Thousandths-ComparesNumbers : ComparesNumbers Thousandths
Thousandths-ComparesNumbers = ground arith
