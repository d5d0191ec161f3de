-- ===== src/Prelude/Double.antt =====
-- Python's `float`: the operations that the program applies to one, over an abstract type, and the
-- documented laws of IEEE 754 that the theorems rely on. NaN is the value that is not `<=` itself.
use Prim.Native.Nat.{ℕ}
use mathlib.Core.Path.{◌≡◌}
use mathlib.Core.Bool.{Bool, true, not, ◌&&◌}
use mathlib.Core.Logic.{◌⊎◌}
use btc_bot.Prelude.Tests.{if◌then◌else◌}

pub record Double (W : Type 0) : Type 0 where
  -- `float(n)` of an int that is not negative
  pub of_nat : ℕ → W
  -- the literal m / 10 ^ k: `lit 5 1` is 0.5
  pub lit : ℕ → ℕ → W
  pub neg : W → W
  pub abs : W → W
  pub sqrt : W → W
  pub add : W → W → W
  pub sub : W → W → W
  pub mul : W → W → W
  pub div : W → W → W
  -- `round(x, 2)`
  pub round2 : W → W
  pub le : W → W → Bool
  pub lt : W → W → Bool
  pub eq : W → W → Bool

module _ {W : Type 0} ⦃d : Double W⦄ where
  abbrev pub nought : W
  nought = d.of_nat 0

  -- The builtins `max(a, b)` and `min(a, b)` keep the first of two that compare equal.
  abbrev pub max : W → W → W
  max a b = if d.lt a b then b else a

  abbrev pub min : W → W → W
  min a b = if d.lt b a then b else a

  infix 4 ◌≼◌ ◌≺◌
  abbrev pub ◌≼◌ : W → W → Type 0
  x ≼ y = d.le x y ≡ true

  abbrev pub ◌≺◌ : W → W → Type 0
  x ≺ y = d.lt x y ≡ true

  -- The value is no NaN.
  abbrev pub IsNumber : W → Type 0
  IsNumber x = d.le x x ≡ true

-- The order of the values that are no NaN.
pub record IsOrdered (W : Type 0) ⦃d : Double W⦄ : Type 0 where
  pub eq-eq-le : (x y : W) → d.eq x y ≡ (d.le x y && d.le y x)
  pub le_total : (x y : W) → IsNumber x → IsNumber y → (x ≼ y) ⊎ (y ≼ x)
  pub nought_num : IsNumber (d.of_nat 0)
  pub num_of_lt : (x y : W) → x ≺ y → IsNumber x × IsNumber y
  pub lt-eq-not-le : (x y : W) → IsNumber x → IsNumber y → d.lt x y ≡ not (d.le y x)
  pub num_of_le : (x y : W) → x ≼ y → IsNumber x × IsNumber y
  pub le_trans : (x y z : W) → x ≼ y → y ≼ z → x ≼ z

-- What rounding to nearest keeps: an operation is monotone wherever its results are no NaN, a
-- change of sign is exact, and an operand that is NaN makes the result NaN.
pub record IsRounded (W : Type 0) ⦃d : Double W⦄ : Type 0 where
  pub le_neg : (x y : W) → d.le (d.neg x) (d.neg y) ≡ d.le y x
  pub sub_neg : (x y : W) → d.sub (d.neg x) (d.neg y) ≡ d.sub y x
  pub neg-sub-le : (x y : W) → IsNumber (d.sub x y) → d.neg (d.sub x y) ≼ d.sub y x
  pub neg_mul : (x y : W) → d.mul (d.neg x) y ≡ d.neg (d.mul x y)
  pub mul_comm : (x y : W) → d.mul x y ≡ d.mul y x
  pub num_of_sub : (x y : W) → IsNumber (d.sub x y) → IsNumber x × IsNumber y
  pub num_of_add : (x y : W) → IsNumber (d.add x y) → IsNumber x × IsNumber y
  pub num_of_mul : (x y : W) → IsNumber (d.mul x y) → IsNumber x × IsNumber y
  pub sub_mono :
      (x x' y y' : W)
      → x ≼ x'
      → y' ≼ y
      → IsNumber (d.sub x y)
      → IsNumber (d.sub x' y')
      → d.sub x y ≼ d.sub x' y'
  pub add_mono :
      (x x' y y' : W)
      → x ≼ x'
      → y ≼ y'
      → IsNumber (d.add x y)
      → IsNumber (d.add x' y')
      → d.add x y ≼ d.add x' y'
  pub mul_mono :
      (x y z : W)
      → x ≼ y
      → d.of_nat 0 ≼ z
      → IsNumber (d.mul x z)
      → IsNumber (d.mul y z)
      → d.mul x z ≼ d.mul y z
  pub le-add : (x y : W) → d.of_nat 0 ≼ y → IsNumber (d.add x y) → x ≼ d.add x y
  pub sub-le : (x y : W) → d.of_nat 0 ≼ y → IsNumber (d.sub x y) → d.sub x y ≼ x
  pub mul_nonneg :
      (x y : W) → d.of_nat 0 ≼ x → d.of_nat 0 ≼ y → IsNumber (d.mul x y) → d.of_nat 0 ≼ d.mul x y
  pub abs_nonneg : (x : W) → IsNumber x → d.of_nat 0 ≼ d.abs x
  pub num_of_abs : (x : W) → IsNumber (d.abs x) → IsNumber x
